-- ===== src/Engine/Guarded/Opposite.antt =====
-- The market order on the opposite side, placed by a guarded engine.
use aurex_trade.Prelude.{ℕ, String, ◌≡◌, refl, Result, ok, err}
use aurex_trade.Prelude.Float.{Float, Format}
use aurex_trade.Prelude.Action.Keeps.{
  Keeps, Gives, Keeps-bind, Keeps-bind-gets, Keeps-bind-Gives, Gives-bind, Gives-gets, Keeps-when,
  Keeps-attempt,
}
use aurex_trade.Domain.Models.{Order, Trade}
use aurex_trade.Risk.{RiskEngine}
use aurex_trade.Engine.Ports.{BrokerPort, StrategyPort}
use aurex_trade.Engine.State.{Engine, TradeEntry, Metadata, capped}
use aurex_trade.Engine.Opposite.{
  Leg, map_trade, record_trade_entry, opposite_order, read_leg, leg_filled, leg_result, place_leg,
  opposite_of_meta, place_opposite_market_order,
}
use aurex_trade.Engine.Guarded.{
  BrokerKeeps, IsGuarded, guarded_rules, read_float-IsGuarded, read_optional-IsGuarded,
  fresh_id-IsGuarded, ask_broker-IsGuarded,
}

-- The quantity of the leg was capped.
abbrev pub IsCapped : {F : Type 0} ⦃f : Float F⦄ → RiskEngine F → F → Type 0
IsCapped {F} r quantity = (q : F) × (quantity ≡ capped r q)

module _ {F S B R : Type 0} {r : RiskEngine F} {P : B → Type 0} where
  pub map_trade-IsGuarded :
      (key : String) (id : ℕ) → Keeps (IsGuarded F S B R r P) (map_trade key id)
  unfolding map_trade
  map_trade-IsGuarded key id = search guarded_rules

  pub record_trade_entry-IsGuarded :
      (id : ℕ) (entry : TradeEntry F) → Keeps (IsGuarded F S B R r P) (record_trade_entry id entry)
  unfolding record_trade_entry
  record_trade_entry-IsGuarded id entry = search guarded_rules

-- Legs with a capped quantity give orders that are allowed.
abbrev pub LegsAllowed :
    (F S B R : Type 0) ⦃f : Float F⦄ → RiskEngine F → (Order F → Type 0) → Type 0
LegsAllowed F S B R r Allowed =
    (leg : Leg F)
    → IsCapped r leg.quantity
    → (id : ℕ) (e : Engine F S B R) → Allowed (opposite_order leg id e)

module _ {F S B R : Type 0} {r : RiskEngine F} {P : B → Type 0} ⦃f : Float F⦄ ⦃w : Format F⦄ where
  read_leg-IsCapped :
      (meta : Metadata)
      → Gives (IsGuarded F S B R r P) (λ (leg : Leg F). IsCapped r leg.quantity) (read_leg meta)
  unfolding read_leg
  read_leg-IsCapped meta = Gives-bind _ _ (read_float-IsGuarded _) λ quantity.
      Gives-bind _ _ (read_optional-IsGuarded _) λ stop.
        Gives-bind _ _ (read_optional-IsGuarded _) λ distance.
          Gives-bind _ _ (read_optional-IsGuarded _)
            λ target. Gives-gets _ λ e h. (quantity, rw h.settings refl)

  leg_filled-IsGuarded :
      ⦃s : StrategyPort F S⦄ (leg : Leg F) (price : F) (trade : Trade F)
      → Keeps (IsGuarded F S B R r P) (leg_filled leg price trade)
  unfolding leg_filled
  leg_filled-IsGuarded leg price trade =
      search (guarded_rules, map_trade-IsGuarded, record_trade_entry-IsGuarded) depth 20

  pub leg_result-IsGuarded :
      ⦃s : StrategyPort F S⦄ ⦃b : BrokerPort F B⦄ (leg : Leg F) (price : F)
      (outcome : Result (Trade F))
      → Keeps (IsGuarded F S B R r P) (leg_result leg price outcome)
  unfolding leg_result
  leg_result-IsGuarded leg price (ok trade) = leg_filled-IsGuarded leg price trade
  leg_result-IsGuarded leg price (err why) = search guarded_rules

module _ {F S B R : Type 0} {r : RiskEngine F} {P : B → Type 0} ⦃f : Float F⦄ ⦃w : Format F⦄
    ⦃s : StrategyPort F S⦄ ⦃b : BrokerPort F B⦄ {Allowed : Order F → Type 0}
    (laws : BrokerKeeps P Allowed) (legs : LegsAllowed F S B R r Allowed) where
  place_leg-IsGuarded :
      (leg : Leg F) (price : F)
      → IsCapped r leg.quantity
      → Keeps (IsGuarded F S B R r P) (place_leg leg price)
  unfolding place_leg
  place_leg-IsGuarded leg price capped_leg = Keeps-bind _ _ fresh_id-IsGuarded λ id.
      Keeps-bind-gets (opposite_order leg id) _ λ e h.
        Keeps-bind _ _
          (Keeps-attempt _ (ask_broker-IsGuarded _ (laws.place_order _ (legs leg capped_leg id e))))
          λ outcome. leg_result-IsGuarded leg price outcome

  opposite_of_meta-IsGuarded :
      (price : F) (meta : Metadata) → Keeps (IsGuarded F S B R r P) (opposite_of_meta price meta)
  unfolding opposite_of_meta
  opposite_of_meta-IsGuarded price meta =
      Keeps-when _ _
        (Keeps-bind-Gives _ _ (read_leg-IsCapped meta) λ leg q. place_leg-IsGuarded leg price q)

  pub place_opposite-IsGuarded :
      (key : String) (price : F)
      → Keeps (IsGuarded F S B R r P) (place_opposite_market_order key price)
  unfolding place_opposite_market_order
  place_opposite-IsGuarded key price = search (guarded_rules, opposite_of_meta-IsGuarded)
