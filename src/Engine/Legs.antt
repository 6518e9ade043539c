-- ===== src/Engine/Legs.antt =====
-- The market order on the opposite side and the kill switch (`_place_opposite_market_order` of
-- engine/trading_engine.py).
use aurex_trade.Prelude.{
  Result-cases, String, Bool, ◌≡◌, refl, ap, true, false, Option-cases, Option, none, some, Result,
  ok, err, inl, inr,
}
use aurex_trade.Prelude.Float.{Float, Format}
use aurex_trade.Prelude.Action.{
  Action, pure, gets, or_raise, attempt, modify, when, for_some, ◌>>=◌,
}
use aurex_trade.Domain.Models.{Trade}
use aurex_trade.Risk.{set_kill_switch}
use aurex_trade.Engine.Ports.{BrokerPort, StrategyPort}
use aurex_trade.Engine.State.{
  Engine, Metadata, Method, fresh_id, ask_broker, tell, log_event, mark_trade, count_trade, capped,
  read_float, read_optional, non_empty,
}
use aurex_trade.Engine.Opposite.{
  Leg, opposite_order, read_leg, place_leg, leg_filled, leg_result, map_trade, record_trade_entry,
  opposite_of_meta, place_opposite_market_order,
}

module _ {F S B R : Type 0} where
  -- the engine with its kill switch on or off
  abbrev pub switched : Bool → Engine F S B R → Engine F S B R
  switched on e = record e { risk_engine = set_kill_switch on e.risk_engine }

  -- what a method comes to, with the switch set in the engine that it leaves
  abbrev pub then_switched :
      {A : Type 0} → Bool → Result A × Engine F S B R → Result A × Engine F S B R
  then_switched on (r, d) = (r, switched on d)

  -- The method does the same whatever the kill switch says.
  record Ignores {A : Type 0} (m : Action (Engine F S B R) A) : Type 0 where
    at : (on : Bool) (e : Engine F S B R) → m (switched on e) ≡ then_switched on (m e)

  module _ {A C : Type 0} where
    Ignores-bind :
        {m : Action (Engine F S B R) A} {g : A → Action (Engine F S B R) C}
        → Ignores m
        → ((a : A) → Ignores (g a))
        → Ignores (m >>= g)
    unfolding ◌>>=◌
    Ignores-bind {m} {g} h k = record {
      at = λ on e. elim (Result-cases (m e).0) [
        | inl (why, x) ↦ rw (h.at on e, x) refl
        | inr (a, x) ↦ rw (h.at on e, x) ((k a).at on (m e).1)
      ];
    }

  module _ {A : Type 0} where
    Ignores-gets :
        (g : Engine F S B R → A)
        → ((on : Bool) (e : Engine F S B R) → g (switched on e) ≡ g e)
        → Ignores (gets g)
    unfolding gets
    Ignores-gets g same = record { at = λ on e. ap (λ a. (ok a, switched on e)) (same on e) }

    Ignores-pure : (a : A) → Ignores (pure a)
    unfolding pure
    Ignores-pure a = record { at = λ on e. refl }

    Ignores-or_raise : (o : Option A) (why : String) → Ignores (or_raise o why)
    unfolding or_raise
    Ignores-or_raise none why = record { at = λ on e. refl }
    Ignores-or_raise (some a) why = record { at = λ on e. refl }

    Ignores-attempt : (m : Action (Engine F S B R) A) → Ignores m → Ignores (attempt m)
    unfolding attempt
    Ignores-attempt m h = record { at = λ on e. rw (h.at on e) refl }

    Ignores-ask_broker : (m : Action B A) → Ignores (ask_broker m)
    unfolding ask_broker
    Ignores-ask_broker m = record { at = λ on e. refl }

  Ignores-modify :
      (g : Engine F S B R → Engine F S B R)
      → ((on : Bool) (e : Engine F S B R) → g (switched on e) ≡ switched on (g e))
      → Ignores (modify g)
  unfolding modify
  Ignores-modify g same = record { at = λ on e. ap (λ d. (ok tt, d)) (same on e) }

  Ignores-when : (b : Bool) (m : Method F S B R) → Ignores m → Ignores (when b m)
  Ignores-when true m h = h
  Ignores-when false m h = Ignores-pure tt

  Ignores-for_some :
      {A : Type 0} (m : A → Method F S B R) (o : Option A)
      → ((a : A) → Ignores (m a))
      → Ignores (for_some m o)
  Ignores-for_some m none h = Ignores-pure tt
  Ignores-for_some m (some a) h = h a

  Ignores-fresh_id : (u : Unit {0}) → Ignores fresh_id
  unfolding fresh_id
  Ignores-fresh_id u = record { at = λ on e. refl }

module _ {F S B R : Type 0} ⦃f : Float F⦄ ⦃w : Format F⦄ where
  capped-switched :
      (on : Bool) (e : Engine F S B R) (x : F)
      → capped (switched on e).risk_engine x ≡ capped e.risk_engine x
  unfolding capped set_kill_switch
  capped-switched on e x = refl

  read_float-Ignores : (text : String) → Ignores {F = F} {S = S} {B = B} {R = R} (read_float text)
  unfolding read_float
  read_float-Ignores text = Ignores-or_raise (w.parse text) "could not convert string to float"

  read_optional-Ignores :
      (text : Option String) → Ignores {F = F} {S = S} {B = B} {R = R} (read_optional text)
  unfolding read_optional
  read_optional-Ignores text = elim (Option-cases (non_empty text)) [
    | inl e ↦ rw (e, read_optional) (Ignores-pure none)
    | inr (t, e) ↦
        rw (e, read_optional) (Ignores-bind (read_float-Ignores t) λ x. Ignores-pure (some x))
  ]

  read_leg-Ignores : (meta : Metadata) → Ignores {F = F} {S = S} {B = B} {R = R} (read_leg meta)
  unfolding read_leg
  read_leg-Ignores meta = Ignores-bind (read_float-Ignores _) λ quantity.
      Ignores-bind (read_optional-Ignores _) λ stop.
        Ignores-bind (read_optional-Ignores _) λ distance.
          Ignores-bind (read_optional-Ignores _)
            λ target. Ignores-gets _ λ on e. rw (capped-switched on e quantity) refl

  module _ ⦃s : StrategyPort F S⦄ where
    leg_filled-Ignores :
        (leg : Leg F) (price : F) (trade : Trade F)
        → Ignores {F = F} {S = S} {B = B} {R = R} (leg_filled leg price trade)
    unfolding leg_filled map_trade record_trade_entry tell log_event mark_trade count_trade
    leg_filled-Ignores leg price trade =
        Ignores-bind
          (Ignores-when _ _ (
            Ignores-bind (Ignores-modify _ λ on e. refl)
              λ u. Ignores-when _ _ (Ignores-modify _ λ on e. refl)))
          λ u. Ignores-bind (Ignores-modify _ λ on e. refl) λ u.
            Ignores-bind (Ignores-modify _ λ on e. refl) λ u.
              Ignores-bind (Ignores-modify _ λ on e. refl)
                λ u. Ignores-bind (Ignores-modify _ λ on e. refl) λ u. Ignores-modify _ λ on e. refl

    module _ ⦃b : BrokerPort F B⦄ where
      leg_result-Ignores :
          (leg : Leg F) (price : F) (outcome : Result (Trade F))
          → Ignores {F = F} {S = S} {B = B} {R = R} (leg_result leg price outcome)
      unfolding leg_result
      leg_result-Ignores leg price (err why) = Ignores-pure tt
      leg_result-Ignores leg price (ok trade) = leg_filled-Ignores leg price trade

      place_leg-Ignores :
          (leg : Leg F) (price : F) → Ignores {F = F} {S = S} {B = B} {R = R} (place_leg leg price)
      unfolding place_leg opposite_order
      place_leg-Ignores leg price = Ignores-bind (Ignores-fresh_id tt) λ id.
          Ignores-bind (Ignores-gets _ λ on e. refl) λ order.
            Ignores-bind (Ignores-attempt _ (Ignores-ask_broker (b.place_order order)))
              λ outcome. leg_result-Ignores leg price outcome

      opposite_of_meta-Ignores :
          (price : F) (meta : Metadata)
          → Ignores {F = F} {S = S} {B = B} {R = R} (opposite_of_meta price meta)
      unfolding opposite_of_meta
      opposite_of_meta-Ignores price meta =
          Ignores-when _ _ (Ignores-bind (read_leg-Ignores meta) λ leg. place_leg-Ignores leg price)

      whole-Ignores :
          (key : String) (price : F)
          → Ignores {F = F} {S = S} {B = B} {R = R} (place_opposite_market_order key price)
      unfolding place_opposite_market_order
      whole-Ignores key price = Ignores-bind (Ignores-gets _ λ on e. refl) λ meta.
          Ignores-bind (Ignores-modify _ λ on e. refl)
            λ u. Ignores-for_some _ meta (opposite_of_meta-Ignores price)

      -- The order on the opposite side, which follows the fill of a limit order, does not depend on the
      -- kill switch: for every key, price and engine, and whether the switch is on or off, the same is
      -- asked of the broker, the same is raised, and the same is written, in particular the order that
      -- goes out with the switch off goes out with the switch on.
      pub place_opposite-ignores_kill_switch :
          (key : String) (price : F) (on : Bool) (e : Engine F S B R)
          → place_opposite_market_order key price (switched on e)
            ≡ then_switched on (place_opposite_market_order key price e)
      place_opposite-ignores_kill_switch key price on e = (whole-Ignores key price).at on e
