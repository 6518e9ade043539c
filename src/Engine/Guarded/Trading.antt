-- ===== src/Engine/Guarded/Trading.antt =====
-- The strategy cycle of a guarded engine. An order that the risk engine has approved is allowed, and so
-- are the legs that follow an allowed order.
use aurex_trade.Prelude.{String, str_eq, inl, inr, Option, Result, ok, err, Option-cases}
use aurex_trade.Prelude.Float.{Float, Format}
use aurex_trade.Prelude.Dict.{lookup}
use aurex_trade.Prelude.Action.Keeps.{Keeps, Keeps-bind, Keeps-if, Keeps-attempt}
use aurex_trade.Domain.Models.{Signal, Order, Trade}
use aurex_trade.Risk.{RiskEngine}
use aurex_trade.Engine.Ports.{BrokerPort, StrategyPort, RepositoryPort}
use aurex_trade.Engine.State.{non_empty, read_float}
use aurex_trade.Engine.Orders.{
  raise_peak, reject_level, reject_and_release, or_missing, intended_price, limit_filled_level,
  limit_filled, track_pending, limit_resting, limit_result, place_limit_order, update_position,
  market_filled_level, market_filled, market_result, place_market_order,
}
use aurex_trade.Engine.Signals.{submit}
use aurex_trade.Engine.Guarded.{BrokerKeeps, IsGuarded, guarded_rules, ask_broker-IsGuarded}
use aurex_trade.Engine.Guarded.Opposite.{
  LegsAllowed, map_trade-IsGuarded, record_trade_entry-IsGuarded, place_opposite-IsGuarded,
}

module _ {F S B R : Type 0} {r : RiskEngine F} {P : B → Type 0} ⦃f : Float F⦄ ⦃w : Format F⦄ where
  pub raise_peak-IsGuarded : (equity : F) → Keeps (IsGuarded F S B R r P) (raise_peak equity)
  unfolding raise_peak
  raise_peak-IsGuarded equity = search guarded_rules

  intended_price-IsGuarded :
      (sig : Signal F) (close : F) → Keeps (IsGuarded F S B R r P) (intended_price sig close)
  unfolding intended_price read_float
  intended_price-IsGuarded sig close =
      elim (Option-cases (non_empty (lookup str_eq "entry_price" sig.metadata))) [
        | inl e ↦ rw (e, intended_price) (search guarded_rules)
        | inr (text, e) ↦ rw (e, intended_price) (search guarded_rules)
      ]

  module _ ⦃s : StrategyPort F S⦄ where
    reject_level-IsGuarded :
        (level : Option String) → Keeps (IsGuarded F S B R r P) (reject_level level)
    unfolding reject_level
    reject_level-IsGuarded level = search guarded_rules

    pub reject_and_release-IsGuarded :
        (level : Option String) → Keeps (IsGuarded F S B R r P) (reject_and_release level)
    unfolding reject_and_release
    reject_and_release-IsGuarded level = search guarded_rules

module _ {F S B R : Type 0} {r : RiskEngine F} {P : B → Type 0} ⦃f : Float F⦄ ⦃w : Format F⦄
    ⦃s : StrategyPort F S⦄ ⦃b : BrokerPort F B⦄ ⦃rp : RepositoryPort F R⦄
    {Allowed : Order F → Type 0} (laws : BrokerKeeps P Allowed) where
  update_position-IsGuarded : Keeps (IsGuarded F S B R r P) update_position
  unfolding update_position
  update_position-IsGuarded = Keeps-bind _ _ (search guarded_rules) λ symbol.
      Keeps-bind _ _ (search guarded_rules) λ user_id.
        Keeps-bind _ _ (ask_broker-IsGuarded _ (laws.get_positions symbol)) λ p.
          Keeps-bind _ _ (ask_broker-IsGuarded _ laws.equity)
            λ equity. search (guarded_rules, raise_peak-IsGuarded)

  market_filled_level-IsGuarded :
      (order : Order F) (trade : Trade F) (key : String)
      → Keeps (IsGuarded F S B R r P) (market_filled_level order trade key)
  unfolding market_filled_level
  market_filled_level-IsGuarded order trade key =
      search (guarded_rules, map_trade-IsGuarded, record_trade_entry-IsGuarded) depth 12

  market_result-IsGuarded :
      (order : Order F) (sig : Signal F) (close : F) (outcome : Result (Trade F))
      → Keeps (IsGuarded F S B R r P) (market_result order sig close outcome)
  unfolding market_result market_filled
  market_result-IsGuarded order sig close (err why) = reject_and_release-IsGuarded _
  market_result-IsGuarded order sig close (ok trade) =
      search
        (
          guarded_rules, intended_price-IsGuarded, market_filled_level-IsGuarded,
          update_position-IsGuarded,
        )
        depth 20

  place_market-IsGuarded :
      (order : Order F) (sig : Signal F) (close : F)
      → Allowed order
      → Keeps (IsGuarded F S B R r P) (place_market_order order sig close)
  unfolding place_market_order
  place_market-IsGuarded order sig close allowed =
      Keeps-bind _ _ (Keeps-attempt _ (ask_broker-IsGuarded _ (laws.place_order order allowed)))
        λ outcome. market_result-IsGuarded order sig close outcome

  limit_resting-IsGuarded :
      (order : Order F) (sig : Signal F) (trade : Trade F)
      → Keeps (IsGuarded F S B R r P) (limit_resting order sig trade)
  unfolding limit_resting track_pending or_missing
  limit_resting-IsGuarded order sig trade = search guarded_rules depth 12

  module _ (legs : (o : Order F) → Allowed o → LegsAllowed F S B R r Allowed) where
    limit_filled-IsGuarded :
        (order : Order F) (sig : Signal F) (trade : Trade F)
        → LegsAllowed F S B R r Allowed
        → Keeps (IsGuarded F S B R r P) (limit_filled order sig trade)
    unfolding limit_filled limit_filled_level
    limit_filled-IsGuarded order sig trade follow =
        search
          (
            guarded_rules,
            map_trade-IsGuarded,
            record_trade_entry-IsGuarded,
            place_opposite-IsGuarded laws follow,
          )
          depth 20

    limit_result-IsGuarded :
        (order : Order F) (sig : Signal F) (outcome : Result (Trade F))
        → LegsAllowed F S B R r Allowed
        → Keeps (IsGuarded F S B R r P) (limit_result order sig outcome)
    unfolding limit_result
    limit_result-IsGuarded order sig (err why) follow = reject_level-IsGuarded _
    limit_result-IsGuarded order sig (ok trade) follow =
        Keeps-if trade.immediately_filled _ _ (λ _. limit_filled-IsGuarded order sig trade follow)
          (λ _. limit_resting-IsGuarded order sig trade)

    place_limit-IsGuarded :
        (order : Order F) (sig : Signal F)
        → Allowed order
        → Keeps (IsGuarded F S B R r P) (place_limit_order order sig)
    unfolding place_limit_order
    place_limit-IsGuarded order sig allowed =
        Keeps-bind _ _ (Keeps-attempt _ (ask_broker-IsGuarded _ (laws.place_order order allowed)))
          λ outcome. limit_result-IsGuarded order sig outcome (legs order allowed)

    pub submit-IsGuarded :
        (order : Order F) (sig : Signal F) (close : F)
        → Allowed order
        → Keeps (IsGuarded F S B R r P) (submit order sig close)
    unfolding submit
    submit-IsGuarded order sig close allowed = search (
      guarded_rules,
      reject_level-IsGuarded,
      place_limit-IsGuarded order sig allowed,
      place_market-IsGuarded order sig close allowed,
    )
