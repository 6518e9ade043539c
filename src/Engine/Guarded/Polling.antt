-- ===== src/Engine/Guarded/Polling.antt =====
-- The fast poll of a guarded engine.
use aurex_trade.Prelude.{ℕ, String, Option, none, some, List, [], ◌∷◌, Result, ok, err}
use aurex_trade.Prelude.Float.{Float, Format}
use aurex_trade.Prelude.Dict.{Dict}
use aurex_trade.Prelude.Action.Keeps.{Keeps}
use aurex_trade.Domain.Models.{Order, OpenBrokerTrade, ClosedTradeInfo, PendingOrder}
use aurex_trade.HedgedGrid.Callbacks.{TrailingStop}
use aurex_trade.Risk.{RiskEngine}
use aurex_trade.Engine.Ports.{BrokerPort, StrategyPort}
use aurex_trade.Engine.Fills.{
  record_fill_entry, confirm_fill, settle, settle_each, compare_pending, poll_pending,
  check_limit_fills,
}
use aurex_trade.Engine.Closures.{
  append_pnl, forget_entry, unmap_trade, close_vanished, check_closures, cancel_resting,
  trim_closed, trim_level, check_levels_to_close,
}
use aurex_trade.Engine.Poll.{
  trailing_stop_set, activate_trailing_stop, deferred_stop, check_deferred_trailing_stop,
  run_fast_poll,
}
use aurex_trade.Engine.Guarded.{BrokerKeeps, IsGuarded, guarded_rules}
use aurex_trade.Engine.Guarded.Opposite.{
  LegsAllowed, map_trade-IsGuarded, record_trade_entry-IsGuarded, place_opposite-IsGuarded,
}

module _ {F S B R : Type 0} {r : RiskEngine F} {P : B → Type 0} where
  pub append_pnl-IsGuarded : (pnl : F) → Keeps (IsGuarded F S B R r P) (append_pnl pnl)
  unfolding append_pnl
  append_pnl-IsGuarded pnl = search guarded_rules

  forget_entry-IsGuarded : (id : ℕ) → Keeps (IsGuarded F S B R r P) (forget_entry id)
  unfolding forget_entry
  forget_entry-IsGuarded id = search guarded_rules

  unmap_trade-IsGuarded : (key : String) → Keeps (IsGuarded F S B R r P) (unmap_trade key)
  unfolding unmap_trade
  unmap_trade-IsGuarded key = search guarded_rules

ruleset closing_rules =
    (guarded_rules, append_pnl-IsGuarded, forget_entry-IsGuarded, unmap_trade-IsGuarded)

module _ {F S B R : Type 0} {r : RiskEngine F} {P : B → Type 0} ⦃f : Float F⦄ ⦃w : Format F⦄
    ⦃s : StrategyPort F S⦄ where
  close_vanished-IsGuarded : (m : String × ℕ) → Keeps (IsGuarded F S B R r P) (close_vanished m)
  unfolding close_vanished
  close_vanished-IsGuarded (key, id) = search closing_rules depth 20

  check_closures-IsGuarded :
      (open_trades : List (OpenBrokerTrade F)) (skip : List ℕ)
      → Keeps (IsGuarded F S B R r P) (check_closures open_trades skip)
  unfolding check_closures
  check_closures-IsGuarded open_trades skip = search (guarded_rules, close_vanished-IsGuarded)

  record_fill_entry-IsGuarded :
      ⦃b : BrokerPort F B⦄ (key : String) (trade : OpenBrokerTrade F)
      → Keeps (IsGuarded F S B R r P) (record_fill_entry key trade)
  unfolding record_fill_entry
  record_fill_entry-IsGuarded key trade =
      search (guarded_rules, record_trade_entry-IsGuarded) depth 12

module _ {F S B R : Type 0} {r : RiskEngine F} {P : B → Type 0} ⦃f : Float F⦄ ⦃w : Format F⦄
    ⦃s : StrategyPort F S⦄ ⦃b : BrokerPort F B⦄ {Allowed : Order F → Type 0}
    (laws : BrokerKeeps P Allowed) where
  trim_closed-IsGuarded :
      (key : String) (id : ℕ) (outcome : Result (Option (ClosedTradeInfo F)))
      → Keeps (IsGuarded F S B R r P) (trim_closed key id outcome)
  unfolding trim_closed
  trim_closed-IsGuarded key id (err why) = search guarded_rules
  trim_closed-IsGuarded key id (ok details) = search closing_rules depth 20

  cancel_resting-IsGuarded :
      (key : String) (order : Option ℕ) → Keeps (IsGuarded F S B R r P) (cancel_resting key order)
  unfolding cancel_resting
  cancel_resting-IsGuarded key none = search guarded_rules
  cancel_resting-IsGuarded key (some id) =
      search (guarded_rules, laws.cancel_pending_order) depth 12

  trim_level-IsGuarded : (key : String) → Keeps (IsGuarded F S B R r P) (trim_level key)
  unfolding trim_level
  trim_level-IsGuarded key =
      search (guarded_rules, cancel_resting-IsGuarded, trim_closed-IsGuarded, laws.close_trade)
        depth 12

  check_levels-IsGuarded : Keeps (IsGuarded F S B R r P) check_levels_to_close
  unfolding check_levels_to_close
  check_levels-IsGuarded = search (guarded_rules, trim_level-IsGuarded) depth 12

  trailing_stop_set-IsGuarded :
      (config : TrailingStop F) (id : ℕ) (profit : F) (outcome : Result (Unit {0}))
      → Keeps (IsGuarded F S B R r P) (trailing_stop_set config id profit outcome)
  unfolding trailing_stop_set
  trailing_stop_set-IsGuarded config id profit (err why) = search guarded_rules
  trailing_stop_set-IsGuarded config id profit (ok u) = search guarded_rules

  activate-IsGuarded :
      (config : TrailingStop F) (id : ℕ) (price : F) (t : OpenBrokerTrade F)
      → Keeps (IsGuarded F S B R r P) (activate_trailing_stop config id price t)
  unfolding activate_trailing_stop
  activate-IsGuarded config id price t =
      search (guarded_rules, trailing_stop_set-IsGuarded, laws.set_trailing_stop) depth 12

  deferred_stop-IsGuarded :
      (open_trades : List (OpenBrokerTrade F)) (config : TrailingStop F)
      → Keeps (IsGuarded F S B R r P) (deferred_stop open_trades config)
  unfolding deferred_stop
  deferred_stop-IsGuarded open_trades config = search (guarded_rules, activate-IsGuarded) depth 12

  check_deferred-IsGuarded :
      (open_trades : List (OpenBrokerTrade F))
      → Keeps (IsGuarded F S B R r P) (check_deferred_trailing_stop open_trades)
  unfolding check_deferred_trailing_stop
  check_deferred-IsGuarded open_trades = search (guarded_rules, deferred_stop-IsGuarded)

  module _ (legs : LegsAllowed F S B R r Allowed) where
    confirm_fill-IsGuarded :
        (key : String) (trade : OpenBrokerTrade F)
        → Keeps (IsGuarded F S B R r P) (confirm_fill key trade)
    unfolding confirm_fill
    confirm_fill-IsGuarded key trade =
        search
          (
            guarded_rules,
            map_trade-IsGuarded,
            record_fill_entry-IsGuarded,
            place_opposite-IsGuarded laws legs,
          )
          depth 20

    settle-IsGuarded :
        (key : String) (matched : Option (OpenBrokerTrade F))
        → Keeps (IsGuarded F S B R r P) (settle key matched)
    unfolding settle
    settle-IsGuarded key none = search guarded_rules
    settle-IsGuarded key (some trade) = confirm_fill-IsGuarded key trade

    settle_each-IsGuarded :
        (gone : Dict String ℕ) (trades : List (OpenBrokerTrade F))
        → Keeps (IsGuarded F S B R r P) (settle_each gone trades)
    unfolding settle_each
    settle_each-IsGuarded [] trades = search guarded_rules
    settle_each-IsGuarded ((key, id) ∷ gone) trades =
        search (guarded_rules, settle-IsGuarded, settle_each-IsGuarded gone) depth 12

    compare_pending-IsGuarded :
        (open_trades : List (OpenBrokerTrade F)) (outcome : Result (List (PendingOrder F)))
        → Keeps (IsGuarded F S B R r P) (compare_pending open_trades outcome)
    unfolding compare_pending
    compare_pending-IsGuarded open_trades (err why) = search guarded_rules
    compare_pending-IsGuarded open_trades (ok orders) =
        search (guarded_rules, settle_each-IsGuarded)

    poll_pending-IsGuarded :
        (open_trades : List (OpenBrokerTrade F)) (symbol : String) (pending : Dict String ℕ)
        → Keeps (IsGuarded F S B R r P) (poll_pending open_trades symbol pending)
    unfolding poll_pending
    poll_pending-IsGuarded open_trades symbol [] = search guarded_rules
    poll_pending-IsGuarded open_trades symbol (p ∷ ps) =
        search (guarded_rules, laws.get_pending_orders, compare_pending-IsGuarded)

    check_limit_fills-IsGuarded :
        (open_trades : List (OpenBrokerTrade F))
        → Keeps (IsGuarded F S B R r P) (check_limit_fills open_trades)
    unfolding check_limit_fills
    check_limit_fills-IsGuarded open_trades = search (guarded_rules, poll_pending-IsGuarded)

    pub run_fast_poll-IsGuarded : Keeps (IsGuarded F S B R r P) run_fast_poll
    unfolding run_fast_poll
    run_fast_poll-IsGuarded =
        search
          (
            guarded_rules, laws.get_open_trades, check_limit_fills-IsGuarded,
            check_closures-IsGuarded, check_deferred-IsGuarded, check_levels-IsGuarded,
          )
          depth 20
