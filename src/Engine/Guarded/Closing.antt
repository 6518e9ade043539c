-- ===== src/Engine/Guarded/Closing.antt =====
-- The closing of all trades by a guarded engine.
use aurex_trade.Prelude.{ℕ, String, ◌≡◌, refl, Option, none, some, List, [], ◌∷◌, Result, ok, err}
use aurex_trade.Prelude.Float.{Float, Format}
use aurex_trade.Prelude.Dict.{Dict}
use aurex_trade.Prelude.Action.{Action}
use aurex_trade.Prelude.Action.Keeps.{Keeps, Keeps-bind, Keeps-attempt}
use aurex_trade.Domain.Models.{Order, OpenBrokerTrade, ClosedTradeInfo}
use aurex_trade.Risk.{RiskEngine}
use aurex_trade.Engine.Ports.{BrokerPort, StrategyPort, AccountSummary}
use aurex_trade.Engine.State.{Engine}
use aurex_trade.Engine.CloseAll.{
  clear_grid, count_failure, schedule_retry, settle_balance, end_session, log_close_all_pnl,
  close_outcome, close_each, session_pnl_from, complete_close_all, confirm_closed, no_trades_left,
  close_open_trades, liquidate, close_all_trades,
}
use aurex_trade.Engine.Guarded.{BrokerKeeps, IsGuarded, guarded_rules, ask_broker-IsGuarded}
use aurex_trade.Engine.Guarded.Polling.{append_pnl-IsGuarded}

module _ {F S B R : Type 0} {r : RiskEngine F} {P : B → Type 0} ⦃f : Float F⦄ ⦃w : Format F⦄
    ⦃s : StrategyPort F S⦄ ⦃b : BrokerPort F B⦄ {Allowed : Order F → Type 0}
    (laws : BrokerKeeps P Allowed) where
  log_close_all_pnl-IsGuarded :
      (id : ℕ) (key : String) (details : Option (ClosedTradeInfo F))
      → Keeps (IsGuarded F S B R r P) (log_close_all_pnl id key details)
  unfolding log_close_all_pnl
  log_close_all_pnl-IsGuarded id key none = search guarded_rules
  log_close_all_pnl-IsGuarded id key (some d) = search (guarded_rules, append_pnl-IsGuarded)

  close_outcome-IsGuarded :
      (failed : ℕ) (key : String) (id : ℕ) (outcome : Result (Option (ClosedTradeInfo F)))
      → Keeps (IsGuarded F S B R r P) (close_outcome failed key id outcome)
  unfolding close_outcome
  close_outcome-IsGuarded failed key id (err why) = search guarded_rules
  close_outcome-IsGuarded failed key id (ok d) = search (guarded_rules, log_close_all_pnl-IsGuarded)

  close_each-IsGuarded :
      (keys : Dict ℕ String) (ts : List (OpenBrokerTrade F)) (failed : ℕ)
      → Keeps (IsGuarded F S B R r P) (close_each keys ts failed)
  unfolding close_each
  close_each-IsGuarded keys [] failed = search guarded_rules
  close_each-IsGuarded keys (t ∷ ts) failed =
      search
        (guarded_rules, laws.close_trade, close_outcome-IsGuarded, close_each-IsGuarded keys ts)
        depth 12

  settle_balance-IsGuarded :
      (outcome : Result (AccountSummary F)) (e : Engine F S B R)
      → IsGuarded F S B R r P e
      → IsGuarded F S B R r P (settle_balance outcome e)
  unfolding settle_balance
  settle_balance-IsGuarded (err why) e h = h
  settle_balance-IsGuarded (ok x) e h = search guarded_rules

  session_pnl_from-IsGuarded :
      (source : Option (Action B (AccountSummary F)))
      → ((read : Action B (AccountSummary F)) → source ≡ some read → Keeps P read)
      → Keeps (IsGuarded F S B R r P) (session_pnl_from source)
  unfolding session_pnl_from
  session_pnl_from-IsGuarded none k = search guarded_rules
  session_pnl_from-IsGuarded (some read) k =
      Keeps-bind _ _ (Keeps-attempt _ (ask_broker-IsGuarded read (k read refl)))
        λ outcome. search (guarded_rules, settle_balance-IsGuarded)

  complete_close_all-IsGuarded :
      (reason : String) (closed : ℕ)
      → Keeps (IsGuarded F S B R r P) (complete_close_all reason closed)
  unfolding complete_close_all clear_grid end_session
  complete_close_all-IsGuarded reason closed =
      search (guarded_rules, session_pnl_from-IsGuarded, laws.get_account_summary) depth 20

  no_trades_left-IsGuarded :
      (reason : String) (closed : ℕ) (remaining : List (OpenBrokerTrade F))
      → Keeps (IsGuarded F S B R r P) (no_trades_left reason closed remaining)
  unfolding no_trades_left count_failure
  no_trades_left-IsGuarded reason closed [] = complete_close_all-IsGuarded reason closed
  no_trades_left-IsGuarded reason closed (t ∷ ts) = search guarded_rules

  confirm_closed-IsGuarded :
      (reason : String) (closed failed : ℕ)
      → Keeps (IsGuarded F S B R r P) (confirm_closed reason closed failed)
  unfolding confirm_closed count_failure schedule_retry
  confirm_closed-IsGuarded reason closed failed =
      search (guarded_rules, laws.get_open_trades, no_trades_left-IsGuarded) depth 12

  close_open_trades-IsGuarded :
      (reason : String) (ts : List (OpenBrokerTrade F))
      → Keeps (IsGuarded F S B R r P) (close_open_trades reason ts)
  unfolding close_open_trades clear_grid
  close_open_trades-IsGuarded reason [] = search guarded_rules
  close_open_trades-IsGuarded reason (t ∷ ts) =
      search (guarded_rules, close_each-IsGuarded, confirm_closed-IsGuarded)

  liquidate-IsGuarded : (reason : String) → Keeps (IsGuarded F S B R r P) (liquidate reason)
  unfolding liquidate
  liquidate-IsGuarded reason =
      search
        (guarded_rules, laws.cancel_all_orders, laws.get_open_trades, close_open_trades-IsGuarded)
        depth 12

  pub close_all_trades-IsGuarded :
      (reason : String) → Keeps (IsGuarded F S B R r P) (close_all_trades reason)
  unfolding close_all_trades
  close_all_trades-IsGuarded reason = search (guarded_rules, liquidate-IsGuarded) depth 12
