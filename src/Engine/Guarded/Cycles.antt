-- ===== src/Engine/Guarded/Cycles.antt =====
-- The loop of a guarded engine: whatever the strategy, the prices and the answers of the broker, the
-- broker keeps `P`.
use aurex_trade.Prelude.{ℕ, zero, suc, ◌≡◌, refl, true, Option, none, some, List, Result, ok, err}
use aurex_trade.Prelude.Float.{Float, Format}
use aurex_trade.Prelude.Action.{Action}
use aurex_trade.Prelude.Action.Keeps.{
  Keeps, Gives, Keeps-bind, Keeps-bind-gets, Keeps-bind-Gives, Keeps-if, Keeps-attempt,
}
use aurex_trade.Domain.Models.{BarData, Signal, Order, Trade, Position, AccountState}
use aurex_trade.Risk.{RiskEngine}
use aurex_trade.Engine.Ports.{BrokerPort, StrategyPort, RepositoryPort, AccountSummary}
use aurex_trade.Engine.State.{Engine, ask_broker}
use aurex_trade.Engine.Signals.{
  build_order, decision_of, is_approved, reject_signal, place_approved, decide_signal,
  consider_signal, reject_over_cap, process_signal,
}
use aurex_trade.Engine.Cycle.{
  anchor_balance, begin_session, halt, clear_pending, count_balance_failure, take_price, snapshot,
  stop, report_realized, push_realized_pnl, log_grid, drained, drain, all_signals, account_read,
  feed_from, process_all, ask_signals, cycle_with, cycle_at, run_strategy_cycle,
}
use aurex_trade.Engine.Guarded.{BrokerKeeps, IsGuarded, guarded_rules, ask_broker-IsGuarded}
use aurex_trade.Engine.Guarded.Opposite.{LegsAllowed}
use aurex_trade.Engine.Guarded.Closing.{close_all_trades-IsGuarded}
use aurex_trade.Engine.Guarded.Trading.{
  raise_peak-IsGuarded, reject_and_release-IsGuarded, submit-IsGuarded,
}

-- What the engine builds for an approved signal is allowed.
abbrev pub EntriesAllowed :
    (F S B R : Type 0) ⦃f : Float F⦄ ⦃w : Format F⦄
    → RiskEngine F
    → (B → Type 0)
    → (Order F → Type 0)
    → Type 0
EntriesAllowed F S B R r P Allowed =
    (sig : Signal F) (position : Option (Position F)) (trades : List (Trade F))
    (account : AccountState F) (close : F) (e : Engine F S B R)
    → IsGuarded F S B R r P e
    → is_approved (decision_of sig position trades account e).action ≡ true
    → Gives (IsGuarded F S B R r P) Allowed (build_order sig account close)

module _ {F S B R : Type 0} {r : RiskEngine F} {P : B → Type 0} ⦃f : Float F⦄
    ⦃s : StrategyPort F S⦄ where
  push_realized_pnl-IsGuarded :
      (balance : F) → Keeps (IsGuarded F S B R r P) (push_realized_pnl balance)
  unfolding push_realized_pnl anchor_balance report_realized
  push_realized_pnl-IsGuarded balance = search guarded_rules

  log_grid-IsGuarded : Keeps (IsGuarded F S B R r P) log_grid
  unfolding log_grid begin_session
  log_grid-IsGuarded = search guarded_rules

  drained-IsGuarded :
      (rest : Action (Engine F S B R) (List (Signal F))) (next : Option (Signal F))
      → Keeps (IsGuarded F S B R r P) rest
      → Keeps (IsGuarded F S B R r P) (drained rest next)
  unfolding drained
  drained-IsGuarded rest none k = search guarded_rules
  drained-IsGuarded rest (some sig) k = search guarded_rules

  drain-IsGuarded : (n : ℕ) (bars : List (BarData F)) → Keeps (IsGuarded F S B R r P) (drain n bars)
  unfolding drain
  drain-IsGuarded zero bars = search guarded_rules
  drain-IsGuarded (suc n) bars =
      Keeps-bind _ _ (search guarded_rules)
        λ next. drained-IsGuarded (drain n bars) next (drain-IsGuarded n bars)

  all_signals-IsGuarded :
      (bars : List (BarData F)) (sig : Signal F)
      → Keeps (IsGuarded F S B R r P) (all_signals bars sig)
  unfolding all_signals
  all_signals-IsGuarded bars sig = search (guarded_rules, drain-IsGuarded)

module _ {F S B R : Type 0} {r : RiskEngine F} {P : B → Type 0} ⦃f : Float F⦄ ⦃w : Format F⦄
    ⦃s : StrategyPort F S⦄ ⦃b : BrokerPort F B⦄ ⦃rp : RepositoryPort F R⦄
    {Allowed : Order F → Type 0} (laws : BrokerKeeps P Allowed) where
  equity_ask : (u : Unit {0}) → Keeps (IsGuarded F S B R r P) (ask_broker b.equity)
  equity_ask u = ask_broker-IsGuarded _ laws.equity

  stop-IsGuarded : Keeps (IsGuarded F S B R r P) stop
  unfolding stop halt clear_pending
  stop-IsGuarded = search (guarded_rules, laws.cancel_all_orders) depth 12

  account_read-IsGuarded :
      (outcome : Result (AccountSummary F)) → Keeps (IsGuarded F S B R r P) (account_read outcome)
  unfolding account_read count_balance_failure
  account_read-IsGuarded (err why) = search (guarded_rules, stop-IsGuarded) depth 12
  account_read-IsGuarded (ok x) = search (guarded_rules, push_realized_pnl-IsGuarded) depth 12

  feed_from-IsGuarded :
      (source : Option (Action B (AccountSummary F)))
      → ((read : Action B (AccountSummary F)) → source ≡ some read → Keeps P read)
      → Keeps (IsGuarded F S B R r P) (feed_from source)
  unfolding feed_from
  feed_from-IsGuarded none k = search guarded_rules
  feed_from-IsGuarded (some read) k =
      Keeps-bind _ _ (Keeps-attempt _ (ask_broker-IsGuarded read (k read refl)))
        λ outcome. account_read-IsGuarded outcome

  summary_feed : (u : Unit {0}) → Keeps (IsGuarded F S B R r P) (feed_from b.get_account_summary)
  summary_feed u = feed_from-IsGuarded _ laws.get_account_summary

  module _ (legs : (o : Order F) → Allowed o → LegsAllowed F S B R r Allowed)
      (entries : EntriesAllowed F S B R r P Allowed) where
    decide_signal-IsGuarded :
        (sig : Signal F) (close : F) (position : Option (Position F)) (trades : List (Trade F))
        (account : AccountState F)
        → Keeps (IsGuarded F S B R r P) (decide_signal sig close position trades account)
    unfolding decide_signal place_approved reject_signal
    decide_signal-IsGuarded sig close position trades account =
        Keeps-bind _ _ (search guarded_rules) λ user_id.
          Keeps-bind-gets (decision_of sig position trades account) _ λ e h.
            Keeps-bind _ _ (search guarded_rules) λ u.
              Keeps-if (is_approved (decision_of sig position trades account e).action) _ _
                (λ approved.
                  Keeps-bind-Gives _ _ (entries sig position trades account close e h approved)
                    λ order. submit-IsGuarded laws legs order sig close)
                (λ _. search (guarded_rules, reject_and_release-IsGuarded))

    process_signal-IsGuarded :
        (close : F) (position : Option (Position F)) (trades : List (Trade F)) (open_count : ℕ)
        (sig : Signal F)
        → Keeps (IsGuarded F S B R r P) (process_signal close position trades open_count sig)
    unfolding process_signal consider_signal reject_over_cap
    process_signal-IsGuarded close position trades open_count sig =
        search
          (
            guarded_rules,
            close_all_trades-IsGuarded laws,
            raise_peak-IsGuarded,
            equity_ask,
            decide_signal-IsGuarded,
          )
          depth 14

    process_all-IsGuarded :
        (close : F) (sigs : List (Signal F))
        → Keeps (IsGuarded F S B R r P) (process_all close sigs)
    unfolding process_all
    process_all-IsGuarded close sigs =
        search (guarded_rules, laws.get_positions, laws.get_open_trades, process_signal-IsGuarded)
          depth 14

    ask_signals-IsGuarded :
        (bars : List (BarData F)) (close : F)
        → Keeps (IsGuarded F S B R r P) (ask_signals bars close)
    unfolding ask_signals
    ask_signals-IsGuarded bars close =
        search (guarded_rules, log_grid-IsGuarded, all_signals-IsGuarded, process_all-IsGuarded)
          depth 14

    cycle_at-IsGuarded :
        (bars : List (BarData F)) (close : F) → Keeps (IsGuarded F S B R r P) (cycle_at bars close)
    unfolding cycle_at cycle_with take_price snapshot
    cycle_at-IsGuarded bars close =
        search (guarded_rules, equity_ask, summary_feed, ask_signals-IsGuarded) depth 14

    pub run_strategy_cycle-IsGuarded : Keeps (IsGuarded F S B R r P) run_strategy_cycle
    unfolding run_strategy_cycle
    run_strategy_cycle-IsGuarded = search (guarded_rules, cycle_at-IsGuarded) depth 14
