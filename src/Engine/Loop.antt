-- ===== src/Engine/Loop.antt =====
-- The main loop: `run` (engine/trading_engine.py). A run is observed at its ticks: each round of the
-- loop takes the next one, which says what time it is and what the sleep before it has changed at the
-- broker and in the services.
use aurex_trade.Prelude.{
  ℕ, ◌+◌, ◌-◌, ◌%◌, String, Bool, true, false, not, ◌||◌, Option, none, some, List, [], ◌∷◌, ◌==◌,
  leb, if◌then◌else◌, Result, ok, err, length,
}
use aurex_trade.Prelude.Float.{Float, Format, Math, ◌⊖◌}
use aurex_trade.Prelude.Action.{
  Action, pure, gets, modify, attempt, done, when, for_some, ◌>>=◌, ◌>>◌,
}
use aurex_trade.Engine.Ports.{StrategyPort, BrokerPort, RepositoryPort, AccountSummary}
use aurex_trade.Engine.State.{Engine, Method, day_of, ask_broker, ask_services}
use aurex_trade.Engine.Closures.{get_or, or_else}
use aurex_trade.Engine.Poll.{run_fast_poll}
use aurex_trade.Engine.Cycle.{run_strategy_cycle}

-- `monotonic` is what `time.monotonic()` gives, `wall` what `datetime.now` gives.
pub record Tick (B R : Type 0) : Type 0 where
  pub monotonic : ℕ
  pub wall : ℕ
  pub broker : B → B
  pub services : R → R

abbrev pub summary_interval : ℕ
summary_interval = 60

abbrev pub final_balance : {F : Type 0} → Result (Option F) → Option F → Option F
final_balance (err why) last = last
final_balance (ok balance) last = or_else balance last

module _ {F S B R : Type 0} where
  unfoldable pub take_tick : Tick B R → Engine F S B R → Engine F S B R
  take_tick t e = record e {
    clock = t.wall;
    broker = t.broker e.broker;
    services = t.services e.services;
  }

  -- whether the strategy is due: `last` is the time of its last cycle, 0 before the first
  unfoldable pub is_due : ℕ → Tick B R → Engine F S B R → Bool
  is_due last t e = leb e.interval_seconds (t.monotonic - last) || last == 0

  unfoldable pub reaches : Option ℕ → Engine F S B R → Bool
  reaches none e = false
  reaches (some n) e = leb n e.cycle_count

  unfoldable pub count_cycle : Engine F S B R → Engine F S B R
  count_cycle e = record e { cycle_count = e.cycle_count + 1 }

  -- the reset at the start of a run
  unfoldable pub reset_run : Engine F S B R → Engine F S B R
  reset_run e = record e {
    running = true;
    cycle_count = 0;
    started_at = some e.clock;
    session_seq = 0;
    run_id = e.next_id;
    next_id = e.next_id + 1;
  }

  unfoldable pub end_run : Engine F S B R → Engine F S B R
  end_run e = record e { running = false; started_at = none }

  unfoldable pub seed_balances : F → Engine F S B R → Engine F S B R
  seed_balances balance e = record e {
    run_start_balance = some balance;
    session_start_balance = some balance;
    day_start_balance = some balance;
    balance_day = some (day_of e.clock);
    last_balance = some balance;
  }

module _ {F S B R : Type 0} ⦃f : Float F⦄ where
  unfoldable pub run_realized : Engine F S B R → Option F
  run_realized e = elim e.last_balance [
    | none ↦ none
    | some balance ↦ elim e.run_start_balance [ none ↦ none | some start ↦ some (balance ⊖ start) ]
  ]

module _ {F S B R : Type 0} ⦃b : BrokerPort F B⦄ where
  -- the starting balance; `false` if there is one and it cannot be read
  unfoldable pub seed_result : Result (AccountSummary F) → Action (Engine F S B R) Bool
  seed_result (err why) = modify end_run >> pure false
  seed_result (ok summary) = modify (seed_balances summary.balance) >> pure true

  unfoldable pub seed_from : Option (Action B (AccountSummary F)) → Action (Engine F S B R) Bool
  seed_from none = pure true
  seed_from (some read) = attempt (ask_broker read) >>= λ outcome. seed_result outcome

  -- what the summary in the log reads, every 60 cycles
  unfoldable pub log_summary : Method F S B R
  log_summary = do
    due ← gets (λ e. e.cycle_count % summary_interval == 0)
    symbol ← gets (λ e. e.symbol)
    when due (ask_broker (b.get_positions symbol) >> ask_broker b.equity >> done)

  unfoldable pub balance_from :
      Option (Action B (AccountSummary F)) → Action (Engine F S B R) (Option F)
  balance_from none = pure none
  balance_from (some read) = ask_broker read >>= λ summary. pure (some summary.balance)

  module _ ⦃r : RepositoryPort F R⦄ where
    unfoldable pub store_start : F → Method F S B R
    store_start equity = do
      stored ← gets (λ e. e.has_run_store)
      id ← gets (λ e. e.run_id)
      now ← gets (λ e. e.clock)
      outcome ← attempt (when stored (ask_services (r.start_run id now equity)))
      done

    module _ ⦃f : Float F⦄ ⦃m : Math F⦄ where
      unfoldable pub finish : String → Method F S B R
      finish reason = do
        final ← gets (λ e. e)
        equity ← ask_broker b.equity
        ask_services (
            r.finish_run final.run_id final.clock reason final.cycle_count final.session_seq
              (length final.trade_pnls) (get_or (m.sum final.trade_pnls) (run_realized final))
              equity)

      -- what follows the loop
      unfoldable pub wind_up : String → Method F S B R
      wind_up reason = do
        modify end_run
        outcome ← attempt (balance_from b.get_account_summary)
        modify (λ e. record e { last_balance = final_balance outcome e.last_balance })
        stored ← gets (λ e. e.has_run_store)
        result ← attempt (when stored (finish reason))
        done

module _ {F S B R : Type 0} ⦃f : Float F⦄ ⦃w : Format F⦄ ⦃s : StrategyPort F S⦄ ⦃b : BrokerPort F B⦄
    ⦃r : RepositoryPort F R⦄ where
  -- one round of the loop; the time of the last strategy cycle comes back
  unfoldable pub due_cycle : Method F S B R
  due_cycle = do outcome ← attempt run_strategy_cycle; modify count_cycle; log_summary

  unfoldable pub round : ℕ → Tick B R → Action (Engine F S B R) ℕ
  round last t = do
    modify (take_tick t)
    outcome ← attempt run_fast_poll
    due ← gets (is_due last t)
    when due due_cycle
    pure (if due then t.monotonic else last)

  -- the loop, with why it ended: `none` if it is still running at the last tick
  unfoldable pub loop : Option ℕ → ℕ → List (Tick B R) → Action (Engine F S B R) (Option String)
  loop max_cycles last [] = pure none
  loop max_cycles last (t ∷ ts) = do
    running ← gets (λ e. e.running)
    reached ← gets (reaches max_cycles)
    if not running
        then pure (some "stopped")
        else if reached
        then pure (some "max_cycles")
        else (round last t >>= λ next. loop max_cycles next ts)

  module _ ⦃m : Math F⦄ where
    unfoldable pub run_loop : Option ℕ → List (Tick B R) → Action (Engine F S B R) (Option String)
    run_loop max_cycles ticks = do
      reason ← loop max_cycles 0 ticks
      for_some wind_up reason
      pure reason

    unfoldable pub run : Option ℕ → List (Tick B R) → Action (Engine F S B R) (Option String)
    run max_cycles ticks = do
      modify reset_run
      equity ← ask_broker b.equity
      modify (λ e. record e { peak_equity = equity })
      seeded ← seed_from b.get_account_summary
      if seeded
          then (store_start equity >> run_loop max_cycles ticks)
          else pure (some "not started")
