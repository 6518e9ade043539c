-- ===== src/Engine/Guarded/Runs.antt =====
-- A whole run of a guarded engine.
use aurex_trade.Prelude.{
  ℕ, zero, String, ◌≡◌, refl, Option, none, some, List, [], ◌∷◌, Result, ok, err, All,
}
use aurex_trade.Prelude.Float.{Float, Format, Math}
use aurex_trade.Prelude.Action.{Action}
use aurex_trade.Prelude.Action.Keeps.{Keeps, Keeps-bind, Keeps-attempt, Keeps-modify}
use aurex_trade.Domain.Models.{Order}
use aurex_trade.Risk.{RiskEngine}
use aurex_trade.Engine.Ports.{BrokerPort, StrategyPort, RepositoryPort, AccountSummary}
use aurex_trade.Engine.State.{Engine, ask_broker}
use aurex_trade.Engine.Poll.{run_fast_poll}
use aurex_trade.Engine.Cycle.{run_strategy_cycle}
use aurex_trade.Engine.Loop.{
  Tick, take_tick, reset_run, count_cycle, end_run, seed_balances, seed_result, seed_from,
  log_summary, balance_from, store_start, finish, wind_up, due_cycle, round, loop, run_loop, run,
}
use aurex_trade.Engine.Guarded.{BrokerKeeps, IsGuarded, guarded_rules, ask_broker-IsGuarded}
use aurex_trade.Engine.Guarded.Opposite.{LegsAllowed}
use aurex_trade.Engine.Guarded.Polling.{run_fast_poll-IsGuarded}
use aurex_trade.Engine.Guarded.Cycles.{EntriesAllowed, run_strategy_cycle-IsGuarded}

-- Between two rounds of the loop the broker keeps `P` by itself.
abbrev pub KeptBetween : {B R : Type 0} → (B → Type 0) → Tick B R → Type 0
KeptBetween {B} P t = (x : B) → P x → P (t.broker x)

module _ {F S B R : Type 0} {r : RiskEngine F} {P : B → Type 0} ⦃f : Float F⦄ ⦃w : Format F⦄
    ⦃m : Math F⦄ ⦃s : StrategyPort F S⦄ ⦃b : BrokerPort F B⦄ ⦃rp : RepositoryPort F R⦄
    {Allowed : Order F → Type 0} (laws : BrokerKeeps P Allowed) where
  equity_ask : (u : Unit {0}) → Keeps (IsGuarded F S B R r P) (ask_broker b.equity)
  equity_ask u = ask_broker-IsGuarded _ laws.equity

  take_tick-IsGuarded :
      (t : Tick B R) (e : Engine F S B R)
      → KeptBetween P t
      → IsGuarded F S B R r P e
      → IsGuarded F S B R r P (take_tick t e)
  unfolding take_tick
  take_tick-IsGuarded t e k h = record { settings = h.settings; broker_ok = k e.broker h.broker_ok }

  seed_result-IsGuarded :
      (outcome : Result (AccountSummary F)) → Keeps (IsGuarded F S B R r P) (seed_result outcome)
  unfolding seed_result end_run seed_balances
  seed_result-IsGuarded (err why) = search guarded_rules
  seed_result-IsGuarded (ok x) = search guarded_rules

  seed_from-IsGuarded :
      (source : Option (Action B (AccountSummary F)))
      → ((read : Action B (AccountSummary F)) → source ≡ some read → Keeps P read)
      → Keeps (IsGuarded F S B R r P) (seed_from source)
  unfolding seed_from
  seed_from-IsGuarded none k = search guarded_rules
  seed_from-IsGuarded (some read) k =
      Keeps-bind _ _ (Keeps-attempt _ (ask_broker-IsGuarded read (k read refl)))
        λ outcome. seed_result-IsGuarded outcome

  balance_from-IsGuarded :
      (source : Option (Action B (AccountSummary F)))
      → ((read : Action B (AccountSummary F)) → source ≡ some read → Keeps P read)
      → Keeps (IsGuarded F S B R r P) (balance_from source)
  unfolding balance_from
  balance_from-IsGuarded none k = search guarded_rules
  balance_from-IsGuarded (some read) k =
      Keeps-bind _ _ (ask_broker-IsGuarded read (k read refl)) λ summary. search guarded_rules

  read_final : (u : Unit {0}) → Keeps (IsGuarded F S B R r P) (balance_from b.get_account_summary)
  read_final u = balance_from-IsGuarded _ laws.get_account_summary

  seed_start : (u : Unit {0}) → Keeps (IsGuarded F S B R r P) (seed_from b.get_account_summary)
  seed_start u = seed_from-IsGuarded _ laws.get_account_summary

  log_summary-IsGuarded : Keeps (IsGuarded F S B R r P) log_summary
  unfolding log_summary
  log_summary-IsGuarded = search (guarded_rules, equity_ask, laws.get_positions) depth 12

  store_start-IsGuarded : (equity : F) → Keeps (IsGuarded F S B R r P) (store_start equity)
  unfolding store_start
  store_start-IsGuarded equity = search guarded_rules depth 12

  wind_up-IsGuarded : (reason : String) → Keeps (IsGuarded F S B R r P) (wind_up reason)
  unfolding wind_up finish end_run
  wind_up-IsGuarded reason = search (guarded_rules, equity_ask, read_final) depth 16

  module _ (legs : LegsAllowed F S B R r Allowed)
      (entries : EntriesAllowed F S B R r P Allowed) where
    cycle_kept : (u : Unit {0}) → Keeps (IsGuarded F S B R r P) run_strategy_cycle
    cycle_kept u = run_strategy_cycle-IsGuarded laws (λ o allowed. legs) entries

    poll_kept : (u : Unit {0}) → Keeps (IsGuarded F S B R r P) run_fast_poll
    poll_kept u = run_fast_poll-IsGuarded laws legs

    due_cycle-IsGuarded : Keeps (IsGuarded F S B R r P) due_cycle
    unfolding due_cycle count_cycle
    due_cycle-IsGuarded = search (guarded_rules, cycle_kept, log_summary-IsGuarded) depth 12

    round-IsGuarded :
        (last : ℕ) (t : Tick B R) → KeptBetween P t → Keeps (IsGuarded F S B R r P) (round last t)
    unfolding round
    round-IsGuarded last t k =
        Keeps-bind _ _ (Keeps-modify _ (λ e h. take_tick-IsGuarded t e k h))
          λ u. search (guarded_rules, poll_kept, due_cycle-IsGuarded) depth 12

    loop-IsGuarded :
        (limit : Option ℕ) (last : ℕ) (ts : List (Tick B R))
        → All (KeptBetween P) ts
        → Keeps (IsGuarded F S B R r P) (loop limit last ts)
    unfolding loop
    loop-IsGuarded limit last [] k = search guarded_rules
    loop-IsGuarded limit last (t ∷ ts) k =
        search
          (
            guarded_rules,
            λ (u : Unit {0}). round-IsGuarded last t k.0,
            λ (n : ℕ). loop-IsGuarded limit n ts k.1,
          )
          depth 12

    run_loop-IsGuarded :
        (limit : Option ℕ) (ts : List (Tick B R))
        → All (KeptBetween P) ts
        → Keeps (IsGuarded F S B R r P) (run_loop limit ts)
    unfolding run_loop
    run_loop-IsGuarded limit ts k =
        Keeps-bind _ _ (loop-IsGuarded limit zero ts k)
          λ reason. search (guarded_rules, wind_up-IsGuarded)

    pub run-IsGuarded :
        (limit : Option ℕ) (ts : List (Tick B R))
        → All (KeptBetween P) ts
        → Keeps (IsGuarded F S B R r P) (run limit ts)
    unfolding run reset_run
    run-IsGuarded limit ts k =
        search
          (
            guarded_rules,
            equity_ask,
            seed_start,
            store_start-IsGuarded,
            λ (u : Unit {0}). run_loop-IsGuarded limit ts k,
          )
          depth 14
