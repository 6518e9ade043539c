-- ===== src/Engine/Cycle.antt =====
-- The strategy cycle: `stop`, `_push_realized_pnl` and `_run_strategy_cycle`
-- (engine/trading_engine.py).
use aurex_trade.Prelude.{
  ℕ, zero, suc, ◌+◌, Bool, true, false, not, ◌&&◌, Option, none, some, List, [], ◌∷◌, ◌++◌, ◌==◌,
  leb, if◌then◌else◌, Result, ok, err, length, get_last?, is_some,
}
use aurex_trade.Prelude.Float.{Float, Format, nought, ◌⊖◌}
use aurex_trade.Prelude.Action.{
  Action, pure, gets, modify, attempt, when, for_some, each, ◌>>=◌, ◌>>◌,
}
use aurex_trade.Domain.Models.{BarData, Signal}
use aurex_trade.Engine.Ports.{StrategyPort, BrokerPort, RepositoryPort, AccountSummary}
use aurex_trade.Engine.State.{Engine, Method, day_of, ask_broker, ask_services, ask_strategy, tell}
use aurex_trade.Engine.Closures.{or_else, get_or}
use aurex_trade.Engine.Signals.{is_close_all, process_signal}

abbrev pub max_balance_read_failures : ℕ
max_balance_read_failures = 3

abbrev pub max_drain : ℕ
max_drain = 50

module _ {F S B R : Type 0} where
  -- the anchors of the balance, after a reading
  unfoldable pub anchor_balance : F → Engine F S B R → Engine F S B R
  anchor_balance balance e =
      let today = day_of e.clock in
      let same_day : Bool = elim e.balance_day [ none ↦ true | some d ↦ d == today ] in
      record e {
        last_balance = some balance;
        session_start_balance = or_else e.session_start_balance (some balance);
        day_start_balance =
            if same_day then or_else e.day_start_balance (some balance) else some balance;
        balance_day =
            if is_some e.day_start_balance
            then elim e.balance_day [ none ↦ none | some d ↦ some today ]
            else some today;
      }

  -- the first cycle of a grid: its number, its start, and the balance that it starts from
  unfoldable pub begin_session : Engine F S B R → Engine F S B R
  begin_session e = record e {
    session_seq = e.session_seq + 1;
    session_start_balance = or_else e.last_balance e.session_start_balance;
    grid_logged = true;
    session_start_at = or_else e.session_start_at (some e.clock);
  }

  unfoldable pub halt : Engine F S B R → Engine F S B R
  halt e = record e { running = false }

  unfoldable pub clear_pending : Engine F S B R → Engine F S B R
  clear_pending e = record e { pending_order_map = []; pending_order_meta = [] }

  unfoldable pub count_balance_failure : Engine F S B R → Engine F S B R
  count_balance_failure e = record e { balance_read_failures = e.balance_read_failures + 1 }

  unfoldable pub take_price : F → Engine F S B R → Engine F S B R
  take_price price e = record e { last_price = some price }

  unfoldable pub snapshot : F → F → Engine F S B R → Engine F S B R
  snapshot equity price e = record e {
    equity_history =
        e.equity_history ++ (record { timestamp = e.clock; equity = equity; price = price } ∷ []);
  }

module _ {F S B R : Type 0} ⦃b : BrokerPort F B⦄ where
  unfoldable pub stop : Method F S B R
  stop = do
    modify halt
    symbol ← gets (λ e. e.symbol)
    cancelled ← attempt (ask_broker (b.cancel_all_orders symbol))
    modify clear_pending

module _ {F S B R : Type 0} ⦃f : Float F⦄ ⦃s : StrategyPort F S⦄ where
  -- what the strategy is told of a balance
  unfoldable pub report_realized : F → Engine F S B R → Engine F S B R
  report_realized balance e = record e {
    strategy =
        s.set_realized_pnl (balance ⊖ get_or balance e.session_start_balance)
          (balance ⊖ get_or balance e.day_start_balance) e.strategy;
  }

  unfoldable pub push_realized_pnl : F → Method F S B R
  push_realized_pnl balance = modify (anchor_balance balance) >> modify (report_realized balance)

  unfoldable pub log_grid : Method F S B R
  log_grid = do
    due ← gets (λ e. not e.grid_logged && s.has_anchor e.strategy)
    when due (modify begin_session)

  -- one signal of the queue, with `rest` for those behind it
  unfoldable pub drained :
      Action (Engine F S B R) (List (Signal F))
      → Option (Signal F)
      → Action (Engine F S B R) (List (Signal F))
  drained rest none = pure []
  drained rest (some sig) =
      if is_close_all sig then pure (sig ∷ []) else (rest >>= λ sigs. pure (sig ∷ sigs))

  -- the signals that are queued behind the first one
  unfoldable pub drain : ℕ → List (BarData F) → Action (Engine F S B R) (List (Signal F))
  drain zero bars = pure []
  drain (suc n) bars =
      let rest = drain n bars in ask_strategy (s.generate bars) >>= λ next. drained rest next

  unfoldable pub all_signals :
      List (BarData F) → Signal F → Action (Engine F S B R) (List (Signal F))
  all_signals bars sig =
      if is_close_all sig
      then pure (sig ∷ [])
      else (drain max_drain bars >>= λ sigs. pure (sig ∷ sigs))

  module _ ⦃b : BrokerPort F B⦄ where
    -- whether the cycle goes on after the account was read
    unfoldable pub account_read : Result (AccountSummary F) → Action (Engine F S B R) Bool
    account_read (err why) = do
      modify count_balance_failure
      broken ← gets (λ e. leb max_balance_read_failures e.balance_read_failures)
      when broken stop
      pure false
    account_read (ok summary) = do
      modify (λ e. record e { balance_read_failures = 0 })
      tell (s.update_unrealized_pnl summary.unrealized_pnl)
      push_realized_pnl summary.balance
      pure true

    unfoldable pub feed_from : Option (Action B (AccountSummary F)) → Action (Engine F S B R) Bool
    feed_from none = tell (s.update_unrealized_pnl nought) >> pure true
    feed_from (some read) = attempt (ask_broker read) >>= λ outcome. account_read outcome

    module _ ⦃w : Format F⦄ ⦃r : RepositoryPort F R⦄ where
      unfoldable pub process_all : F → List (Signal F) → Method F S B R
      process_all close sigs = do
        symbol ← gets (λ e. e.symbol)
        user_id ← gets (λ e. e.user_id)
        position ← ask_broker (b.get_positions symbol)
        trades ← ask_services (r.get_trades_today symbol user_id)
        open_trades ← ask_broker (b.get_open_trades symbol)
        each (process_signal close position trades (length open_trades)) sigs

      unfoldable pub ask_signals : List (BarData F) → F → Method F S B R
      ask_signals bars close = do
        first ← ask_strategy (s.generate bars)
        log_grid
        for_some (λ sig. all_signals bars sig >>= λ sigs. process_all close sigs) first

      -- with the way to read the account, if there is one
      unfoldable pub cycle_with :
          Option (Action B (AccountSummary F)) → List (BarData F) → F → Method F S B R
      cycle_with source bars close = do
        modify (take_price close)
        equity ← ask_broker b.equity
        modify (snapshot equity close)
        going ← feed_from source
        when going (ask_signals bars close)

      unfoldable pub cycle_at : List (BarData F) → F → Method F S B R
      cycle_at bars close = cycle_with b.get_account_summary bars close

      unfoldable pub run_strategy_cycle : Method F S B R
      run_strategy_cycle = do
        symbol ← gets (λ e. e.symbol)
        count ← gets (λ e. e.bar_count)
        bars ← ask_services (r.get_latest_bars symbol count)
        for_some (λ bar. cycle_at bars bar.close) (get_last? bars)
