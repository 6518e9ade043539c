-- ===== src/Engine/CloseAll.antt =====
-- The closing of all trades, with its circuit breaker: `_close_all_trades` and `_log_close_all_pnl`
-- (engine/trading_engine.py).
use aurex_trade.Prelude.{
  ℕ, ◌+◌, ◌-◌, ◌*◌, ◌^◌, String, Bool, false, not, Option, none, some, List, [], ◌∷◌, ◌++◌, ◌==◌,
  ltb, leb, if◌then◌else◌, Result, ok, err, length,
}
use aurex_trade.Prelude.Float.{Float, Format, eq, le, abs, nought, ◌⊖◌}
use aurex_trade.Prelude.Dict.{Dict, lookup, insert}
use aurex_trade.Prelude.Text.{concat, spaced}
use aurex_trade.Prelude.Action.{Action, pure, gets, modify, attempt, done, when, ◌>>=◌, ◌>>◌}
use aurex_trade.Domain.Models.{OpenBrokerTrade, ClosedTradeInfo}
use aurex_trade.Engine.Ports.{StrategyPort, BrokerPort, AccountSummary}
use aurex_trade.Engine.State.{Engine, Method, ask_broker, tell, log_event, record_ledger, text_or}
use aurex_trade.Engine.Closures.{append_pnl, or_else, get_or}

abbrev pub max_close_all_retries : ℕ
max_close_all_retries = 5

abbrev pub close_all_base_backoff : ℕ
close_all_base_backoff = 10

-- `{tid: key for key, tid in map.items()}`
unfoldable pub keys_by_id : Dict ℕ String → Dict String ℕ → Dict ℕ String
keys_by_id acc [] = acc
keys_by_id acc ((key, id) ∷ m) = keys_by_id (insert ◌==◌ id key acc) m

-- seconds until the next try, after `n` failures
unfoldable pub backoff : ℕ → ℕ
backoff n = close_all_base_backoff * 2 ^ (n - 1)

abbrev pub session_text : {F : Type 0} ⦃f : Float F⦄ ⦃w : Format F⦄ → ℕ → String → ℕ → F → String
session_text ⦃f⦄ ⦃w⦄ number reason closed pnl = concat (
    "Session #"
    ∷ w.int_text number
    ∷ " ended: "
    ∷ spaced reason
    ∷ " | "
    ∷ w.int_text closed
    ∷ " trades closed | P&L: "
    ∷ (if le nought pnl then "+$" else "-$")
    ∷ w.fixed 2 (if le nought pnl then pnl else abs pnl)
    ∷ [])

module _ {F S B R : Type 0} where
  -- the reset after all trades are closed
  unfoldable pub clear_grid : Engine F S B R → Engine F S B R
  clear_grid e = record e {
    close_all_failed_count = 0;
    close_all_next_retry_at = none;
    pending_order_map = [];
    pending_order_meta = [];
    grid_trade_map = [];
    trade_entry = [];
  }

  unfoldable pub count_failure : Engine F S B R → Engine F S B R
  count_failure e = record e { close_all_failed_count = e.close_all_failed_count + 1 }

  unfoldable pub schedule_retry : Engine F S B R → Engine F S B R
  schedule_retry e = record e {
    close_all_next_retry_at = some (e.clock + backoff e.close_all_failed_count);
  }

  -- whether a retry is due only later
  unfoldable pub is_waiting : Engine F S B R → Bool
  is_waiting e = elim e.close_all_next_retry_at [ none ↦ false | some at ↦ ltb e.clock at ]

module _ {F S B R : Type 0} ⦃f : Float F⦄ ⦃w : Format F⦄ ⦃s : StrategyPort F S⦄
    ⦃b : BrokerPort F B⦄ where
  unfoldable pub log_close_all_pnl : ℕ → String → Option (ClosedTradeInfo F) → Method F S B R
  log_close_all_pnl id key none = record_ledger "session_close" none "unknown" key id
  log_close_all_pnl id key (some details) =
      when (not (eq details.realized_pnl nought)) (append_pnl details.realized_pnl)
      >> record_ledger "session_close" (some details.realized_pnl) "exact" key id

  -- one round of the loop over the open trades: the number of failures goes up, or the closure is
  -- recorded
  unfoldable pub close_outcome :
      ℕ → String → ℕ → Result (Option (ClosedTradeInfo F)) → Action (Engine F S B R) ℕ
  close_outcome failed key id (err why) = pure (failed + 1)
  close_outcome failed key id (ok details) = log_close_all_pnl id key details >> pure failed

  unfoldable pub close_each :
      Dict ℕ String → List (OpenBrokerTrade F) → ℕ → Action (Engine F S B R) ℕ
  close_each keys [] failed = pure failed
  close_each keys (t ∷ ts) failed = do
    outcome ← attempt (ask_broker (b.close_trade t.broker_trade_id))
    count ←
        close_outcome failed (text_or "" (lookup ◌==◌ t.broker_trade_id keys)) t.broker_trade_id
          outcome
    close_each keys ts count

  -- the balance after the session, and the session's realized P&L by its change
  unfoldable pub settle_balance : Result (AccountSummary F) → Engine F S B R → Engine F S B R
  settle_balance (err why) e = e
  settle_balance (ok summary) e = record e {
    last_balance = some summary.balance;
    session_start_balance = some summary.balance;
  }

  unfoldable pub session_realized : Result (AccountSummary F) → Engine F S B R → Option F
  session_realized (err why) e = none
  session_realized (ok summary) e = elim e.session_start_balance [
    | none ↦ none
    | some start ↦ some (summary.balance ⊖ start)
  ]

  unfoldable pub session_pnl_from :
      Option (Action B (AccountSummary F)) → Action (Engine F S B R) (Option F)
  session_pnl_from none = pure none
  session_pnl_from (some read) = do
    outcome ← attempt (ask_broker read)
    realized ← gets (session_realized outcome)
    modify (settle_balance outcome)
    pure realized

  unfoldable pub end_session : String → ℕ → F → Engine F S B R → Engine F S B R
  end_session reason closed pnl e = record e {
    session_history =
        e.session_history
        ++ (record {
          session_number = length e.session_history + 1;
          started_at = get_or e.clock e.session_start_at;
          ended_at = e.clock;
          reason = reason;
          trades_closed = closed;
          realized_pnl = pnl;
        }
            ∷ []);
    session_start_at = none;
    grid_logged = false;
    session_trades_count = 0;
  }

  -- what follows the closing of all trades
  unfoldable pub complete_close_all : String → ℕ → Method F S B R
  complete_close_all reason closed = do
    modify clear_grid
    realized ← session_pnl_from b.get_account_summary
    own ← gets (λ e. s.session_realized_pnl e.strategy)
    let pnl = get_or nought (or_else realized own)
    modify (end_session reason closed pnl)
    number ← gets (λ e. length e.session_history)
    log_event "session_end" (session_text number reason closed pnl)
    tell s.notify_close_all_complete

  unfoldable pub no_trades_left : String → ℕ → List (OpenBrokerTrade F) → Method F S B R
  no_trades_left reason closed [] = complete_close_all reason closed
  no_trades_left reason closed (t ∷ ts) = modify count_failure

  -- the end of `_close_all_trades`: a failure is counted, or the broker is asked once more
  unfoldable pub confirm_closed : String → ℕ → ℕ → Method F S B R
  confirm_closed reason closed failed =
      if leb 1 failed
      then modify count_failure >> modify schedule_retry
      else (gets (λ e. e.symbol) >>= λ symbol.
          ask_broker (b.get_open_trades symbol) >>= λ remaining.
          no_trades_left reason closed remaining)

  unfoldable pub close_open_trades : String → List (OpenBrokerTrade F) → Method F S B R
  close_open_trades reason [] = modify clear_grid >> tell s.notify_close_all_complete
  close_open_trades reason (t ∷ ts) = do
    keys ← gets (λ e. keys_by_id [] e.grid_trade_map)
    failed ← close_each keys (t ∷ ts) 0
    confirm_closed reason (length (t ∷ ts)) failed

  unfoldable pub liquidate : String → Method F S B R
  liquidate reason = do
    modify (λ e. record e { close_all_next_retry_at = none })
    symbol ← gets (λ e. e.symbol)
    cancelled ← attempt (ask_broker (b.cancel_all_orders symbol))
    open_trades ← ask_broker (b.get_open_trades symbol)
    close_open_trades reason open_trades

  unfoldable pub close_all_trades : String → Method F S B R
  close_all_trades reason = do
    tripped ← gets (λ e. leb max_close_all_retries e.close_all_failed_count)
    waiting ← gets is_waiting
    if tripped
        then modify (λ e. record e { running = false })
        else if waiting
        then done
        else liquidate reason
