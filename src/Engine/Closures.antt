-- ===== src/Engine/Closures.antt =====
-- How the engine finds out which trades the broker has closed, closes those that the strategy trims,
-- and sets a trailing stop late: `_check_closures`, `_realized_pnl_from_entry`,
-- `_check_levels_to_close`, `_check_deferred_trailing_stop` and `_run_fast_poll`
-- (engine/trading_engine.py).
use aurex_trade.Prelude.{
  ℕ, String, str_eq, not, ◌&&◌, Option, none, some, List, [], ◌∷◌, ◌++◌, ◌==◌, if◌then◌else◌,
  Result, ok, err, filter,
}
use aurex_trade.Prelude.Float.{Float, Format, eq, nought, ◌⊖◌, ◌⊗◌}
use aurex_trade.Prelude.Dict.{Dict, lookup, erase}
use aurex_trade.Prelude.Text.{concat}
use aurex_trade.Prelude.Action.{gets, modify, attempt, done, when, for_some, each, ◌>>=◌, ◌>>◌}
use aurex_trade.Domain.Enums.{is_buy}
use aurex_trade.Domain.Models.{OpenBrokerTrade, ClosedTradeInfo}
use aurex_trade.Engine.Ports.{StrategyPort, BrokerPort}
use aurex_trade.Engine.State.{
  TradeEntry, Method, ask_broker, tell, log_event, mark_trade, record_ledger, release_key, signed,
}
use aurex_trade.Engine.Fills.{ids_of, contains_id}

abbrev pub or_else : {A : Type 0} → Option A → Option A → Option A
or_else none o = o
or_else (some a) o = some a

abbrev pub get_or : {A : Type 0} → A → Option A → A
get_or d none = d
get_or d (some a) = a

-- the mapped trades that are neither open nor skipped
unfoldable pub vanished : List ℕ → List ℕ → Dict String ℕ → Dict String ℕ
vanished open_ids skip = filter (λ m. not (contains_id m.1 skip) && not (contains_id m.1 open_ids))

module _ {F : Type 0} ⦃f : Float F⦄ where
  -- with the last price as the first argument
  unfoldable pub realized_pnl_from_entry : Option F → TradeEntry F → Option F
  realized_pnl_from_entry last entry = elim (or_else entry.stop_loss last) [
    | none ↦ none
    | some exit_price ↦ some (
        if is_buy entry.side
        then (exit_price ⊖ entry.entry_price) ⊗ entry.quantity
        else (entry.entry_price ⊖ exit_price) ⊗ entry.quantity)
  ]

  unfoldable pub closure_pnl : Option F → Option (TradeEntry F) → Option F
  closure_pnl last none = none
  closure_pnl last (some entry) = realized_pnl_from_entry last entry

  -- the price of a closure, and what it is taken from
  unfoldable pub closure_basis : Option F → Option F → F × String
  closure_basis (some stop) last = (stop, "stop_price")
  closure_basis none (some price) = (price, "last_price")
  closure_basis none none = (nought, "unknown")

abbrev pub entry_stop : {F : Type 0} → Option (TradeEntry F) → Option F
entry_stop none = none
entry_stop (some entry) = entry.stop_loss

abbrev pub pnl_label : {F : Type 0} ⦃f : Float F⦄ ⦃w : Format F⦄ → Option F → String
pnl_label none = "?"
pnl_label (some x) = signed x

module _ {F S B R : Type 0} where
  unfoldable pub append_pnl : F → Method F S B R
  append_pnl pnl = modify (λ e. record e { trade_pnls = e.trade_pnls ++ (pnl ∷ []) })

  unfoldable pub forget_entry : ℕ → Method F S B R
  forget_entry id = modify (λ e. record e { trade_entry = erase ◌==◌ id e.trade_entry })

  unfoldable pub unmap_trade : String → Method F S B R
  unmap_trade key = modify (λ e. record e { grid_trade_map = erase str_eq key e.grid_trade_map })

module _ {F S B R : Type 0} ⦃f : Float F⦄ ⦃w : Format F⦄ ⦃s : StrategyPort F S⦄ where
  -- the body of the loop over the vanished trades
  unfoldable pub close_vanished : String × ℕ → Method F S B R
  close_vanished (key, id) = do
    entry ← gets (λ e. lookup ◌==◌ id e.trade_entry)
    last ← gets (λ e. e.last_price)
    forget_entry id
    let pnl = closure_pnl last entry
    let (close_price, basis) = closure_basis (entry_stop entry) last
    unmap_trade key
    for_some append_pnl pnl
    tell (s.report_trade_closed key (get_or nought pnl) "close_sl")
    release_key key
    mark_trade close_price "close_sl" nought none none id
    log_event "close_sl" (
        concat
          ("SL @ " ∷ w.fixed 2 close_price ∷ " (#" ∷ w.int_text id ∷ ") P&L " ∷ pnl_label pnl ∷ []))
    record_ledger "stop_out" pnl basis key id

  unfoldable pub check_closures : List (OpenBrokerTrade F) → List ℕ → Method F S B R
  check_closures open_trades skip = do
    gone ← gets (λ e. vanished (ids_of open_trades) skip e.grid_trade_map)
    each close_vanished gone

  module _ ⦃b : BrokerPort F B⦄ where
    -- an order that still rests under a trimmed key
    unfoldable pub cancel_resting : String → Option ℕ → Method F S B R
    cancel_resting key none = done
    cancel_resting key (some order_id) = do
      modify (λ e. record e {
        pending_order_map = erase str_eq key e.pending_order_map;
        pending_order_meta = erase str_eq key e.pending_order_meta;
      })
      outcome ← attempt (ask_broker (b.cancel_pending_order order_id))
      done

    unfoldable pub trim_closed : String → ℕ → Result (Option (ClosedTradeInfo F)) → Method F S B R
    trim_closed key id (err why) = done
    trim_closed key id (ok details) = do
      unmap_trade key
      forget_entry id
      let pnl : Option F = elim details [ none ↦ none | some d ↦ some d.realized_pnl ]
      for_some (λ x. when (not (eq x nought)) (append_pnl x)) pnl
      tell (s.report_trade_closed key (get_or nought pnl) "close_trim")
      log_event "trim" (
          concat (
            "Level trimmed for margin: "
            ∷ key
            ∷ " (#"
            ∷ w.int_text id
            ∷ ") P&L "
            ∷ pnl_label pnl
            ∷ []))
      record_ledger "trim" pnl (elim pnl [ none ↦ "unknown" | some x ↦ "exact" ]) key id

    unfoldable pub trim_level : String → Method F S B R
    trim_level key = do
      order ← gets (λ e. lookup str_eq key e.pending_order_map)
      cancel_resting key order
      trade ← gets (λ e. lookup str_eq key e.grid_trade_map)
      for_some
          (λ id. attempt (ask_broker (b.close_trade id)) >>= λ outcome. trim_closed key id outcome)
          trade

    unfoldable pub check_levels_to_close : Method F S B R
    check_levels_to_close = do
      keys ← gets (λ e. (s.get_levels_to_close e.strategy).0)
      tell (λ t. (s.get_levels_to_close t).1)
      each trim_level keys
