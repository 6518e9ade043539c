-- ===== src/Engine/Breaker/Held.antt =====
-- What the closing of all trades leaves alone while the broker goes on reporting open trades.
use aurex_trade.Prelude.{
  ℕ, ◌+◌, String, ◌≡◌, refl, Option, none, some, List, [], ◌∷◌, Result, ok, err, length, leb, not,
  ◌==◌, Bool-cases, inl, inr,
}
use aurex_trade.Prelude.Float.{Float, Format, eq, nought}
use aurex_trade.Prelude.Dict.{Dict, lookup}
use aurex_trade.Prelude.Action.{Action, ◌>>=◌}
use aurex_trade.Prelude.Action.Keeps.{Keeps, keeps_rules}
use aurex_trade.Domain.Models.{Order, OpenBrokerTrade, ClosedTradeInfo}
use aurex_trade.Engine.Ports.{BrokerPort, StrategyPort}
use aurex_trade.Engine.State.{Engine, ask_broker, record_ledger, text_or}
use aurex_trade.Engine.Closures.{append_pnl}
use aurex_trade.Engine.CloseAll.{
  keys_by_id, count_failure, schedule_retry, log_close_all_pnl, close_outcome, close_each,
  confirm_closed, no_trades_left, close_open_trades, liquidate,
}
use aurex_trade.Engine.Guarded.{BrokerKeeps}

abbrev pub AnyOrder : {F : Type 0} → Order F → Type 0
AnyOrder o = Unit

-- The broker goes on reporting open trades.
pub record GoesOn (F : Type 0) {B : Type 0} ⦃b : BrokerPort F B⦄ (Q : B → Type 0) : Type 0 where
  pub calls : BrokerKeeps Q (AnyOrder {F = F})
  pub reports :
      (symbol : String) (x : B)
      → Q x
      → (t : OpenBrokerTrade F) × (ts : List (OpenBrokerTrade F)) × ((b.get_open_trades symbol x).0
          ≡ ok (t ∷ ts))

-- `e` has what `d` has of the grid and of the sessions, and the same failures but for `n`.
pub record IsHeld {F S B R : Type 0} (Q : B → Type 0) (d : Engine F S B R) (n : ℕ)
    (e : Engine F S B R) : Type 0 where
  pub broker_ok : Q e.broker
  pub strategy_same : e.strategy ≡ d.strategy
  pub map_same : e.grid_trade_map ≡ d.grid_trade_map
  pub history_same : e.session_history ≡ d.session_history
  pub failures : e.close_all_failed_count ≡ n

module _ {F S B R : Type 0} {Q : B → Type 0} {d : Engine F S B R} {n : ℕ} where
  pub ask_broker-IsHeld :
      {A : Type 0} (m : Action B A) → Keeps Q m → Keeps (IsHeld Q d n) (ask_broker m)
  unfolding ask_broker
  ask_broker-IsHeld m k = record {
    at = λ e h. record {
      broker_ok = k.at e.broker h.broker_ok;
      strategy_same = h.strategy_same;
      map_same = h.map_same;
      history_same = h.history_same;
      failures = h.failures;
    };
  }

  pub IsHeld-same :
      (e c : Engine F S B R)
      → c.broker ≡ e.broker
      → c.strategy ≡ e.strategy
      → c.grid_trade_map ≡ e.grid_trade_map
      → c.session_history ≡ e.session_history
      → c.close_all_failed_count ≡ e.close_all_failed_count
      → IsHeld Q d n e
      → IsHeld Q d n c
  IsHeld-same e c p q i j k h = record {
    broker_ok = rw p h.broker_ok;
    strategy_same = rw q h.strategy_same;
    map_same = rw i h.map_same;
    history_same = rw j h.history_same;
    failures = rw k h.failures;
  }

  record_ledger-IsHeld :
      (kind : String) (pnl : Option F) (basis key : String) (id : ℕ)
      → Keeps (IsHeld Q d n) (record_ledger kind pnl basis key id)
  unfolding record_ledger
  record_ledger-IsHeld kind pnl basis key id = search (keeps_rules, IsHeld-same)

  append_pnl-IsHeld : (pnl : F) → Keeps (IsHeld Q d n) (append_pnl pnl)
  unfolding append_pnl
  append_pnl-IsHeld pnl = search (keeps_rules, IsHeld-same)

ruleset held_rules =
    (keeps_rules, IsHeld-same, ask_broker-IsHeld, record_ledger-IsHeld, append_pnl-IsHeld)

module _ {F S B R : Type 0} ⦃f : Float F⦄ ⦃w : Format F⦄ ⦃s : StrategyPort F S⦄
    ⦃b : BrokerPort F B⦄ where
  close_outcome-returns :
      (failed : ℕ) (key : String) (id : ℕ) (outcome : Result (Option (ClosedTradeInfo F)))
      (e : Engine F S B R)
      → (k : ℕ) × ((close_outcome failed key id outcome e).0 ≡ ok k)
  unfolding close_outcome log_close_all_pnl ◌>>=◌ record_ledger append_pnl
  close_outcome-returns failed key id (err why) e = (failed + 1, refl)
  close_outcome-returns failed key id (ok none) e = (failed, refl)
  close_outcome-returns failed key id (ok (some x)) e =
      elim (Bool-cases (not (eq x.realized_pnl nought))) [
        | inl h ↦ (failed, rw h refl)
        | inr h ↦ (failed, rw h refl)
      ]

  -- The loop over the trades catches every exception.
  pub close_each-returns :
      (keys : Dict ℕ String) (ts : List (OpenBrokerTrade F)) (failed : ℕ) (e : Engine F S B R)
      → (k : ℕ) × ((close_each keys ts failed e).0 ≡ ok k)
  unfolding close_each ◌>>=◌ ask_broker
  close_each-returns keys [] failed e = (failed, refl)
  close_each-returns keys (t ∷ ts) failed e =
      let c = b.close_trade t.broker_trade_id e.broker in
      let key = text_or "" (lookup ◌==◌ t.broker_trade_id keys) in
      let e1 : Engine F S B R = record e { broker = c.1 } in
      let (k, h) = close_outcome-returns failed key t.broker_trade_id c.0 e1 in
      let (j, g) =
        close_each-returns keys ts k (close_outcome failed key t.broker_trade_id c.0 e1).1 in
      (j, rw h g)

module _ {F S B R : Type 0} {Q : B → Type 0} ⦃f : Float F⦄ ⦃w : Format F⦄ ⦃s : StrategyPort F S⦄
    ⦃b : BrokerPort F B⦄ (on : GoesOn F Q) {d : Engine F S B R} {n : ℕ} where
  close_outcome-IsHeld :
      (failed : ℕ) (key : String) (id : ℕ) (outcome : Result (Option (ClosedTradeInfo F)))
      → Keeps (IsHeld Q d n) (close_outcome failed key id outcome)
  unfolding close_outcome log_close_all_pnl
  close_outcome-IsHeld failed key id (err why) = search held_rules
  close_outcome-IsHeld failed key id (ok none) = search held_rules
  close_outcome-IsHeld failed key id (ok (some x)) = search held_rules

  pub close_each-IsHeld :
      (keys : Dict ℕ String) (ts : List (OpenBrokerTrade F)) (failed : ℕ)
      → Keeps (IsHeld Q d n) (close_each keys ts failed)
  unfolding close_each
  close_each-IsHeld keys [] failed = search held_rules
  close_each-IsHeld keys (t ∷ ts) failed =
      search (held_rules, on.calls.close_trade, close_outcome-IsHeld, close_each-IsHeld keys ts)
        depth 12

  no_trades_left-IsHeld :
      (reason : String) (closed : ℕ) (t : OpenBrokerTrade F) (ts : List (OpenBrokerTrade F))
      → (e : Engine F S B R) → IsHeld Q d n e
      → IsHeld Q d (n + 1) (no_trades_left reason closed (t ∷ ts) e).1
  unfolding no_trades_left count_failure ◌>>=◌
  no_trades_left-IsHeld reason closed t ts e h = record {
    broker_ok = h.broker_ok;
    strategy_same = h.strategy_same;
    map_same = h.map_same;
    history_same = h.history_same;
    failures = rw h.failures refl;
  }

  confirm_closed-IsHeld :
      (reason : String) (closed failed : ℕ) (e : Engine F S B R)
      → IsHeld Q d n e
      → IsHeld Q d (n + 1) (confirm_closed reason closed failed e).1
  unfolding confirm_closed count_failure schedule_retry ◌>>=◌ ask_broker
  confirm_closed-IsHeld reason closed failed e h = elim (Bool-cases (leb 1 failed)) [
    | inl c ↦ rw c (record {
      broker_ok = h.broker_ok;
      strategy_same = h.strategy_same;
      map_same = h.map_same;
      history_same = h.history_same;
      failures = rw h.failures refl;
    })
    | inr c ↦
        let (t, ts, r) = on.reports e.symbol e.broker h.broker_ok in
        rw (c, r)
          (no_trades_left-IsHeld reason closed t ts _
            ((ask_broker-IsHeld _ (on.calls.get_open_trades e.symbol)).at e h))
  ]

  -- A request that goes through to the broker counts one failure more, and leaves the strategy, the
  -- grid and the sessions as they are.
  pub liquidate-IsHeld :
      (reason : String) (e : Engine F S B R)
      → IsHeld Q d n e
      → IsHeld Q d (n + 1) (liquidate reason e).1
  unfolding liquidate close_open_trades ◌>>=◌ ask_broker
  liquidate-IsHeld reason e h =
      let x = (b.cancel_all_orders e.symbol e.broker).1 in
      let hx = (on.calls.cancel_all_orders e.symbol).at e.broker h.broker_ok in
      let (t, ts, r) = on.reports e.symbol x hx in
      let y = (b.get_open_trades e.symbol x).1 in
      let e1 : Engine F S B R = record e { close_all_next_retry_at = none; broker = y } in
      let h1 : IsHeld Q d n e1 = record {
        broker_ok = (on.calls.get_open_trades e.symbol).at x hx;
        strategy_same = h.strategy_same;
        map_same = h.map_same;
        history_same = h.history_same;
        failures = h.failures;
      } in
      let keys = keys_by_id [] e.grid_trade_map in
      let (k, g) = close_each-returns keys (t ∷ ts) 0 e1 in
      rw (r, g)
        (confirm_closed-IsHeld reason (length (t ∷ ts)) k _
          ((close_each-IsHeld keys (t ∷ ts) 0).at e1 h1))
