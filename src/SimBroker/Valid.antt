-- ===== src/SimBroker/Valid.antt =====
-- The invariant of the simulated broker (adapters/backtest/broker.py): ids are unique, and a trade
-- that was closed is not open.
use aurex_trade.Prelude.{
  ℕ, ◌+◌, ◌<◌, ◌≡◌, refl, String, Bool, true, false, ◌&&◌, List, [], ◌∷◌, arith, ◌==◌, ok_state, ok,
  find, filter, Option-cases, Bool-cases, inl, inr,
}
use aurex_trade.Prelude.Float.{Float}
use aurex_trade.Prelude.Keys.{Below, Below-filter, Below-of_find}
use aurex_trade.Domain.Enums.{OrderType, OrderSide}
use aurex_trade.Domain.Models.{BarData, Order, Trade, ClosedTradeInfo}
use aurex_trade.SimBroker.State.{
  Rng, PendingEntry, OpenTrade, Broker, trade_id, init, apply_friction, pay_commission,
}
use aurex_trade.SimBroker.Position.{update_position}
use aurex_trade.SimBroker.Orders.{
  place_pending_order, book_close, fill_market_order, place, place_order, close_trade,
  cancel_pending_order, cancel_all_orders, opposite,
}
use aurex_trade.SimBroker.Bar.{
  is_stopped, is_empty, close_stopped, close_all_stopped, fill_entry, fill_entries, process_bar,
}
use aurex_trade.SimBroker.Book.{IsBook, opened, queued, unqueued, unqueued_all, settled_trade}

module _ {F R : Type 0} where
  -- The books of the broker are kept well.
  abbrev pub IsValid : Broker F R → Type 0
  IsValid b = IsBook b.next_id b.open_trades b.pending_orders b.closed_trades

  module _ ⦃f : Float F⦄ where
    -- A new broker is valid.
    pub init-IsValid :
        (initial spread slippage commission : F) (rng : R) (n : ℕ) (grid : Bool)
        → IsValid (init initial spread slippage commission rng n grid)
    unfolding init
    init-IsValid initial spread slippage commission rng n grid = ground arith

    place_pending_order-IsValid :
        (bar : BarData F) (order : Order F) (is_stop : Bool) (b : Broker F R)
        → IsValid b
        → IsValid (place_pending_order bar order is_stop b).1
    unfolding place_pending_order
    place_pending_order-IsValid bar order is_stop b v =
        queued b.next_id b.open_trades b.pending_orders b.closed_trades v _ _ (omega arith)
          (omega arith)

    book_close-IsValid :
        (reason : String) (t : OpenTrade F) (price : F) (b : Broker F R)
        → t.broker_trade_id < b.next_id
        → IsValid b
        → IsValid (book_close reason t price b).1
    unfolding book_close
    book_close-IsValid reason t price b below v =
        settled_trade b.next_id b.open_trades b.pending_orders b.closed_trades v t _ below

    update_position-IsValid :
        (symbol : String) (side : OrderSide) (quantity price : F) (b : Broker F R)
        → IsValid b
        → IsValid (update_position symbol side quantity price b)
    unfolding update_position
    update_position-IsValid symbol side quantity price b v = v

    module _ ⦃g : Rng F R⦄ where
      fill_market_order-IsValid :
          (bar : BarData F) (order : Order F) (b : Broker F R)
          → IsValid b
          → IsValid (fill_market_order bar order b).1
      unfolding fill_market_order apply_friction pay_commission update_position
      fill_market_order-IsValid bar order b v =
          let next = b.next_id in
          elim (Bool-cases b.grid_mode) [
            | inl e ↦ rw e (
                opened next b.open_trades b.pending_orders b.closed_trades v _ (next + 1 + 1)
                  (omega arith) (omega arith))
            | inr e ↦ rw e (
                opened next b.open_trades b.pending_orders b.closed_trades v _ (next + 1 + 1)
                  (omega arith) (omega arith))
          ]

      place-IsValid :
          (type : OrderType) (bar : BarData F) (order : Order F) (b : Broker F R)
          → IsValid b
          → IsValid (place type bar order b).1
      unfolding place
      place-IsValid OrderType.limit bar order b v = place_pending_order-IsValid bar order false b v
      place-IsValid OrderType.stop bar order b v = place_pending_order-IsValid bar order true b v
      place-IsValid OrderType.market bar order b v = fill_market_order-IsValid bar order b v

      -- An order that is accepted keeps a valid broker valid, whatever its type.
      pub place_order-IsValid :
          (order : Order F) (b : Broker F R) {t : Trade F} {b' : Broker F R}
          → IsValid b
          → place_order order b ≡ ok (t, b')
          → IsValid b'
      unfolding place_order
      place_order-IsValid order b v e = elim (Option-cases b.current_bar) [
        | inl none_set ↦ cc (rw (none_set, place_order) at e)
        | inr (bar, set) ↦
            ok_state IsValid (place order.order_type bar order b) (rw (set, place_order) at e)
              (place-IsValid order.order_type bar order b v)
      ]

      apply_friction-IsValid :
          (side : OrderSide) (base : F) (b : Broker F R)
          → IsValid b
          → IsValid (apply_friction side base b).1
      unfolding apply_friction
      apply_friction-IsValid side base b v = v

      next_id-apply_friction :
          (side : OrderSide) (base : F) (b : Broker F R)
          → (apply_friction side base b).1.next_id ≡ b.next_id
      unfolding apply_friction
      next_id-apply_friction side base b = refl

      -- Closing a trade, where it goes through, keeps a valid broker valid.
      pub close_trade-IsValid :
          (id : ℕ) (b : Broker F R) {info : ClosedTradeInfo F} {b' : Broker F R}
          → IsValid b
          → close_trade id b ≡ ok (info, b')
          → IsValid b'
      unfolding close_trade
      close_trade-IsValid id b v e =
          elim (Option-cases (find (λ t. t.broker_trade_id == id) b.open_trades)) [
            | inl unknown ↦ cc (rw (unknown, close_trade) at e)
            | inr (t, found) ↦ elim (Option-cases b.current_bar) [
              | inl none_set ↦ cc (rw (found, none_set, close_trade) at e)
              | inr (bar, set) ↦
                  let (price, b1) = apply_friction (opposite t.side) bar.close b in
                  ok_state IsValid (book_close "MARKET_CLOSE" t price b1)
                    (rw (found, set, close_trade) at e)
                    (book_close-IsValid "MARKET_CLOSE" t price b1
                      (rw next_id-apply_friction
                        (Below-of_find trade_id b.next_id _ b.open_trades t v.open_below found))
                      (apply_friction-IsValid (opposite t.side) bar.close b v))
            ]
          ]

      close_stopped-IsValid :
          (bar : BarData F) (t : OpenTrade F) (b : Broker F R)
          → t.broker_trade_id < b.next_id
          → IsValid b
          → IsValid (close_stopped bar t b).1
      unfolding close_stopped apply_friction
      close_stopped-IsValid bar t b below v = book_close-IsValid "STOP_LOSS" t _ _ below v

      next_id-close_stopped :
          (bar : BarData F) (t : OpenTrade F) (b : Broker F R)
          → (close_stopped bar t b).1.next_id ≡ b.next_id
      unfolding close_stopped apply_friction book_close
      next_id-close_stopped bar t b = refl

      close_all_stopped-IsValid :
          (bar : BarData F) (ts : List (OpenTrade F)) (b : Broker F R)
          → Below trade_id b.next_id ts
          → IsValid b
          → IsValid (close_all_stopped bar ts b).1
      unfolding close_all_stopped
      close_all_stopped-IsValid bar [] b below v = v
      close_all_stopped-IsValid bar (t ∷ ts) b below v =
          close_all_stopped-IsValid bar ts (close_stopped bar t b).1
            (rw next_id-close_stopped below.1) (close_stopped-IsValid bar t b below.0 v)

      fill_entry-IsValid :
          (bar : BarData F) (p : PendingEntry F) (b : Broker F R)
          → IsValid b
          → IsValid (fill_entry bar p b).1
      unfolding fill_entry apply_friction pay_commission
      fill_entry-IsValid bar p b v =
          let next = b.next_id in
          unqueued (next + 1) _ b.pending_orders b.closed_trades
            (opened next b.open_trades b.pending_orders b.closed_trades v _ (next + 1) (omega arith)
              (omega arith))
            (λ q. q.broker_order_id == p.broker_order_id)

      fill_entries-IsValid :
          (bar : BarData F) (ps : List (PendingEntry F)) (b : Broker F R)
          → IsValid b
          → IsValid (fill_entries bar ps b).1
      unfolding fill_entries
      fill_entries-IsValid bar [] b v = v
      fill_entries-IsValid bar (p ∷ ps) b v =
          fill_entries-IsValid bar ps (fill_entry bar p b).1 (fill_entry-IsValid bar p b v)

      -- Processing a bar keeps a valid broker valid: no two open trades share an id, nor do two
      -- resting orders, all ids were given out before, and no closed trade is open.
      pub process_bar-IsValid :
          (bar : BarData F) (b : Broker F R) → IsValid b → IsValid (process_bar bar b).2
      unfolding process_bar
      process_bar-IsValid bar b v =
          let after_stops =
            close_all_stopped-IsValid bar (filter (is_stopped bar) b.open_trades) b
              (Below-filter trade_id (is_stopped bar) b.next_id b.open_trades v.open_below) v in
          let after_fills = fill_entries-IsValid bar _ _ after_stops in
          elim (Bool-cases (is_empty b.open_trades && is_empty b.pending_orders)) [
            | inl idle ↦ rw idle v
            | inr busy ↦ rw busy after_fills
          ]

  -- Cancelling keeps the broker valid.
  pub cancel_pending_order-IsValid :
      (id : ℕ) (b : Broker F R) → IsValid b → IsValid (cancel_pending_order id b).1
  unfolding cancel_pending_order
  cancel_pending_order-IsValid id b v =
      unqueued b.next_id b.open_trades b.pending_orders b.closed_trades v _

  pub cancel_all_orders-IsValid :
      (symbol : String) (b : Broker F R) → IsValid b → IsValid (cancel_all_orders symbol b).1
  unfolding cancel_all_orders
  cancel_all_orders-IsValid symbol b v =
      unqueued_all b.next_id b.open_trades b.pending_orders b.closed_trades v _
