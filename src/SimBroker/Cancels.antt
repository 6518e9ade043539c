-- ===== src/SimBroker/Cancels.antt =====
-- Cancelling resting orders, and closing one trade (adapters/backtest/broker.py).
use aurex_trade.Prelude.{
  ℕ, ◌+◌, ◌≡◌, ◌≢◌, refl, subst, String, false, some, [], arith, ◌==◌, if◌then◌else◌, ok, err,
  length, find, not, filter_le, filter-filter-not, filter-filter-not_self, str_eq, eq_iff,
}
use aurex_trade.Prelude.Float.{Float, ◌⊕◌}
use aurex_trade.Prelude.Dict.{lookup-insert_self}
use aurex_trade.Prelude.Keys.{
  Lacks, erase_first-Lacks, any_of_Lacks, find_of_Lacks, key_of_find, length-erase_first,
}
use aurex_trade.Domain.Models.{BarData, ClosedTradeInfo}
use aurex_trade.SimBroker.State.{
  Rng, PendingEntry, OpenTrade, Broker, order_id, trade_id, apply_friction,
}
use aurex_trade.SimBroker.Orders.{
  book_close, opposite, close_trade, cancel_pending_order, cancel_all_orders,
}
use aurex_trade.SimBroker.Views.{get_closed_trade_details, get_pending_orders}
use aurex_trade.SimBroker.Valid.{IsValid}

module _ {F R : Type 0} where
  -- In a valid broker a cancellation tells whether there was a resting order with the id: there is
  -- one order fewer if it answers true and none fewer if it answers false. No order has the id
  -- afterwards, so that a second cancellation answers false; the open trades and the capital stay.
  pub cancel_pending_order_lem :
      (id : ℕ) (b : Broker F R)
      → IsValid b
      → let (done, b') = cancel_pending_order id b in
        (length b.pending_orders ≡ length b'.pending_orders + (if done then 1 else 0))
        × Lacks order_id id b'.pending_orders
        × ((cancel_pending_order id b').0 ≡ false)
        × (b'.open_trades ≡ b.open_trades)
        × (b'.capital ≡ b.capital)
  unfolding cancel_pending_order
  cancel_pending_order_lem id b v =
      let gone = erase_first-Lacks order_id id b.pending_orders v.pending_distinct in
      (
        length-erase_first order_id _ b.pending_orders,
        gone,
        any_of_Lacks order_id id _ gone,
        refl,
        refl,
      )

  -- `cancel_all_orders` counts what it takes out: afterwards the symbol has no resting order, and the
  -- resting orders of each other symbol are as before.
  pub cancel_all_orders_lem :
      (symbol other : String) (b : Broker F R)
      → other ≢ symbol
      → let (count, b') = cancel_all_orders symbol b in
        (count + length b'.pending_orders ≡ length b.pending_orders)
        × (get_pending_orders symbol b' ≡ [])
        × (get_pending_orders other b' ≡ get_pending_orders other b)
  unfolding cancel_all_orders get_pending_orders
  cancel_all_orders_lem symbol other b ne =
      let orders = b.pending_orders in
      (
        omega (arith, filter_le (λ (p : PendingEntry F). not (str_eq p.symbol symbol)) orders),
        rw (filter-filter-not_self (λ (p : PendingEntry F). str_eq p.symbol symbol) orders),
        rw (
            filter-filter-not (λ (p : PendingEntry F). str_eq p.symbol symbol)
              (λ p. str_eq p.symbol other) orders
              (λ p h. ground (arith, eq_iff p.symbol symbol, eq_iff p.symbol other))),
      )

  module _ ⦃f : Float F⦄ ⦃g : Rng F R⦄ where
    -- A closing of a trade that went through, with what it did to the broker.
    abbrev pub Closes : ℕ → Broker F R → ClosedTradeInfo F → Broker F R → Type 0
    Closes id b info b' =
        (info.broker_trade_id ≡ id)
        × (b'.capital ≡ b.capital ⊕ info.realized_pnl)
        × (get_closed_trade_details id b' ≡ some info)
        × Lacks trade_id id b'.open_trades
        × (b'.pending_orders ≡ b.pending_orders)

    book_close-Closes :
        (reason : String) (t : OpenTrade F) (price : F) (b : Broker F R)
        → IsValid b
        → let (info, b') = book_close reason t price b in Closes t.broker_trade_id b info b'
    unfolding book_close get_closed_trade_details
    book_close-Closes reason t price b v = (
      refl,
      refl,
      lookup-insert_self ◌==◌ t.broker_trade_id _ b.closed_trades (ground arith),
      erase_first-Lacks trade_id t.broker_trade_id b.open_trades v.open_distinct,
      refl,
    )

    close_known :
        (id : ℕ) (b : Broker F R) (bar : BarData F) (t : OpenTrade F)
        → b.current_bar ≡ some bar
        → find (λ x. x.broker_trade_id == id) b.open_trades ≡ some t
        → let (price, b1) = apply_friction (opposite t.side) bar.close b in
          close_trade id b ≡ ok (book_close "MARKET_CLOSE" t price b1)
    unfolding close_trade
    close_known id b bar t set found = simp (found, set, close_trade)

    close_found :
        (id : ℕ) (b : Broker F R) (bar : BarData F) (t : OpenTrade F)
        → IsValid b
        → b.current_bar ≡ some bar
        → find (λ x. x.broker_trade_id == id) b.open_trades ≡ some t
        → let (price, b1) = apply_friction (opposite t.side) bar.close b in
          let (info, b') = book_close "MARKET_CLOSE" t price b1 in
          (close_trade id b ≡ ok (info, b')) × Closes id b info b'
    unfolding apply_friction
    close_found id b bar t v set found =
        let (price, b1) = apply_friction (opposite t.side) bar.close b in
        let (info, b') = book_close "MARKET_CLOSE" t price b1 in
        (
          close_known id b bar t set found,
          subst (λ k. Closes k b1 info b') (key_of_find trade_id id b.open_trades t found)
              (book_close-Closes "MARKET_CLOSE" t price b1 v),
        )

    close_missing :
        (id : ℕ) (b : Broker F R)
        → Lacks trade_id id b.open_trades
        → close_trade id b ≡ err "Trade not found"
    unfolding close_trade
    close_missing id b missing = rw (find_of_Lacks trade_id id b.open_trades missing, close_trade)

    -- In a valid broker with a current bar, `close_trade` of an id that is open goes through: it
    -- books the profit that it reports, keeps the details under the id, and leaves no open trade
    -- with the id, so that a second closing raises. The resting orders stay.
    pub close_trade_lem :
        (id : ℕ) (b : Broker F R) (bar : BarData F) (t : OpenTrade F)
        → IsValid b
        → b.current_bar ≡ some bar
        → find (λ x. x.broker_trade_id == id) b.open_trades ≡ some t
        → (info : ClosedTradeInfo F) × (b' : Broker F R) × (close_trade id b ≡ ok (info, b'))
          × Closes id b info b'
          × (close_trade id b' ≡ err "Trade not found")
    close_trade_lem id b bar t v set found =
        let (price, b1) = apply_friction (opposite t.side) bar.close b in
        let (info, b') = book_close "MARKET_CLOSE" t price b1 in
        let (e, closes) = close_found id b bar t v set found in
        (info, b', e, closes, close_missing id b' closes.3)
