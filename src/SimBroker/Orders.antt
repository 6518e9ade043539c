-- ===== src/SimBroker/Orders.antt =====
-- Placing orders, closing a trade and cancelling, adapters/backtest/broker.py.
use aurex_trade.Prelude.{
  ℕ, ◌-◌, String, str_eq, Bool, true, false, none, some, [], ◌∷◌, ◌++◌, not, ◌==◌, if◌then◌else◌,
  Result, ok, err, length, filter, find, any, erase_first,
}
use aurex_trade.Prelude.Float.{Float, ◌⊕◌, ◌⊖◌, ◌⊗◌, nought, round}
use aurex_trade.Prelude.Dict
use aurex_trade.Prelude.Keys.{remove}
use aurex_trade.Domain.Enums.{OrderSide, OrderType, is_buy}
use aurex_trade.Domain.Models.{BarData, Order, Trade, ClosedTradeInfo}
use aurex_trade.SimBroker.State.{
  Rng, PendingEntry, OpenTrade, Broker, trade_id, or_nought, new_id, apply_friction, pay_commission,
}
use aurex_trade.SimBroker.Position.{update_position}

abbrev pub opposite : OrderSide → OrderSide
opposite OrderSide.buy = OrderSide.sell
opposite OrderSide.sell = OrderSide.buy

module _ {F : Type 0} ⦃f : Float F⦄ where
  -- profit of a trade that is closed at a price, before rounding
  unfoldable pub gross_pnl : OpenTrade F → F → F
  gross_pnl t close_price =
      if is_buy t.side
      then t.quantity ⊗ (close_price ⊖ t.open_price)
      else t.quantity ⊗ (t.open_price ⊖ close_price)

module _ {F R : Type 0} ⦃f : Float F⦄ where
  -- `_place_pending_order`, at the bar that is current
  unfoldable pub place_pending_order :
      BarData F → Order F → Bool → Broker F R → Trade F × Broker F R
  place_pending_order bar order is_stop b =
      let (broker_order_id, b1) = new_id b in
      let entry : PendingEntry F = record {
        broker_order_id = broker_order_id;
        symbol = order.symbol;
        side = order.side;
        quantity = order.quantity;
        limit_price = or_nought order.limit_price;
        stop_loss = order.stop_loss;
        grid_level_key = "";
        metadata = [];
        is_stop = is_stop;
      } in
      let (id, b2) = new_id (record b1 { pending_orders = b1.pending_orders ++ (entry ∷ []) }) in
      (
        record {
          id = id;
          order_id = order.id;
          symbol = order.symbol;
          side = order.side;
          quantity = order.quantity;
          price = or_nought order.limit_price;
          commission = nought;
          broker_trade_id = broker_order_id;
          timestamp = bar.timestamp;
          immediately_filled = false;
        },
        b2,
      )

  -- What both ways of closing do: book the profit, keep the details, and drop the trade.
  unfoldable pub book_close : String → OpenTrade F → F → Broker F R → ClosedTradeInfo F × Broker F R
  book_close reason t close_price b =
      let pnl = round 2 (gross_pnl t close_price) in
      let info : ClosedTradeInfo F = record {
        broker_trade_id = t.broker_trade_id;
        close_price = close_price;
        realized_pnl = pnl;
        close_reason = reason;
      } in
      (
        info,
        record b {
          capital = b.capital ⊕ pnl;
          closed_trades = Dict.insert ◌==◌ t.broker_trade_id info b.closed_trades;
          open_trades = remove trade_id t b.open_trades;
        },
      )

  module _ ⦃g : Rng F R⦄ where
    -- `_fill_market_order`; `_calculate_fill_price` applies friction to the close of the bar.
    unfoldable pub fill_market_order : BarData F → Order F → Broker F R → Trade F × Broker F R
    fill_market_order bar order b =
        let (fill_price, b1) = apply_friction order.side bar.close b in
        let b2 = pay_commission b1 in
        let b3 =
          if not b2.grid_mode
          then update_position order.symbol order.side order.quantity fill_price b2
          else b2 in
        let (broker_trade_id, b4) = new_id b3 in
        let trade : OpenTrade F = record {
          broker_trade_id = broker_trade_id;
          symbol = order.symbol;
          side = order.side;
          quantity = order.quantity;
          open_price = fill_price;
          stop_loss = order.stop_loss;
          grid_level_key = "";
        } in
        let (id, b5) = new_id (record b4 { open_trades = b4.open_trades ++ (trade ∷ []) }) in
        (
          record {
            id = id;
            order_id = order.id;
            symbol = order.symbol;
            side = order.side;
            quantity = order.quantity;
            price = fill_price;
            commission = b.commission_per_trade;
            broker_trade_id = broker_trade_id;
            timestamp = bar.timestamp;
            immediately_filled = false;
          },
          b5,
        )

    unfoldable pub place : OrderType → BarData F → Order F → Broker F R → Trade F × Broker F R
    place OrderType.limit bar order b = place_pending_order bar order false b
    place OrderType.stop bar order b = place_pending_order bar order true b
    place OrderType.market bar order b = fill_market_order bar order b

    unfoldable pub place_order : Order F → Broker F R → Result (Trade F × Broker F R)
    unfolding place
    place_order order b = elim b.current_bar [
      | none ↦ err "No current bar set — call set_current_bar() first"
      | some bar ↦ ok (place order.order_type bar order b)
    ]

    -- An unknown id raises, and so does the assertion that there is a bar.
    unfoldable pub close_trade : ℕ → Broker F R → Result (ClosedTradeInfo F × Broker F R)
    close_trade id b = elim (find (λ t. t.broker_trade_id == id) b.open_trades) [
      | none ↦ err "Trade not found"
      | some t ↦ elim b.current_bar [
        | none ↦ err "AssertionError"
        | some bar ↦
            let (close_price, b1) = apply_friction (opposite t.side) bar.close b in
            ok (book_close "MARKET_CLOSE" t close_price b1)
      ]
    ]

module _ {F R : Type 0} where
  -- `cancel_order` and `cancel_pending_order`, which differ in the type of the id
  unfoldable pub cancel_pending_order : ℕ → Broker F R → Bool × Broker F R
  cancel_pending_order id b = (
    any (λ p. p.broker_order_id == id) b.pending_orders,
    record b { pending_orders = erase_first (λ p. p.broker_order_id == id) b.pending_orders },
  )

  unfoldable pub cancel_all_orders : String → Broker F R → ℕ × Broker F R
  cancel_all_orders symbol b =
      let left = filter (λ p. not (str_eq p.symbol symbol)) b.pending_orders in
      (length b.pending_orders - length left, record b { pending_orders = left })
