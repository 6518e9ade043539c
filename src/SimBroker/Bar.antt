-- ===== src/SimBroker/Bar.antt =====
-- `process_bar` of adapters/backtest/broker.py: stop-losses first, then resting entries.
use aurex_trade.Prelude.{
  Bool, true, false, none, some, List, [], ◌∷◌, ◌++◌, not, ◌&&◌, ◌||◌, if◌then◌else◌, filter,
}
use aurex_trade.Prelude.Float.{Float, le, min, max}
use aurex_trade.Prelude.Keys.{remove}
use aurex_trade.Domain.Enums.{is_buy}
use aurex_trade.Domain.Models.{BarData, ClosedTradeInfo}
use aurex_trade.SimBroker.State.{
  Rng, PendingEntry, OpenTrade, Broker, order_id, or_nought, new_id, apply_friction, pay_commission,
}
use aurex_trade.SimBroker.Orders.{book_close, opposite}

abbrev pub is_empty : {A : Type 0} → List A → Bool
is_empty [] = true
is_empty (x ∷ xs) = false

module _ {F : Type 0} ⦃f : Float F⦄ where
  -- The bar reaches the stop-loss of the trade.
  unfoldable pub is_stopped : BarData F → OpenTrade F → Bool
  is_stopped bar t = elim t.stop_loss [
    | none ↦ false
    | some stop ↦ (is_buy t.side && le bar.low stop) || (not (is_buy t.side) && le stop bar.high)
  ]

  -- The bar reaches the price of the resting entry.
  unfoldable pub is_triggered : BarData F → PendingEntry F → Bool
  is_triggered bar p =
      if p.is_stop
      then (is_buy p.side && le p.limit_price bar.high)
        || (not (is_buy p.side) && le bar.low p.limit_price)
      else (is_buy p.side && le bar.low p.limit_price)
        || (not (is_buy p.side) && le p.limit_price bar.high)

  -- The price that a stopped trade leaves at, before friction: the open, if the bar gapped through.
  unfoldable pub stop_base : BarData F → OpenTrade F → F
  stop_base bar t =
      let stop = or_nought t.stop_loss in
      if is_buy t.side then min stop bar.open_price else max stop bar.open_price

  -- The price that a resting entry fills at, before friction.
  unfoldable pub entry_base : BarData F → PendingEntry F → F
  entry_base bar p =
      if p.is_stop
      then if is_buy p.side
        then max p.limit_price bar.open_price
        else min p.limit_price bar.open_price
      else p.limit_price

module _ {F R : Type 0} ⦃f : Float F⦄ ⦃g : Rng F R⦄ where
  unfoldable pub close_stopped :
      BarData F → OpenTrade F → Broker F R → ClosedTradeInfo F × Broker F R
  close_stopped bar t b =
      let (close_price, b1) = apply_friction (opposite t.side) (stop_base bar t) b in
      book_close "STOP_LOSS" t close_price b1

  -- the loop over `trades_to_close`
  unfoldable pub close_all_stopped :
      BarData F → List (OpenTrade F) → Broker F R → List (ClosedTradeInfo F) × Broker F R
  close_all_stopped bar [] b = ([], b)
  close_all_stopped bar (t ∷ ts) b =
      let (info, b1) = close_stopped bar t b in
      let (infos, b2) = close_all_stopped bar ts b1 in (info ∷ infos, b2)

  unfoldable pub fill_entry : BarData F → PendingEntry F → Broker F R → OpenTrade F × Broker F R
  fill_entry bar p b =
      let (fill_price, b1) = apply_friction p.side (entry_base bar p) b in
      let (broker_trade_id, b2) = new_id (pay_commission b1) in
      let trade : OpenTrade F = record {
        broker_trade_id = broker_trade_id;
        symbol = p.symbol;
        side = p.side;
        quantity = p.quantity;
        open_price = fill_price;
        stop_loss = p.stop_loss;
        grid_level_key = p.grid_level_key;
      } in
      (
        trade,
        record b2 {
          open_trades = b2.open_trades ++ (trade ∷ []);
          pending_orders = remove order_id p b2.pending_orders;
        },
      )

  -- the loop over `orders_to_fill`
  unfoldable pub fill_entries :
      BarData F → List (PendingEntry F) → Broker F R → List (OpenTrade F) × Broker F R
  fill_entries bar [] b = ([], b)
  fill_entries bar (p ∷ ps) b =
      let (trade, b1) = fill_entry bar p b in
      let (trades, b2) = fill_entries bar ps b1 in (trade ∷ trades, b2)

  -- the trades that were filled, the trades that were closed, and the broker afterwards
  unfoldable pub process_bar :
      BarData F → Broker F R → List (OpenTrade F) × List (ClosedTradeInfo F) × Broker F R
  process_bar bar b =
      let (closed, b1) = close_all_stopped bar (filter (is_stopped bar) b.open_trades) b in
      let (filled, b2) = fill_entries bar (filter (is_triggered bar) b1.pending_orders) b1 in
      if is_empty b.open_trades && is_empty b.pending_orders
      then ([], [], b)
      else (filled, closed, b2)
