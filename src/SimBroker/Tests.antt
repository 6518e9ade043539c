-- ===== src/SimBroker/Tests.antt =====
-- Examples for adapters/backtest/broker.py, on whole numbers.
use aurex_trade.Prelude.{ℕ, ◌≡◌, ◌⊎◌, refl, str_eq, false, none, some, [], ◌∷◌, ok, err, arith}
use aurex_trade.Prelude.Int.{ℤ, pos}
use aurex_trade.Prelude.Float.{int_float, ℤ-IsOrdered, nought, round, eq}
use aurex_trade.Prelude.Dict.{lookup}
use aurex_trade.Domain.Enums.{OrderSide, OrderType}
use aurex_trade.Domain.Models.{BarData, Order, Position, ClosedTradeInfo}
use aurex_trade.Examples.{steady, bar_at, order_of}
use aurex_trade.SimBroker.State.{PendingEntry, OpenTrade, Broker}
use aurex_trade.SimBroker.Position.{update_position}
use aurex_trade.SimBroker.Orders.{place, place_order, close_trade}
use aurex_trade.SimBroker.Bar.{close_stopped, fill_entry, process_bar}
use aurex_trade.SimBroker.Valid.{IsValid, process_bar-IsValid}
use aurex_trade.SimBroker.Friction.{
  NoBetter, DrawsWithin, close_stopped-NoBetter, fill_entry-NoBetter,
}
use aurex_trade.SimBroker.Stops.{Moves, process_bar-Moves}
use aurex_trade.SimBroker.Accounts.{
  plus_pnls, less_commissions, plus_commissions, process_bar-capital,
}
use aurex_trade.SimBroker.Cancels.{Closes, close_trade_lem}
use aurex_trade.SimBroker.Netting.{IsFlat, Reduces, filled_qty, update_position_lem}

-- a long with a stop-loss at 95
abbrev long_trade : OpenTrade ℤ
long_trade = record {
  broker_trade_id = 0;
  symbol = "XAU_USD";
  side = OrderSide.buy;
  quantity = pos 2;
  open_price = pos 100;
  stop_loss = some (pos 95);
  grid_level_key = "";
}

-- a short without one
abbrev short_trade : OpenTrade ℤ
short_trade = record {
  broker_trade_id = 1;
  symbol = "XAU_USD";
  side = OrderSide.sell;
  quantity = pos 3;
  open_price = pos 101;
  stop_loss = none;
  grid_level_key = "";
}

-- a limit order to buy at 97
abbrev limit_buy : PendingEntry ℤ
limit_buy = record {
  broker_order_id = 2;
  symbol = "XAU_USD";
  side = OrderSide.buy;
  quantity = pos 1;
  limit_price = pos 97;
  stop_loss = some (pos 90);
  grid_level_key = "97_long";
  metadata = [];
  is_stop = false;
}

abbrev falling_bar : BarData ℤ
falling_bar = bar_at 60 94 96 101

abbrev broker : Broker ℤ ℕ
broker = record {
  capital = pos 1000;
  initial_capital = pos 1000;
  spread = pos 2;
  slippage = pos 1;
  commission_per_trade = pos 1;
  rng = 0;
  next_id = 5;
  positions = [];
  current_bar = some falling_bar;
  total_commission = pos 0;
  grid_mode = false;
  pending_orders = limit_buy ∷ [];
  open_trades = long_trade ∷ short_trade ∷ [];
  closed_trades = [];
}

broker-IsValid : IsValid broker
broker-IsValid = ground arith

steady-DrawsWithin : DrawsWithin steady
steady-DrawsWithin a b r h = ℤ-IsOrdered.le_refl a

abbrev market_buy : Order ℤ
market_buy = order_of OrderType.market OrderSide.buy 2 none (some (pos 90))

placed_at_market :
    place_order market_buy broker ≡ ok (place OrderType.market falling_bar market_buy broker)
unfolding place_order
placed_at_market = refl

process_bar-IsValid_example : IsValid (process_bar falling_bar broker).2
process_bar-IsValid_example = process_bar-IsValid falling_bar broker broker-IsValid

process_bar-Moves_example : Moves falling_bar broker (process_bar falling_bar broker)
process_bar-Moves_example = process_bar-Moves falling_bar broker broker-IsValid

process_bar-capital_example :
    let (filled, closed, b') = process_bar falling_bar broker in
    (b'.capital ≡ less_commissions (pos 1) (plus_pnls (pos 1000) closed) filled)
    × (b'.total_commission ≡ plus_commissions (pos 1) (pos 0) filled)
process_bar-capital_example = process_bar-capital falling_bar broker

close_stopped-NoBetter_example :
    NoBetter OrderSide.sell
      (close_stopped falling_bar long_trade broker).0.close_price
      (round 5 (pos 95))
close_stopped-NoBetter_example =
    close_stopped-NoBetter ℤ-IsOrdered steady-DrawsWithin falling_bar long_trade (pos 95) broker
      refl refl refl

fill_entry-NoBetter_example :
    NoBetter OrderSide.buy (fill_entry falling_bar limit_buy broker).0.open_price (round 5 (pos 97))
fill_entry-NoBetter_example =
    fill_entry-NoBetter ℤ-IsOrdered steady-DrawsWithin falling_bar limit_buy broker refl refl

short_closed :
    (info : ClosedTradeInfo ℤ) × (b' : Broker ℤ ℕ) × (close_trade 1 broker ≡ ok (info, b'))
    × Closes 1 broker info b'
    × (close_trade 1 b' ≡ err "Trade not found")
short_closed = close_trade_lem 1 broker falling_bar short_trade broker-IsValid refl refl

close_trade_lem_example :
    (info : ClosedTradeInfo ℤ) × (b' : Broker ℤ ℕ) × (close_trade 1 broker ≡ ok (info, b'))
    × Closes 1 broker info b'
    × (close_trade 1 b' ≡ err "Trade not found")
close_trade_lem_example = close_trade_lem 1 broker falling_bar short_trade broker-IsValid refl refl

update_position_lem_example :
    let b' = update_position "XAU_USD" OrderSide.buy (pos 2) (pos 96) broker in
    (p : Position ℤ) × (lookup str_eq "XAU_USD" b'.positions ≡ some p)
    × (p.quantity ≡ filled_qty OrderSide.buy nought (pos 2))
    × ((eq p.quantity nought ≡ false) ⊎ IsFlat p)
    × (Reduces {F = ℤ} OrderSide.buy nought
        ⊎ ((b'.capital ≡ broker.capital) × (p.realized_pnl ≡ round 2 nought)))
update_position_lem_example =
    update_position_lem "XAU_USD" "XAU_USD" OrderSide.buy (pos 2) (pos 96) broker
