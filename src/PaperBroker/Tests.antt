-- ===== src/PaperBroker/Tests.antt =====
-- Examples for adapters/paper/broker.py, with a walk that does not move.
use aurex_trade.Prelude.{ℕ, ◌≡◌, refl, none, some, [], length, All, get_last?, ok, arith}
use aurex_trade.Prelude.Int.{ℤ, pos, ◌+ℤ◌, ◌-ℤ◌, ◌*ℤ◌, div_ℤ}
use aurex_trade.Prelude.Float.{int_float}
use aurex_trade.Domain.Enums.{OrderSide, OrderType}
use aurex_trade.Domain.Models.{BarData, Order, Trade}
use aurex_trade.Examples.{steady, calm, order_of}
use aurex_trade.PaperBroker.{Paper, generate_bar, get_latest_bars, paper_order, paper_close}
use aurex_trade.PaperBroker.Bars.{FromBase, get_latest_bars-FromBase, get_latest_bars-again}
use aurex_trade.PaperBroker.Trades.{PaperValid, paper_order-close}

-- the walk stays at the price that it starts from
first_close : (generate_bar {R = ℕ} (pos 180) [] "XAU_USD" 0 90000 0).0.close ≡ pos 180
unfolding generate_bar ◌+ℤ◌ ◌-ℤ◌ ◌*ℤ◌ div_ℤ
first_close = refl

abbrev fresh : Paper ℤ ℕ
fresh = record {
  base_price = pos 180;
  rng = 0;
  positions = [];
  price_history = [];
  capital = pos 100000;
  open_trades = [];
  trade_counter = 0;
  next_id = 0;
}

get_latest_bars-FromBase_example :
    All (FromBase ℕ (pos 180) "XAU_USD" 90000) (get_latest_bars 90000 "XAU_USD" 3 fresh).0
get_latest_bars-FromBase_example = get_latest_bars-FromBase 90000 "XAU_USD" 3 fresh refl

get_latest_bars-again_example :
    let first = get_latest_bars 90000 "XAU_USD" 3 fresh in
    (length first.0 ≡ 3) × (get_latest_bars 90060 "XAU_USD" 3 first.1 ≡ first)
get_latest_bars-again_example = get_latest_bars-again 90000 90060 "XAU_USD" 3 fresh (omega arith)

abbrev buy_two : Order ℤ
buy_two = order_of OrderType.market OrderSide.buy 2 none none

paper_order-close_example :
    (trade : Trade ℤ) × (after : Paper ℤ ℕ) × (bar : BarData ℤ) × (paper_order 90000 buy_two fresh
      ≡ ok (trade, after))
    × (get_last? (get_latest_bars 90000 "XAU_USD" 1 fresh).0 ≡ some bar)
    × (trade.price ≡ bar.close)
    × PaperValid after
    × (paper_close trade.broker_trade_id after ≡ ok (none, record after { open_trades = [] }))
paper_order-close_example = paper_order-close 90000 buy_two fresh tt
