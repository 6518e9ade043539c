-- ===== src/Examples.antt =====
-- Concrete instances of what the development takes as parameters, for the tests of its modules: whole
-- numbers for floats, written in unary, a random generator that draws its lower bound and counts
-- its draws, and some bars, orders and signals.
use Prim.Native.Char.{Char, code}
use aurex_trade.Prelude.{
  not, ℕ, zero, suc, ◌+◌, ◌≡◌, refl, ◌↔◌, String, true, false, Option, none, some, List, [], ◌∷◌,
  ◌==◌, if◌then◌else◌, arith,
}
use aurex_trade.Prelude.Int.{ℤ, pos, negsuc, ◌+ℤ◌, ◌*ℤ◌}
use aurex_trade.Prelude.Float.{Format, Math, int_float, eq}
use aurex_trade.Domain.Enums.{OrderSide, SignalType, OrderType, OrderStatus}
use aurex_trade.Domain.Models.{BarData, Signal, Order, Trade}
use aurex_trade.SimBroker.State.{Rng}
use aurex_trade.PaperBroker.{Gauss}

abbrev pub stroke : Char
stroke = "1"

abbrev pub minus : Char
minus = "-"

abbrev pub unary : ℕ → String
unary zero = String.[]
unary (suc n) = String.◌∷◌ stroke (unary n)

abbrev pub unary_of : ℤ → String
unary_of (pos n) = unary n
unary_of (negsuc n) = String.◌∷◌ minus (unary n)

unfoldable pub strokes : String → Option ℕ
strokes String.[] = some 0
strokes (String.◌∷◌ c s) =
    let rest = strokes s in
    if code c == b'1' then elim rest [ none ↦ none | some n ↦ some (suc n) ] else none

unfoldable pub read_unary : String → Option ℤ
read_unary String.[] = some (pos 0)
read_unary (String.◌∷◌ c s) =
    if code c == b'-'
    then elim (strokes s) [ none ↦ none | some n ↦ some (negsuc n) ]
    else elim (strokes (String.◌∷◌ c s)) [ none ↦ none | some n ↦ some (pos n) ]

strokes-unary : (n : ℕ) → strokes (unary n) ≡ some n
unfolding strokes
strokes-unary zero = refl
strokes-unary (suc n) = rw (strokes-unary n) refl

pub read_unary-unary_of : (x : ℤ) → read_unary (unary_of x) ≡ some x
unfolding read_unary strokes
read_unary-unary_of (pos zero) = refl
read_unary-unary_of (pos (suc n)) = rw (strokes-unary n) refl
read_unary-unary_of (negsuc n) = rw (strokes-unary n) refl

instance abbrev pub unary_format : Format ℤ
unary_format = record {
  fixed = λ d x. unary_of x;
  percent = λ d x. unary_of x;
  text = unary_of;
  int_text = unary;
  parse = read_unary;
}

instance abbrev pub steady : Rng ℤ ℕ
steady = record { uniform = λ a b r. (a, r + 1) }

instance abbrev pub calm : Gauss ℤ ℕ
calm = record { gauss = λ mean deviation r. (mean, r + 1) }

abbrev pub sum_ℤ : List ℤ → ℤ
sum_ℤ [] = pos 0
sum_ℤ (x ∷ xs) = x +ℤ sum_ℤ xs

instance abbrev pub int_math : Math ℤ
int_math = record {
  sqrt = λ x. x;
  square = λ x. x *ℤ x;
  sum = sum_ℤ;
  infinity = pos 1000000;
  is_finite = λ x. not (eq x (pos 1000000));
}

pub eq_ℤ_iff : (a b : ℤ) → (eq a b ≡ true) ↔ (a ≡ b)
eq_ℤ_iff (pos a) (pos b) = ground arith
eq_ℤ_iff (pos a) (negsuc b) = ground arith
eq_ℤ_iff (negsuc a) (pos b) = ground arith
eq_ℤ_iff (negsuc a) (negsuc b) = ground arith

abbrev pub bar_at : ℕ → (low close high : ℕ) → BarData ℤ
bar_at time low close high = record {
  timestamp = time;
  open_price = pos close;
  high = pos high;
  low = pos low;
  close = pos close;
  volume = pos 1;
  symbol = "XAU_USD";
}

abbrev pub order_of : OrderType → OrderSide → ℕ → Option ℤ → Option ℤ → Order ℤ
order_of order_type side quantity limit stop = record {
  id = 7;
  signal_id = 3;
  symbol = "XAU_USD";
  side = side;
  order_type = order_type;
  quantity = pos quantity;
  limit_price = limit;
  stop_loss = stop;
  take_profit = none;
  trailing_stop_distance = none;
  status = OrderStatus.pending;
  timestamp = 50;
}

abbrev pub signal_with : Option ℤ → Signal ℤ
signal_with stop = record {
  id = 3;
  timestamp = 40;
  symbol = "XAU_USD";
  signal_type = SignalType.long;
  strategy_name = "sma";
  strength = pos 1;
  metadata = [];
  stop_loss = stop;
  take_profit = none;
}

abbrev pub trade_of : String → ℕ → Trade ℤ
trade_of symbol time = record {
  id = 1;
  order_id = 7;
  symbol = symbol;
  side = OrderSide.buy;
  quantity = pos 2;
  price = pos 100;
  commission = pos 0;
  broker_trade_id = 4;
  timestamp = time;
  immediately_filled = false;
}
