-- ===== src/Engine/Samples.antt =====
-- A small broker, a strategy that gives a list of signals, and services that do nothing, for the tests
-- of the engine. The broker lists the orders that it was given; it fills them at once, and it cannot
-- close a trade.
use aurex_trade.Prelude.{ℕ, Bool, true, false, Option, none, some, List, [], ◌∷◌, ok, err}
use aurex_trade.Prelude.Int.{ℤ, pos}
use aurex_trade.Domain.Enums.{OrderSide}
use aurex_trade.Domain.Models.{Signal, Order, Trade, OpenBrokerTrade}
use aurex_trade.Examples.{bar_at}
use aurex_trade.Risk.{RiskEngine}
use aurex_trade.Engine.Ports.{BrokerPort, StrategyPort, RepositoryPort}
use aurex_trade.Engine.State.{Engine}

pub record Desk : Type 0 where
  pub orders : List (Order ℤ)
  pub open_trades : List (OpenBrokerTrade ℤ)

abbrev fill_of : Order ℤ → Trade ℤ
fill_of o = record {
  id = 1;
  order_id = o.id;
  symbol = o.symbol;
  side = o.side;
  quantity = o.quantity;
  price = pos 100;
  commission = pos 0;
  broker_trade_id = 9;
  timestamp = 0;
  immediately_filled = true;
}

instance abbrev pub desk_port : BrokerPort ℤ Desk
desk_port = record {
  equity = λ d. (ok (pos 1000), d);
  place_order = λ o d. (ok (fill_of o), record d { orders = o ∷ d.orders });
  get_positions = λ symbol d. (ok none, d);
  get_open_trades = λ symbol d. (ok d.open_trades, d);
  get_pending_orders = λ symbol d. (ok [], d);
  cancel_all_orders = λ symbol d. (ok 0, d);
  cancel_pending_order = λ id d. (ok true, d);
  close_trade = λ id d. (err "timeout", d);
  set_trailing_stop = λ id distance d. (ok tt, d);
  get_account_summary = none;
}

-- a broker whose account cannot be read
abbrev pub lost_port : BrokerPort ℤ ℕ
lost_port = record {
  equity = λ d. (ok (pos 1000), d);
  place_order = λ o d. (err "offline", d);
  get_positions = λ symbol d. (err "offline", d);
  get_open_trades = λ symbol d. (err "offline", d);
  get_pending_orders = λ symbol d. (err "offline", d);
  cancel_all_orders = λ symbol d. (err "offline", d);
  cancel_pending_order = λ id d. (err "offline", d);
  close_trade = λ id d. (err "offline", d);
  set_trailing_stop = λ id distance d. (err "offline", d);
  get_account_summary = some (λ d. (err "offline", d));
}

abbrev pop : List (Signal ℤ) → Option (Signal ℤ) × List (Signal ℤ)
pop [] = (none, [])
pop (x ∷ xs) = (some x, xs)

instance abbrev pub queue_port : StrategyPort ℤ (List (Signal ℤ))
queue_port = record {
  name = "queue";
  generate = λ bars q. (ok (pop q).0, (pop q).1);
  report_fill = λ key price q. q;
  report_trade_closed = λ key pnl side q. q;
  on_signal_rejected = λ key q. q;
  release_level = λ level q. q;
  update_unrealized_pnl = λ pnl q. q;
  set_realized_pnl = λ session daily q. q;
  notify_close_all_complete = λ q. q;
  get_levels_to_close = λ q. ([], q);
  get_deferred_trailing_stop = λ q. none;
  notify_trailing_stop_set = λ q. q;
  has_anchor = λ q. false;
  session_realized_pnl = λ q. none;
}

instance abbrev pub idle_services : RepositoryPort ℤ ℕ
idle_services = record {
  save_signal = λ sig user_id n. (ok tt, n);
  save_decision = λ decision user_id n. (ok tt, n);
  save_trade = λ trade user_id n. (ok tt, n);
  save_position = λ position user_id n. (ok tt, n);
  get_trades_today = λ symbol user_id n. (ok [], n);
  get_latest_bars = λ symbol count n. (ok (bar_at 3 99 100 101 ∷ []), n);
  start_run = λ id at equity n. (ok tt, n);
  finish_run = λ id at reason cycles sessions closures net equity n. (ok tt, n);
}

abbrev pub settings : (kill : Bool) → RiskEngine ℤ
settings kill = record {
  enabled = true;
  max_position_size = 5;
  max_daily_loss = pos 100;
  max_trades_per_day = 10;
  kill_switch = kill;
  require_stop_loss = false;
  risk_per_trade = pos 1;
  max_drawdown_pct = pos 1;
  max_consecutive_losses = 3;
}

abbrev pub engine_of : {B : Type 0} → Bool → List (Signal ℤ) → B → Engine ℤ (List (Signal ℤ)) B ℕ
engine_of kill queue broker = record {
  strategy = queue;
  broker = broker;
  services = 0;
  risk_engine = settings kill;
  symbol = "XAU_USD";
  interval_seconds = 0;
  bar_count = 50;
  fallback_position_size = pos 1;
  user_id = "u";
  has_run_store = false;
  run_id = 0;
  session_seq = 0;
  running = true;
  session_signals = 0;
  session_trades = 0;
  session_rejections = 0;
  peak_equity = pos 1000;
  trade_pnls = [];
  slippages = [];
  run_start_balance = none;
  session_start_balance = none;
  day_start_balance = none;
  balance_day = none;
  last_balance = none;
  cycle_count = 0;
  started_at = none;
  last_price = some (pos 100);
  equity_history = [];
  trade_markers = [];
  grid_trade_map = [];
  trade_entry = [];
  grid_logged = false;
  pending_order_map = [];
  pending_order_meta = [];
  event_log = [];
  realized_ledger = [];
  close_all_failed_count = 0;
  close_all_next_retry_at = none;
  balance_read_failures = 0;
  max_open_trades = 50;
  session_history = [];
  session_start_at = none;
  session_trades_count = 0;
  clock = 7;
  next_id = 1;
}

abbrev pub open_buy : OpenBrokerTrade ℤ
open_buy = record {
  broker_trade_id = 4;
  symbol = "XAU_USD";
  side = OrderSide.buy;
  quantity = pos 2;
  open_price = pos 90;
}

abbrev pub stuck_desk : Desk
stuck_desk = record { orders = []; open_trades = open_buy ∷ [] }
