-- ===== src/Engine/Tests.antt =====
-- The theorems about the trading engine, at concrete inputs.
use aurex_trade.Prelude.{
  ℕ, ◌≡◌, ◌≤◌, refl, true, false, not, ◌&&◌, none, some, List, [], ◌∷◌, ◌+◌, ok, length, filter,
  All, arith, ap, eq_iff,
}
use aurex_trade.Prelude.Int.{ℤ, pos}
use aurex_trade.Prelude.Float.{int_float, ℤ-IsOrdered}
use aurex_trade.Prelude.Action.{◌>>=◌}
use aurex_trade.Domain.Enums.{OrderSide}
use aurex_trade.Domain.Models.{Signal}
use aurex_trade.Examples.{unary_format, int_math, signal_with, steady, strokes, read_unary}
use aurex_trade.Engine.State.{
  Engine, Metadata, TradeEntry, capped, fresh_id, tell, log_event, mark_trade, count_trade,
  read_float, read_optional, ask_broker, ask_strategy,
}
use aurex_trade.Engine.Opposite.{
  Leg, opposite_order, read_leg, opposite_of_meta, place_leg, leg_result, leg_filled, map_trade,
  record_trade_entry, place_opposite_market_order,
}
use aurex_trade.Engine.Closures.{check_closures, vanished}
use aurex_trade.Engine.Fills.{contains_id, ids_of}
use aurex_trade.Engine.CloseAll.{
  close_all_trades, liquidate, close_open_trades, close_each, close_outcome, confirm_closed,
  count_failure, schedule_retry, is_waiting, backoff, keys_by_id,
}
use aurex_trade.Engine.Signals.{is_close_all}
use aurex_trade.Engine.Cycle.{run_strategy_cycle, push_realized_pnl, all_signals, drain, drained}
use aurex_trade.Engine.Loop.{Tick, run}
use aurex_trade.Engine.Guarded.{BrokerKeeps}
use aurex_trade.Engine.Limits.{IsWithin, NoOrder, run-within_limits, run_strategy_cycle-kill_switch}
use aurex_trade.Engine.Legs.{switched, then_switched, place_opposite-ignores_kill_switch}
use aurex_trade.Engine.Ledger.{Records, check_closures-ledger}
use aurex_trade.Engine.Breaker.Held.{GoesOn, IsHeld}
use aurex_trade.Engine.Breaker.{requests, close_all_trades-unconfirmed, requests-stop}
use aurex_trade.Engine.Vanished.{check_closures-exact}
use aurex_trade.Engine.Accounts.{push_realized_pnl-deltas}
use aurex_trade.Engine.Drain.{ClosesLast, all_signals-IsCut}
use aurex_trade.Engine.Samples.{
  Desk, desk_port, queue_port, idle_services, settings, engine_of, open_buy, stuck_desk,
}

abbrev HasSmallOrders : Desk → Type 0
HasSmallOrders d = All (IsWithin (settings false)) d.orders

small_orders-kept : BrokerKeeps HasSmallOrders (IsWithin (settings false))
small_orders-kept = record {
  equity = record { at = λ d h. h };
  place_order = λ o small. record { at = λ d h. (small, h) };
  get_positions = λ symbol. record { at = λ d h. h };
  get_open_trades = λ symbol. record { at = λ d h. h };
  get_pending_orders = λ symbol. record { at = λ d h. h };
  cancel_all_orders = λ symbol. record { at = λ d h. h };
  cancel_pending_order = λ id. record { at = λ d h. h };
  close_trade = λ id. record { at = λ d h. h };
  set_trailing_stop = λ id distance. record { at = λ d h. h };
  get_account_summary = λ read e. cc;
}

abbrev tick : Tick Desk ℕ
tick = record { monotonic = 5; wall = 100; broker = λ d. d; services = λ n. n }

run-within_limits_example :
    HasSmallOrders
      (run (some 1) (tick ∷ []) (engine_of false (signal_with none ∷ []) stuck_desk)).1.broker
run-within_limits_example =
    run-within_limits ℤ-IsOrdered HasSmallOrders (some 1) (tick ∷ [])
      (engine_of false (signal_with none ∷ []) stuck_desk) refl small_orders-kept (λ d h. h, tt) tt

abbrev HasNoOrders : Desk → Type 0
HasNoOrders d = d.orders ≡ []

no_orders-kept : BrokerKeeps HasNoOrders (NoOrder {F = ℤ})
no_orders-kept = record {
  equity = record { at = λ d h. h };
  place_order = λ o never. absurd never;
  get_positions = λ symbol. record { at = λ d h. h };
  get_open_trades = λ symbol. record { at = λ d h. h };
  get_pending_orders = λ symbol. record { at = λ d h. h };
  cancel_all_orders = λ symbol. record { at = λ d h. h };
  cancel_pending_order = λ id. record { at = λ d h. h };
  close_trade = λ id. record { at = λ d h. h };
  set_trailing_stop = λ id distance. record { at = λ d h. h };
  get_account_summary = λ read e. cc;
}

run_strategy_cycle-kill_switch_example :
    (run_strategy_cycle (engine_of true (signal_with none ∷ []) stuck_desk)).1.broker.orders ≡ []
run_strategy_cycle-kill_switch_example =
    run_strategy_cycle-kill_switch HasNoOrders (engine_of true (signal_with none ∷ []) stuck_desk)
      refl refl no_orders-kept refl

abbrev StaysOpen : Desk → Type 0
StaysOpen d = d.open_trades ≡ open_buy ∷ []

stays_open : GoesOn ℤ StaysOpen
stays_open = record {
  calls = record {
    equity = record { at = λ d h. h };
    place_order = λ o any. record { at = λ d h. h };
    get_positions = λ symbol. record { at = λ d h. h };
    get_open_trades = λ symbol. record { at = λ d h. h };
    get_pending_orders = λ symbol. record { at = λ d h. h };
    cancel_all_orders = λ symbol. record { at = λ d h. h };
    cancel_pending_order = λ id. record { at = λ d h. h };
    close_trade = λ id. record { at = λ d h. h };
    set_trailing_stop = λ id distance. record { at = λ d h. h };
    get_account_summary = λ read e. cc;
  };
  reports = λ symbol d h. (open_buy, [], ap ok h);
}

abbrev stuck : Engine ℤ (List (Signal ℤ)) Desk ℕ
stuck = engine_of false [] stuck_desk

close_all_trades-unconfirmed_example : IsHeld StaysOpen stuck 1 (close_all_trades "loss" stuck).1
unfolding is_waiting
close_all_trades-unconfirmed_example =
    close_all_trades-unconfirmed StaysOpen "loss" stuck stays_open refl (omega arith) refl

requests-stop_example : (requests "loss" (7 ∷ 17 ∷ 37 ∷ 77 ∷ 157 ∷ 317 ∷ []) stuck).running ≡ false
unfolding close_all_trades liquidate close_open_trades close_each close_outcome confirm_closed
    count_failure schedule_retry is_waiting backoff ask_broker keys_by_id ◌>>=◌
requests-stop_example =
    requests-stop StaysOpen "loss" 7 (17 ∷ 37 ∷ 77 ∷ 157 ∷ 317 ∷ []) stuck stays_open refl
      (omega arith) (refl, (refl, (refl, (refl, (refl, (refl, tt))))))

abbrev leg_meta : Metadata
leg_meta =
    ("opposite_side", "SELL")
    ∷ ("opposite_grid_level", "11_short")
    ∷ ("fixed_units", "1111111")
    ∷ []

abbrev small_leg : Leg ℤ
small_leg = record {
  side_text = "SELL";
  grid_key = "11_short";
  side = OrderSide.sell;
  quantity = pos 5;
  stop_loss = none;
  take_profit = none;
  trailing_stop_distance = none;
}

abbrev killed : Engine ℤ (List (Signal ℤ)) Desk ℕ
killed = record (engine_of true [] stuck_desk) { pending_order_meta = ("11_long", leg_meta) ∷ [] }

killed_places :
    (place_opposite_market_order "11_long" (pos 100) killed).1.broker.orders
    ≡ opposite_order small_leg 1 killed ∷ []
unfolding place_opposite_market_order opposite_of_meta place_leg fresh_id ask_broker leg_result
    opposite_order read_leg read_float read_optional capped read_unary strokes ◌>>=◌ leg_filled
    map_trade record_trade_entry tell log_event mark_trade count_trade
killed_places = refl

place_opposite-ignores_kill_switch_example :
    place_opposite_market_order "11_long" (pos 100) (switched false killed)
    ≡ then_switched false (place_opposite_market_order "11_long" (pos 100) killed)
place_opposite-ignores_kill_switch_example =
    place_opposite-ignores_kill_switch "11_long" (pos 100) false killed

abbrev buy_entry : TradeEntry ℤ
buy_entry = record {
  grid_key = "1_long";
  side = OrderSide.buy;
  quantity = pos 2;
  entry_price = pos 90;
  stop_loss = some (pos 80);
}

abbrev mapped : Engine ℤ (List (Signal ℤ)) Desk ℕ
mapped = record stuck {
  grid_trade_map = ("1_long", 3) ∷ ("2_long", 4) ∷ [];
  trade_entry = (3, buy_entry) ∷ [];
}

check_closures-ledger_example :
    Records (("1_long", 3) ∷ ("2_long", 4) ∷ []) mapped (check_closures [] [] mapped).1
check_closures-ledger_example = check_closures-ledger [] [] mapped ((λ e. cc e, tt), (tt, tt))

check_closures-exact_example :
    let (outcome, d) = check_closures (open_buy ∷ []) [] mapped in
    let gone = vanished (ids_of (open_buy ∷ [])) [] mapped.grid_trade_map in
    (outcome ≡ ok tt)
    × (d.grid_trade_map
        ≡ filter
            (λ m. not (not (contains_id m.1 []) && not (contains_id m.1 (ids_of (open_buy ∷ [])))))
            mapped.grid_trade_map)
    × (length d.realized_ledger ≡ length mapped.realized_ledger + length gone)
    × (d.broker ≡ mapped.broker)
check_closures-exact_example =
    check_closures-exact (open_buy ∷ []) [] mapped
      ((λ e. cc ((eq_iff "2_long" "1_long").1 e), tt), (tt, tt))

abbrev anchored : Engine ℤ (List (Signal ℤ)) Desk ℕ
anchored = record stuck {
  session_start_balance = some (pos 100);
  day_start_balance = some (pos 90);
  balance_day = some 3;
}

push_realized_pnl-deltas_example :
    ((push_realized_pnl (pos 120) anchored).1.strategy ≡ [])
    × ((push_realized_pnl (pos 120) anchored).1.last_balance ≡ some (pos 120))
    × ((push_realized_pnl (pos 120) anchored).1.balance_day ≡ some 0)
    × ((push_realized_pnl (pos 120) anchored).1.session_start_balance ≡ some (pos 100))
push_realized_pnl-deltas_example =
    push_realized_pnl-deltas ℤ-IsOrdered (pos 120) (pos 100) (pos 90) 3 anchored refl refl refl

all_signals-IsCut_example :
    (length (signal_with none ∷ signal_with none ∷ []) ≤ 51)
    × ClosesLast (signal_with none ∷ signal_with none ∷ [])
unfolding all_signals drain drained is_close_all ask_strategy ◌>>=◌
all_signals-IsCut_example =
    all_signals-IsCut [] (signal_with none) (engine_of false (signal_with none ∷ []) stuck_desk)
      (signal_with none ∷ signal_with none ∷ []) refl
