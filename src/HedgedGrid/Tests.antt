-- ===== src/HedgedGrid/Tests.antt =====
-- Examples for domain/strategy/ciby_hedged_doubling_grid.py: a grid around 10 with spacing 1.
use aurex_trade.Prelude.{◌≡◌, refl, str_eq, true, false, none, some, List, [], ◌∷◌, All, arith}
use aurex_trade.Prelude.Int.{ℤ, pos, negsuc, ◌+ℤ◌, ◌-ℤ◌, ◌*ℤ◌}
use aurex_trade.Prelude.Float.{int_float}
use aurex_trade.Prelude.Dict
use aurex_trade.Domain.Models.{BarData, Signal}
use aurex_trade.Examples.{unary_format, bar_at, signal_with, eq_ℤ_iff, read_unary-unary_of}
use aurex_trade.HedgedGrid.State.{Grid, init}
use aurex_trade.HedgedGrid.Grid.{
  is_filled, is_placed, limit_signal, initialize_grid, queue_levels, queue_limit_for_level,
  maintain_grid, maintain_levels,
}
use aurex_trade.HedgedGrid.Callbacks.{report_fill}
use aurex_trade.HedgedGrid.Generate.{generate, generate_at, loss_limit_hit, take_profit_hit, build}
use aurex_trade.HedgedGrid.Events.{Event, run, handle}
use aurex_trade.HedgedGrid.Shutdown.{
  IsFlat, AtLossLimit, generate-opens, run-loss_limit, run_closing,
}
use aurex_trade.HedgedGrid.Keys.{Activates, limit_key, report_fill-limit_signal}
use aurex_trade.HedgedGrid.Doubling.{doubled_state, report_fill-once}
use aurex_trade.HedgedGrid.Levels.{run_apart}

abbrev bar : BarData ℤ
bar = bar_at 60 9 10 11

abbrev new_grid : Grid ℤ
new_grid = init (pos 1) (pos 2) (pos 3) (pos 5) 3 0 60

-- the level 9 waits, and 8 has both sides of its pair filled
abbrev grid : Grid ℤ
grid = record new_grid {
  anchor_price = some (pos 10);
  current_price = pos 10;
  levels_above = pos 11 ∷ pos 12 ∷ [];
  levels_below = pos 9 ∷ pos 8 ∷ [];
  placed_levels = pos 9 ∷ [];
  filled_levels = (pos 8, 0) ∷ [];
  filled_entry_prices = (pos 8, ("long", pos 8) ∷ ("short", pos 8) ∷ []) ∷ [];
  signal_queue = signal_with none ∷ [];
}

opened : (generate (bar ∷ []) grid).0 ≡ some (signal_with none)
unfolding generate generate_at loss_limit_hit take_profit_hit init ◌+ℤ◌ ◌-ℤ◌
opened = refl

generate-opens_example :
    (grid.session_active ≡ true)
    × (grid.close_all_pending ≡ false)
    × (grid.close_all_in_progress ≡ false)
    × ¬ AtLossLimit grid
generate-opens_example = generate-opens (bar ∷ []) grid (signal_with none) opened (ground arith)

-- five lost, as much as the limit
abbrev losing_grid : Grid ℤ
losing_grid = record grid { session_realized_pnl = negsuc 2; session_unrealized_pnl = negsuc 1 }

at_limit : AtLossLimit losing_grid
unfolding init ◌+ℤ◌ ◌-ℤ◌
at_limit = (refl, refl)

is_active :
    (losing_grid.session_active ≡ true)
    × (losing_grid.close_all_pending ≡ false)
    × (losing_grid.close_all_in_progress ≡ false)
unfolding init
is_active = (refl, refl, refl)

abbrev events : List (Event ℤ)
events =
    Event.bars_seen (bar ∷ [])
    ∷ Event.filled "111111111_long" (pos 9)
    ∷ Event.unrealized (pos 1)
    ∷ Event.bars_seen (bar ∷ [])
    ∷ []

run_closing_example :
    let s = record grid { close_all_in_progress = true } in
    All IsFlat (run events s).0 × ((run events s).1.close_all_in_progress ≡ true)
run_closing_example =
    run_closing events (record grid { close_all_in_progress = true }) (tt, (tt, (tt, (tt, tt))))
      refl

report_fill-limit_signal_example :
    (Dict.lookup str_eq "grid_level" (limit_signal (pos 9) grid).metadata
      ≡ some (limit_key (pos 9) grid))
    × Activates (pos 9) grid (report_fill (limit_key (pos 9) grid) (pos 9) grid)
report_fill-limit_signal_example =
    report_fill-limit_signal read_unary-unary_of (pos 9) (pos 9) grid grid refl refl refl refl

-- a grid in which the level 8 has doubled
abbrev doubled_grid : Grid ℤ
doubled_grid = record grid { doubled_level = some (pos 8); doubled_active = true }

report_fill-once_example :
    doubled_state (report_fill "111111111_long" (pos 9) doubled_grid) ≡ doubled_state doubled_grid
report_fill-once_example = report_fill-once "111111111_long" (pos 9) doubled_grid refl

run-loss_limit_example :
    let (given, s') = run (Event.bars_seen (bar ∷ []) ∷ events) losing_grid in
    (q : Signal ℤ) × (rest : List (Signal ℤ)) × (given ≡ q ∷ rest)
    × (q.metadata ≡ ("action", "close_all") ∷ ("reason", "session_loss_limit") ∷ [])
    × All IsFlat given
    × (s'.close_all_in_progress ≡ true)
run-loss_limit_example =
    run-loss_limit (bar ∷ []) bar events losing_grid refl is_active.0 is_active.1 is_active.2
      at_limit (tt, (tt, (tt, (tt, tt))))

placed_after_start : is_placed (pos 8) (run (Event.bars_seen (bar ∷ []) ∷ []) new_grid).1 ≡ true
unfolding run handle generate generate_at loss_limit_hit take_profit_hit build initialize_grid
    queue_levels queue_limit_for_level maintain_grid maintain_levels is_placed init ◌+ℤ◌ ◌-ℤ◌ ◌*ℤ◌
placed_after_start = refl

run_apart_example : is_filled (pos 8) (run (Event.bars_seen (bar ∷ []) ∷ []) new_grid).1 ≡ false
run_apart_example =
    run_apart eq_ℤ_iff (pos 1) (pos 2) (pos 3) (pos 5) 3 0 60 (Event.bars_seen (bar ∷ []) ∷ [])
      (pos 8) placed_after_start
