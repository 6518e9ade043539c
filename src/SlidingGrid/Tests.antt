-- ===== src/SlidingGrid/Tests.antt =====
-- Examples for domain/strategy/ciby_sliding_grid.py: a grid with spacing 10 and a daily limit of 20.
use aurex_trade.Prelude.{◌≡◌, refl, none, some, [], ◌∷◌, All}
use aurex_trade.Prelude.Int.{ℤ, pos, negsuc, ◌+ℤ◌, ◌-ℤ◌, ◌*ℤ◌}
use aurex_trade.Prelude.Float.{int_float, ℤ-IsOrdered, round}
use aurex_trade.Domain.Models.{BarData}
use aurex_trade.Examples.{unary_format, bar_at}
use aurex_trade.SlidingGrid.State.{Sliding, new_sliding}
use aurex_trade.SlidingGrid.Ladder.{
  levels_up, levels_down, side_entry, side_stop_loss, build_ladder, insert_level, sorted_levels,
  window, next_above, next_below,
}
use aurex_trade.SlidingGrid.Stops.{IsBehind, side_stop_loss-IsBehind}
use aurex_trade.SlidingGrid.Display.{
  active_indices, index_or_mid, around, side_status, level_status,
}
use aurex_trade.SlidingGrid.Halting.{SlidingEvent, ClosesAll, react_all, react_all-limit}

abbrev fresh_grid : Sliding ℤ
fresh_grid =
    new_sliding (pos 10) (pos 15) (pos 1) (pos 10) (pos 20) (pos 1) 2 1 (pos 100) (pos 50) (pos 20)
      0 0

-- 15 lost on closed trades, and 5 on the open ones
abbrev limit_grid : Sliding ℤ
limit_grid = record fresh_grid {
  anchor_price = some (pos 100);
  current_date = some 0;
  daily_realized_pnl = negsuc 14;
  session_unrealized_pnl = negsuc 4;
}

abbrev bad_bar : BarData ℤ
bad_bar = bar_at 60 99 100 101

react_all-limit_example :
    All ClosesAll
      (react_all
        (SlidingEvent.bar_given bad_bar
          ∷ SlidingEvent.all_closed
          ∷ SlidingEvent.bar_given (bar_at 120 99 100 101)
          ∷ [])
        limit_grid).0
unfolding new_sliding ◌+ℤ◌ ◌-ℤ◌
react_all-limit_example =
    react_all-limit bad_bar
      (SlidingEvent.all_closed ∷ SlidingEvent.bar_given (bar_at 120 99 100 101) ∷ []) limit_grid
      refl refl refl refl (tt, (refl, tt))

neighbours :
    (next_above (pos 3) (pos 1 ∷ pos 3 ∷ pos 8 ∷ []) ≡ some (pos 8))
    × (next_below (pos 3) none (pos 1 ∷ pos 3 ∷ pos 8 ∷ []) ≡ some (pos 1))
    × (next_below (pos 1) none (pos 1 ∷ pos 3 ∷ pos 8 ∷ []) ≡ none)
unfolding next_above next_below
neighbours = (refl, refl, refl)

sorted_three : sorted_levels (pos 8 ∷ pos 1 ∷ pos 8 ∷ pos 3 ∷ []) ≡ pos 1 ∷ pos 3 ∷ pos 8 ∷ []
unfolding sorted_levels insert_level
sorted_three = refl

-- the price is below the anchor: two levels below it, and one above
window_down :
    window (record fresh_grid {
      anchor_price = some (pos 4);
      current_price = pos 3;
      levels = pos 0 ∷ pos 1 ∷ pos 2 ∷ pos 4 ∷ pos 5 ∷ [];
    })
    ≡ pos 1 ∷ pos 2 ∷ pos 4 ∷ []
unfolding window aurex_trade.SlidingGrid.Ladder.window_above
    aurex_trade.SlidingGrid.Ladder.window_below aurex_trade.SlidingGrid.Ladder.is_up sorted_levels
    insert_level new_sliding
window_down = refl

statuses :
    let s = record fresh_grid {
      placed = (pos 8, "long" ∷ []) ∷ [];
      filled = (pos 8, "short" ∷ []) ∷ [];
    } in
    (side_status (pos 8) "long" s ≡ "placed")
    × (side_status (pos 8) "short" s ≡ "active")
    × (level_status (pos 8) s ≡ "active")
    × (level_status (pos 9) s ≡ "waiting")
unfolding side_status level_status new_sliding
statuses = (refl, refl, refl, refl)

shown_indices :
    (active_indices (pos 5 ∷ pos 9 ∷ []) 0 (pos 1 ∷ pos 5 ∷ pos 7 ∷ pos 9 ∷ []) ≡ 1 ∷ 3 ∷ [])
    × (index_or_mid (pos 7) [] 0 (pos 1 ∷ pos 5 ∷ pos 7 ∷ []) ≡ 2)
    × (around 1 1 (pos 1 ∷ pos 5 ∷ pos 7 ∷ []) ≡ pos 1 ∷ pos 5 ∷ pos 7 ∷ [])
unfolding active_indices index_or_mid
shown_indices = (refl, refl, refl)

-- the ladder of the whole price range, around 10
abbrev ladder_grid : Sliding ℤ
ladder_grid = record fresh_grid {
  anchor_price = some (pos 10);
  current_price = pos 10;
  levels = build_ladder (pos 10) fresh_grid;
}

anchor_stop : side_stop_loss (pos 10) "long" ladder_grid ≡ some (negsuc 4)
unfolding side_stop_loss next_below build_ladder levels_up levels_down sorted_levels insert_level
    new_sliding ◌-ℤ◌ ◌*ℤ◌ ◌+ℤ◌ side_entry
anchor_stop = refl

side_stop_loss-IsBehind_example :
    IsBehind "long" (round 2 (side_entry (pos 10) "long" ladder_grid)) (negsuc 4)
unfolding new_sliding build_ladder
side_stop_loss-IsBehind_example =
    side_stop_loss-IsBehind ℤ-IsOrdered (pos 10) (pos 10) (negsuc 4) "long" ladder_grid refl refl
      anchor_stop
