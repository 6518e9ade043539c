-- ===== src/MarketData/Tests.antt =====
-- Examples for adapters/backtest/market_data.py.
use aurex_trade.Prelude.{◌≤◌, ◌≡◌, ◌↔◌, refl, true, List, [], ◌∷◌, length, ok}
use aurex_trade.Prelude.Int.{ℤ}
use aurex_trade.Domain.Models.{BarData}
use aurex_trade.Examples.{bar_at}
use aurex_trade.MarketData.{Replay, open_replay, advance_times, is_exhausted, total_steps}
use aurex_trade.MarketData.Progress.{open_replay-exhausted}

abbrev three_bars : List (BarData ℤ)
three_bars = bar_at 60 9 10 11 ∷ bar_at 120 8 9 10 ∷ bar_at 180 9 11 12 ∷ []

-- the same up to the second bar
abbrev other_bars : List (BarData ℤ)
other_bars = bar_at 60 9 10 11 ∷ bar_at 120 8 9 10 ∷ bar_at 180 1 2 3 ∷ []

abbrev second : Replay ℤ
second = record { bars = three_bars; bar_count = 1; cursor = 2 }

abbrev first : Replay ℤ
first = record { bars = three_bars; bar_count = 1; cursor = 1 }

opens : open_replay three_bars 1 ≡ ok first
unfolding open_replay
opens = refl

open_replay-exhausted_example :
    ((is_exhausted (advance_times 2 first) ≡ true) ↔ (total_steps first ≤ 2))
    × ((advance_times 2 first).cursor ≤ length three_bars)
open_replay-exhausted_example = open_replay-exhausted three_bars 1 2 first opens
