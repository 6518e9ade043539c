-- ===== src/MarketData.antt =====
-- The replay of historical bars in a backtest, src/aurex_trade/adapters/backtest/market_data.py.
pub mod Window
pub mod Progress
mod Tests
use aurex_trade.Prelude.{
  ℕ, zero, suc, ◌+◌, ◌-◌, ◌==◌, Bool, true, false, Option, none, some, List, [], ◌∷◌, leb, ltb,
  if◌then◌else◌, Result, ok, err, length, drop, take, get_last?,
}
use aurex_trade.Domain.Models.{BarData}

pub record Replay (F : Type 0) : Type 0 where
  pub bars : List (BarData F)
  pub bar_count : ℕ
  pub cursor : ℕ

-- `xs[i]`, for an index that is not negative
abbrev pub get_elem? : {A : Type 0} → List A → ℕ → Option A
get_elem? [] i = none
get_elem? (x ∷ xs) zero = some x
get_elem? (x ∷ xs) (suc i) = get_elem? xs i

module _ {F : Type 0} where
  -- The error names the two numbers.
  pub open_replay : List (BarData F) → ℕ → Result (Replay F)
  open_replay bars bar_count =
      if ltb (length bars) bar_count
      then err "ValueError"
      else ok (record { bars = bars; bar_count = bar_count; cursor = bar_count })

  -- `max(0, self._cursor - count)` is the difference of natural numbers
  pub get_window : ℕ → Replay F → List (BarData F)
  get_window count r = drop (r.cursor - count) (take r.cursor r.bars)

  pub advance : Replay F → Bool × Replay F
  advance r =
      if leb (length r.bars) r.cursor
      then (false, r)
      else (true, record r { cursor = r.cursor + 1 })

  pub is_exhausted : Replay F → Bool
  is_exhausted r = leb (length r.bars) r.cursor

  -- The index -1 is that of the last bar.
  pub current_bar : Replay F → Option (BarData F)
  current_bar r = if r.cursor == 0 then get_last? r.bars else get_elem? r.bars (r.cursor - 1)

  pub total_steps : Replay F → ℕ
  total_steps r = length r.bars - r.bar_count

  -- so many calls of `advance`
  pub advance_times : ℕ → Replay F → Replay F
  advance_times zero r = r
  advance_times (suc n) r = advance_times n (advance r).1
