-- ===== src/MarketData/Progress.antt =====
-- How a replay comes to its end (adapters/backtest/market_data.py).
use aurex_trade.Prelude.{
  ℕ, zero, suc, ◌+◌, ◌≤◌, ◌≡◌, ◌↔◌, refl, true, List, leb, ltb, Bool-cases, inl, inr, if◌then◌else◌,
  arith, length, ok,
}
use aurex_trade.Domain.Models.{BarData}
use aurex_trade.MarketData.{Replay, open_replay, advance, advance_times, is_exhausted, total_steps}

module _ {F : Type 0} where
  advance_times-cursor :
      (n : ℕ) (r : Replay F)
      → r.cursor ≤ length r.bars
      → let after = advance_times n r in
        (after.bars ≡ r.bars)
        × (after.cursor
            ≡ (if leb (r.cursor + n) (length r.bars) then r.cursor + n else length r.bars))
  unfolding advance_times advance
  advance_times-cursor zero r h = (refl, ground arith)
  advance_times-cursor (suc n) r h = ground (
    arith,
    advance_times-cursor n r h,
    advance_times-cursor n (record r { cursor = r.cursor + 1 }),
  )

  steps_of :
      (n : ℕ) (r : Replay F)
      → r.cursor ≡ r.bar_count
      → r.cursor ≤ length r.bars
      → ((is_exhausted (advance_times n r) ≡ true) ↔ (total_steps r ≤ n))
        × ((advance_times n r).cursor ≤ length r.bars)
  unfolding is_exhausted total_steps
  steps_of n r fresh h =
      let (bars, cursor) = advance_times-cursor n r h in
      (((λ x. ground arith), λ x. ground arith), ground arith)

  -- A replay that opens is exhausted after its total number of steps and not before, and no call of
  -- `advance` goes beyond the last bar.
  pub open_replay-exhausted :
      (bars : List (BarData F)) (bar_count n : ℕ) (r : Replay F)
      → open_replay bars bar_count ≡ ok r
      → ((is_exhausted (advance_times n r) ≡ true) ↔ (total_steps r ≤ n))
        × ((advance_times n r).cursor ≤ length bars)
  unfolding open_replay is_exhausted total_steps
  open_replay-exhausted bars bar_count n r e = elim (Bool-cases (ltb (length bars) bar_count)) [
    | inl short ↦ cc (rw (short, open_replay) at e)
    | inr enough ↦
        let opened : Replay F = record { bars = bars; bar_count = bar_count; cursor = bar_count } in
        let same : opened ≡ r = cc (rw (enough, open_replay) at e) in
        rw (← same) (steps_of n opened refl (ground arith))
  ]
