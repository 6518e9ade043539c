-- ===== src/MarketData/Window.antt =====
-- What a strategy sees of the bars of a replay (adapters/backtest/market_data.py).
use aurex_trade.Prelude.{
  ℕ, zero, suc, ◌-◌, ◌≤◌, ◌<◌, ◌≡◌, ◌∙◌, ap, refl, false, List, [], ◌∷◌, leb, ◌==◌, if◌then◌else◌,
  arith, length, drop, take, get_last?,
}
use aurex_trade.Domain.Models.{BarData}
use aurex_trade.MarketData.{Replay, get_elem?, get_window, current_bar}

module _ {A : Type 0} where
  length-take : (n : ℕ) (xs : List A) → n ≤ length xs → length (take n xs) ≡ n
  length-take zero xs h = omega arith
  length-take (suc n) [] h = elim h [ ]
  length-take (suc n) (x ∷ xs) h = omega (arith, length-take n xs (omega arith))

  length-drop : (n : ℕ) (xs : List A) → length (drop n xs) ≡ length xs - n
  length-drop zero xs = omega arith
  length-drop (suc n) [] = omega arith
  length-drop (suc n) (x ∷ xs) = omega (arith, length-drop n xs)

  get_last?-drop : (n : ℕ) (xs : List A) → n < length xs → get_last? (drop n xs) ≡ get_last? xs
  get_last?-drop zero xs h = refl
  get_last?-drop (suc n) [] h = elim h [ ]
  get_last?-drop (suc n) (x ∷ []) h = absurd (omega arith)
  get_last?-drop (suc n) (x ∷ y ∷ xs) h = get_last?-drop n (y ∷ xs) (omega arith)

  get_last?-take :
      (n : ℕ) (xs : List A) → n < length xs → get_last? (take (suc n) xs) ≡ get_elem? xs n
  get_last?-take n [] h = elim h [ ]
  get_last?-take zero (x ∷ xs) h = refl
  get_last?-take (suc n) (x ∷ []) h = absurd (omega arith)
  get_last?-take (suc n) (x ∷ y ∷ xs) h = get_last?-take n (y ∷ xs) (omega arith)

  -- The last of the first elements is the one before the cut.
  last_seen :
      (c n : ℕ) (xs : List A)
      → c ≡ suc n
      → n < length xs
      → get_last? (take c xs) ≡ (if c == 0 then get_last? xs else get_elem? xs (c - 1))
  last_seen c n xs e h =
      let before : c - 1 ≡ n = omega arith in
      let some_seen : (c == 0) ≡ false = ground arith in
      rw (some_seen, before, e) (get_last?-take n xs h)

module _ {F : Type 0} where
  -- With a cursor on the bars, a window of at least one bar has the number of bars that is asked
  -- for, or all up to the cursor if they are fewer; it ends in the current bar; and it is the same
  -- for any other bars after the cursor, so that a strategy cannot look ahead.
  pub get_window-current :
      (count : ℕ) (r : Replay F) (others : List (BarData F))
      → 0 < count
      → 0 < r.cursor
      → r.cursor ≤ length r.bars
      → take r.cursor others ≡ take r.cursor r.bars
      → (length (get_window count r) ≡ (if leb count r.cursor then count else r.cursor))
        × (get_last? (get_window count r) ≡ current_bar r)
        × (get_window count (record r { bars = others }) ≡ get_window count r)
  unfolding get_window current_bar
  get_window-current count r others pos started within same =
      let seen : length (take r.cursor r.bars) ≡ r.cursor = length-take r.cursor r.bars within in
      let size = length-drop (r.cursor - count) (take r.cursor r.bars) in
      let last : get_last? (drop (r.cursor - count) (take r.cursor r.bars))
          ≡ get_last? (take r.cursor r.bars) =
        get_last?-drop (r.cursor - count) (take r.cursor r.bars) (omega arith) in
      (
        ground arith,
        last ∙ last_seen r.cursor (r.cursor - 1) r.bars (omega arith) (omega arith),
        ap (drop (r.cursor - count)) same,
      )
