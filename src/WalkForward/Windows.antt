-- ===== src/WalkForward/Windows.antt =====
-- What the windows of a walk-forward validation train and test on
-- (`run` of src/aurex_trade/backtest/walk_forward.py).
use aurex_trade.Prelude.{
  ℕ, zero, suc, ◌+◌, ◌-◌, ◌*◌, ◌/◌, ◌≤◌, ◌<◌, ◌≡◌, refl, sym, ap, ◌∙◌, List, [], ◌∷◌, ◌++◌, length,
  take, drop, arith,
}
use native.Mathlib.Nat.{
  lt-div-mul-add, mul-le-mul_right, div-mul-le_self, add_comm, zero-add, suc-add, suc-mul, zero-mul,
}
use aurex_trade.Domain.Models.{BarData}
use aurex_trade.WalkForward.{WalkForward, window_size, train_slice, test_slice}

module _ {A : Type 0} where
  drop_nil : (n : ℕ) → drop {A = A} n [] ≡ []
  drop_nil zero = refl
  drop_nil (suc n) = refl

  take_nil : (n : ℕ) → take {A = A} n [] ≡ []
  take_nil zero = refl
  take_nil (suc n) = refl

  drop-drop : (m n : ℕ) (xs : List A) → drop n (drop m xs) ≡ drop (m + n) xs
  drop-drop zero n xs = rw (zero-add n) refl
  drop-drop (suc m) n [] = drop_nil n ∙ sym (drop_nil (suc m + n))
  drop-drop (suc m) n (x ∷ xs) = rw (suc-add m n) (drop-drop m n xs)

  take-add : (m n : ℕ) (xs : List A) → take (m + n) xs ≡ take m xs ++ take n (drop m xs)
  take-add zero n xs = rw (zero-add n) refl
  take-add (suc m) n [] = take_nil (suc m + n) ∙ sym (take_nil n)
  take-add (suc m) n (x ∷ xs) = rw (suc-add m n) (ap (λ ys. x ∷ ys) (take-add m n xs))

  length-take : (n : ℕ) (xs : List A) → n ≤ length xs → length (take n xs) ≡ n
  length-take zero xs h = refl
  length-take (suc n) [] h = omega arith
  length-take (suc n) (x ∷ xs) h = omega (arith, length-take n xs (omega arith))

  length-drop : (n : ℕ) (xs : List A) → length (drop n xs) ≡ length xs - n
  length-drop zero xs = omega arith
  length-drop (suc n) [] = omega arith
  length-drop (suc n) (x ∷ xs) = omega (arith, length-drop n xs)

module _ {F : Type 0} where
  -- the slices of `n` windows from `i` on, one after the other
  abbrev pub all_slices : WalkForward F → ℕ → ℕ → List (BarData F)
  all_slices w i zero = []
  all_slices w i (suc n) = (train_slice w i ++ test_slice w i) ++ all_slices w (suc i) n

  slices_pair :
      (w : WalkForward F) (i : ℕ)
      → train_slice w i ++ test_slice w i ≡ take (window_size w) (drop (i * window_size w) w.bars)
  unfolding train_slice test_slice window_size
  slices_pair w i =
      rw⁻¹ (drop-drop (i * window_size w) w.train_bars w.bars)
        (sym (take-add w.train_bars w.test_bars (drop (i * window_size w) w.bars)))

  next_slices :
      (size n m : ℕ) (xs : List (BarData F))
      → take size (drop m xs) ++ take (n * size) (drop (m + size) xs)
        ≡ take (suc n * size) (drop m xs)
  next_slices size n m xs =
      rw (suc-mul n size, add_comm (n * size) size)
        (rw⁻¹ (drop-drop m size xs) (sym (take-add size (n * size) (drop m xs))))

  all_slices-take :
      (w : WalkForward F) (n i : ℕ)
      → all_slices w i n ≡ take (n * window_size w) (drop (i * window_size w) w.bars)
  all_slices-take w zero i = rw (zero-mul (window_size w)) refl
  all_slices-take w (suc n) i =
      rw (slices_pair w i, all_slices-take w n (suc i), suc-mul i (window_size w))
        (next_slices (window_size w) n (i * window_size w) w.bars)

  fits :
      (w : WalkForward F) (i : ℕ)
      → i < length w.bars / window_size w
      → i * window_size w + window_size w ≤ length w.bars
  fits w i below =
      let most = div-mul-le_self (length w.bars) (window_size w) in
      let next : suc i ≤ length w.bars / window_size w = omega arith in
      let step = mul-le-mul_right (window_size w) next in
      omega (arith, suc-mul i (window_size w), most, step)

  -- Both slices of a window have the length that was asked for.
  abbrev pub HasFullSlices : WalkForward F → ℕ → Type 0
  HasFullSlices w i =
      (length (train_slice w i) ≡ w.train_bars) × (length (test_slice w i) ≡ w.test_bars)

  slices_full : (w : WalkForward F) (i : ℕ) → i < length w.bars / window_size w → HasFullSlices w i
  unfolding train_slice test_slice window_size
  slices_full w i below =
      let room = fits w i below in
      let at = i * window_size w in
      (
        length-take w.train_bars _ (omega (arith, length-drop at w.bars, room)),
        length-take w.test_bars _ (omega (arith, length-drop (at + w.train_bars) w.bars, room)),
      )

  -- The windows of a walk-forward validation cut the bars without a gap and without an overlap: the
  -- training and test slices of all windows, one after the other, are the first bars, each slice has
  -- the length that was asked for, and the bars left over are fewer than a window has.
  pub slices-cover :
      (w : WalkForward F)
      → 0 < window_size w
      → let n = length w.bars / window_size w in
        (all_slices w 0 n ≡ take (n * window_size w) w.bars)
        × ((i : ℕ) → i < n → HasFullSlices w i)
        × (length w.bars < n * window_size w + window_size w)
  slices-cover w sized =
      let n = length w.bars / window_size w in
      (
        rw (zero-mul (window_size w)) at (all_slices-take w n 0),
        slices_full w,
        lt-div-mul-add sized,
      )
