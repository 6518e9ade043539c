-- ===== src/Prelude/Lists.antt =====
-- Lists measured and cut by native numbers, and filtered by Boolean tests.
use Prim.Native.Nat.{ℕ, zero, suc, ◌+◌, ◌-◌, ◌≤◌}
use mathlib.Core.Path.{◌≡◌, refl}
use mathlib.Core.Bool.{Bool, true, false, not, ◌&&◌, ◌||◌}
use mathlib.Core.List.{List, [], ◌∷◌, ◌++◌}
use mathlib.Core.Option.{Option, none, some}
use native.Mathlib.Omega.{arith}
use aurex_trade.Prelude.Tests.{◌==◌, if◌then◌else◌}

module _ {ℓ} {A : Type ℓ} where
  abbrev pub length : List A → ℕ
  length [] = 0
  length (x ∷ xs) = suc (length xs)

  abbrev pub drop : ℕ → List A → List A
  drop zero xs = xs
  drop (suc n) [] = []
  drop (suc n) (x ∷ xs) = drop n xs

  abbrev pub take : ℕ → List A → List A
  take zero xs = []
  take (suc n) [] = []
  take (suc n) (x ∷ xs) = x ∷ take n xs

  -- `[x for x in xs if p(x)]`
  abbrev pub filter : (A → Bool) → List A → List A
  filter p [] = []
  filter p (x ∷ xs) = if p x then x ∷ filter p xs else filter p xs

  -- `any(p(x) for x in xs)` and `all(p(x) for x in xs)`
  abbrev pub any : (A → Bool) → List A → Bool
  any p [] = false
  any p (x ∷ xs) = p x || any p xs

  abbrev pub all : (A → Bool) → List A → Bool
  all p [] = true
  all p (x ∷ xs) = p x && all p xs

  -- `next((x for x in xs if p(x)), None)`
  abbrev pub find : (A → Bool) → List A → Option A
  find p [] = none
  find p (x ∷ xs) = if p x then some x else find p xs

  -- Drops the first element that passes the test.
  abbrev pub erase_first : (A → Bool) → List A → List A
  erase_first p [] = []
  erase_first p (x ∷ xs) = if p x then xs else x ∷ erase_first p xs

  -- `xs[-1]`
  abbrev pub get_last? : List A → Option A
  get_last? [] = none
  get_last? (x ∷ []) = some x
  get_last? (x ∷ y ∷ xs) = get_last? (y ∷ xs)

  -- `xs[-n:]`: the last `n` elements, or all of them if there are fewer, or if `n` is 0
  abbrev pub tail_slice : ℕ → List A → List A
  tail_slice n xs = if n == 0 then xs else drop (length xs - n) xs

  abbrev pub All {κ} : (A → Type κ) → List A → Type κ
  All P [] = Unit
  All P (x ∷ xs) = P x × All P xs

  pub length-append : (xs ys : List A) → length (xs ++ ys) ≡ length xs + length ys
  length-append [] ys = omega arith
  length-append (x ∷ xs) ys = omega (arith, length-append xs ys)

  pub All-append {κ} : (P : A → Type κ) (xs ys : List A) → All P xs → All P ys → All P (xs ++ ys)
  All-append P [] ys p q = q
  All-append P (x ∷ xs) ys (p, ps) q = (p, All-append P xs ys ps q)

  pub All-filter {κ} :
      (P : A → Type κ) (p : A → Bool) (xs : List A) → All P xs → All P (filter p xs)
  All-filter P p [] h = tt
  All-filter P p (x ∷ xs) h = ground (arith, All-filter P p xs h.1)

  pub filter_le : (p : A → Bool) (xs : List A) → length (filter p xs) ≤ length xs
  filter_le p [] = omega arith
  filter_le p (x ∷ xs) = ground (arith, filter_le p xs)

  -- A test that fails wherever another one holds keeps what that one drops.
  pub filter-filter-not :
      (p q : A → Bool) (xs : List A)
      → ((x : A) → q x ≡ true → p x ≡ false)
      → filter q (filter (λ x. not (p x)) xs) ≡ filter q xs
  filter-filter-not p q [] h = refl
  filter-filter-not p q (x ∷ xs) h = ground (arith, h x, filter-filter-not p q xs h)

  pub filter-filter-not_self :
      (p : A → Bool) (xs : List A) → filter p (filter (λ x. not (p x)) xs) ≡ []
  filter-filter-not_self p [] = refl
  filter-filter-not_self p (x ∷ xs) = ground (arith, filter-filter-not_self p xs)

  pub any-filter-not : (p : A → Bool) (xs : List A) → any p (filter (λ x. not (p x)) xs) ≡ false
  any-filter-not p [] = refl
  any-filter-not p (x ∷ xs) = ground (arith, any-filter-not p xs)

  pub any_of_filter : (p q : A → Bool) (xs : List A) → any q (filter p xs) ≡ true → any q xs ≡ true
  any_of_filter p q [] h = h
  any_of_filter p q (x ∷ xs) h = ground (arith, any_of_filter p q xs)
