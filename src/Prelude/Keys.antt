-- ===== src/Prelude/Keys.antt =====
-- Lists of records told apart by a numeric key, as the brokers keep orders and trades by their ids.
use Prim.Native.Nat.{ℕ, ◌+◌, ◌≤◌, ◌<◌}
use mathlib.Core.Path.{◌≡◌, refl}
use mathlib.Core.Logic.{◌≢◌}
use mathlib.Core.Bool.{Bool, false, not}
use mathlib.Core.List.{List, [], ◌∷◌, ◌++◌}
use mathlib.Core.Option.{none, some}
use native.Mathlib.Omega.{arith}
use aurex_trade.Prelude.Tests.{◌==◌, if◌then◌else◌}
use aurex_trade.Prelude.Lists.{length, filter, find, any, erase_first, All}

module _ {A : Type 0} (key : A → ℕ) where
  -- No element has the key.
  abbrev pub Lacks : ℕ → List A → Type 0
  Lacks k = All (λ x. key x ≢ k)

  abbrev pub Distinct : List A → Type 0
  Distinct [] = Unit
  Distinct (x ∷ xs) = Lacks (key x) xs × Distinct xs

  abbrev pub Below : ℕ → List A → Type 0
  Below n = All (λ x. key x < n)

  -- `xs.remove(x)`, for a list in which `x` is the only element with its key
  abbrev pub remove : A → List A → List A
  remove x = erase_first (λ y. key y == key x)

  -- `for y in ys: xs.remove(y)`
  abbrev pub remove_all : List A → List A → List A
  remove_all [] xs = xs
  remove_all (y ∷ ys) xs = remove_all ys (remove y xs)

  pub Lacks-filter : (p : A → Bool) (k : ℕ) (xs : List A) → Lacks k xs → Lacks k (filter p xs)
  Lacks-filter p k [] h = tt
  Lacks-filter p k (x ∷ xs) h = ground (arith, Lacks-filter p k xs h.1)

  pub Below-filter : (p : A → Bool) (n : ℕ) (xs : List A) → Below n xs → Below n (filter p xs)
  Below-filter p n [] h = tt
  Below-filter p n (x ∷ xs) h = ground (arith, Below-filter p n xs h.1)

  pub Distinct-filter : (p : A → Bool) (xs : List A) → Distinct xs → Distinct (filter p xs)
  Distinct-filter p [] h = tt
  Distinct-filter p (x ∷ xs) h =
      ground (arith, Distinct-filter p xs h.1, Lacks-filter p (key x) xs h.0)

  pub Lacks-erase_first :
      (p : A → Bool) (k : ℕ) (xs : List A) → Lacks k xs → Lacks k (erase_first p xs)
  Lacks-erase_first p k [] h = tt
  Lacks-erase_first p k (x ∷ xs) h = ground (arith, Lacks-erase_first p k xs h.1)

  pub Below-erase_first :
      (p : A → Bool) (n : ℕ) (xs : List A) → Below n xs → Below n (erase_first p xs)
  Below-erase_first p n [] h = tt
  Below-erase_first p n (x ∷ xs) h = ground (arith, Below-erase_first p n xs h.1)

  pub Distinct-erase_first :
      (p : A → Bool) (xs : List A) → Distinct xs → Distinct (erase_first p xs)
  Distinct-erase_first p [] h = tt
  Distinct-erase_first p (x ∷ xs) h =
      ground (arith, Distinct-erase_first p xs h.1, Lacks-erase_first p (key x) xs h.0)

  pub Below-mono : (m n : ℕ) (xs : List A) → m ≤ n → Below m xs → Below n xs
  Below-mono m n [] h b = tt
  Below-mono m n (x ∷ xs) h b = (omega arith, Below-mono m n xs h b.1)

  pub Lacks-of_Below : (n k : ℕ) (xs : List A) → n ≤ k → Below n xs → Lacks k xs
  Lacks-of_Below n k [] h b = tt
  Lacks-of_Below n k (x ∷ xs) h b = (omega arith, Lacks-of_Below n k xs h b.1)

  -- Appending a record with a key that is not below the bound.
  pub Below-append :
      (n : ℕ) (x : A) (xs : List A) → key x < n → Below n xs → Below n (xs ++ (x ∷ []))
  Below-append n x [] h b = (h, tt)
  Below-append n x (y ∷ xs) h b = (b.0, Below-append n x xs h b.1)

  pub Lacks-append :
      (k : ℕ) (x : A) (xs : List A) → key x ≢ k → Lacks k xs → Lacks k (xs ++ (x ∷ []))
  Lacks-append k x [] h b = (h, tt)
  Lacks-append k x (y ∷ xs) h b = (b.0, Lacks-append k x xs h b.1)

  pub Distinct-append :
      (n : ℕ) (x : A) (xs : List A)
      → n ≤ key x
      → Below n xs
      → Distinct xs
      → Distinct (xs ++ (x ∷ []))
  Distinct-append n x [] h b d = (tt, tt)
  Distinct-append n x (y ∷ xs) h b d =
      (Lacks-append (key y) x xs (omega arith) d.0, Distinct-append n x xs h b.1 d.1)

  pub Lacks-remove : (x : A) (xs : List A) → Lacks (key x) xs → remove x xs ≡ xs
  Lacks-remove x [] h = refl
  Lacks-remove x (y ∷ xs) h = ground (arith, Lacks-remove x xs h.1)

  remove_all-cons :
      (x : A) (ys xs : List A) → Lacks (key x) ys → remove_all ys (x ∷ xs) ≡ x ∷ remove_all ys xs
  remove_all-cons x [] xs h = refl
  remove_all-cons x (y ∷ ys) xs h = ground (arith, remove_all-cons x ys (remove y xs) h.1)

  -- Removing the elements that pass a test, one by one, is filtering by the opposite test.
  pub remove_all-filter :
      (p : A → Bool) (xs : List A)
      → Distinct xs
      → remove_all (filter p xs) xs ≡ filter (λ x. not (p x)) xs
  remove_all-filter p [] d = refl
  remove_all-filter p (x ∷ xs) d = ground (
    arith,
    remove_all-filter p xs d.1,
    remove_all-cons x (filter p xs) xs (Lacks-filter p (key x) xs d.0),
  )

  -- Removal by key leaves out exactly what has the key.
  pub erase_first-Lacks :
      (k : ℕ) (xs : List A) → Distinct xs → Lacks k (erase_first (λ y. key y == k) xs)
  erase_first-Lacks k [] d = tt
  erase_first-Lacks k (x ∷ xs) d =
      ground (arith, erase_first-Lacks k xs d.1, λ (e : key x ≡ k). Lacks_at e d.0)
    where
      Lacks_at : key x ≡ k → Lacks (key x) xs → Lacks k xs
      Lacks_at e h = rw e at h

  pub Below-of_find :
      (n : ℕ) (p : A → Bool) (xs : List A) (x : A) → Below n xs → find p xs ≡ some x → key x < n
  Below-of_find n p [] x b e = cc
  Below-of_find n p (y ∷ xs) x b e = ground (arith, Below-of_find n p xs x b.1)

  -- A key that is lacking is not found, and there is nothing to erase.
  pub any_of_Lacks : (k : ℕ) (xs : List A) → Lacks k xs → any (λ y. key y == k) xs ≡ false
  any_of_Lacks k [] h = refl
  any_of_Lacks k (x ∷ xs) h = ground (arith, any_of_Lacks k xs h.1)

  pub find_of_Lacks : (k : ℕ) (xs : List A) → Lacks k xs → find (λ y. key y == k) xs ≡ none
  find_of_Lacks k [] h = refl
  find_of_Lacks k (x ∷ xs) h = ground (arith, find_of_Lacks k xs h.1)

  pub key_of_find : (k : ℕ) (xs : List A) (x : A) → find (λ y. key y == k) xs ≡ some x → key x ≡ k
  key_of_find k [] x e = cc
  key_of_find k (y ∷ xs) x e = ground (arith, key_of_find k xs x)

  -- One element goes if there is one with the key, and none otherwise.
  pub length-erase_first :
      (p : A → Bool) (xs : List A)
      → length xs ≡ length (erase_first p xs) + (if any p xs then 1 else 0)
  length-erase_first p [] = omega arith
  length-erase_first p (x ∷ xs) = ground (arith, length-erase_first p xs)
