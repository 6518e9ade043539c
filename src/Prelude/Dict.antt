-- ===== src/Prelude/Dict.antt =====
-- A Python dict as an association list in insertion order. The first argument tests keys for
-- equality: texts, ids, or floats.
pub mod Erase
use mathlib.Core.Path.{◌≡◌, refl}
use mathlib.Core.Logic.{◌↔◌}
use mathlib.Core.Bool.{Bool, true}
use mathlib.Core.List.{List, [], ◌∷◌}
use mathlib.Core.Option.{Option, none, some}
use aurex_trade.Prelude.Lists.{All}
use native.Mathlib.Omega.{arith}
use aurex_trade.Prelude.Tests.{if◌then◌else◌, is_some}

abbrev pub Dict : Type 0 → Type 0 → Type 0
Dict K V = List (K × V)

module _ {K V : Type 0} (eq : K → K → Bool) where
  -- `d.get(k)`
  abbrev pub lookup : K → Dict K V → Option V
  lookup k [] = none
  lookup k ((j, v) ∷ d) = if eq k j then some v else lookup k d

  -- `k in d`
  abbrev pub contains : K → Dict K V → Bool
  contains k d = is_some (lookup k d)

  -- `d[k] = v`
  abbrev pub insert : K → V → Dict K V → Dict K V
  insert k v [] = (k, v) ∷ []
  insert k v ((j, w) ∷ d) = if eq k j then (j, v) ∷ d else (j, w) ∷ insert k v d

  -- `d.pop(k, None)`, `del d[k]`
  abbrev pub erase : K → Dict K V → Dict K V
  erase k [] = []
  erase k ((j, w) ∷ d) = if eq k j then d else (j, w) ∷ erase k d

  pub lookup-insert_self :
      (k : K) (v : V) (d : Dict K V) → eq k k ≡ true → lookup k (insert k v d) ≡ some v
  lookup-insert_self k v [] h = ground arith
  lookup-insert_self k v ((j, w) ∷ d) h = ground (arith, lookup-insert_self k v d h)

  -- What holds of all keys holds of them after an insertion.
  pub All-insert {κ} :
      (Q : K → Type κ) (k : K) (v : V) (d : Dict K V)
      → Q k
      → All (λ e. Q e.0) d
      → All (λ e. Q e.0) (insert k v d)
  All-insert Q k v [] q h = (q, tt)
  All-insert Q k v ((j, w) ∷ d) q h = ground (arith, All-insert Q k v d q h.1)

  pub lookup-insert :
      ((a b : K) → (eq a b ≡ true) ↔ (a ≡ b))
      → (j k : K) (v : V) (d : Dict K V)
      → lookup j (insert k v d) ≡ (if eq j k then some v else lookup j d)
  lookup-insert h j k v [] = refl
  lookup-insert h j k v ((i, w) ∷ d) = ground (arith, h k i, h j i, h j k, lookup-insert h j k v d)

  pub contains_of_erase :
      (j k : K) (d : Dict K V) → contains j (erase k d) ≡ true → contains j d ≡ true
  contains_of_erase j k [] h = h
  contains_of_erase j k ((i, w) ∷ d) h = ground (arith, contains_of_erase j k d)
