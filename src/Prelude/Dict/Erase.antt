-- ===== src/Prelude/Dict/Erase.antt =====
-- Deleting some of the entries of a dict, one after the other, is keeping the others.
use mathlib.Core.Path.{◌≡◌, refl}
use mathlib.Core.Logic.{◌↔◌, ◌≢◌}
use mathlib.Core.Bool.{Bool, true, not}
use mathlib.Core.List.{[], ◌∷◌}
use native.Mathlib.Omega.{arith}
use aurex_trade.Prelude.Lists.{All, All-filter, filter}
use aurex_trade.Prelude.Dict.{Dict, erase}

module _ {K V : Type 0} where
  -- No entry has the key.
  abbrev pub Fresh : K → Dict K V → Type 0
  Fresh k = All (λ e. e.0 ≢ k)

  abbrev pub HasDistinctKeys : Dict K V → Type 0
  HasDistinctKeys [] = Unit
  HasDistinctKeys ((k, v) ∷ d) = Fresh k d × HasDistinctKeys d

module _ {K V : Type 0} (eq : K → K → Bool) where
  -- `for key in keys: del d[key]`
  abbrev pub erase_each : Dict K V → Dict K V → Dict K V
  erase_each [] d = d
  erase_each ((k, v) ∷ ks) d = erase_each ks (erase eq k d)

module _ {K V : Type 0} {eq : K → K → Bool} (h : (a b : K) → (eq a b ≡ true) ↔ (a ≡ b)) where
  erase_each-cons :
      (k : K) (v : V) (ks d : Dict K V)
      → Fresh k ks
      → erase_each eq ks ((k, v) ∷ d) ≡ (k, v) ∷ erase_each eq ks d
  erase_each-cons k v [] d f = refl
  erase_each-cons k v ((j, u) ∷ ks) d f =
      ground (arith, h j k, f.0, erase_each-cons k v ks (erase eq j d) f.1)

  pub erase_each-filter :
      (p : K × V → Bool) (d : Dict K V)
      → HasDistinctKeys d
      → erase_each eq (filter p d) d ≡ filter (λ e. not (p e)) d
  erase_each-filter p [] f = refl
  erase_each-filter p ((k, v) ∷ d) f = ground (
    arith,
    (h k k).1 refl,
    erase_each-filter p d f.1,
    erase_each-cons k v (filter p d) d (All-filter (λ e. e.0 ≢ k) p d f.0),
  )
