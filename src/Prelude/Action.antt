-- ===== src/Prelude/Action.antt =====
-- Methods that change an object of the type `S` and may raise. What was written before a raise stays
-- written.
pub mod Keeps
use mathlib.Core.Bool.{Bool, true, false}
use mathlib.Core.List.{List, [], ◌∷◌}
use mathlib.Core.Option.{Option, none, some}
use Prim.Native.String.{String}
use aurex_trade.Prelude.Tests.{Result, ok, err}

abbrev pub Action : Type 0 → Type 0 → Type 0
Action S A = S → Result A × S

abbrev pub Nothing : Type 0
Nothing = Unit {0}

module _ {S A : Type 0} where
  unfoldable pub pure : A → Action S A
  pure a s = (ok a, s)

  unfoldable pub raise : String → Action S A
  raise why s = (err why, s)

  unfoldable pub gets : (S → A) → Action S A
  gets g s = (ok (g s), s)

  -- the value, or the exception if there is none
  unfoldable pub or_raise : Option A → String → Action S A
  or_raise none why s = (err why, s)
  or_raise (some a) why s = (ok a, s)

  -- `try: m except Exception: …`, with what the `try` block came to
  unfoldable pub attempt : Action S A → Action S (Result A)
  attempt m s = let (r, t) = m s in (ok r, t)

module _ {S : Type 0} where
  unfoldable pub modify : (S → S) → Action S Nothing
  modify g s = (ok tt, g s)

module _ {S A B : Type 0} where
  abbrev continue : Result A → (A → Action S B) → Action S B
  continue (ok a) g s = g a s
  continue (err why) g s = (err why, s)

  infixl 10 ◌>>=◌ ◌>>◌
  unfoldable pub ◌>>=◌ : Action S A → (A → Action S B) → Action S B
  unfolding pure raise gets or_raise attempt modify
  ◌>>=◌ m g s = let (r, t) = m s in continue r g t

  abbrev pub ◌>>◌ : Action S A → Action S B → Action S B
  m >> n = m >>= λ _. n

module _ {S : Type 0} where
  abbrev pub done : Action S Nothing
  done = pure tt

  -- `if test: m`
  abbrev pub when : Bool → Action S Nothing → Action S Nothing
  when true m = m
  when false m = done

  -- `if x is not None: m(x)`
  abbrev pub for_some : {A : Type 0} → (A → Action S Nothing) → Option A → Action S Nothing
  for_some m none = done
  for_some m (some x) = m x

  -- `for x in xs: m(x)`
  abbrev pub each : {A : Type 0} → (A → Action S Nothing) → List A → Action S Nothing
  each m [] = done
  each m (x ∷ xs) = m x >> each m xs
