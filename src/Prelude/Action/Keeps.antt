-- ===== src/Prelude/Action/Keeps.antt =====
-- What methods keep: one rule for each way to build a method.
use mathlib.Core.Bool.{Bool, true, false}
use mathlib.Core.List.{List, [], ◌∷◌}
use mathlib.Core.Option.{Option, none, some}
use mathlib.Core.Path.{◌≡◌, refl}
use Prim.Native.String.{String}
use aurex_trade.Prelude.Tests.{Result, ok, err, if◌then◌else◌}
use aurex_trade.Prelude.Action.{
  Action, Nothing, pure, raise, gets, or_raise, attempt, modify, ◌>>=◌, when, for_some, each,
}

-- `P` still holds after `m`, whether `m` returns or raises.
pub record Keeps {S A : Type 0} (P : S → Type 0) (m : Action S A) : Type 0 where
  pub at : (s : S) → P s → P (m s).1

module _ {S A : Type 0} {P : S → Type 0} where
  -- a method that leaves the object as it is
  Keeps-reading : (m : Action S A) → ((x : S) → (m x).1 ≡ x) → Keeps P m
  Keeps-reading m same = record { at = λ x p. rw (same x) p }

  pub Keeps-gets : (read : S → A) → Keeps P (gets read)
  unfolding gets
  Keeps-gets read = Keeps-reading (gets read) (λ x. refl)

  pub Keeps-or_raise : (o : Option A) (why : String) → Keeps P (or_raise o why)
  unfolding or_raise
  Keeps-or_raise none why = Keeps-reading (or_raise none why) (λ x. refl)
  Keeps-or_raise (some a) why = Keeps-reading (or_raise (some a) why) (λ x. refl)

  pub Keeps-pure : (value : A) → Keeps P (pure value)
  unfolding pure
  Keeps-pure value = Keeps-reading (pure value) (λ x. refl)

  pub Keeps-raise : (why : String) → Keeps P (raise {A = A} why)
  unfolding raise
  Keeps-raise why = Keeps-reading (raise why) (λ x. refl)

  pub Keeps-attempt : (m : Action S A) → Keeps P m → Keeps P (attempt m)
  unfolding attempt
  Keeps-attempt m k = record { at = λ x p. k.at x p }

  pub Keeps-if :
      (test : Bool) (yes_branch no_branch : Action S A)
      → (test ≡ true → Keeps P yes_branch)
      → (test ≡ false → Keeps P no_branch)
      → Keeps P (if test then yes_branch else no_branch)
  Keeps-if true left right l r = l refl
  Keeps-if false left right l r = r refl

module _ {S : Type 0} {P : S → Type 0} where
  pub Keeps-modify : (g : S → S) → ((s : S) → P s → P (g s)) → Keeps P (modify g)
  unfolding modify
  Keeps-modify g k = record { at = k }

  pub Keeps-when : (b : Bool) (m : Action S Nothing) → Keeps P m → Keeps P (when b m)
  Keeps-when true m k = k
  Keeps-when false m k = Keeps-pure tt

module _ {S A B : Type 0} {P : S → Type 0} where
  -- the rest may use that the value is there
  pub Keeps-bind-or_raise :
      (o : Option A) (why : String) (g : A → Action S B)
      → ((a : A) → o ≡ some a → Keeps P (g a))
      → Keeps P (or_raise o why >>= g)
  unfolding ◌>>=◌
  Keeps-bind-or_raise none why g k = record { at = λ s h. h }
  Keeps-bind-or_raise (some a) why g k = record { at = λ s h. (k a refl).at s h }

  -- the rest may use what holds of the object that was read
  pub Keeps-bind-gets :
      (r : S → A) (g : A → Action S B)
      → ((s : S) → P s → Keeps P (g (r s)))
      → Keeps P (gets r >>= g)
  unfolding ◌>>=◌
  Keeps-bind-gets r g k = record { at = λ s h. (k s h).at s h }

  continue_with :
      (g : A → Action S B) (r : Result A) (t : S)
      → ((a : A) → Keeps P (g a))
      → P t
      → P (((λ (x : S). (r, x)) >>= g) t).1
  unfolding ◌>>=◌
  continue_with g (ok a) t k h = (k a).at t h
  continue_with g (err why) t k h = h

  pub Keeps-bind :
      (m : Action S A) (g : A → Action S B)
      → Keeps P m
      → ((a : A) → Keeps P (g a))
      → Keeps P (m >>= g)
  unfolding ◌>>=◌
  Keeps-bind m g km kg = record {
    at = λ s h. let (r, t) = m s in continue_with g r t kg (km.at s h);
  }

module _ {S : Type 0} {P : S → Type 0} where
  pub Keeps-for_some :
      {A : Type 0} (m : A → Action S Nothing) (o : Option A)
      → ((a : A) → o ≡ some a → Keeps P (m a))
      → Keeps P (for_some m o)
  Keeps-for_some m none k = Keeps-pure tt
  Keeps-for_some m (some a) k = k a refl

  pub Keeps-each :
      {A : Type 0} (m : A → Action S Nothing) (xs : List A)
      → ((x : A) → Keeps P (m x))
      → Keeps P (each m xs)
  Keeps-each m [] k = Keeps-pure tt
  Keeps-each m (x ∷ xs) k = Keeps-bind (m x) (λ _. each m xs) (k x) (λ _. Keeps-each m xs k)

pub ruleset keeps_rules = (
  Keeps-pure, Keeps-raise, Keeps-gets, Keeps-or_raise, Keeps-attempt, Keeps-if, Keeps-modify,
  Keeps-when, Keeps-for_some, Keeps-each, Keeps-bind,
)

-- what holds of the value, if `m` returns one
abbrev pub Holds : {A : Type 0} → (A → Type 0) → Result A → Type 0
Holds Q (ok a) = Q a
Holds Q (err why) = Unit

-- `m` keeps `P`, and `Q` holds of what it returns.
pub record Gives {S A : Type 0} (P : S → Type 0) (Q : A → Type 0) (m : Action S A) : Type 0 where
  pub kept : Keeps P m
  pub given : (s : S) → P s → Holds Q (m s).0

module _ {S A : Type 0} {P : S → Type 0} {Q : A → Type 0} where
  pub Gives-gets : (g : S → A) → ((s : S) → P s → Q (g s)) → Gives P Q (gets g)
  unfolding gets
  Gives-gets g k = record { kept = Keeps-gets g; given = k }

module _ {S A B : Type 0} {P : S → Type 0} where
  continue_given :
      {Q : A → Type 0} (g : A → Action S B) (r : Result A) (t : S)
      → ((a : A) → Q a → Keeps P (g a))
      → P t
      → Holds Q r
      → P (((λ (x : S). (r, x)) >>= g) t).1
  unfolding ◌>>=◌
  continue_given g (ok a) t k h q = (k a q).at t h
  continue_given g (err why) t k h q = h

  pub Keeps-bind-Gives :
      {Q : A → Type 0} (m : Action S A) (g : A → Action S B)
      → Gives P Q m
      → ((a : A) → Q a → Keeps P (g a))
      → Keeps P (m >>= g)
  unfolding ◌>>=◌
  Keeps-bind-Gives m g gm kg = record {
    at = λ s h. let (r, t) = m s in continue_given g r t kg (gm.kept.at s h) (gm.given s h);
  }

  given_after :
      {Q : B → Type 0} (g : A → Action S B) (r : Result A) (t : S)
      → ((a : A) → Gives P Q (g a))
      → P t
      → Holds Q (((λ (x : S). (r, x)) >>= g) t).0
  unfolding ◌>>=◌
  given_after g (ok a) t k h = (k a).given t h
  given_after g (err why) t k h = tt

  pub Gives-bind :
      {Q : B → Type 0} (m : Action S A) (g : A → Action S B)
      → Keeps P m
      → ((a : A) → Gives P Q (g a))
      → Gives P Q (m >>= g)
  unfolding ◌>>=◌
  Gives-bind m g km kg = record {
    kept = Keeps-bind m g km (λ a. (kg a).kept);
    given = λ s h. let (r, t) = m s in given_after g r t kg (km.at s h);
  }
