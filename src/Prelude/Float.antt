-- ===== src/Prelude/Float.antt =====
-- What the code does with a `float`. Python's floats are a parameter of the whole development: the
-- operations here, and their laws where a theorem needs them.
use aurex_trade.Prelude.Tests.{if◌then◌else◌}
use aurex_trade.Prelude.Int.{ℤ, pos, ◌+ℤ◌, ◌-ℤ◌, ◌*ℤ◌, div_ℤ, ltb_ℤ, leb_ℤ}
use Prim.Native.Nat.{ℕ, ◌≤◌}
use Prim.Native.String.{String}
use mathlib.Core.List.{List}
use mathlib.Core.Option.{Option}
use mathlib.Core.Path.{◌≡◌}
use mathlib.Core.Bool.{Bool, true, false, not}
use native.Mathlib.Omega.{arith}

pub record Float (F : Type 0) : Type 0 where
  -- `float(n)`, and the literals
  pub of_nat : ℕ → F
  pub add : F → F → F
  pub sub : F → F → F
  pub mul : F → F → F
  -- a quotient by a divisor that is not zero
  pub div : F → F → F
  pub lt : F → F → Bool
  pub le : F → F → Bool
  -- `round(x, digits)`
  pub round : ℕ → F → F

module _ {F : Type 0} ⦃f : Float F⦄ where
  infixl 65 ◌⊕◌ ◌⊖◌
  infixl 70 ◌⊗◌ ◌⊘◌
  abbrev pub ◌⊕◌ : F → F → F
  ◌⊕◌ = f.add

  abbrev pub ◌⊖◌ : F → F → F
  ◌⊖◌ = f.sub

  abbrev pub ◌⊗◌ : F → F → F
  ◌⊗◌ = f.mul

  abbrev pub ◌⊘◌ : F → F → F
  ◌⊘◌ = f.div

  -- the literal `0.0`
  abbrev pub nought : F
  nought = f.of_nat 0

  -- `a < b`, `a <= b`; the code's `a > b` is `lt b a`, and `a >= b` is `le b a`
  abbrev pub lt : F → F → Bool
  lt = f.lt

  abbrev pub le : F → F → Bool
  le = f.le

  -- `-a`, as `0.0 - a`
  abbrev pub neg : F → F
  neg a = f.sub nought a

  -- `abs(a)`
  abbrev pub abs : F → F
  abs a = if f.lt a nought then neg a else a

  -- Python's `min(a, b)` and `max(a, b)` give the first argument unless the second one is beyond it.
  abbrev pub min : F → F → F
  min a b = if f.lt b a then b else a

  abbrev pub max : F → F → F
  max a b = if f.lt a b then b else a

  -- `a == b`, for numbers
  abbrev pub eq : F → F → Bool
  eq a b = if f.le a b then f.le b a else false

  abbrev pub round : ℕ → F → F
  round = f.round

  infix 4 ◌≼◌
  abbrev pub ◌≼◌ : F → F → Type 0
  a ≼ b = f.le a b ≡ true

-- The order of the finite floats, and how the operations stand to it. All of these hold of IEEE
-- doubles that are not NaN, as long as no sum overflows.
pub record IsOrdered (F : Type 0) ⦃f : Float F⦄ : Type 0 where
  pub le_refl : (a : F) → a ≼ a
  pub le_trans : (a b c : F) → a ≼ b → b ≼ c → a ≼ c
  pub lt-eq-not-le : (a b : F) → f.lt a b ≡ not (f.le b a)
  pub le_total : (a b : F) → f.le a b ≡ false → b ≼ a
  pub of_nat_mono : (m n : ℕ) → m ≤ n → f.of_nat m ≼ f.of_nat n
  pub le-add : (a b : F) → f.of_nat 0 ≼ b → a ≼ f.add a b
  pub sub-le : (a b : F) → f.of_nat 0 ≼ b → f.sub a b ≼ a
  pub half_nonneg : (a : F) → f.of_nat 0 ≼ a → f.of_nat 0 ≼ f.div a (f.of_nat 2)
  pub sub_self : (a : F) → f.sub a a ≡ f.of_nat 0
  pub sub_mono : (a b c : F) → a ≼ b → f.sub a c ≼ f.sub b c
  pub round_mono : (d : ℕ) (a b : F) → a ≼ b → f.round d a ≼ f.round d b

-- How numbers are written and read: `f"{x:.2f}"` is `fixed 2 x`, `f"{x:.1%}"` is `percent 1 x`,
-- `str(x)` of a float is `text x` and of an int `int_text n`, and `float(s)` is `parse s`, with
-- `none` for a ValueError.
pub record Format (F : Type 0) : Type 0 where
  pub fixed : ℕ → F → String
  pub percent : ℕ → F → String
  pub text : F → String
  pub int_text : ℕ → String
  pub parse : String → Option F

-- What the code takes from `math`, and the built-in `sum` and `** 2`.
pub record Math (F : Type 0) : Type 0 where
  pub sqrt : F → F
  pub square : F → F
  pub sum : List F → F
  -- `float("inf")`
  pub infinity : F
  pub is_finite : F → Bool

-- The laws can be met: whole numbers.
instance abbrev pub int_float : Float ℤ
int_float = record {
  of_nat = pos;
  add = ◌+ℤ◌;
  sub = ◌-ℤ◌;
  mul = ◌*ℤ◌;
  div = div_ℤ;
  lt = ltb_ℤ;
  le = leb_ℤ;
  round = λ d x. x;
}

pub ℤ-IsOrdered : IsOrdered ℤ
unfolding ◌+ℤ◌ ◌-ℤ◌ div_ℤ
ℤ-IsOrdered = ground arith
