-- ===== src/HedgedGrid/Apart.antt =====
-- The two states of a level as lists and dicts (domain/strategy/ciby_hedged_doubling_grid.py): it waits with a limit
-- order, or it has an active pair, and never both.
use aurex_trade.Prelude.{
  ◌≡◌, refl, subst, true, false, List, [], ◌∷◌, arith, ◌↔◌, not, not_true, any-filter-not,
  any_of_filter, Bool-cases, inl, inr, ℕ, sym,
}
use aurex_trade.Prelude.Float.{Float, eq}
use aurex_trade.Prelude.Dict
use aurex_trade.Prelude.Dict.{Dict, lookup-insert, contains_of_erase}
use aurex_trade.HedgedGrid.State.{Grid, has_level, discard}

module _ {F : Type 0} ⦃f : Float F⦄ where
  -- No level both waits and is active.
  unfoldable pub Apart : List F → Dict F ℕ → Type 0
  Apart placed filled = (l : F) → has_level l placed ≡ true → Dict.contains eq l filled ≡ false

  abbrev pub IsApart : Grid F → Type 0
  IsApart s = Apart s.placed_levels s.filled_levels

  -- `==` on levels is equality.
  module _ (same : (a b : F) → (eq a b ≡ true) ↔ (a ≡ b)) where
    pub Apart-cons :
        (level : F) (placed : List F) (filled : Dict F ℕ)
        → Dict.contains eq level filled ≡ false
        → Apart placed filled
        → Apart (level ∷ placed) filled
    unfolding Apart
    Apart-cons level placed filled unfilled h l in_placed = elim (Bool-cases (eq l level)) [
      | inl e ↦ rw ((same l level).0 e) unfilled
      | inr e ↦ h l (ground arith)
    ]

    pub Apart-activate :
        (level : F) (pair : ℕ) (placed : List F) (filled : Dict F ℕ)
        → Apart placed filled
        → Apart (discard level placed) (Dict.insert eq level pair filled)
    unfolding Apart
    Apart-activate level pair placed filled h l in_placed = elim (Bool-cases (eq l level)) [
      | inl e ↦
          let gone : has_level l (discard l placed) ≡ false = any-filter-not (λ x. eq l x) placed in
          let kept : has_level l (discard l placed) ≡ true =
            subst (λ x. has_level l (discard x placed) ≡ true) (sym ((same l level).0 e))
              in_placed in
          cc
      | inr e ↦
          let old = h l (any_of_filter (λ x. not (eq level x)) (λ x. eq l x) placed in_placed) in
          rw (lookup-insert eq same l level pair filled, e) old
    ]

    pub Apart-erase :
        (level : F) (placed : List F) (filled : Dict F ℕ)
        → Apart placed filled
        → Apart placed (Dict.erase eq level filled)
    unfolding Apart
    Apart-erase level placed filled h l in_placed =
        not_true _ λ still. cc (h l in_placed, contains_of_erase eq l level filled still)

    pub Apart-discard :
        (level : F) (placed : List F) (filled : Dict F ℕ)
        → Apart placed filled
        → Apart (discard level placed) filled
    unfolding Apart
    Apart-discard level placed filled h l in_placed =
        h l (any_of_filter (λ x. not (eq level x)) (λ x. eq l x) placed in_placed)

pub Apart-nil : (F : Type 0) ⦃f : Float F⦄ → Apart {F = F} [] []
unfolding Apart
Apart-nil F l h = refl
