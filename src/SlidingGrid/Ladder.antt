-- ===== src/SlidingGrid/Ladder.antt =====
-- The ladder of levels, and the prices, sizes and order types that go with a level
-- (domain/strategy/ciby_sliding_grid.py, from `_build_ladder` to `_direction`).
use aurex_trade.Prelude.{
  ℕ, zero, suc, String, str_eq, Bool, true, false, Option, none, some, List, [], ◌∷◌, ◌++◌,
  if◌then◌else◌, filter, take,
}
use aurex_trade.Prelude.Float.{Float, ◌⊕◌, ◌⊖◌, ◌⊗◌, round, lt, le, eq}
use aurex_trade.SlidingGrid.State.{Sliding}

abbrev pub reverse_onto : {A : Type 0} → List A → List A → List A
reverse_onto acc [] = acc
reverse_onto acc (x ∷ xs) = reverse_onto (x ∷ acc) xs

module _ {F : Type 0} ⦃f : Float F⦄ where
  -- one element into a sorted list without repetitions, and `sorted(set(xs))`
  unfoldable pub insert_level : F → List F → List F
  insert_level x [] = x ∷ []
  insert_level x (y ∷ ys) =
      if eq x y then y ∷ ys else if lt x y then x ∷ y ∷ ys else y ∷ insert_level x ys

  unfoldable pub sorted_levels : List F → List F
  sorted_levels [] = []
  sorted_levels (x ∷ xs) = insert_level x (sorted_levels xs)

  -- `n` levels from the first one on, in steps up or down
  unfoldable pub levels_up : F → F → ℕ → List F
  levels_up first step zero = []
  levels_up first step (suc i) = round 2 (first ⊕ f.of_nat i ⊗ step) ∷ levels_up first step i

  unfoldable pub levels_down : F → F → ℕ → List F
  levels_down first step zero = []
  levels_down first step (suc i) = round 2 (first ⊖ f.of_nat i ⊗ step) ∷ levels_down first step i

  unfoldable pub build_ladder : F → Sliding F → List F
  build_ladder anchor s = sorted_levels (
      (round 2 anchor ∷ levels_up (anchor ⊕ s.anchor_gap) s.grid_spacing 100)
      ++ levels_down (anchor ⊖ s.anchor_gap) s.grid_spacing 100)

  abbrev pub first_of : List F → Option F
  first_of [] = none
  first_of (x ∷ xs) = some x

  -- `_next_level(level, above=True)`: what follows the level in the ladder
  unfoldable pub next_above : F → List F → Option F
  next_above level [] = none
  next_above level (x ∷ xs) = if eq level x then first_of xs else next_above level xs

  -- `_next_level(level, above=False)`: what stands before it; `prev` is the level before the list
  unfoldable pub next_below : F → Option F → List F → Option F
  next_below level prev [] = none
  next_below level prev (x ∷ xs) = if eq level x then prev else next_below level (some x) xs

  unfoldable pub is_anchor : F → Sliding F → Bool
  is_anchor level s = elim s.anchor_price [ none ↦ false | some anchor ↦ eq level (round 2 anchor) ]

  unfoldable pub units_for : F → Sliding F → F
  units_for level s = if is_anchor level s then s.anchor_units else s.grid_units

  unfoldable pub side_entry : F → String → Sliding F → F
  side_entry level side s =
      if str_eq side "long" then round 2 (level ⊕ s.buy_sell_offset) else round 2 level

  unfoldable pub order_type_for : F → String → Sliding F → String
  order_type_for level side s =
      let above = lt s.current_price (side_entry level side s) in
      if str_eq side "long"
      then (if above then "STOP" else "LIMIT")
      else if above
      then "LIMIT"
      else "STOP"

  unfoldable pub side_stop_loss : F → String → Sliding F → Option F
  side_stop_loss level side s =
      if str_eq side "long"
      then elim (next_below level none s.levels) [
        | none ↦ none
        | some below ↦ some (round 2 (side_entry level side s ⊖ ((level ⊖ below) ⊕ s.stop_buffer)))
      ]
      else elim (next_above level s.levels) [
        | none ↦ none
        | some above ↦ some (round 2 (side_entry level side s ⊕ ((above ⊖ level) ⊕ s.stop_buffer)))
      ]

  -- `_direction() > 0`
  unfoldable pub is_up : Sliding F → Bool
  is_up s = elim s.anchor_price [ none ↦ true | some anchor ↦ le anchor s.current_price ]

  abbrev pub count_above : Sliding F → ℕ
  count_above s = if is_up s then s.max_levels_ahead else s.max_levels_behind

  abbrev pub count_below : Sliding F → ℕ
  count_below s = if is_up s then s.max_levels_behind else s.max_levels_ahead

  -- the levels next to the price that orders are to rest at
  unfoldable pub window_above : Sliding F → List F
  window_above s = take (count_above s) (filter (λ lv. lt s.current_price lv) s.levels)

  unfoldable pub window_below : Sliding F → List F
  window_below s =
      take (count_below s) (filter (λ lv. lt lv s.current_price) (reverse_onto [] s.levels))

  unfoldable pub window : Sliding F → List F
  window s = sorted_levels (window_above s ++ window_below s)
