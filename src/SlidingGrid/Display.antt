-- ===== src/SlidingGrid/Display.antt =====
-- What the sliding grid shows of itself (domain/strategy/ciby_sliding_grid.py, `get_display_state` and
-- `_level_display`).
use aurex_trade.Prelude.{
  ℕ, suc, ◌+◌, ◌-◌, ◌/◌, String, str_eq, Bool, Option, none, some, List, [], ◌∷◌, ◌++◌,
  if◌then◌else◌, length, take, drop, map, get_last?,
}
use aurex_trade.Prelude.Float.{Float, Format, nought, round, eq}
use aurex_trade.Prelude.Dict.{Dict, lookup}
use aurex_trade.SlidingGrid.State.{Sliding, sides_at, has_side}
use aurex_trade.SlidingGrid.Ladder.{
  sorted_levels, side_stop_loss, units_for, order_type_for, reverse_onto,
}
use aurex_trade.SlidingGrid.Placing.{has, is_nil, side_key}

pub record SideState (F : Type 0) : Type 0 where
  pub status : String
  pub fill : F
  pub sl : F
  pub units : F
  pub order_type : String

pub record LevelDisplay (F : Type 0) : Type 0 where
  pub price : F
  pub status : String
  pub buy : SideState F
  pub sell : SideState F

-- the "type" is always "paired_grid"
pub record GridDisplay (F : Type 0) : Type 0 where
  pub anchor_price : F
  pub current_price : F
  pub grid_levels : List (LevelDisplay F)
  pub session_count : ℕ
  pub session_active : Bool
  pub filled_count : ℕ
  pub placed_count : ℕ

-- `text.lower()`, of the three types that a side is entered as
abbrev pub type_lower : String → String
type_lower text =
    if str_eq text "STOP"
    then "stop"
    else if str_eq text "LIMIT"
    then "limit"
    else if str_eq text "MARKET"
    then "market"
    else text

abbrev pub keys_of : {K V : Type 0} → Dict K V → List K
keys_of = map (λ e. e.0)

abbrev pub count_sides : {K : Type 0} → Dict K (List String) → ℕ
count_sides [] = 0
count_sides ((k, sides) ∷ rest) = length sides + count_sides rest

module _ {F : Type 0} ⦃f : Float F⦄ where
  unfoldable pub side_status : F → String → Sliding F → String
  side_status level side s =
      if has_side level side s.filled
      then "active"
      else if has_side level side s.placed
      then "placed"
      else if has_side level side s.stopped
      then "stopped"
      else "none"

  unfoldable pub level_status : F → Sliding F → String
  level_status level s =
      if is_nil (sides_at level s.filled)
      then (if is_nil (sides_at level s.placed)
          then (if is_nil (sides_at level s.stopped) then "waiting" else "stopped")
          else "placed")
      else "active"

  -- `fills.get(side, 0.0)`
  abbrev pub fill_at : F → String → Sliding F → F
  fill_at level side s = elim (lookup eq level s.fill_prices) [
    | none ↦ nought
    | some fills ↦ elim (lookup str_eq side fills) [ none ↦ nought | some price ↦ price ]
  ]

  -- `active`, as a list
  abbrev pub levels_in_use : Sliding F → List F
  levels_in_use s = keys_of s.placed ++ keys_of s.filled ++ keys_of s.stopped

  unfoldable pub all_display : Sliding F → List F
  all_display s = sorted_levels (s.levels ++ levels_in_use s)

  -- the indices, from `i` on, of the levels in use
  unfoldable pub active_indices : List F → ℕ → List F → List ℕ
  active_indices used i [] = []
  active_indices used i (lv ∷ lvs) =
      let rest = active_indices used (suc i) lvs in if has lv used then i ∷ rest else rest

  -- `all_display.index(anchor)`, and the middle if it is not there
  unfoldable pub index_or_mid : F → List F → ℕ → List F → ℕ
  index_or_mid anchor whole i [] = length whole / 2
  index_or_mid anchor whole i (lv ∷ lvs) =
      let rest = index_or_mid anchor whole (suc i) lvs in if eq lv anchor then i else rest

  -- from three below the first to three above the last
  abbrev pub around : ℕ → ℕ → List F → List F
  around first last whole = drop (first - 3) (take (last + 4) whole)

  unfoldable pub shown_levels : F → Sliding F → List F
  shown_levels anchor s =
      let whole = all_display s in
      elim (active_indices (levels_in_use s) 0 whole) [
        | [] ↦ let mid = index_or_mid anchor whole 0 whole in around mid mid whole
        | first ∷ more ↦ elim (get_last? (first ∷ more)) [
          | none ↦ []
          | some last ↦ around first last whole
        ]
      ]

  module _ ⦃w : Format F⦄ where
    unfoldable pub shown_type : F → String → Sliding F → String
    shown_type level side s = elim (lookup str_eq (side_key level side) s.order_types) [
      | none ↦ type_lower (order_type_for level side s)
      | some kind ↦
          if str_eq kind "" then type_lower (order_type_for level side s) else type_lower kind
    ]

    unfoldable pub side_state : F → String → Sliding F → SideState F
    side_state level side s = record {
      status = side_status level side s;
      fill = fill_at level side s;
      sl = elim (side_stop_loss level side s) [ none ↦ nought | some stop ↦ stop ];
      units = units_for level s;
      order_type = shown_type level side s;
    }

    unfoldable pub level_display : Sliding F → F → LevelDisplay F
    level_display s level = record {
      price = level;
      status = level_status level s;
      buy = side_state level "long" s;
      sell = side_state level "short" s;
    }

    unfoldable pub get_display_state : Sliding F → Option (GridDisplay F)
    get_display_state s = elim s.anchor_price [
      | none ↦ none
      | some price ↦
          let anchor = round 2 price in
          some (record {
            anchor_price = anchor;
            current_price = s.current_price;
            grid_levels = map (level_display s) (reverse_onto [] (shown_levels anchor s));
            session_count = s.session_count;
            session_active = s.session_active;
            filled_count = count_sides s.filled;
            placed_count = count_sides s.placed;
          })
    ]
