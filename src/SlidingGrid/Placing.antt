-- ===== src/SlidingGrid/Placing.antt =====
-- The placing, retracting and trimming of levels (domain/strategy/ciby_sliding_grid.py, from
-- `_place_anchor_pair` to `_queue_side`).
use aurex_trade.Prelude.{
  ◌+◌, String, str_eq, Bool, true, false, Option, none, some, List, [], ◌∷◌, ◌++◌, not, ◌&&◌, ◌||◌,
  if◌then◌else◌, any, filter, drop, map, is_some,
}
use aurex_trade.Prelude.Float.{Float, Format, ◌⊖◌, abs, round, lt, le, eq}
use aurex_trade.Prelude.Dict.{Dict, lookup, insert, erase}
use aurex_trade.Prelude.Text.{concat}
use aurex_trade.Domain.Enums.{SignalType}
use aurex_trade.Domain.Models.{Signal}
use aurex_trade.SlidingGrid.State.{Sliding, sliding_name, add_text, sides_at, add_side_at, has_side}
use aurex_trade.SlidingGrid.Ladder.{
  is_anchor, units_for, side_entry, order_type_for, side_stop_loss, count_above, count_below,
  window,
}

-- `f"{level:.2f}_{side}"`
abbrev pub side_key : {F : Type 0} ⦃w : Format F⦄ → F → String → String
side_key ⦃w⦄ level side = concat (w.fixed 2 level ∷ "_" ∷ side ∷ [])

abbrev pub has : {F : Type 0} ⦃f : Float F⦄ → F → List F → Bool
has level = any (λ l. eq level l)

abbrev pub is_nil : {A : Type 0} → List A → Bool
is_nil [] = true
is_nil (x ∷ xs) = false

module _ {F : Type 0} ⦃f : Float F⦄ where
  -- `sorted(xs, key=_dist)`, which keeps equal ones in their order
  unfoldable pub insert_near : F → F → List F → List F
  insert_near price x [] = x ∷ []
  insert_near price x (y ∷ ys) =
      if le (abs (x ⊖ price)) (abs (y ⊖ price)) then x ∷ y ∷ ys else y ∷ insert_near price x ys

  unfoldable pub nearest_first : F → List F → List F
  nearest_first price [] = []
  nearest_first price (x ∷ xs) = insert_near price x (nearest_first price xs)

  unfoldable pub active_levels : Sliding F → List F
  active_levels s = map (λ e. e.0) (filter (λ e. not (is_nil e.1)) s.filled)

  -- closer to the price than an order may rest
  unfoldable pub is_too_close : F → Sliding F → Bool
  is_too_close entry s = lt (abs (entry ⊖ s.current_price)) (f.of_nat 2)

  module _ ⦃w : Format F⦄ where
    unfoldable pub side_signal : F → String → F → String → Option F → Sliding F → Signal F
    side_signal level side entry order_type stop s = record {
      id = s.next_id;
      timestamp = s.clock;
      symbol = s.symbol;
      signal_type = if str_eq side "long" then SignalType.long else SignalType.short;
      strategy_name = sliding_name;
      strength = f.of_nat 1;
      metadata =
          ("grid_level", side_key level side)
          ∷ ("fixed_units", w.fixed 1 (units_for level s))
          ∷ ("order_type", order_type)
          ∷ ("entry_price", w.fixed 5 entry)
          ∷ (if str_eq order_type "MARKET" then [] else ("limit_price", w.fixed 5 entry) ∷ []);
      stop_loss = stop;
      take_profit = none;
    }

    -- the side is placed, and its signal is queued
    unfoldable pub enqueue : F → String → F → String → F → Sliding F → Sliding F
    enqueue level side entry order_type stop s = record s {
      placed = add_side_at level side s.placed;
      fill_prices =
          if is_some (lookup eq level s.fill_prices)
          then s.fill_prices
          else insert eq level [] s.fill_prices;
      order_types = insert str_eq (side_key level side) order_type s.order_types;
      signal_queue = s.signal_queue ++ (side_signal level side entry order_type (some stop) s ∷ []);
      next_id = s.next_id + 1;
    }

    unfoldable pub queue_side : Bool → F → String → Sliding F → Sliding F
    queue_side market level side s =
        let entry = side_entry level side s in
        elim (side_stop_loss level side s) [
          | none ↦ s
          | some stop ↦
              if market
              then enqueue level side entry "MARKET" stop s
              else if is_too_close entry s
              then s
              else enqueue level side entry (order_type_for level side s) stop s
        ]

    unfoldable pub place_anchor_pair : F → Sliding F → Sliding F
    place_anchor_pair anchor s =
        queue_side true (round 2 anchor) "short" (queue_side true (round 2 anchor) "long" s)

    -- a side that is neither filled nor placed
    unfoldable pub maintain_side : F → String → Sliding F → Sliding F
    maintain_side level side s =
        if has_side level side s.filled || has_side level side s.placed
        then s
        else queue_side false level side s

    unfoldable pub maintain_each : List F → Sliding F → Sliding F
    maintain_each [] s = s
    maintain_each (level ∷ levels) s = maintain_each levels (
        if has level s.retired
        then s
        else maintain_side level "short" (maintain_side level "long" s))

    abbrev pub close_sides : F → List String → Sliding F → Sliding F
    close_sides level [] s = s
    close_sides level (side ∷ sides) s =
        close_sides level sides
          (record s { pending_close = add_text (side_key level side) s.pending_close })

    -- whether a level only rests, and no longer should
    unfoldable pub is_stale : List F → F → Sliding F → Bool
    is_stale levels level s =
        not (has level levels || is_anchor level s)
        && is_nil (sides_at level s.filled)
        && not (is_nil (sides_at level s.placed))

    unfoldable pub retract_each : List F → Dict F (List String) → Sliding F → Sliding F
    retract_each levels [] s = s
    retract_each levels ((level, sides) ∷ rest) s = retract_each levels rest (
        if is_stale levels level s
        then record (close_sides level (sides_at level s.placed) s) {
          placed = erase eq level s.placed;
          fill_prices = erase eq level s.fill_prices;
        }
        else s)

    unfoldable pub retract_stale_placed : List F → Sliding F → Sliding F
    retract_stale_placed levels s = retract_each levels s.placed s

    unfoldable pub maintain_sliding : Sliding F → Sliding F
    maintain_sliding s =
        if is_some s.anchor_price
        then maintain_each (window s) (retract_stale_placed (window s) s)
        else s

    unfoldable pub retire_level : F → Sliding F → Sliding F
    retire_level level s =
        if has level s.retired
        then s
        else close_sides level (sides_at level s.placed) (
            close_sides level (sides_at level s.filled)
              (record s { retired = s.retired ++ (level ∷ []) }))

    unfoldable pub retire_each : List F → Sliding F → Sliding F
    retire_each [] s = s
    retire_each (level ∷ levels) s = retire_each levels (retire_level level s)

    -- the active levels beyond the caps, on both sides of the anchor
    unfoldable pub beyond_caps : F → Sliding F → List F
    beyond_caps anchor s =
        drop (count_above s)
          (nearest_first s.current_price (filter (λ lv. lt anchor lv) (active_levels s)))
        ++ drop (count_below s)
            (nearest_first s.current_price (filter (λ lv. lt lv anchor) (active_levels s)))

    unfoldable pub trim_active_levels : Sliding F → Sliding F
    trim_active_levels s = elim s.anchor_price [
      | none ↦ s
      | some anchor ↦ retire_each (beyond_caps (round 2 anchor) s) s
    ]
