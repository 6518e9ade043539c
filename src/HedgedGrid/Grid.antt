-- ===== src/HedgedGrid/Grid.antt =====
-- Building the grid and queueing its orders
-- (domain/strategy/ciby_hedged_doubling_grid.py, from `_initialize_grid` to `_check_take_profit`).
use aurex_trade.Prelude.{
  ℕ, ◌+◌, String, str_eq, Bool, true, false, none, some, List, [], ◌∷◌, ◌++◌, ◌&&◌, ◌||◌, not,
  if◌then◌else◌, get_last?,
}
use aurex_trade.Prelude.Float.{Float, Format, eq, lt, le, abs, round, ◌⊕◌, ◌⊖◌, ◌⊗◌}
use aurex_trade.Prelude.Dict
use aurex_trade.Prelude.Text.{concat}
use aurex_trade.Domain.Enums.{SignalType}
use aurex_trade.Domain.Models.{BarData, Signal}
use aurex_trade.HedgedGrid.State.{Grid, strategy_name, has_level}

module _ {F : Type 0} ⦃f : Float F⦄ where
  -- `level in self._filled_levels`
  abbrev pub is_filled : F → Grid F → Bool
  is_filled level s = Dict.contains eq level s.filled_levels

  abbrev pub is_placed : F → Grid F → Bool
  is_placed level s = has_level level s.placed_levels

  -- `self._levels_above + self._levels_below`
  abbrev pub all_levels : Grid F → List F
  all_levels s = s.levels_above ++ s.levels_below

  -- the take-profit of a position opened at a level, two spacings on
  abbrev pub target : ℕ → Bool → F → Grid F → F
  target digits is_long level s =
      if is_long
      then round digits (level ⊕ f.of_nat 2 ⊗ s.spacing)
      else round digits (level ⊖ f.of_nat 2 ⊗ s.spacing)

  -- `level in levels and level == levels[-1]`
  unfoldable pub is_last : F → List F → Bool
  is_last level levels =
      has_level level levels && elim (get_last? levels) [ none ↦ false | some l ↦ eq level l ]

  -- the fills that are known at a level
  abbrev pub fills_at : F → Grid F → Dict.Dict String F
  fills_at level s = elim (Dict.lookup eq level s.filled_entry_prices) [ none ↦ [] | some d ↦ d ]

  -- `"long" in fills and "short" in fills`
  unfoldable pub both_filled : F → Grid F → Bool
  both_filled level s =
      Dict.contains str_eq "long" (fills_at level s)
      && Dict.contains str_eq "short" (fills_at level s)

  module _ ⦃w : Format F⦄ where
    -- the key of a side of a level, `f"{level:.2f}_{side}"`
    unfoldable pub grid_key : F → String → String
    grid_key level side = concat (w.fixed 2 level ∷ "_" ∷ side ∷ [])

    -- the limit order of a level, for the side that waits
    unfoldable pub limit_signal : F → Grid F → Signal F
    limit_signal level s =
        let is_long = not (lt s.current_price level) in
        let limit_side = if is_long then "long" else "short" in
        let opposite_side = if is_long then "short" else "long" in
        record {
          id = s.next_id + 1;
          timestamp = s.clock;
          symbol = s.symbol;
          signal_type = if is_long then SignalType.long else SignalType.short;
          strategy_name = strategy_name;
          strength = f.of_nat 1;
          metadata =
              ("grid_level", grid_key level limit_side)
              ∷ ("pair_id", w.int_text s.next_id)
              ∷ ("pair_side", limit_side)
              ∷ ("fixed_units", w.fixed 1 s.units)
              ∷ ("order_type", "LIMIT")
              ∷ ("limit_price", w.fixed 5 level)
              ∷ ("entry_price", w.fixed 5 level)
              ∷ ("opposite_side", if is_long then "SELL" else "BUY")
              ∷ ("opposite_grid_level", grid_key level opposite_side)
              ∷ ("opposite_stop_loss", "")
              ∷ ("opposite_take_profit", w.fixed 5 (target 5 (not is_long) level s))
              ∷ [];
          stop_loss = none;
          take_profit = some (target 5 is_long level s);
        }

    -- `_queue_limit_for_level`; the class constant `_MIN_LIMIT_DISTANCE` is 2.0
    unfoldable pub queue_limit_for_level : F → Grid F → Grid F
    queue_limit_for_level level s =
        if is_placed level s || is_filled level s
        then s
        else if lt (abs (level ⊖ s.current_price)) (f.of_nat 2)
        then s
        else record s {
          placed_levels = level ∷ s.placed_levels;
          filled_entry_prices = Dict.insert eq level [] s.filled_entry_prices;
          placed_limit_side =
              Dict.insert eq level (if lt s.current_price level then "short" else "long")
                s.placed_limit_side;
          signal_queue = s.signal_queue ++ (limit_signal level s ∷ []);
          next_id = s.next_id + 1 + 1;
        }

    -- `for level in levels: self._queue_limit_for_level(level)`
    unfoldable pub queue_levels : List F → Grid F → Grid F
    queue_levels [] s = s
    queue_levels (l ∷ ls) s = queue_levels ls (queue_limit_for_level l s)

    -- `_initialize_grid`
    unfoldable pub initialize_grid : BarData F → Grid F → Grid F
    initialize_grid bar s =
        let anchor = bar.close in
        let two = f.of_nat 2 ⊗ s.spacing in
        let s1 = record s {
          symbol = bar.symbol;
          anchor_price = some anchor;
          levels_above = round 2 (anchor ⊕ s.spacing) ∷ round 2 (anchor ⊕ two) ∷ [];
          levels_below = round 2 (anchor ⊖ s.spacing) ∷ round 2 (anchor ⊖ two) ∷ [];
        } in
        queue_levels (all_levels s1) s1

    -- `_maintain_grid`, with the test that `_queue_limit_for_level` repeats
    unfoldable pub maintain_levels : List F → Grid F → Grid F
    maintain_levels [] s = s
    maintain_levels (l ∷ ls) s =
        maintain_levels ls
          (if not (is_placed l s) && not (is_filled l s) then queue_limit_for_level l s else s)

    unfoldable pub maintain_grid : Grid F → Grid F
    maintain_grid s = maintain_levels (all_levels s) s

    -- the market order of the doubled position
    unfoldable pub doubled_signal : F → Bool → Grid F → Signal F
    doubled_signal level is_long s = record {
      id = s.next_id;
      timestamp = s.clock;
      symbol = s.symbol;
      signal_type = if is_long then SignalType.long else SignalType.short;
      strategy_name = strategy_name;
      strength = f.of_nat 1;
      metadata =
          ("grid_level", grid_key level "doubled")
          ∷ ("fixed_units", w.fixed 1 (s.units ⊗ f.of_nat 2))
          ∷ ("order_type", "MARKET")
          ∷ [];
      stop_loss = none;
      take_profit = some (target 5 is_long level s);
    }

    unfoldable pub start_doubling : F → Grid F → Grid F
    start_doubling level s =
        let below = is_last level s.levels_below in
        record s {
          doubled_level = some level;
          doubled_grid_key = grid_key level "doubled";
          doubled_side = if below then "long" else "short";
          doubled_active = true;
          signal_queue = s.signal_queue ++ (doubled_signal level below s ∷ []);
          doubled_has_broker_tp = true;
          next_id = s.next_id + 1;
        }

    -- `_check_doubling_trigger`
    unfoldable pub check_doubling_trigger : F → Grid F → Grid F
    check_doubling_trigger level s =
        if not (both_filled level s)
        then s
        else if not (is_last level s.levels_above) && not (is_last level s.levels_below)
        then s
        else start_doubling level s

  -- `_check_take_profit`
  unfoldable pub check_take_profit : F → Grid F → Bool
  check_take_profit price s = elim s.doubled_level [
    | none ↦ false
    | some level ↦
        let distance = f.of_nat 2 ⊗ s.spacing in
        if not s.doubled_active || s.doubled_has_broker_tp
        then false
        else if str_eq s.doubled_side "long"
        then le (level ⊕ distance) price
        else le price (level ⊖ distance)
  ]
