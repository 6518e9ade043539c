-- ===== src/HedgedGrid/Callbacks.antt =====
-- What the engine reports to the strategy
-- (domain/strategy/ciby_hedged_doubling_grid.py, from `report_fill` to `get_deferred_trailing_stop`).
use aurex_trade.Prelude.{
  ℕ, ◌+◌, String, str_eq, Bool, true, false, Option, none, some, List, [], ◌∷◌, ◌&&◌, ◌||◌, not,
  if◌then◌else◌, length, filter, any, leb, ◌==◌, is_some,
}
use text.Mathlib.Text.{starts_with}
use aurex_trade.Prelude.Float.{Float, Format, eq, ◌⊕◌}
use aurex_trade.Prelude.Dict
use aurex_trade.Prelude.Text.{split_last, contains_text}
use aurex_trade.Domain.Models.{Signal}
use aurex_trade.HedgedGrid.State.{Grid, discard}
use aurex_trade.HedgedGrid.Grid.{
  is_filled, is_placed, fills_at, both_filled, check_doubling_trigger,
}

-- `d.get(k, 0)`
abbrev pub or_zero : Option ℕ → ℕ
or_zero none = 0
or_zero (some n) = n

abbrev pub sides_of : ℕ → Dict.Dict ℕ (List String) → List String
sides_of pair sides = elim (Dict.lookup ◌==◌ pair sides) [ none ↦ [] | some xs ↦ xs ]

-- `set.add`
abbrev pub add_side : String → List String → List String
add_side side sides = if any (λ x. str_eq side x) sides then sides else side ∷ sides

module _ {F : Type 0} ⦃w : Format F⦄ where
  -- `rsplit("_", 1)` and `float`: the level and the side that a key names
  unfoldable pub parse_key : String → Option (F × String × String)
  parse_key key = elim (split_last key) [
    | none ↦ none
    | some (level_str, side) ↦ elim (w.parse level_str) [
      | none ↦ none
      | some level ↦ some (level, level_str, side)
    ]
  ]

module _ {F : Type 0} ⦃f : Float F⦄ where
  abbrev pub count_of : F → Dict.Dict F ℕ → ℕ
  count_of level counts = or_zero (Dict.lookup eq level counts)

  -- `self._filled_entry_prices[level][side] = fill_price`
  abbrev pub record_fill : F → String → F → Grid F → Grid F
  record_fill level side price s = record s {
    filled_entry_prices =
        Dict.insert eq level (Dict.insert str_eq side price (fills_at level s))
          s.filled_entry_prices;
  }

  -- the first fill of a placed level: it turns active, and its trigger is counted
  abbrev pub activate : F → Grid F → Grid F
  activate level s = record s {
    filled_levels = Dict.insert eq level s.next_id s.filled_levels;
    placed_levels = discard level s.placed_levels;
    placed_limit_side = Dict.erase eq level s.placed_limit_side;
    level_trigger_counts =
        Dict.insert eq level (count_of level s.level_trigger_counts + 1) s.level_trigger_counts;
    next_id = s.next_id + 1;
  }

  abbrev pub pause_for_whipsaw : Grid F → Grid F
  pause_for_whipsaw s = record s {
    session_paused = true;
    close_reason = "whipsaw_pause";
    close_all_pending = true;
  }

  module _ ⦃w : Format F⦄ where
    -- the end of `report_fill`
    unfoldable pub double_if_due : F → Grid F → Grid F
    double_if_due level s =
        if both_filled level s && not (is_some s.doubled_level)
        then check_doubling_trigger level s
        else s

    unfoldable pub fill_level : F → String → F → Grid F → Grid F
    fill_level level side price s =
        let s1 = record_fill level side price s in
        let s2 = activate level s1 in
        if is_placed level s1 && not (is_filled level s1)
        then if leb s2.whipsaw_limit (count_of level s2.level_trigger_counts)
          then pause_for_whipsaw s2
          else double_if_due level s2
        else double_if_due level s1

    unfoldable pub report_fill : String → F → Grid F → Grid F
    report_fill key price s = elim (parse_key {F = F} key) [
      | none ↦ s
      | some (level, level_str, side) ↦ fill_level level side price s
    ]

    -- the bookkeeping of the pair of a level, one side of which has closed
    unfoldable pub close_side_of : F → String → Grid F → Grid F
    close_side_of level side s = elim (Dict.lookup eq level s.filled_levels) [
      | none ↦ s
      | some pair ↦
          let sides = add_side side (sides_of pair s.pair_closed_sides) in
          if leb 2 (length sides)
          then record s {
            filled_levels = Dict.erase eq level s.filled_levels;
            pair_closed_sides = Dict.erase ◌==◌ pair s.pair_closed_sides;
            filled_entry_prices = Dict.erase eq level s.filled_entry_prices;
          }
          else record s { pair_closed_sides = Dict.insert ◌==◌ pair sides s.pair_closed_sides }
    ]

    unfoldable pub report_trade_closed : String → F → String → Grid F → Grid F
    report_trade_closed key pnl close_side s =
        let s1 = record s { session_realized_pnl = s.session_realized_pnl ⊕ pnl } in
        if str_eq key s1.doubled_grid_key
        then record s1 {
          doubled_active = false;
          close_reason =
              if contains_text "tp" close_side
              then "doubled_tp"
              else if contains_text "ts" close_side
              then "doubled_ts"
              else "doubled_closed";
          close_all_pending = true;
        }
        else elim (parse_key {F = F} key) [
          | none ↦ s1
          | some (level, level_str, side) ↦ close_side_of level side s1
        ]

    -- `s.metadata.get("grid_level", "").startswith(level_str)`
    unfoldable pub is_of_level : String → Signal F → Bool
    is_of_level level_str signal = elim (Dict.lookup str_eq "grid_level" signal.metadata) [
      | none ↦ starts_with "" level_str
      | some key ↦ starts_with key level_str
    ]

    unfoldable pub on_signal_rejected : String → Grid F → Grid F
    on_signal_rejected key s = elim (parse_key {F = F} key) [
      | none ↦ s
      | some (level, level_str, side) ↦ record s {
        signal_queue = filter (λ q. not (is_of_level level_str q)) s.signal_queue;
        placed_levels = discard level s.placed_levels;
        placed_limit_side = Dict.erase eq level s.placed_limit_side;
        filled_levels = Dict.erase eq level s.filled_levels;
        filled_entry_prices = Dict.erase eq level s.filled_entry_prices;
      }
    ]

pub record TrailingStop (F : Type 0) : Type 0 where
  pub key : String
  pub side : String
  pub distance : F
  pub activation_profit : F

-- `get_deferred_trailing_stop`
unfoldable pub get_deferred_trailing_stop : {F : Type 0} → Grid F → Option (TrailingStop F)
get_deferred_trailing_stop s =
    if not s.doubled_active || s.doubled_trailing_stop_set || str_eq s.doubled_grid_key ""
    then none
    else some (record {
      key = s.doubled_grid_key;
      side = s.doubled_side;
      distance = s.trailing_stop_distance;
      activation_profit = s.spacing;
    })
