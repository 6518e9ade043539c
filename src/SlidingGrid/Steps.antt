-- ===== src/SlidingGrid/Steps.antt =====
-- `generate`, and what the engine reports to the strategy
-- (domain/strategy/ciby_sliding_grid.py).
use aurex_trade.Prelude.{
  ℕ, ◌/◌, String, str_eq, Bool, true, false, Option, none, some, List, [], ◌∷◌, not, ◌&&◌, ◌||◌,
  ◌==◌, if◌then◌else◌, filter, get_last?, ltb, is_some,
}
use Prim.Native.Char.{code}
use aurex_trade.Prelude.Float.{Float, Format, ◌⊕◌, nought, neg, le, eq}
use aurex_trade.Prelude.Dict.{Dict, lookup, insert, erase}
use aurex_trade.Prelude.Text.{split_last}
use aurex_trade.Domain.Models.{BarData, Signal}
use aurex_trade.SlidingGrid.State.{
  Sliding, restart_sliding, begin_close_all, flat_signal, add_side_at, drop_side_at,
}
use aurex_trade.SlidingGrid.Ladder.{build_ladder}
use aurex_trade.SlidingGrid.Placing.{
  place_anchor_pair, maintain_sliding, trim_active_levels, has, is_nil,
}

-- the order of texts
unfoldable pub text_before : String → String → Bool
text_before String.[] t = true
text_before (String.◌∷◌ c s) String.[] = false
text_before (String.◌∷◌ c s) (String.◌∷◌ d t) =
    if code c == code d then text_before s t else ltb (code c) (code d)

unfoldable pub insert_text : String → List String → List String
insert_text x [] = x ∷ []
insert_text x (y ∷ ys) = if text_before x y then x ∷ y ∷ ys else y ∷ insert_text x ys

unfoldable pub sorted_texts : List String → List String
sorted_texts [] = []
sorted_texts (x ∷ xs) = insert_text x (sorted_texts xs)

module _ {F : Type 0} where
  abbrev pub pop_signal : Sliding F → Option (Signal F) × Sliding F
  pop_signal s = elim s.signal_queue [
    | [] ↦ (none, s)
    | q ∷ qs ↦ (some q, record s { signal_queue = qs })
  ]

  -- `get_levels_to_close`
  unfoldable pub take_pending_close : Sliding F → List String × Sliding F
  take_pending_close s = (sorted_texts s.pending_close, record s { pending_close = [] })

module _ {F : Type 0} ⦃f : Float F⦄ where
  -- the day boundary
  unfoldable pub turn_day : ℕ → Sliding F → Sliding F
  turn_day today s = elim s.current_date [
    | none ↦ record s { current_date = some today }
    | some day ↦
        if day == today
        then record s { current_date = some today }
        else record (if not s.session_active && not s.close_all_in_progress
            then restart_sliding (record s { daily_realized_pnl = nought })
            else record s { daily_realized_pnl = nought }) {
              session_active = true;
              current_date = some today;
            }
  ]

  unfoldable pub daily_limit_hit : Sliding F → Bool
  daily_limit_hit s = le (s.daily_realized_pnl ⊕ s.session_unrealized_pnl) (neg s.daily_loss_limit)

  unfoldable pub profit_target_hit : Sliding F → Bool
  profit_target_hit s =
      le s.session_profit_target (s.session_realized_pnl ⊕ s.session_unrealized_pnl)

  unfoldable pub session_limit_hit : Sliding F → Bool
  session_limit_hit s =
      le (s.session_realized_pnl ⊕ s.session_unrealized_pnl) (neg s.session_loss_limit)

  -- the day's trading ends; what is open is closed
  unfoldable pub pause_day : BarData F → Sliding F → Option (Signal F) × Sliding F
  pause_day bar s =
      let s1 = record s { session_active = false } in
      if is_some s1.anchor_price
      then flat_signal bar "daily_loss_limit" (begin_close_all "daily_loss_limit" s1)
      else (none, s1)

  module _ ⦃w : Format F⦄ where
    unfoldable pub open_session : BarData F → Sliding F → Option (Signal F) × Sliding F
    open_session bar s =
        let s1 = record s {
          symbol = bar.symbol;
          anchor_price = some bar.close;
          levels = build_ladder bar.close s;
        } in
        pop_signal (maintain_sliding (place_anchor_pair bar.close s1))

    unfoldable pub go_on : BarData F → Sliding F → Option (Signal F) × Sliding F
    go_on bar s =
        if not (is_some s.anchor_price)
        then open_session bar s
        else if profit_target_hit s
        then flat_signal bar "session_profit_target" (begin_close_all "session_profit_target" s)
        else if session_limit_hit s
        then flat_signal bar "session_loss_limit" (begin_close_all "session_loss_limit" s)
        else pop_signal (maintain_sliding (trim_active_levels s))

    -- what `generate` decides, once the price and the day are the current ones
    unfoldable pub decide_sliding : BarData F → Sliding F → Option (Signal F) × Sliding F
    decide_sliding bar s =
        if not (is_nil s.signal_queue)
        then pop_signal s
        else if s.close_all_in_progress
        then flat_signal bar s.close_reason s
        else if not s.session_active
        then (none, s)
        else if daily_limit_hit s
        then pause_day bar s
        else go_on bar s

    unfoldable pub generate_sliding_at : BarData F → Sliding F → Option (Signal F) × Sliding F
    generate_sliding_at bar s =
        decide_sliding bar
          (turn_day (bar.timestamp / 86400) (record s { current_price = bar.close }))

    unfoldable pub generate_sliding : List (BarData F) → Sliding F → Option (Signal F) × Sliding F
    generate_sliding bars s = elim (get_last? bars) [
      | none ↦ (none, s)
      | some bar ↦ generate_sliding_at bar s
    ]

    -- `_parse_key`
    unfoldable pub parse_side_key : String → Option (F × String)
    parse_side_key key = elim (split_last key) [
      | none ↦ none
      | some (level_str, side) ↦
          if str_eq side "long" || str_eq side "short"
          then elim (w.parse level_str) [ none ↦ none | some level ↦ some (level, side) ]
          else none
    ]

    -- `fill_prices.setdefault(level, {})[side] = price`
    abbrev pub set_fill : F → String → F → Dict F (Dict String F) → Dict F (Dict String F)
    set_fill level side price d =
        insert eq level
          (insert str_eq side price (elim (lookup eq level d) [ none ↦ [] | some fills ↦ fills ])) d

    -- `fill_prices.get(level, {}).pop(side, None)`
    abbrev pub drop_fill : F → String → Dict F (Dict String F) → Dict F (Dict String F)
    drop_fill level side d = elim (lookup eq level d) [
      | none ↦ d
      | some fills ↦ insert eq level (erase str_eq side fills) d
    ]

    unfoldable pub side_filled : F → String → F → Sliding F → Sliding F
    side_filled level side price s = record s {
      fill_prices = set_fill level side price s.fill_prices;
      placed = drop_side_at level side s.placed;
      filled = add_side_at level side s.filled;
      stopped = drop_side_at level side s.stopped;
    }

    unfoldable pub fill_sliding : String → F → Sliding F → Sliding F
    fill_sliding key price s = elim (parse_side_key key) [
      | none ↦ s
      | some (level, side) ↦ side_filled level side price s
    ]

    unfoldable pub side_closed : F → String → Sliding F → Sliding F
    side_closed level side s =
        let s1 = record s {
          filled = drop_side_at level side s.filled;
          fill_prices = drop_fill level side s.fill_prices;
        } in
        if has level s1.retired
        then record s1 { placed = drop_side_at level side s1.placed }
        else record s1 { stopped = add_side_at level side s1.stopped }

    unfoldable pub count_pnl : F → Sliding F → Sliding F
    count_pnl pnl s = if s.realized_authoritative then s else record s {
      session_realized_pnl = s.session_realized_pnl ⊕ pnl;
      daily_realized_pnl = s.daily_realized_pnl ⊕ pnl;
    }

    unfoldable pub trade_closed_sliding : String → F → Sliding F → Sliding F
    trade_closed_sliding key pnl s = elim (parse_side_key key) [
      | none ↦ count_pnl pnl s
      | some (level, side) ↦ side_closed level side (count_pnl pnl s)
    ]

    -- `s.metadata.get("grid_level") != key`
    unfoldable pub is_of_key : String → Signal F → Bool
    is_of_key key q = elim (lookup str_eq "grid_level" q.metadata) [
      | none ↦ false
      | some k ↦ str_eq k key
    ]

    unfoldable pub signal_rejected_sliding : String → Sliding F → Sliding F
    signal_rejected_sliding key s = elim (parse_side_key key) [
      | none ↦ s
      | some (level, side) ↦ record s {
        signal_queue = filter (λ q. not (is_of_key key q)) s.signal_queue;
        placed = drop_side_at level side s.placed;
      }
    ]
