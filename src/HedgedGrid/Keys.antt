-- ===== src/HedgedGrid/Keys.antt =====
-- The keys of the sides of a level: what is sent out with an order comes back with its fill
-- (domain/strategy/ciby_hedged_doubling_grid.py).
use aurex_trade.Prelude.{
  ℕ, ◌+◌, ◌≡◌, refl, ap, is_some, ◌∙◌, if◌then◌else◌, str_eq, any-filter-not, ◌∙◌, String, Bool,
  true, false, none, some, List, arith, not,
}
use aurex_trade.Prelude.Float.{Float, Format, eq, lt, round}
use aurex_trade.Prelude.Dict
use aurex_trade.Prelude.Dict.{lookup-insert_self}
use aurex_trade.Prelude.Text.{split_last, split_last-append}
use aurex_trade.HedgedGrid.State.{Grid, has_level}
use aurex_trade.HedgedGrid.Grid.{
  is_filled, is_placed, grid_key, limit_signal, check_doubling_trigger, start_doubling,
}
use aurex_trade.HedgedGrid.Callbacks.{
  parse_key, count_of, or_zero, record_fill, activate, double_if_due, fill_level, report_fill,
}

side_plain : (b : Bool) → split_last (if b then "short" else "long") ≡ none
unfolding split_last
side_plain true = refl
side_plain false = refl

side_not :
    (b : Bool)
    → ◌≡◌ {A = String} (if not b then "long" else "short") (if b then "short" else "long")
side_not true = refl
side_not false = refl

module _ {F : Type 0} ⦃f : Float F⦄ ⦃w : Format F⦄ where
  -- A key of a level that its own two digits write in full is read back as the level and the side.
  parse_key-grid_key :
      (level : F) (side : String)
      → w.parse (w.fixed 2 level) ≡ some level
      → split_last side ≡ none
      → parse_key (grid_key level side) ≡ some (level, w.fixed 2 level, side)
  unfolding parse_key grid_key
  parse_key-grid_key level side reads plain =
      rw (split_last-append (w.fixed 2 level) side plain, reads, parse_key)

  -- What the second fill of a pair may add leaves the books of the levels alone.
  abbrev pub Books : Grid F → Dict.Dict F ℕ × List F × Dict.Dict F ℕ
  Books s = (s.filled_levels, s.placed_levels, s.level_trigger_counts)

  pub double_if_due-Books : (level : F) (s : Grid F) → Books (double_if_due level s) ≡ Books s
  unfolding double_if_due check_doubling_trigger start_doubling
  double_if_due-Books level s = ground arith

  -- A level that waited for its fill is now active, and was triggered once more.
  abbrev pub Activates : F → Grid F → Grid F → Type 0
  Activates level s s' =
      (is_filled level s' ≡ true)
      × (is_placed level s' ≡ false)
      × (count_of level s'.level_trigger_counts ≡ count_of level s.level_trigger_counts + 1)

  fill_level-Activates :
      (level : F) (side : String) (price : F) (s : Grid F)
      → eq level level ≡ true
      → is_placed level s ≡ true
      → is_filled level s ≡ false
      → Activates level s (fill_level level side price s)
  unfolding fill_level
  fill_level-Activates level side price s refl_eq placed unfilled =
      let s2 = activate level (record_fill level side price s) in
      let filled : is_filled level s2 ≡ true =
        ap is_some (lookup-insert_self eq level s.next_id s.filled_levels refl_eq) in
      let unplaced : is_placed level s2 ≡ false =
        any-filter-not (λ l. eq level l) s.placed_levels in
      let counted : count_of level s2.level_trigger_counts
          ≡ count_of level s.level_trigger_counts + 1 =
        ap or_zero (lookup-insert_self eq level _ s.level_trigger_counts refl_eq) in
      let same : Books (fill_level level side price s) ≡ Books s2 =
        ground (arith, double_if_due-Books level s2) in
      (
        ap (λ books. Dict.contains eq level books.0) same ∙ filled,
        ap (λ books. has_level level books.1) same ∙ unplaced,
        ap (λ books. count_of level books.2) same ∙ counted,
      )

  -- The key of the side that a limit order is for.
  abbrev pub limit_key : F → Grid F → String
  limit_key level s = grid_key level (if lt s.current_price level then "short" else "long")

  -- Where a level is rounded to two digits, equals itself, and reading back what is written with
  -- two digits rounds to them: the limit order that is queued for the level carries the key of its
  -- side, and when a fill is reported under that key, in whatever state the level then waits and
  -- has no active pair, the level turns active and its trigger count goes up by one.
  pub report_fill-limit_signal :
      ((x : F) → w.parse (w.fixed 2 x) ≡ some (round 2 x))
      → (level price : F) (s s' : Grid F) → round 2 level ≡ level
      → eq level level ≡ true
      → is_placed level s' ≡ true
      → is_filled level s' ≡ false
      → (Dict.lookup str_eq "grid_level" (limit_signal level s).metadata ≡ some (limit_key level s))
        × Activates level s' (report_fill (limit_key level s) price s')
  unfolding limit_signal report_fill
  report_fill-limit_signal reads level price s s' rounded refl_eq placed unfilled =
      let reads_back : w.parse (w.fixed 2 level) ≡ some level = rw (reads level, rounded) in
      let side = if lt s.current_price level then "short" else "long" in
      let plain : split_last side ≡ none = side_plain (lt s.current_price level) in
      (
        ap (λ x. some (grid_key level x)) (side_not (lt s.current_price level)),
        rw (parse_key-grid_key level side reads_back plain, report_fill)
            (fill_level-Activates level side price s' refl_eq placed unfilled),
      )
