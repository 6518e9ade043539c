-- ===== src/HedgedGrid/Sessions.antt =====
-- Which parts of the session state the calls of the strategy leave alone
-- (domain/strategy/ciby_hedged_doubling_grid.py).
use aurex_trade.Prelude.{
  ◌≡◌, refl, ◌∙◌, String, Bool, true, List, [], ◌∷◌, arith, get_last?, Option-cases, inl, inr,
}
use aurex_trade.Prelude.Float.{Float, Format, ◌⊕◌}
use aurex_trade.Domain.Models.{BarData}
use aurex_trade.HedgedGrid.State.{Grid, flat_close_all, trigger_close_all}
use aurex_trade.HedgedGrid.Grid.{
  queue_limit_for_level, queue_levels, initialize_grid, maintain_levels, maintain_grid,
  check_doubling_trigger, start_doubling,
}
use aurex_trade.HedgedGrid.Callbacks.{
  parse_key, record_fill, activate, double_if_due, fill_level, report_fill, close_side_of,
  report_trade_closed, on_signal_rejected,
}
use aurex_trade.HedgedGrid.Generate.{build, generate_at, generate}

-- Whether the session is on, and whether all positions are being closed.
abbrev pub latch : {F : Type 0} → Grid F → Bool × Bool
latch s = (s.session_active, s.close_all_in_progress)

-- The flags that decide whether the session goes on.
abbrev pub flags : {F : Type 0} → Grid F → Bool × Bool × Bool × Bool
flags s = (s.session_active, s.session_paused, s.close_all_pending, s.close_all_in_progress)

module _ {F : Type 0} ⦃f : Float F⦄ ⦃w : Format F⦄ where
  queue_limit_for_level-flags :
      (level : F) (s : Grid F) → flags (queue_limit_for_level level s) ≡ flags s
  unfolding queue_limit_for_level
  queue_limit_for_level-flags level s = ground arith

  queue_levels-flags : (ls : List F) (s : Grid F) → flags (queue_levels ls s) ≡ flags s
  unfolding queue_levels
  queue_levels-flags [] s = refl
  queue_levels-flags (l ∷ ls) s =
      queue_levels-flags ls (queue_limit_for_level l s) ∙ queue_limit_for_level-flags l s

  pub initialize_grid-flags :
      (bar : BarData F) (s : Grid F) → flags (initialize_grid bar s) ≡ flags s
  unfolding initialize_grid
  initialize_grid-flags bar s = queue_levels-flags _ _

  maintain_levels-flags : (ls : List F) (s : Grid F) → flags (maintain_levels ls s) ≡ flags s
  unfolding maintain_levels
  maintain_levels-flags [] s = refl
  maintain_levels-flags (l ∷ ls) s =
      maintain_levels-flags ls _ ∙ ground (arith, queue_limit_for_level-flags l s)

  pub maintain_grid-flags : (s : Grid F) → flags (maintain_grid s) ≡ flags s
  unfolding maintain_grid
  maintain_grid-flags s = maintain_levels-flags _ s

  pub build-flags : (bar : BarData F) (s : Grid F) → flags (build bar s).1 ≡ flags s
  unfolding build
  build-flags bar s = ground (
    arith,
    maintain_grid-flags s,
    initialize_grid-flags bar s,
    maintain_grid-flags (initialize_grid bar s),
  )

  pub generate_at-active :
      (bar : BarData F) (s : Grid F) → (generate_at bar s).1.session_active ≡ s.session_active
  unfolding generate_at flat_close_all trigger_close_all
  generate_at-active bar s =
      ground (arith, build-flags bar (record s { current_price = bar.close }))

  pub generate-active :
      (bars : List (BarData F)) (s : Grid F) → (generate bars s).1.session_active ≡ s.session_active
  unfolding generate
  generate-active bars s = elim (Option-cases (get_last? bars)) [
    | inl e ↦ rw (e, generate)
    | inr (bar, e) ↦ rw (e, generate) (generate_at-active bar s)
  ]

  generate_at-closing :
      (bar : BarData F) (s : Grid F)
      → s.close_all_in_progress ≡ true
      → (generate_at bar s).1.close_all_in_progress ≡ true
  unfolding generate_at flat_close_all trigger_close_all
  generate_at-closing bar s h = ground arith

  pub generate-closing :
      (bars : List (BarData F)) (s : Grid F)
      → s.close_all_in_progress ≡ true
      → (generate bars s).1.close_all_in_progress ≡ true
  unfolding generate
  generate-closing bars s h = elim (Option-cases (get_last? bars)) [
    | inl e ↦ rw (e, generate) h
    | inr (bar, e) ↦ rw (e, generate) (generate_at-closing bar s h)
  ]

  check_doubling_trigger-flags :
      (level : F) (s : Grid F) → flags (check_doubling_trigger level s) ≡ flags s
  unfolding check_doubling_trigger start_doubling
  check_doubling_trigger-flags level s = ground arith

  double_if_due-flags : (level : F) (s : Grid F) → flags (double_if_due level s) ≡ flags s
  unfolding double_if_due
  double_if_due-flags level s = ground (arith, check_doubling_trigger-flags level s)

  fill_level-latch :
      (level : F) (side : String) (price : F) (s : Grid F)
      → latch (fill_level level side price s) ≡ latch s
  unfolding fill_level
  fill_level-latch level side price s =
      let s1 = record_fill level side price s in
      ground (arith, double_if_due-flags level s1, double_if_due-flags level (activate level s1))

  pub report_fill-latch :
      (key : String) (price : F) (s : Grid F) → latch (report_fill key price s) ≡ latch s
  unfolding report_fill
  report_fill-latch key price s = elim (Option-cases (parse_key {F = F} key)) [
    | inl e ↦ rw (e, report_fill)
    | inr ((level, _, side), e) ↦ rw (e, report_fill) (fill_level-latch level side price s)
  ]

  close_side_of-flags :
      (level : F) (side : String) (s : Grid F) → flags (close_side_of level side s) ≡ flags s
  unfolding close_side_of
  close_side_of-flags level side s = ground arith

  pub report_trade_closed-latch :
      (key : String) (pnl : F) (side : String) (s : Grid F)
      → latch (report_trade_closed key pnl side s) ≡ latch s
  unfolding report_trade_closed
  report_trade_closed-latch key pnl side s =
      let s1 = record s { session_realized_pnl = s.session_realized_pnl ⊕ pnl } in
      elim (Option-cases (parse_key {F = F} key)) [
        | inl e ↦ rw (e, report_trade_closed) (ground arith)
        | inr ((level, _, closed), e) ↦
            rw (e, report_trade_closed) (ground (arith, close_side_of-flags level closed s1))
      ]

  pub on_signal_rejected-flags :
      (key : String) (s : Grid F) → flags (on_signal_rejected key s) ≡ flags s
  unfolding on_signal_rejected
  on_signal_rejected-flags key s = elim (Option-cases (parse_key {F = F} key)) [
    | inl e ↦ rw (e, on_signal_rejected)
    | inr (level, e) ↦ rw (e, on_signal_rejected)
  ]
