-- ===== src/HedgedGrid/Levels.antt =====
-- The two states of a level through the life of the strategy
-- (domain/strategy/ciby_hedged_doubling_grid.py): it waits with a limit order, or it has an active
-- pair, and never both.
use aurex_trade.Prelude.{
  ◌≡◌, refl, String, true, false, List, [], ◌∷◌, arith, ◌↔◌, Option-cases, get_last?, inl, inr, ℕ,
}
use aurex_trade.Prelude.Float.{Float, Format, eq, ◌⊕◌}
use aurex_trade.Domain.Models.{BarData}
use aurex_trade.HedgedGrid.State.{
  Grid, init, restart_session, flat_close_all, trigger_close_all, update_unrealized_pnl,
  notify_trailing_stop_set, notify_close_all_complete,
}
use aurex_trade.HedgedGrid.Grid.{
  is_filled, is_placed, queue_limit_for_level, queue_levels, initialize_grid, maintain_levels,
  maintain_grid, all_levels,
}
use aurex_trade.HedgedGrid.Callbacks.{
  parse_key, record_fill, activate, fill_level, report_fill, close_side_of, report_trade_closed,
  on_signal_rejected,
}
use aurex_trade.HedgedGrid.Generate.{build, generate_at, generate}
use aurex_trade.HedgedGrid.Events.{Event, handle, run}
use aurex_trade.HedgedGrid.Keys.{double_if_due-Books}
use aurex_trade.HedgedGrid.Apart.{
  Apart, IsApart, Apart-nil, Apart-cons, Apart-activate, Apart-erase, Apart-discard,
}

module _ {F : Type 0} ⦃f : Float F⦄ ⦃w : Format F⦄
    (same : (a b : F) → (eq a b ≡ true) ↔ (a ≡ b)) where
  queue_limit_for_level-IsApart :
      (level : F) (s : Grid F) → IsApart s → IsApart (queue_limit_for_level level s)
  unfolding queue_limit_for_level
  queue_limit_for_level-IsApart level s h =
      ground (arith, Apart-cons same level s.placed_levels s.filled_levels)

  queue_levels-IsApart : (ls : List F) (s : Grid F) → IsApart s → IsApart (queue_levels ls s)
  unfolding queue_levels
  queue_levels-IsApart [] s h = h
  queue_levels-IsApart (l ∷ ls) s h =
      queue_levels-IsApart ls (queue_limit_for_level l s) (queue_limit_for_level-IsApart l s h)

  initialize_grid-IsApart :
      (bar : BarData F) (s : Grid F) → IsApart s → IsApart (initialize_grid bar s)
  unfolding initialize_grid
  initialize_grid-IsApart bar s h = queue_levels-IsApart _ _ h

  maintain_levels-IsApart : (ls : List F) (s : Grid F) → IsApart s → IsApart (maintain_levels ls s)
  unfolding maintain_levels
  maintain_levels-IsApart [] s h = h
  maintain_levels-IsApart (l ∷ ls) s h =
      maintain_levels-IsApart ls _ (ground (arith, queue_limit_for_level-IsApart l s h))

  maintain_grid-IsApart : (s : Grid F) → IsApart s → IsApart (maintain_grid s)
  unfolding maintain_grid
  maintain_grid-IsApart s h = maintain_levels-IsApart (all_levels s) s h

  build-IsApart : (bar : BarData F) (s : Grid F) → IsApart s → IsApart (build bar s).1
  unfolding build
  build-IsApart bar s h =
      let built = initialize_grid-IsApart bar s h in
      ground (
        arith,
        maintain_grid-IsApart s h,
        built,
        maintain_grid-IsApart (initialize_grid bar s) built,
      )

  generate_at-IsApart : (bar : BarData F) (s : Grid F) → IsApart s → IsApart (generate_at bar s).1
  unfolding generate_at flat_close_all trigger_close_all
  generate_at-IsApart bar s h =
      ground (arith, build-IsApart bar (record s { current_price = bar.close }) h)

  fill_level-IsApart :
      (level : F) (side : String) (price : F) (s : Grid F)
      → IsApart s
      → IsApart (fill_level level side price s)
  unfolding fill_level
  fill_level-IsApart level side price s h =
      let s1 = record_fill level side price s in
      ground (
        arith,
        double_if_due-Books level s1,
        double_if_due-Books level (activate level s1),
        Apart-activate same level s.next_id s.placed_levels s.filled_levels h,
      )

  close_side_of-IsApart :
      (level : F) (side : String) (s : Grid F) → IsApart s → IsApart (close_side_of level side s)
  unfolding close_side_of
  close_side_of-IsApart level side s h =
      ground (arith, Apart-erase same level s.placed_levels s.filled_levels h)

  handle-IsApart : (e : Event F) (s : Grid F) → IsApart s → IsApart (handle e s).1
  unfolding handle generate report_fill report_trade_closed on_signal_rejected update_unrealized_pnl
      notify_trailing_stop_set notify_close_all_complete restart_session
  handle-IsApart (Event.bars_seen bars) s h = elim (Option-cases (get_last? bars)) [
    | inl e ↦ rw (e, generate) h
    | inr (bar, e) ↦ rw (e, generate) (generate_at-IsApart bar s h)
  ]
  handle-IsApart (Event.unrealized pnl) s h = h
  handle-IsApart (Event.filled key price) s h = elim (Option-cases (parse_key {F = F} key)) [
    | inl e ↦ rw (e, report_fill) h
    | inr ((level, _, side), e) ↦ rw (e, report_fill) (fill_level-IsApart level side price s h)
  ]
  handle-IsApart (Event.trade_closed key pnl side) s h =
      let s1 = record s { session_realized_pnl = s.session_realized_pnl ⊕ pnl } in
      elim (Option-cases (parse_key {F = F} key)) [
        | inl e ↦ rw (e, report_trade_closed) (ground arith)
        | inr ((level, _, closed), e) ↦
            rw (e, report_trade_closed) (ground (arith, close_side_of-IsApart level closed s1 h))
      ]
  handle-IsApart (Event.rejected key) s h = elim (Option-cases (parse_key {F = F} key)) [
    | inl e ↦ rw (e, on_signal_rejected) h
    | inr ((level, _, side), e) ↦
        rw (e, on_signal_rejected)
          (Apart-discard same level _ _ (Apart-erase same level s.placed_levels s.filled_levels h))
  ]
  handle-IsApart Event.trailing_stop_set s h = h
  handle-IsApart Event.close_all_complete s h = ground (arith, Apart-nil F ⦃f = f⦄)

  run-IsApart : (es : List (Event F)) (s : Grid F) → IsApart s → IsApart (run es s).1
  unfolding run
  run-IsApart [] s h = h
  run-IsApart (e ∷ es) s h = run-IsApart es (handle e s).1 (handle-IsApart e s h)

  -- From its construction on, after whatever the engine has reported, no level of the strategy both
  -- waits with a limit order and has an active pair (where `==` on levels is equality).
  pub run_apart :
      (spacing units trail loss_limit : F) (whipsaw_limit n clock : ℕ) (es : List (Event F))
      (level : F)
      → let s = (run es (init spacing units trail loss_limit whipsaw_limit n clock)).1 in
        is_placed level s ≡ true → is_filled level s ≡ false
  unfolding Apart init
  run_apart spacing units trail loss_limit whipsaw_limit n clock es level =
      run-IsApart es (init spacing units trail loss_limit whipsaw_limit n clock) (λ l h. refl) level
