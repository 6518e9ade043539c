-- ===== src/HedgedGrid/Shutdown.antt =====
-- When the hedged doubling grid must not open anything
-- (`generate` and the close-all flags of domain/strategy/ciby_hedged_doubling_grid.py).
use aurex_trade.Prelude.{
  ◌≡◌, refl, ap, ◌∙◌, true, false, Option, none, some, List, [], ◌∷◌, arith, Option-cases, inl, inr,
  get_last?, All, All-append, is_some,
}
use aurex_trade.Prelude.Float.{Float, Format, ◌⊕◌, neg, ◌≼◌}
use aurex_trade.Domain.Enums.{SignalType}
use aurex_trade.Domain.Models.{BarData, Signal}
use aurex_trade.HedgedGrid.State.{
  Grid, flat_close_all, trigger_close_all, update_unrealized_pnl, notify_trailing_stop_set,
  notify_close_all_complete,
}
use aurex_trade.HedgedGrid.Generate.{loss_limit_hit, generate_at, generate}
use aurex_trade.HedgedGrid.Events.{Event, signals, handle, run}
use aurex_trade.HedgedGrid.Sessions.{
  generate-active, generate-closing, report_fill-latch, report_trade_closed-latch,
  on_signal_rejected-flags,
}

-- The signal asks the engine to close everything and opens nothing.
abbrev pub IsFlat : {F : Type 0} → Signal F → Type 0
IsFlat q = q.signal_type ≡ SignalType.flat

module _ {F : Type 0} ⦃f : Float F⦄ ⦃w : Format F⦄ where
  generate_at-opens :
      (bar : BarData F) (s : Grid F) (q : Signal F)
      → (generate_at bar s).0 ≡ some q
      → ¬ IsFlat q
      → (s.session_active ≡ true)
        × (s.close_all_pending ≡ false)
        × (s.close_all_in_progress ≡ false)
        × (loss_limit_hit s ≡ false)
  unfolding generate_at flat_close_all trigger_close_all loss_limit_hit
  generate_at-opens bar s q e opens = ground arith

  -- The session has lost as much as its limit, on closed and open trades together.
  abbrev pub AtLossLimit : Grid F → Type 0
  AtLossLimit s =
      (is_some s.anchor_price ≡ true)
      × (s.session_realized_pnl ⊕ s.session_unrealized_pnl ≼ neg s.session_loss_limit)

  -- `generate` gives a signal that opens a position only while the session is active, no closing of
  -- all positions is asked for or in progress, and the session is not at its loss limit. The check
  -- comes before the queue, so that orders which were queued earlier are held back too.
  pub generate-opens :
      (bars : List (BarData F)) (s : Grid F) (q : Signal F)
      → (generate bars s).0 ≡ some q
      → ¬ IsFlat q
      → (s.session_active ≡ true)
        × (s.close_all_pending ≡ false)
        × (s.close_all_in_progress ≡ false)
        × ¬ AtLossLimit s
  unfolding generate loss_limit_hit
  generate-opens bars s q e opens = elim (Option-cases (get_last? bars)) [
    | inl none_given ↦ cc (rw (none_given, generate) at e)
    | inr (bar, given) ↦
        let (active, quiet, idle, safe) =
          generate_at-opens bar s q (rw (given, generate) at e) opens in
        (active, quiet, idle, λ at_limit. ground arith)
  ]

  generate_at-loss_limit :
      (bar : BarData F) (s : Grid F)
      → s.session_active ≡ true
      → s.close_all_pending ≡ false
      → s.close_all_in_progress ≡ false
      → AtLossLimit s
      → let (answer, s') = generate_at bar s in
        (answer ≡ some (flat_close_all bar "session_loss_limit" s).0)
        × (s'.signal_queue ≡ [])
        × (s'.close_all_in_progress ≡ true)
        × (s'.close_reason ≡ "session_loss_limit")
  unfolding generate_at flat_close_all trigger_close_all loss_limit_hit
  generate_at-loss_limit bar s active quiet idle at_limit = ground arith

  generate-loss_limit :
      (bars : List (BarData F)) (bar : BarData F) (s : Grid F)
      → get_last? bars ≡ some bar
      → s.session_active ≡ true
      → s.close_all_pending ≡ false
      → s.close_all_in_progress ≡ false
      → AtLossLimit s
      → let (answer, s') = generate bars s in
        (q : Signal F) × (answer ≡ some q)
        × IsFlat q
        × (q.metadata ≡ ("action", "close_all") ∷ ("reason", "session_loss_limit") ∷ [])
        × (s'.signal_queue ≡ [])
        × (s'.close_all_in_progress ≡ true)
  unfolding generate flat_close_all
  generate-loss_limit bars bar s last active quiet idle at_limit =
      let (e, emptied, closing, _) = generate_at-loss_limit bar s active quiet idle at_limit in
      rw (last, generate)
        ((flat_close_all bar "session_loss_limit" s).0, e, refl, refl, emptied, closing)

  signals-IsFlat :
      (o : Option (Signal F)) → ((q : Signal F) → o ≡ some q → IsFlat q) → All IsFlat (signals o)
  signals-IsFlat none h = tt
  signals-IsFlat (some q) h = (h q refl, tt)

  -- A signal is flat unless it opens something.
  IsFlat-or : (q : Signal F) → ¬ ¬ IsFlat q → IsFlat q
  IsFlat-or q h = ground arith

  generate_off-IsFlat :
      (bars : List (BarData F)) (s : Grid F)
      → s.session_active ≡ false
      → All IsFlat (signals (generate bars s).0)
  generate_off-IsFlat bars s off =
      signals-IsFlat _ λ q e. IsFlat-or q λ opens. cc ((generate-opens bars s q e opens).0)

  generate_closing-IsFlat :
      (bars : List (BarData F)) (s : Grid F)
      → s.close_all_in_progress ≡ true
      → All IsFlat (signals (generate bars s).0)
  generate_closing-IsFlat bars s closing =
      signals-IsFlat _ λ q e. IsFlat-or q λ opens. cc ((generate-opens bars s q e opens).2)

  -- An invariant under which each event gives flat signals alone.
  run-IsFlat :
      (E : Event F → Type 0) (P : Grid F → Type 0)
      → ((e : Event F) (s : Grid F) → E e → P s → All IsFlat (handle e s).0 × P (handle e s).1)
      → (es : List (Event F)) (s : Grid F) → All E es
      → P s
      → All IsFlat (run es s).0 × P (run es s).1
  unfolding run
  run-IsFlat E P step [] s h p = (tt, p)
  run-IsFlat E P step (e ∷ es) s h p =
      let (flat, p1) = step e s h.0 p in
      let (flats, p2) = run-IsFlat E P step es (handle e s).1 h.1 p1 in
      (All-append IsFlat _ _ flat flats, p2)

  abbrev IsOff : Grid F → Type 0
  IsOff s = s.session_active ≡ false

  handle-IsOff :
      (e : Event F) (s : Grid F) → IsOff s → All IsFlat (handle e s).0 × IsOff (handle e s).1
  unfolding handle update_unrealized_pnl notify_trailing_stop_set notify_close_all_complete
  handle-IsOff (Event.bars_seen bars) s off =
      (generate_off-IsFlat bars s off, generate-active bars s ∙ off)
  handle-IsOff (Event.unrealized pnl) s off = (tt, off)
  handle-IsOff (Event.filled key price) s off =
      (tt, ap (λ l. l.0) (report_fill-latch key price s) ∙ off)
  handle-IsOff (Event.trade_closed key pnl side) s off =
      (tt, ap (λ l. l.0) (report_trade_closed-latch key pnl side s) ∙ off)
  handle-IsOff (Event.rejected key) s off =
      (tt, ap (λ l. l.0) (on_signal_rejected-flags key s) ∙ off)
  handle-IsOff Event.trailing_stop_set s off = (tt, off)
  handle-IsOff Event.close_all_complete s off = (tt, ground arith)

  -- A session that was ended, as the whipsaw limit ends it, gives flat signals alone from then on,
  -- whatever the engine reports.
  pub run_ended :
      (es : List (Event F)) (s : Grid F) → s.session_active ≡ false → All IsFlat (run es s).0
  run_ended es s off =
      (run-IsFlat (λ e. Unit) IsOff (λ e s1 _ p. handle-IsOff e s1 p) es s (all_events es) off).0
    where
      all_events : (xs : List (Event F)) → All (λ e. Unit {0}) xs
      all_events [] = tt
      all_events (x ∷ xs) = (tt, all_events xs)

  -- Any event but the report that everything is closed.
  abbrev pub IsBefore : Event F → Type 0
  IsBefore Event.close_all_complete = ⊥
  IsBefore _ = Unit

  handle_closing :
      (e : Event F) (s : Grid F)
      → IsBefore e
      → s.close_all_in_progress ≡ true
      → All IsFlat (handle e s).0 × ((handle e s).1.close_all_in_progress ≡ true)
  unfolding handle update_unrealized_pnl notify_trailing_stop_set
  handle_closing (Event.bars_seen bars) s h c =
      (generate_closing-IsFlat bars s c, generate-closing bars s c)
  handle_closing (Event.unrealized pnl) s h c = (tt, c)
  handle_closing (Event.filled key price) s h c =
      (tt, ap (λ l. l.1) (report_fill-latch key price s) ∙ c)
  handle_closing (Event.trade_closed key pnl side) s h c =
      (tt, ap (λ l. l.1) (report_trade_closed-latch key pnl side s) ∙ c)
  handle_closing (Event.rejected key) s h c =
      (tt, ap (λ l. l.3) (on_signal_rejected-flags key s) ∙ c)
  handle_closing Event.trailing_stop_set s h c = (tt, c)
  handle_closing Event.close_all_complete s h c = absurd h

  -- While the closing of all positions is marked as in progress, the session gives flat signals alone
  -- and stays at it, whatever happens before the engine reports that everything is closed. The mark is
  -- set at the loss limit and at the take-profit; a closing that was only asked for, by a whipsaw or by
  -- the end of the doubled position, does not set it and is not covered.
  pub run_closing :
      (es : List (Event F)) (s : Grid F)
      → All IsBefore es
      → s.close_all_in_progress ≡ true
      → All IsFlat (run es s).0 × ((run es s).1.close_all_in_progress ≡ true)
  run_closing es s h closing =
      run-IsFlat IsBefore (λ s1. s1.close_all_in_progress ≡ true) handle_closing es s h closing

  -- At the loss limit, an active session that closes nothing yet and has no closing asked for answers
  -- its bars by a request to close everything that gives the loss limit as its reason, and from then
  -- on, whatever happens before the engine reports that everything is closed, all its signals are flat:
  -- no order that was queued earlier goes out, and none is added.
  pub run-loss_limit :
      (bars : List (BarData F)) (bar : BarData F) (es : List (Event F)) (s : Grid F)
      → get_last? bars ≡ some bar
      → s.session_active ≡ true
      → s.close_all_pending ≡ false
      → s.close_all_in_progress ≡ false
      → AtLossLimit s
      → All IsBefore es
      → let (given, s') = run (Event.bars_seen bars ∷ es) s in
        (q : Signal F) × (rest : List (Signal F)) × (given ≡ q ∷ rest)
        × (q.metadata ≡ ("action", "close_all") ∷ ("reason", "session_loss_limit") ∷ [])
        × All IsFlat given
        × (s'.close_all_in_progress ≡ true)
  unfolding run handle
  run-loss_limit bars bar es s last active quiet idle at_limit before =
      let (q, e, flat, reason, _, closing) =
        generate-loss_limit bars bar s last active quiet idle at_limit in
      let (flats, still) = run_closing es (generate bars s).1 before closing in
      rw e (q, (run es (generate bars s).1).0, refl, reason, (flat, flats), still)
