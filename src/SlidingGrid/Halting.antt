-- ===== src/SlidingGrid/Halting.antt =====
-- What the sliding grid does on a day that has reached its loss limit
-- (`generate` and the callbacks of domain/strategy/ciby_sliding_grid.py).
use aurex_trade.Prelude.{
  str_eq, ℕ, ◌/◌, String, ◌≡◌, refl, true, false, Option, none, some, List, [], ◌∷◌, ◌++◌, arith,
  All, All-append, Option-cases, Bool-cases, is_some, inl, inr,
}
use aurex_trade.Prelude.Float.{Float, Format, ◌⊕◌, neg, ◌≼◌}
use aurex_trade.Prelude.Dict.{lookup}
use aurex_trade.Domain.Enums.{SignalType}
use aurex_trade.Domain.Models.{BarData, Signal}
use aurex_trade.SlidingGrid.State.{
  Sliding, set_unrealized, set_realized, sliding_close_complete, clear_grid_positions, flat_signal,
  begin_close_all,
}
use aurex_trade.SlidingGrid.Steps.{
  generate_sliding_at, decide_sliding, turn_day, daily_limit_hit, pause_day, take_pending_close,
  fill_sliding, side_filled, trade_closed_sliding, side_closed, count_pnl, signal_rejected_sliding,
  parse_side_key,
}

-- what the engine tells a strategy, and asks of it
pub data SlidingEvent (F : Type 0) : Type 0 where
  bar_given : BarData F → SlidingEvent F
  entry_filled : String → F → SlidingEvent F
  trade_over : String → F → SlidingEvent F
  entry_rejected : String → SlidingEvent F
  floating_pnl : F → SlidingEvent F
  realized_pnls : F → F → SlidingEvent F
  levels_polled : SlidingEvent F
  all_closed : SlidingEvent F

-- The signal asks the engine to close everything.
abbrev pub ClosesAll : {F : Type 0} → Signal F → Type 0
ClosesAll q =
    (q.signal_type ≡ SignalType.flat) × (lookup str_eq "action" q.metadata ≡ some "close_all")

-- A bar of the event is of this day.
abbrev pub IsOfDay : {F : Type 0} → ℕ → SlidingEvent F → Type 0
IsOfDay day (SlidingEvent.bar_given bar) = bar.timestamp / 86400 ≡ day
IsOfDay day _ = Unit

abbrev listed : {A : Type 0} → Option A → List A
listed none = []
listed (some a) = a ∷ []

module _ {F : Type 0} ⦃f : Float F⦄ ⦃w : Format F⦄ where
  abbrev pub react : SlidingEvent F → Sliding F → List (Signal F) × Sliding F
  react (SlidingEvent.bar_given bar) s = let (q, s1) = generate_sliding_at bar s in (listed q, s1)
  react (SlidingEvent.entry_filled key price) s = ([], fill_sliding key price s)
  react (SlidingEvent.trade_over key pnl) s = ([], trade_closed_sliding key pnl s)
  react (SlidingEvent.entry_rejected key) s = ([], signal_rejected_sliding key s)
  react (SlidingEvent.floating_pnl pnl) s = ([], set_unrealized pnl s)
  react (SlidingEvent.realized_pnls session daily) s = ([], set_realized session daily s)
  react SlidingEvent.levels_polled s = ([], (take_pending_close s).1)
  react SlidingEvent.all_closed s = ([], sliding_close_complete s)

  abbrev pub react_all : List (SlidingEvent F) → Sliding F → List (Signal F) × Sliding F
  react_all [] s = ([], s)
  react_all (e ∷ es) s =
      let (now, s1) = react e s in let (later, s2) = react_all es s1 in (now ++ later, s2)

  -- Trading is over for the day, and no order is queued.
  pub record IsHalted (day : ℕ) (s : Sliding F) : Type 0 where
    inactive : s.session_active ≡ false
    today : s.current_date ≡ some day
    no_queue : s.signal_queue ≡ []

  turn_day-IsHalted : (day : ℕ) (s : Sliding F) → IsHalted day s → IsHalted day (turn_day day s)
  unfolding turn_day
  turn_day-IsHalted day s h = record {
    inactive = rw (h.today, turn_day) (ground arith);
    today = ground arith;
    no_queue = ground arith;
  }

  decide_sliding-idle :
      (day : ℕ) (bar : BarData F) (s : Sliding F)
      → IsHalted day s
      → s.close_all_in_progress ≡ false
      → decide_sliding bar s ≡ (none, s)
  unfolding decide_sliding
  decide_sliding-idle day bar s h idle =
      let no_queue = h.no_queue in let inactive = h.inactive in ground arith

  decide_sliding-closing :
      (bar : BarData F) (s : Sliding F)
      → s.signal_queue ≡ []
      → s.close_all_in_progress ≡ true
      → decide_sliding bar s ≡ flat_signal bar s.close_reason s
  unfolding decide_sliding
  decide_sliding-closing bar s drained closing = ground arith

  generate_after :
      (day : ℕ) (bar : BarData F) (s : Sliding F)
      → IsHalted day s
      → All ClosesAll (listed (decide_sliding bar s).0) × IsHalted day (decide_sliding bar s).1
  unfolding flat_signal
  generate_after day bar s h = elim (Bool-cases s.close_all_in_progress) [
    | inl closing ↦ rw (decide_sliding-closing bar s h.no_queue closing) (
      ((refl, refl), tt),
      record { inactive = h.inactive; today = h.today; no_queue = h.no_queue },
    )
    | inr idle ↦ rw (decide_sliding-idle day bar s h idle) (tt, h)
  ]

  generate_sliding_at-IsHalted :
      (day : ℕ) (bar : BarData F) (s : Sliding F)
      → bar.timestamp / 86400 ≡ day
      → IsHalted day s
      → All ClosesAll (listed (generate_sliding_at bar s).0)
        × IsHalted day (generate_sliding_at bar s).1
  unfolding generate_sliding_at flat_signal
  generate_sliding_at-IsHalted day bar s same h =
      let s1 = turn_day (bar.timestamp / 86400) (record s { current_price = bar.close }) in
      generate_after day bar s1 (
        rw same (
          turn_day-IsHalted day _
            (record { inactive = h.inactive; today = h.today; no_queue = h.no_queue })))

  fill-IsHalted :
      (day : ℕ) (key : String) (price : F) (s : Sliding F)
      → IsHalted day s
      → IsHalted day (fill_sliding key price s)
  unfolding fill_sliding side_filled
  fill-IsHalted day key price s h = elim (Option-cases (parse_side_key {F = F} key)) [
    | inl unread ↦ rw (unread, fill_sliding) h
    | inr (_, read) ↦
        rw (read, fill_sliding)
          (record { inactive = h.inactive; today = h.today; no_queue = h.no_queue })
  ]

  count_pnl-IsHalted :
      (day : ℕ) (pnl : F) (s : Sliding F) → IsHalted day s → IsHalted day (count_pnl pnl s)
  unfolding count_pnl
  count_pnl-IsHalted day pnl s h = record {
    inactive = ground arith;
    today = ground arith;
    no_queue = ground arith;
  }

  side_closed-IsHalted :
      (day : ℕ) (level : F) (side : String) (s : Sliding F)
      → IsHalted day s
      → IsHalted day (side_closed level side s)
  unfolding side_closed
  side_closed-IsHalted day level side s h = record {
    inactive = ground arith;
    today = ground arith;
    no_queue = ground arith;
  }

  over-IsHalted :
      (day : ℕ) (key : String) (pnl : F) (s : Sliding F)
      → IsHalted day s
      → IsHalted day (trade_closed_sliding key pnl s)
  unfolding trade_closed_sliding
  over-IsHalted day key pnl s h = elim (Option-cases (parse_side_key {F = F} key)) [
    | inl unread ↦ rw (unread, trade_closed_sliding) (count_pnl-IsHalted day pnl s h)
    | inr ((level, side), read) ↦
        rw (read, trade_closed_sliding)
          (side_closed-IsHalted day level side _ (count_pnl-IsHalted day pnl s h))
  ]

  rejected-IsHalted :
      (day : ℕ) (key : String) (s : Sliding F)
      → IsHalted day s
      → IsHalted day (signal_rejected_sliding key s)
  unfolding signal_rejected_sliding
  rejected-IsHalted day key s h = elim (Option-cases (parse_side_key {F = F} key)) [
    | inl unread ↦ rw (unread, signal_rejected_sliding) h
    | inr (_, read) ↦
        rw (read, signal_rejected_sliding)
          (record { inactive = h.inactive; today = h.today; no_queue = rw h.no_queue refl })
  ]

  all_closed-IsHalted :
      (day : ℕ) (s : Sliding F) → IsHalted day s → IsHalted day (sliding_close_complete s)
  unfolding sliding_close_complete clear_grid_positions
  all_closed-IsHalted day s h =
      rw (h.inactive, sliding_close_complete)
        (record { inactive = refl; today = h.today; no_queue = refl })

  react-IsHalted :
      (day : ℕ) (e : SlidingEvent F) (s : Sliding F)
      → IsOfDay day e
      → IsHalted day s
      → All ClosesAll (react e s).0 × IsHalted day (react e s).1
  unfolding set_unrealized set_realized sliding_close_complete take_pending_close
      clear_grid_positions
  react-IsHalted day (SlidingEvent.bar_given bar) s same h =
      generate_sliding_at-IsHalted day bar s same h
  react-IsHalted day (SlidingEvent.entry_filled key price) s same h =
      (tt, fill-IsHalted day key price s h)
  react-IsHalted day (SlidingEvent.trade_over key pnl) s same h =
      (tt, over-IsHalted day key pnl s h)
  react-IsHalted day (SlidingEvent.entry_rejected key) s same h =
      (tt, rejected-IsHalted day key s h)
  react-IsHalted day (SlidingEvent.floating_pnl pnl) s same h =
      (tt, record { inactive = h.inactive; today = h.today; no_queue = h.no_queue })
  react-IsHalted day (SlidingEvent.realized_pnls session daily) s same h =
      (tt, record { inactive = h.inactive; today = h.today; no_queue = h.no_queue })
  react-IsHalted day SlidingEvent.levels_polled s same h =
      (tt, record { inactive = h.inactive; today = h.today; no_queue = h.no_queue })
  react-IsHalted day SlidingEvent.all_closed s same h = (tt, all_closed-IsHalted day s h)

  react_all-IsHalted :
      (day : ℕ) (es : List (SlidingEvent F)) (s : Sliding F)
      → All (IsOfDay day) es
      → IsHalted day s
      → All ClosesAll (react_all es s).0 × IsHalted day (react_all es s).1
  react_all-IsHalted day [] s same h = (tt, h)
  react_all-IsHalted day (e ∷ es) s same h =
      let (now, h1) = react-IsHalted day e s same.0 h in
      let (later, h2) = react_all-IsHalted day es (react e s).1 same.1 h1 in
      (All-append ClosesAll _ _ now later, h2)

  -- The day's profits, with what floats, are at or below the limit.
  abbrev pub AtDailyLimit : Sliding F → Type 0
  AtDailyLimit s = s.daily_realized_pnl ⊕ s.session_unrealized_pnl ≼ neg s.daily_loss_limit

  pause_day-IsHalted :
      (day : ℕ) (bar : BarData F) (s : Sliding F)
      → s.current_date ≡ some day
      → s.signal_queue ≡ []
      → All ClosesAll (listed (pause_day bar s).0) × IsHalted day (pause_day bar s).1
  unfolding pause_day flat_signal begin_close_all
  pause_day-IsHalted day bar s today drained = elim (Bool-cases (is_some s.anchor_price)) [
    | inl open_trades ↦
        rw (open_trades, pause_day)
          (((refl, refl), tt), record { inactive = refl; today = today; no_queue = refl })
    | inr flat_now ↦
        rw (flat_now, pause_day) (tt, record { inactive = refl; today = today; no_queue = drained })
  ]

  decide_sliding-pauses :
      (bar : BarData F) (s : Sliding F)
      → s.signal_queue ≡ []
      → s.close_all_in_progress ≡ false
      → s.session_active ≡ true
      → daily_limit_hit s ≡ true
      → decide_sliding bar s ≡ pause_day bar s
  unfolding decide_sliding
  decide_sliding-pauses bar s drained idle active hit = ground arith

  decide_sliding-limit :
      (day : ℕ) (bar : BarData F) (s : Sliding F)
      → s.current_date ≡ some day
      → s.signal_queue ≡ []
      → s.close_all_in_progress ≡ false
      → daily_limit_hit s ≡ true
      → All ClosesAll (listed (decide_sliding bar s).0) × IsHalted day (decide_sliding bar s).1
  decide_sliding-limit day bar s today drained idle hit = elim (Bool-cases s.session_active) [
    | inl active ↦
        rw (decide_sliding-pauses bar s drained idle active hit)
          (pause_day-IsHalted day bar s today drained)
    | inr inactive ↦
        generate_after day bar s (record { inactive = inactive; today = today; no_queue = drained })
  ]

  turn_day-same :
      (day : ℕ) (s : Sliding F)
      → s.current_date ≡ some day
      → turn_day day s ≡ record s { current_date = some day }
  unfolding turn_day
  turn_day-same day s e = ground arith

  generate-limit :
      (bar : BarData F) (s : Sliding F)
      → s.current_date ≡ some (bar.timestamp / 86400)
      → s.signal_queue ≡ []
      → s.close_all_in_progress ≡ false
      → AtDailyLimit s
      → let (q, s1) = generate_sliding_at bar s in
        All ClosesAll (listed q) × IsHalted (bar.timestamp / 86400) s1
  unfolding generate_sliding_at daily_limit_hit
  generate-limit bar s today drained idle limit =
      rw (turn_day-same (bar.timestamp / 86400) (record s { current_price = bar.close }) today)
        (decide_sliding-limit (bar.timestamp / 86400) bar _ refl drained idle limit)

  -- Once a bar finds the day's profits at or below the daily limit, with no order queued and no closing
  -- of all positions under way, nothing that happens on that day makes the strategy ask for an order:
  -- this bar, and all events of the day after it (further bars, fills, closed trades, rejections, new
  -- profits, and the end of the closing) give no signals but those that ask to close everything.
  pub react_all-limit :
      (bar : BarData F) (es : List (SlidingEvent F)) (s : Sliding F)
      → s.current_date ≡ some (bar.timestamp / 86400)
      → s.signal_queue ≡ []
      → s.close_all_in_progress ≡ false
      → AtDailyLimit s
      → All (IsOfDay (bar.timestamp / 86400)) es
      → All ClosesAll (react_all (SlidingEvent.bar_given bar ∷ es) s).0
  react_all-limit bar es s today drained idle limit same =
      let (first, h) = generate-limit bar s today drained idle limit in
      All-append ClosesAll _ _ first
        (react_all-IsHalted _ es (generate_sliding_at bar s).1 same h).0
