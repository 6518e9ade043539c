-- ===== src/HedgedGrid/Doubling.antt =====
-- When the strategy doubles (`_check_doubling_trigger` of
-- domain/strategy/ciby_hedged_doubling_grid.py).
use aurex_trade.Prelude.{
  ◌≡◌, String, Bool, true, Option, List, arith, is_some, Option-cases, inl, inr,
}
use aurex_trade.Prelude.Float.{Float, Format}
use aurex_trade.Domain.Models.{Signal}
use aurex_trade.HedgedGrid.State.{Grid}
use aurex_trade.HedgedGrid.Callbacks.{
  parse_key, record_fill, activate, double_if_due, fill_level, report_fill,
}

-- What is known of the doubled position, and the orders that wait.
abbrev pub doubled_state :
    {F : Type 0} → Grid F → Option F × String × String × Bool × Bool × List (Signal F)
doubled_state s = (
  s.doubled_level, s.doubled_side, s.doubled_grid_key, s.doubled_active, s.doubled_has_broker_tp,
  s.signal_queue,
)

module _ {F : Type 0} ⦃f : Float F⦄ ⦃w : Format F⦄ where
  double_if_due-once :
      (level : F) (s : Grid F)
      → is_some s.doubled_level ≡ true
      → doubled_state (double_if_due level s) ≡ doubled_state s
  unfolding double_if_due
  double_if_due-once level s h = ground arith

  fill_level-once :
      (level : F) (side : String) (price : F) (s : Grid F)
      → is_some s.doubled_level ≡ true
      → doubled_state (fill_level level side price s) ≡ doubled_state s
  unfolding fill_level
  fill_level-once level side price s h =
      let s1 = record_fill level side price s in
      ground (arith, double_if_due-once level s1 h, double_if_due-once level (activate level s1) h)

  -- Once a level is doubled no fill that is reported doubles again: the doubled position stays as it
  -- is, and no order joins the queue.
  pub report_fill-once :
      (key : String) (price : F) (s : Grid F)
      → is_some s.doubled_level ≡ true
      → doubled_state (report_fill key price s) ≡ doubled_state s
  unfolding report_fill
  report_fill-once key price s h = elim (Option-cases (parse_key {F = F} key)) [
    | inl e ↦ rw (e, report_fill)
    | inr ((level, _, side), e) ↦ rw (e, report_fill) (fill_level-once level side price s h)
  ]
