-- ===== src/HedgedGrid/Generate.antt =====
-- `generate` (domain/strategy/ciby_hedged_doubling_grid.py): one signal at most for each call.
use aurex_trade.Prelude.{
  Bool, false, Option, none, some, List, [], ◌∷◌, ◌&&◌, not, if◌then◌else◌, get_last?, is_some,
}
use aurex_trade.Prelude.Float.{Float, Format, le, neg, ◌⊕◌}
use aurex_trade.Domain.Models.{BarData, Signal}
use aurex_trade.HedgedGrid.State.{Grid, flat_close_all, trigger_close_all}
use aurex_trade.HedgedGrid.Grid.{initialize_grid, maintain_grid, check_take_profit}

module _ {F : Type 0} ⦃f : Float F⦄ where
  -- `if self._signal_queue: return self._signal_queue.popleft()`, or else go on
  abbrev pub pop_or : Grid F → (Grid F → Option (Signal F) × Grid F) → Option (Signal F) × Grid F
  pop_or s rest = elim s.signal_queue [
    | [] ↦ rest s
    | q ∷ qs ↦ (some q, record s { signal_queue = qs })
  ]

  -- a close-all signal, from a state
  abbrev pub close_all : BarData F → Grid F → Option (Signal F) × Grid F
  close_all bar s = let (signal, s') = flat_close_all bar s.close_reason s in (some signal, s')

  -- The session has lost its limit; only asked once there is an anchor.
  unfoldable pub loss_limit_hit : Grid F → Bool
  loss_limit_hit s =
      is_some s.anchor_price
      && le (s.session_realized_pnl ⊕ s.session_unrealized_pnl) (neg s.session_loss_limit)

  unfoldable pub take_profit_hit : BarData F → Grid F → Bool
  take_profit_hit bar s =
      is_some s.doubled_level && s.doubled_active && check_take_profit bar.close s

  module _ ⦃w : Format F⦄ where
    -- from the queue on: drain it, build the grid if there is none, and maintain it
    unfoldable pub build : BarData F → Grid F → Option (Signal F) × Grid F
    build bar s =
        if is_some s.anchor_price
        then pop_or (maintain_grid s) (λ s1. (none, s1))
        else pop_or (initialize_grid bar s) (λ s1. pop_or (maintain_grid s1) (λ s2. (none, s2)))

    unfoldable pub generate_at : BarData F → Grid F → Option (Signal F) × Grid F
    generate_at bar s0 =
        let s = record s0 { current_price = bar.close } in
        if s.close_all_pending
        then close_all bar (record s { close_all_pending = false; signal_queue = [] })
        else if s.close_all_in_progress
        then close_all bar s
        else if not s.session_active
        then (none, s)
        else if loss_limit_hit s
        then close_all bar (trigger_close_all "session_loss_limit" (record s { signal_queue = [] }))
        else if take_profit_hit bar s
        then close_all bar (trigger_close_all "take_profit" (record s { signal_queue = [] }))
        else pop_or s (build bar)

    unfoldable pub generate : List (BarData F) → Grid F → Option (Signal F) × Grid F
    generate bars s = elim (get_last? bars) [ none ↦ (none, s) | some bar ↦ generate_at bar s ]
