-- ===== src/HedgedGrid/Events.antt =====
-- The calls that the engine makes of the strategy, in any order
-- (domain/strategy/ciby_hedged_doubling_grid.py).
use aurex_trade.Prelude.{String, Option, none, some, List, [], ◌∷◌, ◌++◌}
use aurex_trade.Prelude.Float.{Float, Format}
use aurex_trade.Domain.Models.{BarData, Signal}
use aurex_trade.HedgedGrid.State.{
  Grid, update_unrealized_pnl, notify_trailing_stop_set, notify_close_all_complete,
}
use aurex_trade.HedgedGrid.Callbacks.{report_fill, report_trade_closed, on_signal_rejected}
use aurex_trade.HedgedGrid.Generate.{generate}

pub data Event (F : Type 0) : Type 0 where
  bars_seen : List (BarData F) → Event F
  unrealized : F → Event F
  filled : String → F → Event F
  trade_closed : String → F → String → Event F
  rejected : String → Event F
  trailing_stop_set : Event F
  close_all_complete : Event F

abbrev pub signals : {F : Type 0} → Option (Signal F) → List (Signal F)
signals none = []
signals (some q) = q ∷ []

module _ {F : Type 0} ⦃f : Float F⦄ ⦃w : Format F⦄ where
  -- the signals that a call gives, and the state after it
  unfoldable pub handle : Event F → Grid F → List (Signal F) × Grid F
  handle (bars_seen bars) s = let (q, s') = generate bars s in (signals q, s')
  handle (unrealized pnl) s = ([], update_unrealized_pnl pnl s)
  handle (filled key price) s = ([], report_fill key price s)
  handle (trade_closed key pnl side) s = ([], report_trade_closed key pnl side s)
  handle (rejected key) s = ([], on_signal_rejected key s)
  handle trailing_stop_set s = ([], notify_trailing_stop_set s)
  handle close_all_complete s = ([], notify_close_all_complete s)

  -- all the signals of a run, in order, and its last state
  unfoldable pub run : List (Event F) → Grid F → List (Signal F) × Grid F
  run [] s = ([], s)
  run (e ∷ es) s = let (qs, s1) = handle e s in let (rest, s2) = run es s1 in (qs ++ rest, s2)
