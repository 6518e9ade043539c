-- ===== src/Risk.antt =====
-- The risk engine, src/aurex_trade/domain/risk/engine.py: the gate between signals and orders.
pub mod Rules
pub mod Sizing
mod Tests
use aurex_trade.Prelude.{
  ℕ, String, ◌-◌, Bool, true, false, Option, none, some, List, [], ◌∷◌, ◌&&◌, not, ltb, leb, ◌==◌,
  if◌then◌else◌, length, all, is_some, tail_slice,
}
use aurex_trade.Prelude.Float.{Float, Format, ◌⊕◌, ◌⊖◌, ◌⊗◌, ◌⊘◌, nought, lt, le, abs, neg, min, eq}
use aurex_trade.Prelude.Text.{concat}
use aurex_trade.Domain.Enums.{RiskAction}
use aurex_trade.Domain.Models.{Signal, Position, Trade, AccountState, RiskDecision}

pub record RiskEngine (F : Type 0) : Type 0 where
  pub enabled : Bool
  pub max_position_size : ℕ
  pub max_daily_loss : F
  pub max_trades_per_day : ℕ
  pub kill_switch : Bool
  pub require_stop_loss : Bool
  pub risk_per_trade : F
  pub max_drawdown_pct : F
  pub max_consecutive_losses : ℕ

-- the setter of the property `kill_switch`
unfoldable pub set_kill_switch : {F : Type 0} → Bool → RiskEngine F → RiskEngine F
set_kill_switch value r = record r { kill_switch = value }

module _ {F : Type 0} ⦃f : Float F⦄ where
  -- Rule 3, as the drawdown that breaks the limit
  pub drawdown_breach : RiskEngine F → Option (AccountState F) → Option F
  drawdown_breach r none = none
  drawdown_breach r (some a) =
      let pct = (a.peak_equity ⊖ a.equity) ⊘ a.peak_equity in
      if lt nought a.peak_equity && le r.max_drawdown_pct pct then some pct else none

  -- Rule 4
  pub losing_streak : RiskEngine F → Option (List F) → Bool
  losing_streak r none = false
  losing_streak r (some pnls) =
      let tail = tail_slice r.max_consecutive_losses pnls in
      leb r.max_consecutive_losses (length tail) && all (λ pnl. lt pnl nought) tail

  pub held : Option (Position F) → F
  held none = nought
  held (some p) = p.quantity

  pub daily_pnl : Option (Position F) → F
  daily_pnl none = nought
  daily_pnl (some p) = p.realized_pnl ⊕ p.unrealized_pnl

  module _ ⦃w : Format F⦄ where
    abbrev decide : ℕ → Signal F → RiskAction → String → RiskDecision
    decide now s a why = record { signal_id = s.id; action = a; reason = why; timestamp = now }

    -- `now` is the time of the decision.
    unfoldable pub evaluate :
        ℕ
        → RiskEngine F
        → Signal F
        → Option (Position F)
        → List (Trade F)
        → Option (AccountState F)
        → Option (List F)
        → RiskDecision
    evaluate now r s position trades_today account recent =
        if not r.enabled
        then decide now s RiskAction.approved "Risk engine disabled — all checks bypassed"
        else if r.kill_switch
        then decide now s RiskAction.kill_switch "Kill switch is active — all trading halted"
        else if r.require_stop_loss && not (is_some s.stop_loss)
        then decide now s RiskAction.rejected
            "Signal rejected — no stop-loss provided (require_stop_loss is enabled)"
        else elim (drawdown_breach r account) [
          | some pct ↦ decide now s RiskAction.rejected (
              concat (
                "Max drawdown breaker — current drawdown "
                ∷ w.percent 1 pct
                ∷ " exceeds limit "
                ∷ w.percent 1 r.max_drawdown_pct
                ∷ []))
          | none ↦
              if losing_streak r recent
              then decide now s RiskAction.rejected (
                  concat (
                    "Consecutive loss pause — last "
                    ∷ w.int_text r.max_consecutive_losses
                    ∷ " trades were all losses"
                    ∷ []))
              else if le (f.of_nat r.max_position_size) (abs (held position))
              then decide now s RiskAction.rejected (
                  concat (
                    "Position size "
                    ∷ w.text (abs (held position))
                    ∷ " already at or exceeds max "
                    ∷ w.int_text r.max_position_size
                    ∷ []))
              else if le (daily_pnl position) (neg r.max_daily_loss)
              then decide now s RiskAction.rejected (
                  concat (
                    "Daily P&L "
                    ∷ w.fixed 2 (daily_pnl position)
                    ∷ " exceeds max loss limit -"
                    ∷ w.fixed 2 r.max_daily_loss
                    ∷ []))
              else if leb r.max_trades_per_day (length trades_today)
              then decide now s RiskAction.rejected (
                  concat (
                    "Already executed "
                    ∷ w.int_text (length trades_today)
                    ∷ " trades today (max "
                    ∷ w.int_text r.max_trades_per_day
                    ∷ ")"
                    ∷ []))
              else decide now s RiskAction.approved "All risk checks passed"
        ]

  pub calculate_position_size : RiskEngine F → Signal F → AccountState F → F → F
  calculate_position_size r s account entry_price = elim s.stop_loss [
    | none ↦ nought
    | some stop ↦
        let stop_distance = abs (entry_price ⊖ stop) in
        let units = (account.equity ⊗ r.risk_per_trade) ⊘ stop_distance in
        if eq stop_distance nought then nought else min units (f.of_nat r.max_position_size)
  ]
