-- ===== src/Risk/Tests.antt =====
-- Examples for domain/risk/engine.py: an engine at work on whole numbers.
use aurex_trade.Prelude.{
  ◌≡◌, ◌↔◌, ◌⊎◌, refl, true, false, Option, none, some, List, [], ◌∷◌, ◌++◌, arith,
}
use aurex_trade.Prelude.Int.{ℤ, pos, negsuc, ◌+ℤ◌, ◌-ℤ◌, div_ℤ}
use aurex_trade.Prelude.Float.{int_float, ℤ-IsOrdered, ◌⊖◌, ◌⊗◌, ◌⊘◌, nought, eq, abs, ◌≼◌}
use aurex_trade.Domain.Enums.{RiskAction}
use aurex_trade.Domain.Models.{Signal, Trade, AccountState}
use aurex_trade.Examples.{unary_format, signal_with, trade_of}
use aurex_trade.Risk.{
  RiskEngine, evaluate, drawdown_breach, losing_streak, held, daily_pnl, calculate_position_size,
}
use aurex_trade.Risk.Rules.{OnLosingStreak, losing_streak_iff}
use aurex_trade.Risk.Sizing.{calculate_position_size-bound}

abbrev engine : RiskEngine ℤ
engine = record {
  enabled = true;
  max_position_size = 10;
  max_daily_loss = pos 100;
  max_trades_per_day = 3;
  kill_switch = false;
  require_stop_loss = true;
  risk_per_trade = pos 2;
  max_drawdown_pct = pos 5;
  max_consecutive_losses = 2;
}

abbrev account : Option (AccountState ℤ)
account = some (record { equity = pos 90; peak_equity = pos 100 })

abbrev results : Option (List ℤ)
results = some (pos 4 ∷ negsuc 1 ∷ negsuc 7 ∷ [])

abbrev mixed_results : Option (List ℤ)
mixed_results = some (negsuc 1 ∷ pos 4 ∷ negsuc 7 ∷ [])

abbrev signal : Signal ℤ
signal = signal_with (some (pos 90))

abbrev first_trade : List (Trade ℤ)
first_trade = trade_of "XAU_USD" 100 ∷ []

losing_streak_iff_example : (losing_streak engine results ≡ true) ↔ OnLosingStreak engine results
losing_streak_iff_example = losing_streak_iff engine results (omega arith)

approved_later :
    (evaluate 900 engine signal none (first_trade ++ first_trade) account mixed_results).action
    ≡ RiskAction.approved
unfolding evaluate drawdown_breach losing_streak held daily_pnl ◌+ℤ◌ ◌-ℤ◌ div_ℤ
approved_later = refl

abbrev sized_account : AccountState ℤ
sized_account = record { equity = pos 90; peak_equity = pos 100 }

calculate_position_size-bound_example :
    let size = calculate_position_size engine signal sized_account (pos 100) in
    (size ≼ pos 10)
    × (((signal.stop_loss ≡ none) × (size ≡ nought))
        ⊎ ((stop : ℤ) × (signal.stop_loss ≡ some stop)
            × (((eq (abs (pos 100 ⊖ stop)) nought ≡ true) × (size ≡ nought))
                ⊎ ((eq (abs (pos 100 ⊖ stop)) nought ≡ false)
                    × (size ≼ (pos 90 ⊗ pos 2) ⊘ abs (pos 100 ⊖ stop))))))
calculate_position_size-bound_example =
    calculate_position_size-bound ℤ-IsOrdered engine signal sized_account (pos 100)
