-- ===== src/Metrics/Tests.antt =====
-- Examples for metrics.py, on whole numbers.
use aurex_trade.Prelude.{◌≡◌, ◌⊎◌, refl, List, [], ◌∷◌}
use aurex_trade.Prelude.Int.{ℤ, pos, negsuc, ◌-ℤ◌, div_ℤ}
use aurex_trade.Prelude.Float.{int_float, ℤ-IsOrdered, nought, ◌≼◌}
use aurex_trade.Examples.{int_math}
use aurex_trade.Metrics.{
  resample_daily, sorted_days, insert_day, closes_by_day, max_drawdown, drawdown_loop,
  drawdown_step,
}
use aurex_trade.Metrics.Drawdown.{IsDrop, max_drawdown-IsGreatest}

abbrev curve : List ℤ
curve = pos 100 ∷ pos 120 ∷ pos 90 ∷ pos 130 ∷ pos 110 ∷ []

-- from 120 down to 90
curve_drawdown : (max_drawdown curve).0 ≡ pos 30
unfolding max_drawdown drawdown_loop drawdown_step ◌-ℤ◌ div_ℤ
curve_drawdown = refl

fall : IsDrop curve (pos 20)
unfolding ◌-ℤ◌
fall = (
  pos 100 ∷ pos 120 ∷ pos 90 ∷ [],
  pos 110 ∷ [],
  pos 130,
  pos 110,
  refl,
  (pos 130 ∷ [], [], refl),
  refl,
)

max_drawdown-IsGreatest_example :
    (pos 20 ≼ (max_drawdown curve).0)
    × (((max_drawdown curve).0 ≡ nought) ⊎ IsDrop curve (max_drawdown curve).0)
max_drawdown-IsGreatest_example = max_drawdown-IsGreatest ℤ-IsOrdered curve (pos 20) fall

abbrev pnls : List ℤ
pnls = pos 20 ∷ negsuc 29 ∷ pos 0 ∷ pos 40 ∷ []

-- three values on two days, the second day first
daily_closes :
    resample_daily (pos 1 ∷ pos 2 ∷ pos 3 ∷ []) (86400 ∷ 86500 ∷ 100 ∷ []) ≡ pos 3 ∷ pos 2 ∷ []
unfolding resample_daily sorted_days insert_day closes_by_day
daily_closes = refl
