-- ===== src/Metrics/Counts.antt =====
-- The counts of `calculate_metrics` in metrics.py.
use aurex_trade.Prelude.{ℕ, ◌+◌, ◌≡◌, Option, List, [], ◌∷◌, arith, length, filter}
use aurex_trade.Prelude.Float.{Float, Math, IsOrdered, nought, lt, le}
use aurex_trade.Metrics.{calculate_metrics}

module _ {F : Type 0} ⦃f : Float F⦄ (laws : IsOrdered F) where
  wins-losses :
      (pnls : List F)
      → length (filter (λ p. lt nought p) pnls) + length (filter (λ p. le p nought) pnls)
        ≡ length pnls
  wins-losses [] = omega arith
  wins-losses (p ∷ pnls) = ground (arith, laws.lt-eq-not-le nought p, wins-losses pnls)

  -- Of floats with the laws of their order, each trade counts as a win or a loss, and as one of
  -- them only.
  pub calculate_metrics-counts :
      ⦃m : Math F⦄
      → (curve pnls : List F) (initial commission rate : F) (times : Option (List ℕ))
      → let metrics = calculate_metrics curve pnls initial commission rate times in
        (metrics.win_count + metrics.loss_count ≡ metrics.trade_count)
        × (metrics.trade_count ≡ length pnls)
  unfolding calculate_metrics
  calculate_metrics-counts curve pnls initial commission rate times =
      (wins-losses pnls, omega arith)
