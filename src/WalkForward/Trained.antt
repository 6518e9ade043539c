-- ===== src/WalkForward/Trained.antt =====
-- What stands in the windows of a walk-forward validation that has run
-- (`run` of src/aurex_trade/backtest/walk_forward.py).
use aurex_trade.Prelude.{
  take, drop, map, ◌*◌, ℕ, zero, suc, ◌+◌, ◌<◌, ◌≡◌, String, Option, none, some, List, [], ◌∷◌,
  Result, ok, err, All,
}
use aurex_trade.Prelude.Float.{Float, Format, Math}
use aurex_trade.Prelude.Dict.{Dict}
use aurex_trade.Domain.Models.{BarData}
use aurex_trade.Sweep.Combinations.{IsCombination, Accepts}
use aurex_trade.Sweep.Ranking.{MayPrecede}
use aurex_trade.Sweep.{BacktestResult}
use aurex_trade.WalkForward.{WalkForward, WalkForwardWindow, run_test, read_params}

-- The value of a result, if there is one, has the property.
abbrev Yields : {A : Type 0} → (A → Type 0) → Result A → Type 0
Yields P (ok a) = P a
Yields P (err why) = Unit

-- the numbers from `i` on, `k` of them
abbrev pub numbers : ℕ → ℕ → List ℕ
numbers i zero = []
numbers i (suc k) = i ∷ numbers (suc i) k

module _ {F : Type 0} ⦃f : Float F⦄ ⦃m : Math F⦄ ⦃t : Format F⦄ where
  -- the bars that the window `i` trains on
  abbrev pub training_bars : WalkForward F → ℕ → List (BarData F)
  training_bars w i = take w.train_bars (drop (i * (w.train_bars + w.test_bars)) w.bars)

  -- the bars right after them
  abbrev pub unseen_bars : WalkForward F → ℕ → List (BarData F)
  unseen_bars w i = take w.test_bars (drop (i * (w.train_bars + w.test_bars) + w.train_bars) w.bars)

  -- The parameters are one value of each, and the validator accepts them.
  abbrev pub IsAllowed : WalkForward F → Dict String F → Type 0
  IsAllowed w c = IsCombination w.param_grid c × Accepts w.param_validator c

  -- The result is a run over the training bars of the window `i` with parameters that are allowed, and
  -- it may precede that of all other such parameters.
  pub record IsBest (w : WalkForward F) (i : ℕ) (r : BacktestResult F) : Type 0 where
    combo : Dict String F
    allowed : IsAllowed w combo
    ran : r ≡ run_test w combo (training_bars w i)
    best :
        (c : Dict String F)
        → IsAllowed w c
        → MayPrecede w.ranker r (run_test w c (training_bars w i))

  -- The window is one of the first `n`. Its training result is the best of the runs over its training
  -- bars, its parameters are those of that result, and its test result is the run with them over the
  -- bars right after.
  pub record IsTrained (w : WalkForward F) (n : ℕ) (v : WalkForwardWindow F) : Type 0 where
    within : v.window_index < n
    trained : IsBest w v.window_index v.train_result
    params : read_params v.train_result.parameters ≡ ok v.best_params
    tested : v.test_result ≡ run_test w v.best_params (unseen_bars w v.window_index)

  -- There is a window, with this index, and it is trained.
  abbrev HasWindow : WalkForward F → ℕ → ℕ → Option (WalkForwardWindow F) → Type 0
  HasWindow w n i none = ⊥
  HasWindow w n i (some v) = IsTrained w n v × (v.window_index ≡ i)

  -- The windows are trained, and they are those from `i` on, `k` of them.
  abbrev HaveWindows : WalkForward F → ℕ → ℕ → ℕ → List (WalkForwardWindow F) → Type 0
  HaveWindows w n i k windows =
      All (IsTrained w n) windows × (map (λ v. v.window_index) windows ≡ numbers i k)
