-- ===== src/WalkForward.antt =====
-- Walk-forward validation, src/aurex_trade/backtest/walk_forward.py: a sweep on each training slice,
-- and a run with the best parameters on the slice after it. A single backtest (the wiring of
-- `_run_test` and of the sweep's `_run_single`) is an argument.
pub mod Windows
pub mod Trained
mod Tests
use aurex_trade.Prelude.{
  ℕ, zero, suc, ◌+◌, ◌*◌, ◌/◌, ◌==◌, String, Bool, Option, none, some, List, [], ◌∷◌, ◌++◌, ◌||◌,
  Result, ok, err, if◌then◌else◌, length, take, drop, map, ltb, get_last?,
}
use aurex_trade.Prelude.Float.{Float, Format, Math, ◌⊕◌, ◌⊗◌, ◌⊘◌, nought, eq}
use aurex_trade.Prelude.Dict.{Dict}
use aurex_trade.Domain.Models.{BarData}
use aurex_trade.Metrics.{PerformanceMetrics, calculate_metrics}
use aurex_trade.Sweep.{BacktestResult, Ranker, run_sweep}

pub record WalkForwardWindow (F : Type 0) : Type 0 where
  pub train_result : BacktestResult F
  pub test_result : BacktestResult F
  pub best_params : Dict String F
  pub window_index : ℕ

pub record WalkForwardResult (F : Type 0) : Type 0 where
  pub windows : List (WalkForwardWindow F)
  pub aggregate_test_metrics : PerformanceMetrics F
  pub strategy_name : String
  pub symbol : String

-- What `__init__` keeps. `backtest` runs the strategy that the factory makes of the parameters over
-- bars, and `factory_name` is the name of that strategy.
pub record WalkForward (F : Type 0) : Type 0 where
  pub backtest : Dict String F → List (BarData F) → BacktestResult F
  pub factory_name : Dict String F → String
  pub param_grid : Dict String (List F)
  pub bars : List (BarData F)
  pub initial_capital : F
  pub symbol : String
  pub train_bars : ℕ
  pub test_bars : ℕ
  pub ranker : Ranker F
  pub param_validator : Option (Dict String F → Bool)

-- what `_aggregate_test_metrics` carries from one window to the next
pub record Chain (F : Type 0) : Type 0 where
  pub combined_equity : List F
  pub combined_pnls : List F
  pub total_commission : F
  pub running_capital : F

abbrev pub has_none : {A : Type 0} → List A → Bool
has_none xs = length xs == 0

abbrev pub kept : {A : Type 0} → Option A → List A → List A
kept none xs = xs
kept (some x) xs = x ∷ xs

module _ {F : Type 0} where
  unfoldable pub window_size : WalkForward F → ℕ
  window_size w = w.train_bars + w.test_bars

  unfoldable pub train_slice : WalkForward F → ℕ → List (BarData F)
  train_slice w i = take w.train_bars (drop (i * window_size w) w.bars)

  unfoldable pub test_slice : WalkForward F → ℕ → List (BarData F)
  test_slice w i = take w.test_bars (drop (i * window_size w + w.train_bars) w.bars)

  -- the first value of each parameter, an IndexError if one has none
  unfoldable pub sample_params : Dict String (List F) → Result (Dict String F)
  sample_params [] = ok []
  sample_params ((key, []) ∷ grid) = err "list index out of range"
  sample_params ((key, v ∷ vs) ∷ grid) = elim (sample_params grid) [
    | ok params ↦ ok ((key, v) ∷ params)
    | err why ↦ err why
  ]

  module _ ⦃t : Format F⦄ where
    -- `{k: str(v) for k, v in params.items()}`
    unfoldable pub params_text : Dict String F → Dict String String
    params_text = map (λ e. (e.0, t.text e.1))

    -- the parameters of a result as numbers again
    unfoldable pub read_params : Dict String String → Result (Dict String F)
    read_params [] = ok []
    read_params ((key, v) ∷ rest) = elim (t.parse v) [
      | none ↦ err "could not convert string to float"
      | some x ↦ elim (read_params rest) [ ok params ↦ ok ((key, x) ∷ params) | err why ↦ err why ]
    ]

    unfoldable pub run_test : WalkForward F → Dict String F → List (BarData F) → BacktestResult F
    run_test w params bars = record (w.backtest params bars) { parameters = params_text params }

module _ {F : Type 0} ⦃f : Float F⦄ ⦃m : Math F⦄ where
  -- the equity of a window, scaled to start where the last one ended
  unfoldable pub scaled_equity : F → BacktestResult F → Result (List F)
  scaled_equity running_capital result =
      if ltb 1 (length result.equity_curve)
      then (if eq result.metrics.initial_capital nought
          then err "float division by zero"
          else ok (
              map (λ e. e ⊗ (running_capital ⊘ result.metrics.initial_capital))
                (drop 1 result.equity_curve)))
      else ok []

  unfoldable pub chain_windows : List (WalkForwardWindow F) → Chain F → Result (Chain F)
  chain_windows [] c = ok c
  chain_windows (w ∷ ws) c = elim (scaled_equity c.running_capital w.test_result) [
    | err why ↦ err why
    | ok equity ↦ chain_windows ws (record {
      combined_equity = c.combined_equity ++ equity;
      combined_pnls = c.combined_pnls ++ w.test_result.trade_pnls;
      total_commission = c.total_commission ⊕ w.test_result.metrics.total_commission;
      running_capital = c.running_capital ⊕ w.test_result.metrics.total_pnl;
    })
  ]

  unfoldable pub aggregate_test_metrics_of :
      F → List (WalkForwardWindow F) → Result (PerformanceMetrics F)
  aggregate_test_metrics_of capital [] =
      ok (calculate_metrics (capital ∷ []) [] capital nought nought none)
  aggregate_test_metrics_of capital (w ∷ ws) =
      elim (chain_windows (w ∷ ws) (record {
        combined_equity = capital ∷ [];
        combined_pnls = [];
        total_commission = nought;
        running_capital = capital;
      })) [
        | err why ↦ err why
        | ok c ↦ ok (
            calculate_metrics c.combined_equity c.combined_pnls capital c.total_commission nought
              none)
      ]

  module _ ⦃t : Format F⦄ where
    unfoldable pub train_results : WalkForward F → ℕ → List (BacktestResult F)
    train_results w i =
        run_sweep w.ranker (λ params. run_test w params (train_slice w i)) w.param_grid
          w.param_validator

    -- a window of which the sweep gave `results`
    unfoldable pub test_window :
        WalkForward F → ℕ → List (BacktestResult F) → Result (Option (WalkForwardWindow F))
    test_window w i [] = ok none
    test_window w i (best ∷ results) = elim (read_params best.parameters) [
      | err why ↦ err why
      | ok params ↦ ok (
          some (record {
            train_result = best;
            test_result = run_test w params (test_slice w i);
            best_params = params;
            window_index = i;
          }))
    ]

    -- `train_slice[0]` and `test_slice[-1]` are read for the log
    unfoldable pub run_window : WalkForward F → ℕ → Result (Option (WalkForwardWindow F))
    run_window w i =
        if has_none (train_slice w i) || has_none (test_slice w i)
        then err "list index out of range"
        else test_window w i (train_results w i)

    -- the windows from `i` on, `n` of them
    unfoldable pub run_windows : WalkForward F → ℕ → ℕ → Result (List (WalkForwardWindow F))
    run_windows w i zero = ok []
    run_windows w i (suc n) = elim (run_window w i) [
      | err why ↦ err why
      | ok window ↦ elim (run_windows w (suc i) n) [
        | err why ↦ err why
        | ok windows ↦ ok (kept window windows)
      ]
    ]

    unfoldable pub name_of : WalkForward F → List (WalkForwardWindow F) → Result String
    name_of w windows = elim (get_last? windows) [
      | some window ↦ ok window.test_result.strategy_name
      | none ↦ elim (sample_params w.param_grid) [
        | err why ↦ err why
        | ok params ↦ ok (w.factory_name params)
      ]
    ]

    unfoldable pub summarize :
        WalkForward F → List (WalkForwardWindow F) → Result (WalkForwardResult F)
    summarize w windows = elim (aggregate_test_metrics_of w.initial_capital windows) [
      | err why ↦ err why
      | ok metrics ↦ elim (name_of w windows) [
        | err why ↦ err why
        | ok name ↦ ok (record {
          windows = windows;
          aggregate_test_metrics = metrics;
          strategy_name = name;
          symbol = w.symbol;
        })
      ]
    ]

    unfoldable pub run_walk_forward : WalkForward F → Result (WalkForwardResult F)
    run_walk_forward w =
        if window_size w == 0
        then err "integer division or modulo by zero"
        else elim (run_windows w 0 (length w.bars / window_size w)) [
          | err why ↦ err why
          | ok windows ↦ summarize w windows
        ]
