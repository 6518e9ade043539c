-- ===== src/WalkForward/Tests.antt =====
-- Examples for backtest/walk_forward.py: seven bars, in windows of two bars to train and one to test.
use aurex_trade.Prelude.{
  ◌≡◌, ℕ, ◌/◌, ◌*◌, ◌+◌, ◌<◌, String, none, some, List, [], ◌∷◌, take, str_eq, value_or, arith,
}
use aurex_trade.Prelude.Int.{ℤ, pos}
use aurex_trade.Prelude.Float.{int_float, nought}
use aurex_trade.Prelude.Dict.{Dict, lookup}
use aurex_trade.Domain.Models.{BarData}
use aurex_trade.Examples.{int_math, unary_format, bar_at}
use aurex_trade.Metrics.{PerformanceMetrics}
use aurex_trade.Sweep.{BacktestResult}
use aurex_trade.WalkForward.{WalkForward, WalkForwardResult, window_size, run_walk_forward}
use aurex_trade.WalkForward.Windows.{all_slices, HasFullSlices, slices-cover}

abbrev flat_metrics : PerformanceMetrics ℤ
flat_metrics = record {
  total_pnl = pos 2;
  trade_count = 40;
  win_count = 30;
  loss_count = 10;
  win_rate = pos 0;
  max_drawdown = pos 5;
  max_drawdown_pct = pos 0;
  sharpe_ratio = pos 1;
  expectancy = pos 1;
  profit_factor = pos 2;
  initial_capital = pos 1000;
  final_capital = pos 1002;
  total_commission = pos 0;
}

-- a backtest that wins what the parameter says
abbrev traded : Dict String ℤ → List (BarData ℤ) → BacktestResult ℤ
traded params bars = record {
  metrics = record flat_metrics {
    total_pnl = elim (lookup str_eq "units" params) [ none ↦ nought | some u ↦ u ];
  };
  equity_curve = pos 1000 ∷ [];
  trades = [];
  strategy_name = "ciby_sliding_grid";
  symbol = "XAU_USD";
  start_date = none;
  end_date = none;
  parameters = [];
  trade_pnls = [];
}

abbrev seven_bars : List (BarData ℤ)
seven_bars =
    bar_at 60 9 10 11
    ∷ bar_at 120 9 10 11
    ∷ bar_at 180 9 10 11
    ∷ bar_at 240 9 10 11
    ∷ bar_at 300 9 10 11
    ∷ bar_at 360 9 10 11
    ∷ bar_at 420 9 10 11
    ∷ []

abbrev walk : WalkForward ℤ
walk = record {
  backtest = traded;
  factory_name = λ params. "ciby_sliding_grid";
  param_grid = ("units", pos 1 ∷ pos 3 ∷ []) ∷ [];
  bars = seven_bars;
  initial_capital = pos 1000;
  symbol = "XAU_USD";
  train_bars = 2;
  test_bars = 1;
  ranker = record { rank_by = λ m. m.total_pnl; min_trades = 30 };
  param_validator = none;
}

slices-cover_example :
    (all_slices walk 0 (7 / 3) ≡ take (7 / 3 * 3) seven_bars)
    × ((i : ℕ) → i < 7 / 3 → HasFullSlices walk i)
    × (7 < 7 / 3 * 3 + 3)
unfolding window_size
slices-cover_example = slices-cover walk (omega arith)

-- what is compared with when there is an error
abbrev no_windows : WalkForwardResult ℤ
no_windows = record {
  windows = [];
  aggregate_test_metrics = flat_metrics;
  strategy_name = "";
  symbol = "";
}

abbrev walked : WalkForwardResult ℤ
walked = value_or no_windows (run_walk_forward walk)

abbrev one_unit : Dict String ℤ
one_unit = ("units", pos 1) ∷ []
