-- ===== src/Sweep/Tests.antt =====
-- Examples for backtest/sweep.py: two spacings and two sizes, of which one size is not valid.
use aurex_trade.Prelude.{
  arith, ◌≡◌, refl, String, Bool, false, not, none, some, List, [], ◌∷◌, str_eq,
}
use aurex_trade.Prelude.Int.{ℤ, pos}
use aurex_trade.Prelude.Float.{int_float, ℤ-IsOrdered, nought, eq}
use aurex_trade.Prelude.Dict.{Dict, lookup}
use aurex_trade.Examples.{int_math}
use aurex_trade.Sweep.{
  BacktestResult, Ranker, generate_combinations, product, prefix_all, run_sweep,
}
use aurex_trade.Sweep.Ranking.{IsSweep, run_sweep-IsRanked}
use aurex_trade.Sweep.Combinations.{HasDistinctValues}

abbrev by_pnl : Ranker ℤ
by_pnl = record { rank_by = λ m. m.total_pnl; min_trades = 30 }

abbrev grid : Dict String (List ℤ)
grid = ("spacing", pos 10 ∷ pos 20 ∷ []) ∷ ("units", pos 1 ∷ pos 2 ∷ []) ∷ []

-- more than one unit
abbrev is_valid : Dict String ℤ → Bool
is_valid params = elim (lookup str_eq "units" params) [ none ↦ false | some u ↦ not (eq u (pos 1)) ]

-- a result that has the spacing as its profit
abbrev result_of : Dict String ℤ → BacktestResult ℤ
result_of params = record {
  metrics = record {
    total_pnl = elim (lookup str_eq "spacing" params) [ none ↦ nought | some s ↦ s ];
    trade_count = 40;
    win_count = 30;
    loss_count = 10;
    win_rate = pos 0;
    max_drawdown = pos 5;
    max_drawdown_pct = pos 0;
    sharpe_ratio = pos 1;
    expectancy = pos 1;
    profit_factor = pos 2;
    initial_capital = pos 1000;
    final_capital = pos 1010;
    total_commission = pos 0;
  };
  equity_curve = [];
  trades = [];
  strategy_name = "ciby_hedged_doubling_grid";
  symbol = "XAU_USD";
  start_date = none;
  end_date = none;
  parameters = [];
  trade_pnls = [];
}

two_valid :
    generate_combinations grid (some is_valid)
    ≡ (("spacing", pos 10) ∷ ("units", pos 2) ∷ [])
      ∷ (("spacing", pos 20) ∷ ("units", pos 2) ∷ [])
      ∷ []
unfolding generate_combinations product prefix_all
two_valid = refl

distinct_values : HasDistinctValues grid
distinct_values = ground arith

run_sweep-IsRanked_example :
    IsSweep by_pnl result_of grid (some is_valid) (run_sweep by_pnl result_of grid (some is_valid))
run_sweep-IsRanked_example =
    run_sweep-IsRanked ℤ-IsOrdered by_pnl result_of grid (some is_valid) distinct_values
