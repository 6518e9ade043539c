-- ===== src/Sweep.antt =====
-- The parameter sweep, src/aurex_trade/backtest/sweep.py: a backtest for every valid combination of
-- parameters, ranked. A backtest and the validator of parameters are arguments; the metric to rank by
-- is a function of the metrics.
pub mod Combinations
pub mod Ranking
mod Tests
use aurex_trade.Prelude.{
  ℕ, String, Bool, true, false, Option, none, some, List, [], ◌∷◌, ◌++◌, ◌&&◌, not, leb,
  if◌then◌else◌, filter, map,
}
use aurex_trade.Prelude.Float.{Float, Math, lt, neg}
use aurex_trade.Prelude.Dict.{Dict}
use aurex_trade.Domain.Models.{Signal, Trade}
use aurex_trade.Metrics.{PerformanceMetrics}

pub record BacktestTradeRecord (F : Type 0) : Type 0 where
  pub trade : Trade F
  pub signal : Signal F
  pub bar_index : ℕ
  pub equity_after : F

pub record BacktestResult (F : Type 0) : Type 0 where
  pub metrics : PerformanceMetrics F
  pub equity_curve : List F
  pub trades : List (BacktestTradeRecord F)
  pub strategy_name : String
  pub symbol : String
  pub start_date : Option ℕ
  pub end_date : Option ℕ
  pub parameters : Dict String String
  pub trade_pnls : List F

-- what `__init__` keeps of how to rank
pub record Ranker (F : Type 0) : Type 0 where
  pub rank_by : PerformanceMetrics F → F
  pub min_trades : ℕ

module _ {F : Type 0} where
  -- `itertools.product`, as dicts: the last key varies fastest
  unfoldable pub prefix_all : String → List F → List (Dict String F) → List (Dict String F)
  prefix_all key [] combos = []
  prefix_all key (v ∷ vs) combos = map (λ c. (key, v) ∷ c) combos ++ prefix_all key vs combos

  unfoldable pub product : Dict String (List F) → List (Dict String F)
  product [] = [] ∷ []
  product ((key, vs) ∷ grid) = prefix_all key vs (product grid)

  unfoldable pub generate_combinations :
      Dict String (List F) → Option (Dict String F → Bool) → List (Dict String F)
  generate_combinations grid none = product grid
  generate_combinations grid (some valid) = filter valid (product grid)

module _ {F : Type 0} ⦃f : Float F⦄ ⦃m : Math F⦄ where
  unfoldable pub qualifies : Ranker F → BacktestResult F → Bool
  qualifies k result =
      leb k.min_trades result.metrics.trade_count && m.is_finite result.metrics.profit_factor

  unfoldable pub sort_key : Ranker F → BacktestResult F → Bool × F
  sort_key k result =
      let metric = k.rank_by result.metrics in
      (qualifies k result, if m.is_finite metric then metric else neg m.infinity)

  -- `<` of two keys
  unfoldable pub key_lt : Bool × F → Bool × F → Bool
  key_lt (true, x) (true, y) = lt x y
  key_lt (true, x) (false, y) = false
  key_lt (false, x) (true, y) = true
  key_lt (false, x) (false, y) = lt x y

  -- `results.sort(key=..., reverse=True)`, which keeps equal results in their order
  unfoldable pub insert_result :
      Ranker F → BacktestResult F → List (BacktestResult F) → List (BacktestResult F)
  insert_result k r [] = r ∷ []
  insert_result k r (s ∷ ss) =
      if key_lt (sort_key k r) (sort_key k s) then s ∷ insert_result k r ss else r ∷ s ∷ ss

  unfoldable pub sort_results : Ranker F → List (BacktestResult F) → List (BacktestResult F)
  sort_results k [] = []
  sort_results k (r ∷ rs) = insert_result k r (sort_results k rs)

  unfoldable pub run_sweep :
      Ranker F
      → (Dict String F → BacktestResult F)
      → Dict String (List F)
      → Option (Dict String F → Bool)
      → List (BacktestResult F)
  run_sweep k run_single grid valid =
      sort_results k (map run_single (generate_combinations grid valid))
