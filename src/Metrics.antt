-- ===== src/Metrics.antt =====
-- Performance metrics of an equity curve and a list of trade results, src/aurex_trade/metrics.py.
-- A timestamp is a number of seconds, and its UTC date is the number of whole days in it.
pub mod Drawdown
pub mod Counts
mod Tests
use aurex_trade.Prelude.{
  ℕ, ◌*◌, ◌/◌, Bool, true, false, Option, none, some, List, [], ◌∷◌, ◌==◌, ltb, leb, not,
  if◌then◌else◌, length, filter, map, get_last?,
}
use aurex_trade.Prelude.Float.{Float, Math, ◌⊕◌, ◌⊖◌, ◌⊗◌, ◌⊘◌, nought, lt, le, abs, eq, round}
use aurex_trade.Prelude.Dict.{Dict, insert}

pub record PerformanceMetrics (F : Type 0) : Type 0 where
  pub total_pnl : F
  pub trade_count : ℕ
  pub win_count : ℕ
  pub loss_count : ℕ
  pub win_rate : F
  pub max_drawdown : F
  pub max_drawdown_pct : F
  pub sharpe_ratio : F
  pub expectancy : F
  pub profit_factor : F
  pub initial_capital : F
  pub final_capital : F
  pub total_commission : F

abbrev pub trading_days_per_year : ℕ
trading_days_per_year = 252

module _ {F : Type 0} where
  -- `sorted` of the days of a dict, with the value of each
  pub insert_day : ℕ × F → Dict ℕ F → Dict ℕ F
  insert_day e [] = e ∷ []
  insert_day e (d ∷ ds) = if leb e.0 d.0 then e ∷ d ∷ ds else d ∷ insert_day e ds

  pub sorted_days : Dict ℕ F → Dict ℕ F
  sorted_days [] = []
  sorted_days (d ∷ ds) = insert_day d (sorted_days ds)

  -- `by_day` after the loop
  pub closes_by_day : Dict ℕ F → List F → List ℕ → Dict ℕ F
  closes_by_day days (equity ∷ curve) (time ∷ times) =
      closes_by_day (insert ◌==◌ (time / 86400) equity days) curve times
  closes_by_day days (equity ∷ curve) [] = days
  closes_by_day days [] times = days

  pub resample_daily : List F → List ℕ → List F
  resample_daily curve times = map (λ e. e.1) (sorted_days (closes_by_day [] curve times))

module _ {F : Type 0} ⦃f : Float F⦄ where
  -- the body of the loop of `_max_drawdown`, on `(peak, max_dd, max_dd_pct)`
  unfoldable pub drawdown_step : F → F × F × F → F × F × F
  drawdown_step equity (peak, max_dd, max_dd_pct) =
      let peak' = if lt peak equity then equity else peak in
      let drawdown = peak' ⊖ equity in
      let dd_pct = if lt nought peak' then drawdown ⊘ peak' else nought in
      if lt max_dd drawdown then (peak', drawdown, dd_pct) else (peak', max_dd, max_dd_pct)

  unfoldable pub drawdown_loop : List F → F × F × F → F × F × F
  drawdown_loop [] acc = acc
  drawdown_loop (equity ∷ curve) acc = drawdown_loop curve (drawdown_step equity acc)

  pub max_drawdown : List F → F × F
  max_drawdown [] = (nought, nought)
  max_drawdown (equity ∷ curve) =
      let (peak, max_dd, max_dd_pct) = drawdown_loop curve (equity, nought, nought) in
      (max_dd, max_dd_pct)

  unfoldable step_returns : List F → List F
  step_returns [] = []
  step_returns (v ∷ []) = []
  step_returns (v ∷ w ∷ vs) =
      let rest = step_returns (w ∷ vs) in if not (eq v nought) then ((w ⊖ v) ⊘ v) ∷ rest else rest

  module _ ⦃m : Math F⦄ where
    unfoldable annualized_sharpe : List F → F → ℕ → F
    annualized_sharpe [] rf_per_period periods_per_year = nought
    annualized_sharpe (r ∷ rs) rf_per_period periods_per_year =
        let returns = r ∷ rs in
        let count = f.of_nat (length returns) in
        let mean_return = m.sum returns ⊘ count in
        let variance = m.sum (map (λ x. m.square (x ⊖ mean_return)) returns) ⊘ count in
        let std_return = m.sqrt variance in
        if eq std_return nought
        then nought
        else ((mean_return ⊖ rf_per_period) ⊘ std_return) ⊗ m.sqrt (f.of_nat periods_per_year)

    -- The daily basis applies if there are as many timestamps as values.
    unfoldable aligned : List F → Option (List ℕ) → Option (List ℕ)
    aligned curve none = none
    aligned curve (some times) = if length times == length curve then some times else none

    unfoldable sharpe : List F → F → Option (List ℕ) → F
    sharpe curve risk_free_rate timestamps =
        if ltb (length curve) 2 then nought else elim (aligned curve timestamps) [
          | some times ↦
              annualized_sharpe (step_returns (resample_daily curve times))
                (risk_free_rate ⊘ f.of_nat trading_days_per_year) trading_days_per_year
          | none ↦
              annualized_sharpe (step_returns curve)
                (risk_free_rate ⊘ f.of_nat (trading_days_per_year * 1440))
                (trading_days_per_year * 1440)
        ]

    unfoldable final_of : List F → F → F
    final_of curve initial_capital = elim (get_last? curve) [ none ↦ initial_capital | some x ↦ x ]

    pub calculate_metrics :
        List F
        → List F
        → (initial_capital total_commission risk_free_rate : F) → Option (List ℕ)
        → PerformanceMetrics F
    calculate_metrics curve pnls initial_capital total_commission risk_free_rate timestamps =
        let final_capital = final_of curve initial_capital in
        let total_pnl = final_capital ⊖ initial_capital in
        let wins = filter (λ p. lt nought p) pnls in
        let losses = filter (λ p. le p nought) pnls in
        let trades = f.of_nat (length pnls) in
        let gross_profit = m.sum wins in
        let gross_loss = abs (m.sum losses) in
        record {
          total_pnl = round 2 total_pnl;
          trade_count = length pnls;
          win_count = length wins;
          loss_count = length losses;
          win_rate =
              round 4 (if ltb 0 (length pnls) then f.of_nat (length wins) ⊘ trades else nought);
          max_drawdown = round 2 (max_drawdown curve).0;
          max_drawdown_pct = round 4 (max_drawdown curve).1;
          sharpe_ratio = round 4 (sharpe curve risk_free_rate timestamps);
          expectancy = round 2 (if ltb 0 (length pnls) then total_pnl ⊘ trades else nought);
          profit_factor =
              round 4 (if lt nought gross_loss then gross_profit ⊘ gross_loss else m.infinity);
          initial_capital = initial_capital;
          final_capital = round 2 final_capital;
          total_commission = round 2 total_commission;
        }
