-- ===== src/Backtest/MonteCarlo/Simulation.antt =====
-- services/backtest/backtest_svc/monte_carlo.py: `run_monte_carlo`, with a seeded generator. `none` is
-- an exception of the resampling.
use quant_system.Prelude.{
  ℕ, zero, suc, Option, some, List, [], ◌∷◌, map, length, keep, nonempty, if◌then◌else◌, ◌>>=◌,
}
use quant_system.Num.{Num, Float, ◌⊘◌, ◌≺◌, nought, one, lit}
use quant_system.Backtest.MonteCarlo.{
  compute_returns, sharpe_from_returns, max_drawdown_from_returns, total_return_from_returns,
  MetricDistribution, build_distribution, resample_returns,
}

module _ ⦃N : Num⦄ where
  pub record MonteCarloConfig : Type 0 where
    pub n_simulations : ℕ
    pub block_size : ℕ
    pub confidence_levels : List Float

  pub record MonteCarloResult : Type 0 where
    pub n_simulations : ℕ
    pub observed_sharpe : Float
    pub observed_max_drawdown : Float
    pub observed_total_return : Float
    pub sharpe_distribution : MetricDistribution
    pub drawdown_distribution : MetricDistribution
    pub return_distribution : MetricDistribution
    pub prob_positive_sharpe : Float
    pub prob_sharpe_above_1 : Float

  abbrev pub no_distribution : MetricDistribution
  no_distribution = record {
    mean = nought;
    std = nought;
    median = nought;
    confidence_intervals = [];
    simulated_values = [];
  }

  -- The loop over the simulations: the resampled series.
  unfoldable pub resamples :
      {R : Type 0} → (R → ℕ → ℕ × R) → List Float → ℕ → ℕ → R → Option (List (List Float))
  unfolding resample_returns
  resamples randint returns block_size zero g = some []
  resamples randint returns block_size (suc k) g = do
    drawn ← resample_returns randint returns g block_size
    rest ← resamples randint returns block_size k drawn.1
    some (drawn.0 ∷ rest)

  -- The share of the values above a bound.
  abbrev pub share_above : Float → List Float → Float
  share_above bound xs =
      if nonempty xs then lit (length (keep (λ s. bound ≺ s) xs)) 0 ⊘ lit (length xs) 0 else nought

  -- The result, from the returns and the resampled series.
  unfoldable pub summary :
      (Float → Float)
      → (Float → Float)
      → (Float → ℕ)
      → (List Float → List Float)
      → MonteCarloConfig
      → ℕ
      → List Float
      → List (List Float)
      → MonteCarloResult
  summary sqrt half_power int sorted config bucket_ms returns series =
      let sharpe = sharpe_from_returns sqrt half_power bucket_ms in
      let distribution = build_distribution half_power int sorted config.confidence_levels in
      let sim_sharpes = map sharpe series in
      record {
        n_simulations = config.n_simulations;
        observed_sharpe = sharpe returns;
        observed_max_drawdown = max_drawdown_from_returns returns;
        observed_total_return = total_return_from_returns returns;
        sharpe_distribution = distribution sim_sharpes;
        drawdown_distribution = distribution (map max_drawdown_from_returns series);
        return_distribution = distribution (map total_return_from_returns series);
        prob_positive_sharpe = share_above nought sim_sharpes;
        prob_sharpe_above_1 = share_above one sim_sharpes;
      }

  -- What `run_monte_carlo` returns for a curve of fewer than two points.
  abbrev pub no_result : MonteCarloResult
  no_result = record {
    n_simulations = 0;
    observed_sharpe = nought;
    observed_max_drawdown = nought;
    observed_total_return = nought;
    sharpe_distribution = no_distribution;
    drawdown_distribution = no_distribution;
    return_distribution = no_distribution;
    prob_positive_sharpe = nought;
    prob_sharpe_above_1 = nought;
  }

  -- `run_monte_carlo`
  unfoldable pub run_monte_carlo :
      {R : Type 0}
      → (R → ℕ → ℕ × R)
      → (Float → Float)
      → (Float → Float)
      → (Float → ℕ)
      → (List Float → List Float)
      → List Float
      → MonteCarloConfig
      → ℕ
      → R
      → Option MonteCarloResult
  unfolding resamples summary
  run_monte_carlo randint sqrt half_power int sorted equity_curve config bucket_ms g =
      let returns = compute_returns equity_curve in
      let simulated = resamples randint returns config.block_size config.n_simulations g in
      if nonempty returns
      then simulated
        >>= (λ series. some (summary sqrt half_power int sorted config bucket_ms returns series))
      else some no_result
