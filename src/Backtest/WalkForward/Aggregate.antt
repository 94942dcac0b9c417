-- ===== src/Backtest/WalkForward/Aggregate.antt =====
-- services/backtest/backtest_svc/walk_forward.py: `run_walk_forward` from the folds on.
use quant_system.Prelude.{
  not, Option, some, List, [], map, length, ltb, nonempty, if◌then◌else◌, ◌>>=◌,
}
use quant_system.Prelude.Int.{ℤ}
use quant_system.Num.{Num, Float, ◌⊖◌, ◌⊗◌, ◌⊘◌, ◌≈◌, nought, lit, abs, sum_from}
use quant_system.Backtest.WalkForward.{
  WalkForwardConfig, generate_folds, Metrics, FoldResult, run_folds,
}

module _ ⦃N : Num⦄ {P T : Type 0} (evaluate : List T → P → Metrics) where
  pub record WalkForwardResult : Type 0 where
    pub folds : List (FoldResult evaluate)
    pub mean_test_sharpe : Float
    pub std_test_sharpe : Float
    pub mean_test_return : Float
    pub mean_test_drawdown : Float
    pub overfitting_ratio : Float
    pub degradation_pct : Float

  abbrev pub mean : List Float → Float
  unfolding sum_from
  mean xs = sum_from nought xs ⊘ lit (length xs) 0

  -- The population deviation of the test ratios, when there are two or more.
  abbrev pub deviation : (Float → Float) → Float → List Float → Float
  unfolding sum_from
  deviation half_power m xs =
      if ltb 1 (length xs)
      then half_power
          (sum_from nought (map (λ (s : Float). (s ⊖ m) ⊗ (s ⊖ m)) xs) ⊘ lit (length xs) 0)
      else nought

  unfoldable pub aggregate : (Float → Float) → List (FoldResult evaluate) → WalkForwardResult
  aggregate half_power rs =
      let tests = map (λ (r : FoldResult evaluate). r.test.sharpe) rs in
      let mean_test = mean tests in
      let mean_train = mean (map (λ (r : FoldResult evaluate). r.train.sharpe) rs) in
      if nonempty rs
      then record {
        folds = rs;
        mean_test_sharpe = mean_test;
        std_test_sharpe = deviation half_power mean_test tests;
        mean_test_return = mean (map (λ (r : FoldResult evaluate). r.test.total_return) rs);
        mean_test_drawdown = mean (map (λ (r : FoldResult evaluate). r.test.max_drawdown) rs);
        overfitting_ratio = if not (mean_test ≈ nought) then mean_train ⊘ mean_test else nought;
        degradation_pct =
            if not (mean_train ≈ nought)
            then ((mean_train ⊖ mean_test) ⊘ abs mean_train) ⊗ lit 100 0
            else nought;
      }
      else record {
        folds = [];
        mean_test_sharpe = nought;
        std_test_sharpe = nought;
        mean_test_return = nought;
        mean_test_drawdown = nought;
        overfitting_ratio = nought;
        degradation_pct = nought;
      }

  -- `run_walk_forward`
  unfoldable pub run_walk_forward :
      (Float → ℤ)
      → (Float → Float)
      → Float
      → P
      → List T
      → List P
      → WalkForwardConfig
      → Option WalkForwardResult
  unfolding aggregate
  run_walk_forward int half_power minus_inf empty trades grid config = do
    folds ← generate_folds int (length trades) config
    some (aggregate half_power (run_folds evaluate minus_inf empty trades grid 0 folds))
