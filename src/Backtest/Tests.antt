-- ===== src/Backtest/Tests.antt =====
-- The theorems on backtests at concrete inputs, over whole numbers.
use quant_system.Prelude.{
  arith, suc, ◌/◌, ◌%◌, length, ℕ, ◌≡◌, refl, String, true, false, none, some, List, [], ◌∷◌, All,
}
use quant_system.Prelude.Int.{ℤ, pos, negsuc}
use quant_system.Num.Fixed.{integers}
use quant_system.Num.Order.{Le}
use quant_system.Core.Models.{Fill}
use quant_system.Alpha.Momentum.{rides}
use quant_system.Alpha.Strategy.{Params, init as new_strategy}
use quant_system.Execution.FillSimulator.{init as new_simulator}
use quant_system.Backtest.Evaluator.{account_fills, opening}
use quant_system.Backtest.Evaluator.Account.{IsValid, backtest_account-IsValid}
use quant_system.Backtest.MonteCarlo.{resample_returns}
use quant_system.Backtest.MonteCarlo.Resample.{resample_returns-Draws}
use quant_system.Backtest.Replay.{Tick, Run, run_ticks}
use quant_system.Backtest.Replay.Pairing.{Outcomes, run_ticks-Outcomes}
use quant_system.Backtest.WalkForward.{
  WalkForwardConfig, rolling, Fold, generate_folds, Metrics, run_fold, slice,
}
use quant_system.Backtest.WalkForward.Folds.{IsFold, TrainsForward, generate_folds-IsFold}
use quant_system.Backtest.WalkForward.Best.{run_fold_best}

abbrev config : WalkForwardConfig
config = record {
  n_splits = 2;
  train_pct = pos 1;
  window_type = rolling;
  min_train_size = 2;
  min_test_size = 1;
}

abbrev int : ℤ → ℤ
int x = x

no_share : (k : ℕ) → 0 / k ≡ 0
no_share ℕ.zero = refl
no_share (suc k) = omega arith

trains_forward : TrainsForward int (pos 1)
unfolding quant_system.Prelude.Int.◌*ℤ◌ quant_system.Prelude.Int.div quant_system.Prelude.Int.trunc
trains_forward n k = ground (arith, no_share (k / 1))

generate_folds-IsFold_example :
    (fs : List Fold) × (generate_folds int 10 config ≡ some fs) × All (IsFold 10) fs
generate_folds-IsFold_example = generate_folds-IsFold int 10 config trains_forward refl refl

-- An evaluator whose Sharpe ratio is the parameter.
abbrev score : List ℕ → ℤ → Metrics
score trades p = record { sharpe = p; total_return = pos 0; max_drawdown = pos 0 }

abbrev a_fold : Fold
a_fold = record { train_start = pos 0; train_end = pos 2; test_start = pos 2; test_end = pos 3 }

abbrev numbers : List ℕ
numbers = 1 ∷ 2 ∷ 3 ∷ []

run_fold_best_example :
    let train = slice (pos 0) (pos 2) numbers in
    let r = run_fold score (negsuc 99) (pos 0) numbers (pos 1 ∷ pos 4 ∷ pos 2 ∷ []) 0 a_fold in
    (r.train ≡ score train r.best_params)
    × (r.test ≡ score (slice (pos 2) (pos 3) numbers) r.best_params)
    × All (λ q. Le (score train q).sharpe r.train.sharpe) (pos 1 ∷ pos 4 ∷ pos 2 ∷ [])
run_fold_best_example =
    run_fold_best score (negsuc 99) (pos 0) numbers (pos 1) (pos 4 ∷ pos 2 ∷ []) 0 a_fold refl

abbrev a_fill : String → ℤ → Fill
a_fill side price = record {
  fill_id = "f";
  timestamp = 1;
  order_id = "o";
  symbol = "BTC";
  side = side;
  quantity = pos 2;
  fill_price = price;
  fee = pos 1;
  fee_rate = pos 0;
  is_maker = false;
  slippage_bps = pos 0;
  backtest_id = none;
  strategy_id = "m";
  trading_mode = "paper";
}

backtest_account-IsValid_example : IsValid (pos 1000) (
    account_fills
      (pos 1000)
      60_000
      (a_fill "BUY" (pos 100) ∷ a_fill "SELL" (pos 90) ∷ [])
      (opening (pos 1000)))
backtest_account-IsValid_example =
    backtest_account-IsValid (pos 1000) 60_000
      (a_fill "BUY" (pos 100) ∷ a_fill "SELL" (pos 90) ∷ [])

abbrev params : Params
params = record {
  window_size = 10;
  threshold_std = pos 1;
  warmup_trades = 3;
  cooldown_trades = 2;
  target_risk_usd = pos 200;
  max_notional_usd = pos 500;
  min_notional_usd = pos 10;
  holding_period_trades = pos 30;
}

abbrev a_tick : ℕ → ℕ → Tick
a_tick n price = record {
  trade = record {
    exchange = "";
    symbol = "BTC";
    trade_id = n;
    price = pos price;
    quantity = pos 1;
    timestamp_exchange = n;
    timestamp_ingested = n;
    is_buyer_maker = true;
  };
  strategy_outside = record {
    root = λ x. pos 1;
    sqrt = λ x. pos 1;
    round8 = λ x. x;
    now = 9;
    signal_id = "s";
  };
  fill_outside = record { sqrt = λ x. x; root = λ x. x; z = pos 0; fill_id = "f"; now = 9 };
  order_id = "o";
}

-- The price breaks out at the fourth trade.
abbrev tape : List Tick
tape = a_tick 1 1 ∷ a_tick 2 1 ∷ a_tick 3 1 ∷ a_tick 4 100 ∷ []

abbrev opened : Run
opened = record {
  strategy = new_strategy "m" "BTC" params;
  simulator = new_simulator none false (pos 50) true;
  signals = [];
  fills = [];
}

run_ticks-Outcomes_example :
    Outcomes rides "BTC" (pos 0) tape opened (run_ticks rides "BTC" (pos 0) tape opened)
run_ticks-Outcomes_example = run_ticks-Outcomes rides "BTC" (pos 0) tape opened tt

-- A generator that counts.
abbrev counting : ℕ → ℕ → ℕ × ℕ
counting g hi = (g % suc hi, suc g)

resample_returns-Draws_example :
    (ys : List ℕ) × (g : ℕ) × (resample_returns counting numbers 5 2 ≡ some (ys, g))
    × (length ys ≡ 3)
resample_returns-Draws_example = resample_returns-Draws counting numbers 5 2 (λ g. omega arith)
