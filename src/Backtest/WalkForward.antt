-- ===== src/Backtest/WalkForward.antt =====
-- services/backtest/backtest_svc/walk_forward.py. The evaluator is an argument, as it is behind the
-- protocol of the source; so are `int` on a float, the power `** 0.5`, the dict `{}` and `-math.inf`.
-- `none` stands for a ZeroDivisionError. `** 2` is the product. The counts of the configuration are
-- natural numbers; the sizes and bounds of rolling folds are integers, as a share of training
-- outside 0 to 1 makes them negative.
pub mod Folds
pub mod Best
pub mod Aggregate
use quant_system.Prelude.{
  ℕ, zero, suc, ◌+◌, ◌-◌, ◌*◌, ◌/◌, Bool, true, false, ◌||◌, Option, none, some, List, [], ◌∷◌, map,
  length, leb, ltb, eqb, nonempty, if◌then◌else◌,
}
use quant_system.Prelude.Int.{ℤ, pos, negsuc, ◌+ℤ◌, ◌-ℤ◌, ltb_ℤ, leb_ℤ}
use quant_system.Prelude.Window.{drop}
use quant_system.Num.{Num, Float, ◌⊖◌, ◌⊗◌, ◌⊘◌, ◌≺◌, ◌≈◌, nought, one, neg, lit, abs, sum_from}

pub data WindowType : Type 0 where
  rolling expanding : WindowType

-- (train_start, train_end, test_start, test_end)
pub record Fold : Type 0 where
  pub train_start : ℤ
  pub train_end : ℤ
  pub test_start : ℤ
  pub test_end : ℤ

abbrev pub min_ℤ : ℤ → ℤ → ℤ
min_ℤ a b = if ltb_ℤ b a then b else a

abbrev pub min_ℕ : ℕ → ℕ → ℕ
min_ℕ a b = if ltb b a then b else a

abbrev pub max_ℕ : ℕ → ℕ → ℕ
max_ℕ a b = if ltb a b then b else a

abbrev pub take {ℓ} : {A : Type ℓ} → ℕ → List A → List A
take zero xs = []
take (suc n) [] = []
take (suc n) (x ∷ xs) = x ∷ take n xs

-- `xs[a:b]`: a negative bound counts from the end.
abbrev pub bound : ℕ → ℤ → ℕ
bound n (pos k) = k
bound n (negsuc k) = n - suc k

abbrev pub slice {ℓ} : {A : Type ℓ} → ℤ → ℤ → List A → List A
slice a b xs = drop (bound (length xs) a) (take (bound (length xs) b) xs)

-- The loop of the expanding windows, from fold i on, k folds to go.
unfoldable pub expanding_from : ℕ → ℕ → ℕ → ℕ → ℕ → List Fold
expanding_from n initial_train test_size i zero = []
expanding_from n initial_train test_size i (suc k) =
    let rest = expanding_from n initial_train test_size (suc i) k in
    let test_start = initial_train + i * test_size in
    let test_end = min_ℕ (test_start + test_size) n in
    if leb n test_start || leb test_end test_start
    then []
    else record {
      train_start = pos 0;
      train_end = pos test_start;
      test_start = pos test_start;
      test_end = pos test_end;
    }
      ∷ rest

module _ ⦃N : Num⦄ where
  pub record WalkForwardConfig : Type 0 where
    pub n_splits : ℕ
    pub train_pct : Float
    pub window_type : WindowType
    pub min_train_size : ℕ
    pub min_test_size : ℕ

  -- The loop of the rolling windows.
  unfoldable pub rolling_from : (Float → ℤ) → ℕ → ℤ → ℤ → Float → ℕ → ℕ → List Fold
  unfolding ◌+ℤ◌
  rolling_from int n train_size test_size step i zero = []
  rolling_from int n train_size test_size step i (suc k) =
      let rest = rolling_from int n train_size test_size step (suc i) k in
      let start = int (lit i 0 ⊗ step) in
      let test_start = start +ℤ train_size in
      let test_end = min_ℤ (test_start +ℤ test_size) (pos n) in
      if leb_ℤ test_end test_start
      then []
      else record {
        train_start = start;
        train_end = test_start;
        test_start = test_start;
        test_end = test_end;
      }
        ∷ rest

  -- The sizes of a rolling fold, and the folds for a number of splits.
  abbrev pub sizes : (Float → ℤ) → ℕ → ℕ → Float → ℤ × ℤ
  sizes int n n_splits train_pct =
      let fold_size = lit n 0 ⊘ lit n_splits 0 in
      (int (fold_size ⊗ train_pct), int (fold_size ⊗ (one ⊖ train_pct)))

  -- A whole number as a float.
  abbrev pub float_of : ℤ → Float
  float_of (pos k) = lit k 0
  float_of (negsuc k) = neg (lit (suc k) 0)

  unfoldable pub rolling_folds : (Float → ℤ) → ℕ → ℕ → ℤ × ℤ → List Fold
  unfolding rolling_from ◌-ℤ◌
  rolling_folds int n n_splits (train_size, test_size) =
      let step = float_of (pos n -ℤ train_size -ℤ test_size) ⊘ lit (max_ℕ (n_splits - 1) 1) 0 in
      rolling_from int n train_size test_size step 0 n_splits

  -- `generate_folds`
  unfoldable pub generate_rolling : (Float → ℤ) → ℕ → WalkForwardConfig → Option (List Fold)
  unfolding rolling_folds
  generate_rolling int n c =
      let (train_size, test_size) = sizes int n c.n_splits c.train_pct in
      let n_splits = max_ℕ 1 (n / (c.min_train_size + c.min_test_size)) in
      if eqb c.n_splits 0
      then none
      else if ltb_ℤ train_size (pos c.min_train_size) || ltb_ℤ test_size (pos c.min_test_size)
      then (if eqb (c.min_train_size + c.min_test_size) 0
          then none
          else some (rolling_folds int n n_splits (sizes int n n_splits c.train_pct)))
      else some (rolling_folds int n c.n_splits (train_size, test_size))

  unfoldable pub generate_expanding : ℕ → WalkForwardConfig → List Fold
  unfolding expanding_from
  generate_expanding n c =
      let test_size = max_ℕ c.min_test_size (n / (c.n_splits + 1)) in
      let initial_train = max_ℕ c.min_train_size (n - c.n_splits * test_size) in
      expanding_from n initial_train test_size 0 c.n_splits

  unfoldable pub generate_folds : (Float → ℤ) → ℕ → WalkForwardConfig → Option (List Fold)
  unfolding generate_rolling generate_expanding
  generate_folds int n c = if eqb n 0 then some [] else elim c.window_type [
    | rolling ↦ generate_rolling int n c
    | expanding ↦ some (generate_expanding n c)
  ]

  -- What the code reads of the evaluator's metrics; a missing one counts as zero.
  pub record Metrics : Type 0 where
    pub sharpe : Float
    pub total_return : Float
    pub max_drawdown : Float

  abbrev pub no_metrics : Metrics
  no_metrics = record { sharpe = nought; total_return = nought; max_drawdown = nought }

  module _ {P T : Type 0} (evaluate : List T → P → Metrics) where
    -- `FoldResult`
    pub record FoldResult : Type 0 where
      pub fold_index : ℕ
      pub fold : Fold
      pub best_params : P
      pub train : Metrics
      pub test : Metrics
      pub num_train_trades : ℕ
      pub num_test_trades : ℕ

    -- The best parameters so far: their Sharpe ratio, they, and their metrics.
    pub record Choice : Type 0 where
      pub best_train_sharpe : Float
      pub best_params : P
      pub best_train_metrics : Metrics

    -- The loop over the grid.
    unfoldable pub improve : List T → P → Choice → Choice
    improve train_data params c =
        let metrics = evaluate train_data params in
        if c.best_train_sharpe ≺ metrics.sharpe
        then record {
          best_train_sharpe = metrics.sharpe;
          best_params = params;
          best_train_metrics = metrics;
        }
        else c

    unfoldable pub search : List T → List P → Choice → Choice
    unfolding improve
    search train_data [] c = c
    search train_data (params ∷ grid) c = search train_data grid (improve train_data params c)

    unfoldable pub run_fold : Float → P → List T → List P → ℕ → Fold → FoldResult
    unfolding search
    run_fold minus_inf empty trades grid index f =
        let train_data = slice f.train_start f.train_end trades in
        let test_data = slice f.test_start f.test_end trades in
        let best = search train_data grid (record {
          best_train_sharpe = minus_inf;
          best_params = empty;
          best_train_metrics = no_metrics;
        }) in
        record {
          fold_index = index;
          fold = f;
          best_params = best.best_params;
          train = best.best_train_metrics;
          test = evaluate test_data best.best_params;
          num_train_trades = length train_data;
          num_test_trades = length test_data;
        }

    unfoldable pub run_folds : Float → P → List T → List P → ℕ → List Fold → List FoldResult
    unfolding run_fold
    run_folds minus_inf empty trades grid index [] = []
    run_folds minus_inf empty trades grid index (f ∷ fs) =
        run_fold minus_inf empty trades grid index f
        ∷ run_folds minus_inf empty trades grid (suc index) fs
