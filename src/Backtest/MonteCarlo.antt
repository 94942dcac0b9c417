-- ===== src/Backtest/MonteCarlo.antt =====
-- services/backtest/backtest_svc/monte_carlo.py: bootstrap of a series of returns. The generator of
-- random numbers is an argument: its state, and `randint(0, hi)`, which gives a number and the
-- next state. So are the roots, `sorted` and `int` on floats. `** 2` is the product. A fuel bounds
-- the rounds of the block bootstrap; `none` is an IndexError, or no fuel left.
pub mod Resample
pub mod Simulation
use quant_system.Prelude.{
  ℕ, zero, suc, ◌+◌, ◌-◌, ◌/◌, ◌%◌, Bool, true, false, Option, none, some, List, [], ◌∷◌, ◌++◌, map,
  length, keep, leb, ltb, get_or, nonempty, if◌then◌else◌, ◌>>=◌,
}
use quant_system.Num.{Num, Float, ◌⊕◌, ◌⊖◌, ◌⊗◌, ◌⊘◌, ◌≺◌, ◌≈◌, nought, one, lit, max, sum_from}

-- `xs[i]`
unfoldable pub nth : {A : Type 0} → ℕ → List A → Option A
nth i [] = none
nth zero (x ∷ xs) = some x
nth (suc i) (x ∷ xs) = nth i xs

module _ ⦃N : Num⦄ where
  -- `_compute_returns`
  pub compute_returns : List Float → List Float
  compute_returns (a ∷ b ∷ es) =
      (if a ≈ nought then nought else (b ⊖ a) ⊘ a) ∷ compute_returns (b ∷ es)
  compute_returns _ = []

  -- `_sharpe_from_returns`
  pub sharpe_from_returns : (Float → Float) → (Float → Float) → ℕ → List Float → Float
  unfolding sum_from
  sharpe_from_returns sqrt half_power bucket_ms rs =
      let mean = sum_from nought rs ⊘ lit (length rs) 0 in
      let var =
        sum_from nought (map (λ (r : Float). (r ⊖ mean) ⊗ (r ⊖ mean)) rs) ⊘ lit (length rs - 1) 0 in
      let std = half_power var in
      let ms_per_year = lit 365 0 ⊗ lit 24 0 ⊗ lit 60 0 ⊗ lit 60 0 ⊗ lit 1000 0 in
      if ltb (length rs) 2
      then nought
      else if std ≈ nought
      then nought
      else (mean ⊘ std) ⊗ sqrt (ms_per_year ⊘ lit bucket_ms 0)

  -- `_max_drawdown_from_returns`: the loop over equity, peak and drawdown, and the whole.
  abbrev pub drawdown_loop : Float → Float → Float → List Float → Float
  drawdown_loop equity peak max_dd [] = max_dd
  drawdown_loop equity peak max_dd (r ∷ rs) =
      let equity' = equity ⊗ (one ⊕ r) in
      let peak' = if peak ≺ equity' then equity' else peak in
      let dd = if nought ≺ peak' then (peak' ⊖ equity') ⊘ peak' else nought in
      drawdown_loop equity' peak' (max max_dd dd) rs

  pub max_drawdown_from_returns : List Float → Float
  max_drawdown_from_returns rs = drawdown_loop one one nought rs

  -- `_total_return_from_returns`
  abbrev pub compound : Float → List Float → Float
  compound cum [] = cum
  compound cum (r ∷ rs) = compound (cum ⊗ (one ⊕ r)) rs

  pub total_return_from_returns : List Float → Float
  total_return_from_returns rs = if nonempty rs then compound one rs ⊖ one else nought

  -- `MetricDistribution`, without the name of the metric; a confidence interval is a level and a
  -- value.
  pub record MetricDistribution : Type 0 where
    pub mean : Float
    pub std : Float
    pub median : Float
    pub confidence_intervals : List (Float × Float)
    pub simulated_values : List Float

  -- max(0, min(int(level * n), n - 1))
  abbrev pub index_of : (Float → ℕ) → Float → ℕ → ℕ
  index_of int level n = let i = int (level ⊗ lit n 0) in if ltb (n - 1) i then n - 1 else i

  pub build_distribution :
      (Float → Float)
      → (Float → ℕ)
      → (List Float → List Float)
      → List Float
      → List Float
      → MetricDistribution
  unfolding sum_from
  build_distribution half_power int sorted levels values =
      let sorted_vals = sorted values in
      let n = length sorted_vals in
      let mean = sum_from nought sorted_vals ⊘ lit n 0 in
      let var =
        sum_from nought (map (λ (v : Float). (v ⊖ mean) ⊗ (v ⊖ mean)) sorted_vals) ⊘ lit n 0 in
      if nonempty values
      then record {
        mean = mean;
        std = half_power var;
        median = get_or (nth (n / 2) sorted_vals) nought;
        confidence_intervals =
            map (λ (l : Float). (l, get_or (nth (index_of int l n) sorted_vals) nought)) levels;
        simulated_values = values;
      }
      else record {
        mean = nought;
        std = nought;
        median = nought;
        confidence_intervals = [];
        simulated_values = [];
      }

module _ {A R : Type 0} (randint : R → ℕ → ℕ × R) where
  -- The standard bootstrap: k items, with replacement.
  unfoldable pub sample : List A → ℕ → R → Option (List A × R)
  sample xs zero g = some ([], g)
  sample xs (suc k) g = do
    x ← nth (randint g (length xs - 1)).0 xs
    rest ← sample xs k (randint g (length xs - 1)).1
    some (x ∷ rest.0, rest.1)

  -- The inner loop: up to `left` items from the j-th after `start` on, round the end of the list,
  -- and no more than there is room for.
  unfoldable pub block : List A → ℕ → ℕ → ℕ → ℕ → Option (List A)
  block xs start j zero room = some []
  block xs start j (suc left) zero = some []
  block xs start j (suc left) (suc room) = do
    x ← nth ((start + j) % length xs) xs
    rest ← block xs start (suc j) left room
    some (x ∷ rest)

  -- The `while` loop.
  unfoldable pub blocks : ℕ → List A → ℕ → ℕ → R → Option (List A × R)
  blocks fuel xs block_size zero g = some ([], g)
  blocks zero xs block_size (suc room) g = none
  blocks (suc fuel) xs block_size (suc room) g = do
    some_items ← block xs (randint g (length xs - 1)).0 0 block_size (suc room)
    rest ← blocks fuel xs block_size (suc room - length some_items) (randint g (length xs - 1)).1
    some (some_items ++ rest.0, rest.1)

  -- `_resample_returns`
  unfoldable pub resample_returns : List A → R → ℕ → Option (List A × R)
  unfolding sample blocks
  resample_returns [] g block_size = some ([], g)
  resample_returns (x ∷ xs) g block_size =
      if leb block_size 1
      then sample (x ∷ xs) (length (x ∷ xs)) g
      else blocks (length (x ∷ xs)) (x ∷ xs) block_size (length (x ∷ xs)) g
