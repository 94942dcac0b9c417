-- ===== src/Backtest/Evaluator/Report.antt =====
-- services/backtest/backtest_svc/evaluator.py: the metrics of some fills. The roots, and `sorted` on
-- the buckets, are arguments. `none` stands for the ValueError of `min` when no fill has a
-- positive timestamp.
use quant_system.Prelude.{
  ℕ, ◌-◌, ◌*◌, Option, none, some, List, [], ◌∷◌, map, length, leb, ltb, get_or, if◌then◌else◌,
  ◌>>=◌,
}
use quant_system.Prelude.Eq.{string_eq, nat_eq}
use quant_system.Prelude.Dict.{Dict, lookup}
use quant_system.Num.{Num, Float, ◌⊕◌, ◌⊖◌, ◌⊗◌, ◌⊘◌, ◌≺◌, nought, lit, sum_from}
use quant_system.Core.Models.{Fill}
use quant_system.Backtest.Evaluator.{Book, opening, account_fills}

-- HOUR_MS and MINUTE_MS
abbrev pub hour_ms : ℕ
hour_ms = 60 * 60 * 1000

abbrev pub minute_ms : ℕ
minute_ms = 60 * 1000

-- `_pick_bucket_ms`
pub pick_bucket_ms : ℕ → ℕ
pick_bucket_ms span_ms =
    if leb (48 * hour_ms) span_ms
    then hour_ms
    else if leb (2 * hour_ms) span_ms
    then 5 * minute_ms
    else minute_ms

module _ ⦃N : Num⦄ where
  -- `min` and `max` of the positive timestamps.
  abbrev pub earliest : List Fill → Option ℕ
  earliest [] = none
  earliest (f ∷ fs) =
      let rest = earliest fs in
      if ltb 0 f.timestamp
      then (let m = get_or rest f.timestamp in some (if ltb m f.timestamp then m else f.timestamp))
      else rest

  abbrev pub latest_time : List Fill → Option ℕ
  latest_time [] = none
  latest_time (f ∷ fs) =
      let rest = latest_time fs in
      if ltb 0 f.timestamp
      then (let m = get_or rest f.timestamp in some (if ltb f.timestamp m then m else f.timestamp))
      else rest

  -- The returns between the equities of the buckets.
  abbrev pub bucket_returns_of : Float → List Float → List Float
  bucket_returns_of prev [] = []
  bucket_returns_of prev (e ∷ es) =
      let rest = bucket_returns_of e es in
      if nought ≺ prev then ((e ⊖ prev) ⊘ prev) ∷ rest else rest

  -- MS_PER_YEAR
  abbrev pub ms_per_year : Float
  ms_per_year = lit 365 0 ⊗ lit 24 0 ⊗ lit 60 0 ⊗ lit 60 0 ⊗ lit 1000 0

  pub sharpe_of : (Float → Float) → (Float → Float) → ℕ → List Float → Float
  unfolding sum_from
  sharpe_of sqrt half_power bucket_ms rs =
      let mean_r = sum_from nought rs ⊘ lit (length rs) 0 in
      let var_r =
        sum_from nought (map (λ (r : Float). (r ⊖ mean_r) ⊗ (r ⊖ mean_r)) rs)
        ⊘ lit (length rs - 1) 0 in
      let std_r = half_power var_r in
      if ltb (length rs) 2
      then nought
      else if nought ≺ std_r
      then (mean_r ⊘ std_r) ⊗ sqrt (ms_per_year ⊘ lit bucket_ms 0)
      else nought

  -- The returned dict; without fills it has no keys for the fees, the slippage and the PnL.
  pub record Costs : Type 0 where
    pub total_fees : Float
    pub total_slippage_cost : Float
    pub realized_pnl : Float

  pub record Report : Type 0 where
    pub sharpe : Float
    pub total_return : Float
    pub max_drawdown : Float
    pub num_trades : ℕ
    pub num_signals : ℕ
    pub total_costs : Float
    pub bucket_ms : ℕ
    pub equity_series : List Float
    pub bucket_returns : List Float
    pub costs : Option Costs

  -- The equities of two buckets or more, in the order of `sorted`.
  abbrev pub series_of : (List ℕ → List ℕ) → Dict ℕ Float → List Float
  series_of sorted d =
      if ltb (length d) 2
      then []
      else map (λ (b : ℕ). get_or (lookup b d) nought) (sorted (map (λ e. e.0) d))

  pub report_of :
      (Float → Float)
      → (Float → Float)
      → (List ℕ → List ℕ)
      → List Fill
      → Float
      → ℕ
      → ℕ
      → Book
      → Report
  unfolding sharpe_of
  report_of sqrt half_power sorted fills initial_equity signals_emitted bucket_ms a =
      let series = series_of sorted a.bucket_equity in
      let returns = bucket_returns_of initial_equity series in
      record {
        sharpe = sharpe_of sqrt half_power bucket_ms returns;
        total_return =
            if nought ≺ initial_equity
            then (a.equity ⊖ initial_equity) ⊘ initial_equity
            else nought;
        max_drawdown = a.max_dd;
        num_trades = length fills;
        num_signals = signals_emitted;
        total_costs = a.total_fees ⊕ a.total_slippage_cost;
        bucket_ms = bucket_ms;
        equity_series = series;
        bucket_returns = returns;
        costs = some (record {
          total_fees = a.total_fees;
          total_slippage_cost = a.total_slippage_cost;
          realized_pnl = a.realized_pnl;
        });
      }

  -- `_compute_metrics_from_fills`
  unfoldable pub compute_metrics_from_fills :
      (Float → Float) → (Float → Float) → (List ℕ → List ℕ) → List Fill → Float → ℕ → Option Report
  unfolding account_fills report_of pick_bucket_ms
  compute_metrics_from_fills sqrt half_power sorted [] initial_equity signals_emitted =
      some (record {
        sharpe = nought;
        total_return = nought;
        max_drawdown = nought;
        num_trades = 0;
        num_signals = signals_emitted;
        total_costs = nought;
        bucket_ms = hour_ms;
        equity_series = [];
        bucket_returns = [];
        costs = none;
      })
  compute_metrics_from_fills sqrt half_power sorted (f ∷ fs) initial_equity signals_emitted = do
    ts_min ← earliest (f ∷ fs)
    ts_max ← latest_time (f ∷ fs)
    let span_ms = if ltb 1 (ts_max - ts_min) then ts_max - ts_min else 1 in
        let bucket_ms = pick_bucket_ms span_ms in
        some (
          report_of sqrt half_power sorted (f ∷ fs) initial_equity signals_emitted bucket_ms
            (account_fills initial_equity bucket_ms (f ∷ fs) (opening initial_equity)))
