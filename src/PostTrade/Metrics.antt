-- ===== src/PostTrade/Metrics.antt =====
-- services/post-trade/post_trade_svc/metrics.py: performance figures of a list of returns or
-- equities. `math.sqrt` and the power `** 0.5` are arguments; `** 2` is the product.
-- `none` stands for a ZeroDivisionError.
pub mod Falls
use quant_system.Prelude.{
  ℕ, suc, ◌*◌, Option, none, some, ◌>>=◌, List, [], ◌∷◌, map, length, leb, ltb, keep, nonempty, not,
  if◌then◌else◌,
}
use quant_system.Num.{Num, Float, ◌⊖◌, ◌⊗◌, ◌⊘◌, ◌≺◌, ◌≼◌, ◌≈◌, nought, lit, max, sum_from}

module _ ⦃N : Num⦄ where
  -- A ratio that may be `float("inf")`.
  pub data Ratio : Type 0 where
    finite : Float → Ratio
    infinite : Ratio

  -- `_std`
  unfoldable pub std : (Float → Float) → List Float → Float
  unfolding sum_from
  std half_power values =
      let n = lit (length values) 0 in
      let mean = sum_from nought values ⊘ n in
      let variance = sum_from nought (map (λ (v : Float). (v ⊖ mean) ⊗ (v ⊖ mean)) values) ⊘ n in
      if ltb (length values) 2 then nought else half_power variance

  -- `compute_sharpe`
  unfoldable pub compute_sharpe : (Float → Float) → (Float → Float) → List Float → Float → Float
  unfolding std
  compute_sharpe sqrt half_power returns risk_free_daily =
      let mean = (sum_from nought returns ⊘ lit (length returns) 0) ⊖ risk_free_daily in
      let std_dev = std half_power returns in
      if ltb (length returns) 2
      then nought
      else if std_dev ≈ nought
      then nought
      else (mean ⊘ std_dev) ⊗ sqrt (lit 365 0)

  -- `compute_sortino`
  unfoldable pub compute_sortino : (Float → Float) → (Float → Float) → List Float → Float → Ratio
  unfolding std
  compute_sortino sqrt half_power returns risk_free_daily =
      let mean = (sum_from nought returns ⊘ lit (length returns) 0) ⊖ risk_free_daily in
      let downside = keep (λ r. r ≺ nought) returns in
      let downside_std = std half_power downside in
      if ltb (length returns) 2
      then finite nought
      else if not (nonempty downside)
      then (if nought ≺ mean then infinite else finite nought)
      else if downside_std ≈ nought
      then finite nought
      else finite ((mean ⊘ downside_std) ⊗ sqrt (lit 365 0))

  -- The variables of the loop of `compute_max_drawdown`, and one turn of it.
  pub record Drawdown : Type 0 where
    pub peak : Float
    pub max_dd : Float
    pub max_duration : ℕ
    pub current_duration : ℕ

  abbrev pub longer : ℕ → ℕ → ℕ
  longer m n = if ltb m n then n else m

  unfoldable pub turn : Drawdown → Float → Option Drawdown
  turn d value =
      if d.peak ≼ value
      then some (record d { peak = value; current_duration = 0 })
      else if d.peak ≈ nought
      then none
      else some (record d {
        max_dd = max d.max_dd ((d.peak ⊖ value) ⊘ d.peak);
        max_duration = longer d.max_duration (suc d.current_duration);
        current_duration = suc d.current_duration;
      })

  unfoldable pub turns : Drawdown → List Float → Option Drawdown
  unfolding turn
  turns d [] = some d
  turns d (value ∷ values) = elim (turn d value) [ none ↦ none | some d' ↦ turns d' values ]

  -- `compute_max_drawdown`
  unfoldable pub compute_max_drawdown : List Float → Option (Float × ℕ)
  unfolding turns
  compute_max_drawdown [] = some (nought, 0)
  compute_max_drawdown (e ∷ es) = do
    d ←
        turns (record { peak = e; max_dd = nought; max_duration = 0; current_duration = 0 })
          (e ∷ es)
    some (d.max_dd, d.max_duration)

  -- `compute_calmar`
  unfoldable pub compute_calmar : Float → Float → Float
  compute_calmar annualized_return max_drawdown =
      if max_drawdown ≈ nought then nought else annualized_return ⊘ max_drawdown
