-- ===== src/Risk/Decision.antt =====
-- What a decision of `run_risk_checks` says about the checks.
use quant_system.Prelude.{ℕ, ◌≡◌, ◌⊎◌, String, true, false, Option, [], arith}
use quant_system.Prelude.Dict.{Dict}
use quant_system.Num.{Num, Float, ◌⊗◌, nought}
use quant_system.Core.Models.{Signal, approved, rejected_}
use quant_system.Risk.Checks.{
  PortfolioState, RiskLimits, check_position_notional, check_order_notional, check_drawdown,
  check_var, check_total_exposure, drawdown_scale_factor, run_risk_checks,
}

module _ ⦃N : Num⦄ (now : ℕ) (sig : Signal) (state : PortfolioState) (limits : RiskLimits)
    (var_pct : Option Float) (prices : Option (Dict String Float)) where
  -- An approval means that none of the five checks failed, and lets through the signal's quantity
  -- times the drawdown's scale; a decision that is no approval is a rejection of quantity zero, and
  -- then one of the five has failed.
  pub run_risk_checks_decides :
      let d = run_risk_checks now sig state limits var_pct prices in
      ((d.decision ≡ approved)
        × (d.adjusted_quantity ≡ sig.target_quantity ⊗ drawdown_scale_factor state)
        × (d.checks_failed ≡ [])
        × (check_position_notional sig state limits ≡ false)
        × (check_order_notional sig limits ≡ false)
        × (check_drawdown state limits ≡ false)
        × (check_var limits var_pct ≡ false)
        × (check_total_exposure sig state limits prices ≡ false))
      ⊎ ((d.decision ≡ rejected_)
          × (d.adjusted_quantity ≡ nought)
          × ((check_position_notional sig state limits ≡ true)
              ⊎ (check_order_notional sig limits ≡ true)
              ⊎ (check_drawdown state limits ≡ true)
              ⊎ (check_var limits var_pct ≡ true)
              ⊎ (check_total_exposure sig state limits prices ≡ true)))
  unfolding run_risk_checks
  run_risk_checks_decides = ground arith
