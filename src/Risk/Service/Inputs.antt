-- ===== src/Risk/Service/Inputs.antt =====
-- What the handler does not pass to the checks: a VaR estimate and prices of the positions.
use quant_system.Prelude.{◌≡◌, refl, String, false, none, [], ◌∷◌}
use quant_system.Prelude.Eq.{string_eq}
use quant_system.Prelude.Dict.{Dict, lookup}
use quant_system.Num.{Num, Float, ◌⊗◌, ◌≺◌, nought}
use quant_system.Num.Monotone.{IsMonotone}
use quant_system.Num.Ring.Sign.{abs_zero}
use quant_system.Core.Models.{Signal}
use quant_system.Risk.Checks.{
  PortfolioState, RiskLimits, exposure_from, check_total_exposure, check_var,
}

module _ ⦃N : Num⦄ (M : IsMonotone) where
  unpriced : (positions : Dict String Float) → exposure_from [] nought positions ≡ nought
  unfolding exposure_from lookup
  unpriced [] = refl
  unpriced ((sym', qty) ∷ rest) = rw (M.mul_zero qty, abs_zero, M.zero_add nought) (unpriced rest)

  -- As the handler calls it, the exposure check sees no portfolio: whatever the positions, its
  -- answer is whether the order alone is over the limit for the whole portfolio. And the VaR
  -- check always passes.
  handler_checks_order_alone :
      (sig : Signal) (state : PortfolioState) (limits : RiskLimits)
      → (check_total_exposure sig state limits none
          ≡ (limits.max_total_exposure ≺ sig.target_quantity ⊗ sig.mid_price_at_signal))
        × (check_var limits none ≡ false)
  unfolding check_total_exposure check_var
  handler_checks_order_alone sig state limits = (rw (unpriced state.positions, M.zero_add _), refl)
