-- ===== src/Risk/Sides.antt =====
-- The position check adds the quantity of a signal whatever its side: what that lets through,
-- and what it refuses.
use quant_system.Prelude.{◌≡◌, ◌≢◌, false, get_or}
use quant_system.Prelude.Eq.{string_eq}
use quant_system.Prelude.Dict.{lookup}
use quant_system.Num.{Num, Float, ◌⊕◌, ◌⊖◌, ◌⊗◌, ◌≺◌, neg, nought, abs}
use quant_system.Num.Exact.{IsExact}
use quant_system.Num.Order.{Le, Lt, not_lt_of_le}
use quant_system.Num.Ring.Sign.{abs_of_pos, abs_of_nonpos}
use quant_system.Core.Models.{Signal}
use quant_system.Risk.Checks.{PortfolioState, RiskLimits, check_position_notional}

module _ ⦃N : Num⦄ where
  abbrev pub position : PortfolioState → Signal → Float
  position state sig = get_or (lookup sig.symbol state.positions) nought

  -- The notional of the position that a SELL of the signal's quantity leaves.
  abbrev pub notional_after_sell : PortfolioState → Signal → Float
  notional_after_sell state sig =
      abs (position state sig ⊖ sig.target_quantity) ⊗ sig.mid_price_at_signal

module _ ⦃N : Num⦄ (X : IsExact) where
  -- With a positive price: a SELL that enlarges a short position past the limit passes the check
  -- whenever the sum of position and quantity, which is what the check computes, is not positive
  -- and within the limit in size. The answer is then not that of the test on the position that
  -- the SELL leaves.
  pub sell_past_limit_passes :
      (sig : Signal) (state : PortfolioState) (limits : RiskLimits)
      → Lt nought sig.mid_price_at_signal
      → sig.side ≡ "SELL"
      → (nought ≺ position state sig ⊕ sig.target_quantity) ≡ false
      → Le
          (neg (position state sig ⊕ sig.target_quantity) ⊗ sig.mid_price_at_signal)
          limits.max_position_notional
      → Lt limits.max_position_notional (notional_after_sell state sig)
      → check_position_notional sig state limits
        ≢ (limits.max_position_notional ≺ notional_after_sell state sig)
  unfolding check_position_notional
  sell_past_limit_passes sig state limits price side short within over =
      rw
        (
          over,
          price,
          abs_of_nonpos X (position state sig ⊕ sig.target_quantity) short,
          not_lt_of_le _ limits.max_position_notional within,
        )
        (λ e. cc)

  -- With a positive price: a SELL that closes a long position, or a part of it, is refused
  -- whenever buying as much would go past the limit, although what it leaves is within it.
  pub closing_sell_refused :
      (sig : Signal) (state : PortfolioState) (limits : RiskLimits)
      → Lt nought sig.mid_price_at_signal
      → sig.side ≡ "SELL"
      → Lt nought (position state sig ⊕ sig.target_quantity)
      → Lt limits.max_position_notional
          ((position state sig ⊕ sig.target_quantity) ⊗ sig.mid_price_at_signal)
      → Le (notional_after_sell state sig) limits.max_position_notional
      → check_position_notional sig state limits
        ≢ (limits.max_position_notional ≺ notional_after_sell state sig)
  unfolding check_position_notional
  closing_sell_refused sig state limits price side long over within =
      rw
        (
          not_lt_of_le _ limits.max_position_notional within,
          price,
          abs_of_pos (position state sig ⊕ sig.target_quantity) long,
          over,
        )
        (λ e. cc)
