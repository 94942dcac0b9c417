-- ===== src/Risk/Tests.antt =====
-- The theorems on the risk gateway at concrete signals.
use quant_system.Prelude.{
  ℕ, ◌+◌, ◌≡◌, ◌≢◌, ◌⊎◌, refl, String, Bool, true, false, none, some, Option, List, [], ◌∷◌, ◌++◌,
  is_none, ◌||◌, if◌then◌else◌,
}
use quant_system.Prelude.Eq.{string_eq}
use quant_system.Prelude.Dict.{lookup}
use quant_system.Prelude.Int.{ℤ, pos, negsuc}
use quant_system.Num.{◌⊗◌, ◌≺◌, nought, one, lit}
use quant_system.Num.Order.{Le, Lt}
use quant_system.Num.Fixed.{integers, fixed}
use quant_system.Num.Fixed.Integers.{integers-IsExact}
use quant_system.Num.Fixed.Decimal.{fixed-IsMonotone}
use quant_system.Core.Models.{Signal, Order, approved, rejected_}
use quant_system.Risk.Checks.{
  PortfolioState, RiskLimits, check_position_notional, check_order_notional, check_drawdown,
  check_var, check_total_exposure, drawdown_scale_factor, ramp, run_risk_checks,
}
use quant_system.Risk.Decision.{run_risk_checks_decides}
use quant_system.Risk.Scale.{drawdown_scale_bounds}
use quant_system.Risk.Sides.{sell_past_limit_passes, closing_sell_refused, notional_after_sell}
use quant_system.Risk.Service.{Gateway, Input, handle}
use quant_system.Risk.Service.Safety.{orders, Justified, order_only_after_checks}

-- A sale of six at 100.
abbrev sell_six : Signal
sell_six = record {
  signal_id = "a";
  timestamp = 1;
  strategy_id = "s";
  symbol = "BTC";
  side = "SELL";
  strength = pos 1;
  target_quantity = pos 6;
  urgency = pos 1;
  mid_price_at_signal = pos 100;
  spread_at_signal = pos 1;
}

abbrev holding : ℤ → PortfolioState
holding quantity = record {
  positions = ("BTC", quantity) ∷ [];
  unrealized_pnl = pos 0;
  realized_pnl = pos 0;
  peak_equity = pos 5000;
  current_equity = pos 5000;
}

abbrev limits : RiskLimits
limits = record {
  max_position_notional = pos 1000;
  max_order_notional = pos 1000;
  max_drawdown_pct = pos 1;
  max_total_exposure = pos 5000;
  max_var_pct = pos 1;
}

run_risk_checks_decides_example :
    let d = run_risk_checks 9 sell_six (holding (pos 1)) limits none none in
    ((d.decision ≡ approved)
      × (d.adjusted_quantity ≡ pos 6 ⊗ drawdown_scale_factor (holding (pos 1)))
      × (d.checks_failed ≡ [])
      × (check_position_notional sell_six (holding (pos 1)) limits ≡ false)
      × (check_order_notional sell_six limits ≡ false)
      × (check_drawdown (holding (pos 1)) limits ≡ false)
      × (check_var limits none ≡ false)
      × (check_total_exposure sell_six (holding (pos 1)) limits none ≡ false))
    ⊎ ((d.decision ≡ rejected_)
        × (d.adjusted_quantity ≡ nought)
        × ((check_position_notional sell_six (holding (pos 1)) limits ≡ true)
            ⊎ (check_order_notional sell_six limits ≡ true)
            ⊎ (check_drawdown (holding (pos 1)) limits ≡ true)
            ⊎ (check_var limits none ≡ true)
            ⊎ (check_total_exposure sell_six (holding (pos 1)) limits none ≡ true)))
run_risk_checks_decides_example =
    run_risk_checks_decides 9 sell_six (holding (pos 1)) limits none none

-- A short position of eight grows to fourteen, and passes a limit of ten.
sell_past_limit_passes_example :
    check_position_notional sell_six (holding (negsuc 7)) limits
    ≢ (pos 1000 ≺ notional_after_sell (holding (negsuc 7)) sell_six)
unfolding lookup quant_system.Prelude.Int.◌*ℤ◌ quant_system.Prelude.Int.◌+ℤ◌
    quant_system.Prelude.Int.div quant_system.Prelude.Int.trunc quant_system.Prelude.Int.◌-ℤ◌
sell_past_limit_passes_example =
    sell_past_limit_passes integers-IsExact sell_six (holding (negsuc 7)) limits refl refl refl refl
      refl

-- A long position of eight would shrink to two, and is refused.
closing_sell_refused_example :
    check_position_notional sell_six (holding (pos 8)) limits
    ≢ (pos 1000 ≺ notional_after_sell (holding (pos 8)) sell_six)
unfolding lookup quant_system.Prelude.Int.◌*ℤ◌ quant_system.Prelude.Int.◌+ℤ◌
    quant_system.Prelude.Int.div quant_system.Prelude.Int.trunc quant_system.Prelude.Int.◌-ℤ◌
closing_sell_refused_example =
    closing_sell_refused integers-IsExact sell_six (holding (pos 8)) limits refl refl refl refl refl

-- A drawdown of five percent.
abbrev down_five : PortfolioState ⦃N = fixed⦄
down_five = record {
  positions = ("ETH", pos 300_000_000) ∷ [];
  unrealized_pnl = pos 0;
  realized_pnl = pos 0;
  peak_equity = pos 10_000_000_000;
  current_equity = pos 9_500_000_000;
}

drawdown_scale_bounds_example :
    let s = drawdown_scale_factor ⦃N = fixed⦄ down_five in
    Le ⦃N = fixed⦄ s (one ⦃N = fixed⦄)
    × Lt ⦃N = fixed⦄ (nought ⦃N = fixed⦄) s
    × (Le ⦃N = fixed⦄ (ramp ⦃N = fixed⦄ (lit ⦃N = fixed⦄ 7 2)) s ⊎ (s ≡ lit ⦃N = fixed⦄ 25 2))
unfolding quant_system.Prelude.Int.◌*ℤ◌ quant_system.Prelude.Int.◌+ℤ◌ quant_system.Prelude.Int.div
    quant_system.Prelude.Int.trunc quant_system.Prelude.Int.◌-ℤ◌
drawdown_scale_bounds_example =
    drawdown_scale_bounds ⦃N = fixed⦄ fixed-IsMonotone down_five refl refl refl

abbrev gateway : Gateway
gateway = record {
  breaker = record { cached_state = false; last_check = pos 0 };
  approved_count = 0;
  rejected_count = 0;
  breaker_blocked = 0;
  outbox = [];
}

abbrev input : Input
input = record {
  signal = some sell_six;
  monotonic = pos 10;
  now = 9;
  order_id = "o";
  redis = record { key = none; reachable = true };
  portfolio = some (holding (pos 1));
}

order_only_after_checks_example :
    let g' = (handle limits none input gateway).0 in
    (orders g'.outbox ≡ orders [])
    ⊎ ((o : Order) × (orders g'.outbox ≡ orders [] ++ o ∷ []) × Justified limits input gateway o)
order_only_after_checks_example = order_only_after_checks limits none input gateway

-- The same sale and limits at eight decimals, which are read as whole numbers of 10 ** -8.
abbrev small_sale : Signal ⦃N = fixed⦄
small_sale = record {
  signal_id = "a";
  timestamp = 1;
  strategy_id = "s";
  symbol = "BTC";
  side = "SELL";
  strength = pos 1;
  target_quantity = pos 6;
  urgency = pos 1;
  mid_price_at_signal = pos 100;
  spread_at_signal = pos 1;
}

abbrev small_limits : RiskLimits ⦃N = fixed⦄
small_limits = record {
  max_position_notional = pos 1000;
  max_order_notional = pos 1000;
  max_drawdown_pct = pos 1;
  max_total_exposure = pos 5000;
  max_var_pct = pos 1;
}
