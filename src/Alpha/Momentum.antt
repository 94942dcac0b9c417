-- ===== src/Alpha/Momentum.antt =====
-- services/alpha-engine/alpha_engine_svc/strategies/momentum.py: ride the direction of a breakout.
use quant_system.Prelude.{false}
use quant_system.Num.{Num}
use quant_system.Core.Models.{Trade}
use quant_system.Alpha.Strategy
use quant_system.Alpha.Strategy.{Style, Strategy, Outside, Outcome}

abbrev pub rides : Style
rides = record { below_first = false; above = "BUY"; below = "SELL" }

-- `MomentumStrategy.on_trade`
pub on_trade : ⦃N : Num⦄ → Outside → Trade → Strategy → Outcome × Strategy
on_trade = Strategy.on_trade rides
