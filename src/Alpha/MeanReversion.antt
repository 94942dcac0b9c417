-- ===== src/Alpha/MeanReversion.antt =====
-- services/alpha-engine/alpha_engine_svc/strategies/mean_reversion.py: trade against a deviation.
use quant_system.Prelude.{true}
use quant_system.Num.{Num}
use quant_system.Core.Models.{Trade}
use quant_system.Alpha.Strategy
use quant_system.Alpha.Strategy.{Style, Strategy, Outside, Outcome}

abbrev pub fades : Style
fades = record { below_first = true; above = "SELL"; below = "BUY" }

-- `MeanReversionStrategy.on_trade`
pub on_trade : ⦃N : Num⦄ → Outside → Trade → Strategy → Outcome × Strategy
on_trade = Strategy.on_trade fades
