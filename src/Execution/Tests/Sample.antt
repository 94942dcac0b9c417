-- ===== src/Execution/Tests/Sample.antt =====
-- An order and a fill simulator, at any floats.
use quant_system.Prelude.{none, true, false}
use quant_system.Num.{Num, lit}
use quant_system.Core.Models.{Order, submitted}
use quant_system.Execution.FillSimulator.{Simulator, Outside}

module _ ⦃N : Num⦄ where
  abbrev pub an_order : Order
  an_order = record {
    order_id = "o";
    timestamp = 1;
    symbol = "BTC";
    side = "BUY";
    order_type = "MARKET";
    quantity = lit 3 0;
    limit_price = none;
    status = submitted;
    signal_id = "a";
    strategy_id = "s";
    backtest_id = none;
  }

  abbrev pub simulator : Simulator
  simulator = record {
    fixed_fee_rate = none;
    use_tiered_fees = true;
    use_brownian_bridge = false;
    latency_ms = lit 50 0;
    last_volatility = lit 0 0;
    rolling_volume_30d = lit 0 0;
  }

  abbrev pub outside : Outside
  outside = record { sqrt = λ x. x; root = λ x. x; z = lit 0 0; fill_id = "f"; now = 5 }
