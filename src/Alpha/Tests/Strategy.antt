-- ===== src/Alpha/Tests/Strategy.antt =====
-- The theorems on the feature engine and the strategies, over whole numbers.
use quant_system.Prelude.{
  ℕ, ◌≤◌, ◌<◌, ◌≡◌, refl, arith, String, Bool, true, false, Option, none, some, List, [], ◌∷◌, All,
}
use quant_system.Prelude.Int.{pos}
use quant_system.Prelude.Window.{latest}
use quant_system.Num.Fixed.{integers}
use quant_system.Num.Fixed.Integers.{integers-IsExact}
use quant_system.Core.Models.{Trade, Signal}
use quant_system.Alpha.FeatureEngine.{Engine, init}
use quant_system.Alpha.FeatureEngine.Window.{Tick, Holds, trades, trades_window}
use quant_system.Alpha.Momentum.{rides}
use quant_system.Alpha.Strategy.{Strategy, Outside, on_trade, repeats}
use quant_system.Alpha.Strategy.Cooldown.{traded, outcomes, IsSilent, signals_spaced}

abbrev tick : ℕ → ℕ → Tick
tick p q = record { price = pos p; quantity = pos q; is_buyer_maker = true; timestamp_ms = p }

abbrev three_ticks : List Tick
three_ticks = tick 10 1 ∷ tick 12 3 ∷ tick 11 2 ∷ []

trades_window_example :
    (e : Engine) × (trades integers-IsExact three_ticks (some (init "BTC" 2)) ≡ some e)
    × Holds (latest 2 three_ticks) e
trades_window_example = trades_window integers-IsExact "BTC" 1 three_ticks

abbrev a_strategy : Strategy
a_strategy = record {
  strategy_id = "momentum_btc";
  symbol = "BTC";
  params = record {
    window_size = 10;
    threshold_std = pos 1;
    warmup_trades = 3;
    cooldown_trades = 2;
    target_risk_usd = pos 200;
    max_notional_usd = pos 500;
    min_notional_usd = pos 10;
    holding_period_trades = pos 30;
  };
  engine = record {
    symbol = "BTC";
    window_size = 10;
    prices = pos 1 ∷ pos 1 ∷ pos 1 ∷ [];
    quantities = pos 1 ∷ pos 1 ∷ pos 1 ∷ [];
    sides = true ∷ true ∷ true ∷ [];
    timestamps = 1 ∷ 2 ∷ 3 ∷ [];
    pv_sum = pos 3;
    v_sum = pos 3;
    mid_price = none;
    spread = none;
    book_imbalance = pos 0;
  };
  trade_count = 5;
  trades_since_last_signal = 5;
  last_signal_side = some "SELL";
  mid_price = none;
  spread = none;
}

-- The square roots answer one.
abbrev outside : Outside
outside = record { root = λ x. pos 1; sqrt = λ x. pos 1; round8 = λ x. x; now = 9; signal_id = "s" }

abbrev breakout : Trade
breakout = record {
  exchange = "binance";
  symbol = "BTC";
  trade_id = 4;
  price = pos 100;
  quantity = pos 1;
  timestamp_exchange = 4;
  timestamp_ingested = 4;
  is_buyer_maker = true;
}

abbrev the_signal : Signal
the_signal = record {
  signal_id = "s";
  timestamp = 9;
  strategy_id = "momentum_btc";
  symbol = "BTC";
  side = "BUY";
  strength = pos 1;
  target_quantity = pos 2;
  urgency = pos 1;
  mid_price_at_signal = pos 100;
  spread_at_signal = pos 0;
}

signals_spaced_example :
    (3 ≤ 6)
    × (2 ≤ 6)
    × (repeats "BUY" (some "SELL") ≡ false)
    × All IsSilent (
        outcomes rides
          (traded outside breakout ∷ [])
          (on_trade rides outside breakout a_strategy).1)
unfolding on_trade quant_system.Alpha.FeatureEngine.on_trade
    quant_system.Alpha.FeatureEngine.compute quant_system.Prelude.Int.◌+ℤ◌
    quant_system.Prelude.Int.div quant_system.Prelude.Int.trunc quant_system.Prelude.Int.◌-ℤ◌
    quant_system.Prelude.Int.◌*ℤ◌
signals_spaced_example =
    signals_spaced rides outside breakout a_strategy the_signal (traded outside breakout ∷ []) refl
      (omega arith)
