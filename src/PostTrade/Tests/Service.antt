-- ===== src/PostTrade/Tests/Service.antt =====
-- The theorems on alpha decay, drawdowns and the service's loop at concrete inputs, over whole numbers.
use quant_system.Prelude.{
  ℕ, ◌≤◌, ◌≡◌, refl, arith, String, true, false, none, some, List, [], ◌∷◌, All, length, map,
}
use quant_system.Prelude.Int.{ℤ, pos}
use quant_system.Num.{nought}
use quant_system.Num.Fixed.{integers}
use quant_system.Core.Models.{Fill, Trade}
use quant_system.Core.Portfolio.{Store}
use quant_system.PostTrade.AlphaDecay.{TrackedSignal, evaluate}
use quant_system.PostTrade.AlphaDecay.Horizons.{HasReturn, horizons_get_returns}
use quant_system.PostTrade.Metrics.{compute_max_drawdown}
use quant_system.PostTrade.Metrics.Falls.{falls, IsGreatest, max_drawdown-IsGreatest}
use quant_system.PostTrade.Service.{Message, fills, raw_trades, consume_loop, start}
use quant_system.PostTrade.Service.Prices.{IsUnmarked, consume_loop-IsUnmarked}

-- A signal with horizons of 60 and 300 seconds, of which the first has its return.
abbrev a_signal : TrackedSignal
a_signal = record {
  signal_id = "s";
  timestamp_ms = 1_000;
  strategy_id = "m";
  symbol = "BTC";
  predicted_direction = pos 1;
  mid_price = pos 100;
  horizon_returns = (60_000, some (pos 1)) ∷ (300_000, none) ∷ [];
}

horizons_get_returns_example :
    All
      (HasReturn
        (evaluate (60_000 ∷ 300_000 ∷ []) "BTC" 400_000 (pos 300) a_signal).horizon_returns)
      (60_000 ∷ 300_000 ∷ [])
unfolding quant_system.Prelude.Dict.lookup
horizons_get_returns_example =
    horizons_get_returns (60_000 ∷ 300_000 ∷ []) 400_000 (pos 300) a_signal refl
      (omega arith, (omega arith, tt)) ((some (pos 1), refl), ((none, refl), tt))

abbrev curve : List ℤ
curve = pos 8 ∷ pos 2 ∷ pos 9 ∷ pos 3 ∷ []

max_drawdown-IsGreatest_example :
    (r : ℤ × ℕ) × (compute_max_drawdown (pos 8 ∷ curve) ≡ some r)
    × IsGreatest r.0 (nought ∷ falls (pos 8) (pos 8 ∷ curve))
    × (r.1 ≤ length curve)
max_drawdown-IsGreatest_example = max_drawdown-IsGreatest (pos 8) curve refl

abbrev a_fill : Fill
a_fill = record {
  fill_id = "f";
  timestamp = 1;
  order_id = "o";
  symbol = "BTC";
  side = "BUY";
  quantity = pos 2;
  fill_price = pos 100;
  fee = pos 1;
  fee_rate = pos 0;
  is_maker = false;
  slippage_bps = pos 3;
  backtest_id = none;
  strategy_id = "m";
  trading_mode = "paper";
}

abbrev a_trade : Trade
a_trade = record {
  exchange = "binance";
  symbol = "BTC";
  trade_id = 4;
  price = pos 120;
  quantity = pos 1;
  timestamp_exchange = 4;
  timestamp_ingested = 4;
  is_buyer_maker = true;
}

abbrev empty_store : Store
empty_store = record { run_id = "live"; summary = []; positions = [] }

abbrev feed : List Message
feed = fills (some a_fill) ∷ raw_trades (some a_trade) ∷ fills (some a_fill) ∷ []

consume_loop-IsUnmarked_example :
    let s = consume_loop (λ x. "") (λ x n. x) (λ s. s) feed (start (pos 1000) empty_store true) in
    IsUnmarked s.state × (s.trade_count ≡ 0)
consume_loop-IsUnmarked_example =
    consume_loop-IsUnmarked (λ x. "") (λ x n. x) (λ s. s) (pos 1000) empty_store true feed
