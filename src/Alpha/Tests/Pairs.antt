-- ===== src/Alpha/Tests/Pairs.antt =====
-- The theorem on pairs trading, over whole numbers.
use quant_system.Prelude.{
  ℕ, zero, suc, ◌≤◌, ◌≡◌, refl, String, true, false, Option, none, some, List, [], ◌∷◌,
}
use quant_system.Prelude.Int.{ℤ, pos}
use quant_system.Num.{◌≺◌, abs}
use quant_system.Num.Fixed.{integers}
use quant_system.Core.Models.{Trade, Signal}
use quant_system.Alpha.CrossAsset.{get_snapshot}
use quant_system.Alpha.PairsTrading.{Pairs, Outside, fed, on_trade, get_counterpart_signal, leg}
use quant_system.Alpha.PairsTrading.Legs.{AreLegs, legs_come_together}

-- Prices that stay at one.
abbrev flat : ℕ → List (ℕ × ℤ)
flat zero = []
flat (suc n) = (n, pos 1) ∷ flat n

abbrev a_pair : Pairs
a_pair = record {
  strategy_id = "pairs";
  symbol = "BTC";
  symbol_b = "ETH";
  tracker = record { window = 100; prices = ("BTC", flat 20) ∷ ("ETH", flat 21) ∷ [] };
  params = record {
    entry_threshold = pos 1;
    min_correlation = pos 0;
    base_quantity = pos 3;
    cooldown_trades = 2;
    warmup_trades = 3;
  };
  trade_count = 20;
  trades_since_last_signal = 20;
  last_signal_side = none;
  pending_counterpart = none;
}

abbrev outside : Outside
outside = record {
  log = λ x. x;
  sqrt = λ x. pos 1;
  upper = λ s. s;
  now_a = 8;
  now_b = 9;
  signal_id_a = "a";
  signal_id_b = "b";
}

abbrev jump : Trade
jump = record {
  exchange = "binance";
  symbol = "BTC";
  trade_id = 4;
  price = pos 100;
  quantity = pos 1;
  timestamp_exchange = 30;
  timestamp_ingested = 30;
  is_buyer_maker = true;
}

abbrev sells_btc : Signal
sells_btc = leg "a" 8 "pairs" "BTC" "SELL" (pos 1) (pos 3) (pos 100)

legs_come_together_example :
    let s' = (on_trade outside jump a_pair).1 in
    let (given, s'') = get_counterpart_signal s' in
    (3 ≤ 21)
    × (2 ≤ 21)
    × ((b : Signal) × (given ≡ some b) × AreLegs a_pair sells_btc b)
    × ((get_counterpart_signal s'').0 ≡ none)
    × (s''.trades_since_last_signal ≡ 0)
    × ((r : ℤ) × ((get_snapshot outside.log outside.sqrt "BTC" "ETH"
            (fed outside jump a_pair).tracker).correlation
          ≡ some r)
        × ((abs r ≺ pos 0) ≡ false))
unfolding on_trade quant_system.Prelude.Dict.lookup quant_system.Prelude.Dict.insert
    quant_system.Prelude.Int.div quant_system.Prelude.Int.◌+ℤ◌ quant_system.Prelude.Int.◌*ℤ◌
    quant_system.Prelude.Int.trunc quant_system.Prelude.Int.◌-ℤ◌
legs_come_together_example = legs_come_together outside jump a_pair sells_btc refl
