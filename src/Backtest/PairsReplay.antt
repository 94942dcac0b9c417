-- ===== src/Backtest/PairsReplay.antt =====
-- services/backtest/backtest_svc/evaluator.py: the replay of pairs trading. The tracker that the
-- strategy shares with the loop is the strategy's field. `none` stands for an exception of the
-- strategy; each trade comes with what is taken from outside the code.
pub mod Fills
use quant_system.Prelude.{
  ℕ, String, Bool, true, false, not, ◌||◌, Option, none, some, List, [], ◌∷◌, ◌++◌, get_or,
  if◌then◌else◌, ◌>>=◌,
}
use quant_system.Prelude.Eq.{◌==◌, string_eq}
use quant_system.Prelude.Dict.{Dict, lookup, insert}
use quant_system.Num.{Num, Float, ◌⊗◌, ◌≺◌, ◌≼◌, nought, lit}
use quant_system.Core.Models.{Trade, Signal, Fill}
use quant_system.Alpha.CrossAsset.{on_price, init as new_tracker}
use quant_system.Alpha.PairsTrading.{
  Pairs, Params, Outside, on_trade, get_counterpart_signal, init as new_pairs,
}
use quant_system.Alpha.Strategy.{Outcome, quiet, raised, emitted}
use quant_system.Execution.FillSimulator.{
  Simulator, simulate_fill, Outside as FillOutside, init as new_simulator,
}
use quant_system.Backtest.Replay.{signal_to_order}

module _ ⦃N : Num⦄ where
  pub record Tick : Type 0 where
    pub trade : Trade
    pub strategy_outside : Outside
    pub order_id : String
    pub fill_outside : FillOutside
    pub counterpart_order_id : String
    pub counterpart_outside : FillOutside

  pub record Run : Type 0 where
    pub strategy : Pairs
    pub simulator : Simulator
    pub signals : List Signal
    pub fills : List Fill
    pub latest_price : Dict String Float

  -- A signal at a trade's time: its order, its fill at a spread.
  unfoldable pub fill_leg : String → FillOutside → ℕ → Float → Signal → Run → Run
  unfolding signal_to_order simulate_fill
  fill_leg order_id outside now spread sig r =
      let sig' = record sig { timestamp = now } in
      let (fill, simulator) =
        simulate_fill outside (signal_to_order order_id sig') sig'.mid_price_at_signal spread []
          r.simulator in
      record r {
        simulator = simulator;
        signals = r.signals ++ sig' ∷ [];
        fills = r.fills ++ record fill { timestamp = now } ∷ [];
      }

  -- The counterpart, once the other symbol has a price.
  unfoldable pub fill_counterpart : Tick → Option Signal → Run → Run
  unfolding fill_leg
  fill_counterpart t none r = r
  fill_counterpart t (some sig) r =
      let price = get_or (lookup r.strategy.symbol_b r.latest_price) nought in
      if nought ≺ price
      then fill_leg t.counterpart_order_id t.counterpart_outside t.trade.timestamp_exchange
          (price ⊗ lit 1 4) (record sig { mid_price_at_signal = price }) r
      else r

  -- What a signal leads to: its fill, the question for the counterpart, and that one's fill.
  unfoldable pub fill_both : Tick → Signal → Run → Run
  unfolding fill_leg fill_counterpart get_counterpart_signal
  fill_both t sig r =
      let r' =
        fill_leg t.order_id t.fill_outside t.trade.timestamp_exchange sig.spread_at_signal sig r in
      let (counterpart, strategy) = get_counterpart_signal r'.strategy in
      fill_counterpart t counterpart (record r' { strategy = strategy })

  unfoldable pub proceed : Tick → Outcome × Pairs → Run → Option Run
  unfolding fill_both
  proceed t (raised, strategy) r = none
  proceed t (quiet, strategy) r = some (record r { strategy = strategy })
  proceed t (emitted sig, strategy) r = some (fill_both t sig (record r { strategy = strategy }))

  -- A trade of the second symbol feeds the tracker only.
  unfoldable pub feed_other : Tick → Run → Run
  unfolding on_price
  feed_other t r = record r {
    strategy = record r.strategy {
      tracker = on_price t.trade.symbol t.trade.timestamp_exchange t.trade.price r.strategy.tracker;
    };
  }

  -- One turn of the loop of `_run_pairs_trading`. The strategy takes no part of a book update.
  unfoldable pub run_tick : Tick → Run → Option Run
  unfolding proceed feed_other on_trade
  run_tick t r =
      let symbol = t.trade.symbol in
      let priced = record r { latest_price = insert symbol t.trade.price r.latest_price } in
      if t.trade.price ≼ nought
        || not (symbol == r.strategy.symbol || symbol == r.strategy.symbol_b)
      then some r
      else if symbol == r.strategy.symbol
      then proceed t (on_trade t.strategy_outside t.trade r.strategy) priced
      else some (feed_other t priced)

  unfoldable pub run_ticks : List Tick → Run → Option Run
  unfolding run_tick
  run_ticks [] r = some r
  run_ticks (t ∷ ts) r = do r' ← run_tick t r; run_ticks ts r'

  -- `_run_pairs_trading`: the signals and the fills.
  unfoldable pub run_pairs_trading :
      String
      → String
      → String
      → ℕ
      → Params
      → Option Float
      → List Tick
      → Option (List Signal × List Fill)
  unfolding run_ticks
  run_pairs_trading strategy_id symbol_a symbol_b window params fee_rate ts = do
    r ← run_ticks ts (record {
      strategy = new_pairs strategy_id symbol_a symbol_b (new_tracker window) params;
      simulator = new_simulator fee_rate false (lit 50 0) true;
      signals = [];
      fills = [];
      latest_price = [];
    })
    some (r.signals, r.fills)
