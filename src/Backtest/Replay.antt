-- ===== src/Backtest/Replay.antt =====
-- services/backtest/backtest_svc/evaluator.py: the replay of a strategy on one symbol. The trades
-- are as `_dict_to_trade` converts them; each comes with what the strategy and the simulator take
-- from outside the code. `none` stands for an exception of the strategy.
pub mod Pairing
use quant_system.Prelude.{
  ℕ, String, Bool, true, false, not, Option, none, some, List, [], ◌∷◌, ◌++◌, if◌then◌else◌, ◌>>=◌,
  length,
}
use quant_system.Prelude.Eq.{◌==◌, string_eq}
use quant_system.Num.{Num, Float, ◌⊕◌, ◌⊖◌, ◌⊗◌, ◌⊘◌, ◌≺◌, ◌≼◌, nought, one, lit}
use quant_system.Core.Models.{Trade, DepthUpdate, Signal, Order, Fill, submitted}
use quant_system.Alpha.Strategy.{
  Style, Params, Strategy, Outcome, quiet, raised, emitted, on_book_update, on_trade, Outside,
  init as new_strategy,
}
use quant_system.Execution.FillSimulator.{
  Simulator, simulate_fill, Outside as FillOutside, init as new_simulator,
}

module _ ⦃N : Num⦄ where
  -- One element of the input.
  pub record Tick : Type 0 where
    pub trade : Trade
    pub strategy_outside : Outside
    pub fill_outside : FillOutside
    pub order_id : String

  -- `_signal_to_order`, with the id that `Order` makes.
  unfoldable pub signal_to_order : String → Signal → Order
  signal_to_order order_id sig =
      let urgent = lit 8 1 ≼ sig.urgency in
      record {
        order_id = order_id;
        timestamp = sig.timestamp;
        symbol = sig.symbol;
        side = sig.side;
        order_type = if urgent then "MARKET" else "LIMIT";
        quantity = sig.target_quantity;
        limit_price = if urgent then none else some sig.mid_price_at_signal;
        status = submitted;
        signal_id = sig.signal_id;
        strategy_id = sig.strategy_id;
        backtest_id = none;
      }

  -- The synthetic update: a spread of one basis point about the trade's price.
  unfoldable pub synthetic_book : String → Float → DepthUpdate
  synthetic_book symbol price =
      let half_spread = price ⊗ lit 5 5 in
      record {
        exchange = "";
        symbol = symbol;
        first_update_id = 0;
        final_update_id = 0;
        bids = (price ⊖ half_spread, one) ∷ [];
        asks = (price ⊕ half_spread, one) ∷ [];
        timestamp_exchange = 0;
        timestamp_ingested = 0;
      }

  -- The configured slippage, on top of the fill.
  unfoldable pub slipped : Float → String → Fill → Fill
  slipped slippage_bps side f =
      let extra_slip = f.fill_price ⊗ slippage_bps ⊘ lit 10_000 0 in
      if nought ≺ slippage_bps
      then record f {
        fill_price = if side == "BUY" then f.fill_price ⊕ extra_slip else f.fill_price ⊖ extra_slip;
        slippage_bps = f.slippage_bps ⊕ slippage_bps;
      }
      else f

  -- The strategy and the simulator, and what has come of them.
  pub record Run : Type 0 where
    pub strategy : Strategy
    pub simulator : Simulator
    pub signals : List Signal
    pub fills : List Fill

  -- From the signal on: its time, the order, the fill.
  unfoldable pub fill_signal : Float → Tick → Signal → Run → Run
  unfolding signal_to_order slipped simulate_fill
  fill_signal slippage_bps t sig r =
      let sig' = record sig { timestamp = t.trade.timestamp_exchange } in
      let order = signal_to_order t.order_id sig' in
      let (fill, simulator) =
        simulate_fill t.fill_outside order sig'.mid_price_at_signal sig'.spread_at_signal []
          r.simulator in
      let timed = record fill { timestamp = t.trade.timestamp_exchange } in
      record r {
        simulator = simulator;
        signals = r.signals ++ sig' ∷ [];
        fills = r.fills ++ slipped slippage_bps order.side timed ∷ [];
      }

  -- What the strategy's answer leads to.
  unfoldable pub proceed : Float → Tick → Outcome × Strategy → Run → Option Run
  unfolding fill_signal
  proceed slippage_bps t (raised, strategy) r = none
  proceed slippage_bps t (quiet, strategy) r = some (record r { strategy = strategy })
  proceed slippage_bps t (emitted sig, strategy) r =
      some (fill_signal slippage_bps t sig (record r { strategy = strategy }))

  -- The strategy's answer to a trade, after the synthetic update.
  unfoldable pub answer : Style → String → Tick → Run → Outcome × Strategy
  unfolding on_trade on_book_update synthetic_book
  answer style symbol t r =
      on_trade style t.strategy_outside t.trade
        (on_book_update (synthetic_book symbol t.trade.price) r.strategy)

  -- One turn of the loop of `_run_single_symbol`.
  unfoldable pub run_tick : Style → String → Float → Tick → Run → Option Run
  unfolding proceed answer
  run_tick style symbol slippage_bps t r =
      if t.trade.price ≼ nought then some r else proceed slippage_bps t (answer style symbol t r) r

  unfoldable pub run_ticks : Style → String → Float → List Tick → Run → Option Run
  unfolding run_tick
  run_ticks style symbol slippage_bps [] r = some r
  run_ticks style symbol slippage_bps (t ∷ ts) r = do
    r' ← run_tick style symbol slippage_bps t r
    run_ticks style symbol slippage_bps ts r'

  -- `_run_single_symbol`: the signals and the fills.
  unfoldable pub run_single_symbol :
      Style
      → String
      → String
      → Params
      → Option Float
      → Float
      → List Tick
      → Option (List Signal × List Fill)
  unfolding run_ticks
  run_single_symbol style strategy_id symbol params fee_rate slippage_bps ts = do
    r ← run_ticks style symbol slippage_bps ts (record {
      strategy = new_strategy strategy_id symbol params;
      simulator = new_simulator fee_rate false (lit 50 0) true;
      signals = [];
      fills = [];
    })
    some (r.signals, r.fills)
