-- ===== src/PostTrade/State.antt =====
-- services/post-trade/post_trade_svc/state.py: the in-memory state that each fill, signal and price
-- updates. The lock makes a method one step.
pub mod Invariant
pub mod Worth
pub mod Equity
pub mod Summaries
use quant_system.Prelude.{
  ℕ, suc, String, Bool, true, false, Option, none, some, List, [], ◌∷◌, ◌++◌, get_or, ltb,
  if◌then◌else◌,
}
use quant_system.Prelude.Eq.{string_eq}
use quant_system.Prelude.Dict.{Dict, lookup, insert}
use quant_system.Num.{Num, Float, ◌⊕◌, ◌⊖◌, ◌⊘◌, ◌≺◌, ◌≈◌, nought, abs}
use quant_system.PostTrade.Pnl.{
  Position, apply_fill, get_or_create, total_realized_pnl, total_unrealized_pnl, total_fees,
}
use quant_system.PostTrade.Tca.{TcaResult, analyze_fill}
use quant_system.PostTrade.AlphaDecay.{
  Tracker, init as decay_init, record_signal as track_signal, on_trade as decay_on_trade,
}

module _ ⦃N : Num⦄ where
  pub record FillRecord : Type 0 where
    pub fill_id : String
    pub timestamp : ℕ
    pub symbol : String
    pub side : String
    pub quantity : Float
    pub fill_price : Float
    pub fee : Float
    pub slippage_bps : Float
    pub strategy_id : String
    pub decision_price : Float
    pub trading_mode : String

  pub record EquitySnapshot : Type 0 where
    pub timestamp : ℕ
    pub equity : Float
    pub realized_pnl : Float
    pub unrealized_pnl : Float

  -- `PostTradeState`; the lists are in the order of the source, newest last.
  pub record State : Type 0 where
    pub initial_equity : Float
    pub positions : Dict String Position
    pub fills : List FillRecord
    pub tca_results : List TcaResult
    pub equity_curve : List EquitySnapshot
    pub daily_returns : List Float
    pub latest_prices : Dict String Float
    pub total_fills : ℕ
    pub winning_fills : ℕ
    pub gross_profit : Float
    pub gross_loss : Float
    pub peak_equity : Float
    pub alpha_decay : Tracker

  -- `PostTradeState.__init__`
  unfoldable pub init : Float → State
  init equity = record {
    initial_equity = equity;
    positions = [];
    fills = [];
    tca_results = [];
    equity_curve = [];
    daily_returns = [];
    latest_prices = [];
    total_fills = 0;
    winning_fills = 0;
    gross_profit = nought;
    gross_loss = nought;
    peak_equity = equity;
    alpha_decay = decay_init [] 1000;
  }

  -- `_compute_equity`
  unfoldable pub compute_equity : State → Float
  compute_equity st =
      st.initial_equity
      ⊕ total_realized_pnl st.positions
      ⊕ total_unrealized_pnl st.latest_prices st.positions
      ⊖ total_fees st.positions

  -- The first part of `process_fill`: position, PnL and the win/loss counters.
  unfoldable pub book_fill : FillRecord → State → State
  book_fill fill st =
      let (realized, pos) =
        apply_fill fill.quantity fill.fill_price fill.fee fill.side
          (get_or_create fill.symbol st.positions) in
      let won = nought ≺ realized in
      record st {
        positions = insert fill.symbol pos st.positions;
        total_fills = suc st.total_fills;
        winning_fills = if won then suc st.winning_fills else st.winning_fills;
        gross_profit = if won then st.gross_profit ⊕ realized else st.gross_profit;
        gross_loss =
            if won
            then st.gross_loss
            else if realized ≺ nought
            then st.gross_loss ⊕ abs realized
            else st.gross_loss;
      }

  -- `_equity_curve[-1]`, before the new point is appended.
  abbrev pub last : List EquitySnapshot → Option EquitySnapshot
  last [] = none
  last (s ∷ []) = some s
  last (s ∷ r ∷ ss) = last (r ∷ ss)

  abbrev pub return_since : Option EquitySnapshot → Float → List Float
  return_since none equity = []
  return_since (some s) equity =
      if nought ≺ s.equity then ((equity ⊖ s.equity) ⊘ s.equity) ∷ [] else []

  -- The last part: TCA result, fill, equity curve, peak and return.
  unfoldable pub record_fill : FillRecord → TcaResult → State → State
  unfolding compute_equity
  record_fill fill tca st =
      let equity = compute_equity st in
      record st {
        tca_results = st.tca_results ++ tca ∷ [];
        fills = st.fills ++ fill ∷ [];
        equity_curve =
            st.equity_curve
            ++ record {
              timestamp = fill.timestamp;
              equity = equity;
              realized_pnl = total_realized_pnl st.positions;
              unrealized_pnl = total_unrealized_pnl st.latest_prices st.positions;
            }
              ∷ [];
        peak_equity = if st.peak_equity ≺ equity then equity else st.peak_equity;
        daily_returns = st.daily_returns ++ return_since (last st.equity_curve) equity;
      }

  -- The call of `analyze_fill` in `process_fill`.
  unfoldable pub analyze : FillRecord → State → Option TcaResult
  analyze fill st =
      let arrival = get_or (lookup fill.symbol st.latest_prices) fill.fill_price in
      analyze_fill fill.fill_id fill.symbol fill.side
        (if fill.decision_price ≈ nought then arrival else fill.decision_price) arrival
        fill.fill_price fill.fee fill.quantity

  -- `process_fill`. The second value says whether the call raised: the division in
  -- `analyze_fill` does so after the fill was booked, and the state keeps what was written.
  unfoldable pub process_fill : FillRecord → State → State × Bool
  unfolding book_fill record_fill analyze
  process_fill fill st =
      let booked = book_fill fill st in
      elim (analyze fill booked) [
        | none ↦ (booked, true)
        | some tca ↦ (record_fill fill tca booked, false)
      ]

  -- `record_signal`
  unfoldable pub record_signal :
      (String → String) → String → ℕ → String → String → String → Float → Float → State → State
  record_signal upper signal_id timestamp_ms strategy_id symbol side strength mid_price st =
      record st {
        alpha_decay =
            track_signal upper signal_id timestamp_ms strategy_id symbol side strength mid_price
              st.alpha_decay;
      }

  -- `update_price`
  unfoldable pub update_price : String → Float → ℕ → State → State
  update_price symbol price timestamp_ms st = record st {
    latest_prices = insert symbol price st.latest_prices;
    alpha_decay =
        if ltb 0 timestamp_ms
        then decay_on_trade symbol timestamp_ms price st.alpha_decay
        else st.alpha_decay;
  }
