-- ===== src/PostTrade/State/Summaries.antt =====
-- services/post-trade/post_trade_svc/state.py: what the dashboard and the Redis sync read. The
-- built-in `round(x, n)`, `str.upper` and the roots are arguments. `none` stands for a
-- ZeroDivisionError.
use quant_system.Prelude.{
  ℕ, String, Bool, true, ◌||◌, Option, none, some, List, [], ◌∷◌, map, length, keep, nonempty, ltb,
  get_or, if◌then◌else◌, ◌>>=◌,
}
use quant_system.Prelude.Eq.{◌==◌, string_eq}
use quant_system.Prelude.Dict.{Dict, lookup}
use quant_system.Prelude.Window.{latest}
use quant_system.Num.{Num, Float, ◌⊖◌, ◌⊗◌, ◌⊘◌, ◌≺◌, ◌≈◌, nought, lit, sum_from}
use quant_system.PostTrade.Pnl.{
  Position, unrealized_pnl, total_realized_pnl, total_unrealized_pnl, total_fees,
}
use quant_system.PostTrade.Tca.{TcaResult}
use quant_system.PostTrade.Metrics.{
  Ratio, finite, infinite, compute_sharpe, compute_sortino, compute_max_drawdown, compute_calmar,
}
use quant_system.PostTrade.State.{State, FillRecord, EquitySnapshot, compute_equity}

module _ ⦃N : Num⦄ where
  -- `if symbol` on an optional text: the empty text is no filter.
  abbrev pub passes : (String → String) → Option String → String → Bool
  passes upper none sym = true
  passes upper (some s) sym = s == "" || sym == upper s

  -- The divisor of an average.
  abbrev pub average : List Float → Float
  unfolding sum_from
  average xs = sum_from nought xs ⊘ lit (length xs) 0

  pub record PnlRow : Type 0 where
    pub quantity : Float
    pub avg_entry_price : Float
    pub realized_pnl : Float
    pub unrealized_pnl : Float
    pub total_fees : Float
    pub current_price : Float

  pub record PnlSummary : Type 0 where
    pub initial_equity : Float
    pub current_equity : Float
    pub total_realized_pnl : Float
    pub total_unrealized_pnl : Float
    pub total_fees : Float
    pub total_return_pct : Float
    pub positions : Dict String PnlRow
    pub num_fills : ℕ

  pub record TcaAverages : Type 0 where
    pub spread_cost_bps : Float
    pub slippage_bps : Float
    pub market_impact_bps : Float
    pub fee_bps : Float
    pub total_cost_bps : Float

  pub record RiskMetrics : Type 0 where
    pub sharpe_ratio : Float
    pub sortino_ratio : Ratio
    pub calmar_ratio : Float
    pub max_drawdown_pct : Float
    pub max_drawdown_duration_periods : ℕ
    pub total_return_pct : Float
    pub annualized_return_pct : Float
    pub win_rate_pct : Float
    pub profit_factor : Float
    pub num_trades : ℕ
    pub current_equity : Float
    pub peak_equity : Float

  pub record DrawdownData : Type 0 where
    pub equity_curve : List (ℕ × Float)
    pub drawdown_curve : List (ℕ × Float)
    pub current_drawdown_pct : Float

  pub record FillSummary : Type 0 where
    pub total_fills : ℕ
    pub buy_fills : ℕ
    pub sell_fills : ℕ
    pub avg_slippage_bps : Float
    pub total_fees : Float

  module _ (round : Float → ℕ → Float) where
    unfoldable pub pnl_row : Dict String Float → String → Position → PnlRow
    unfolding unrealized_pnl
    pnl_row prices sym p =
        let price = get_or (lookup sym prices) p.avg_entry_price in
        record {
          quantity = p.quantity;
          avg_entry_price = round p.avg_entry_price 2;
          realized_pnl = round p.realized_pnl 2;
          unrealized_pnl = round (unrealized_pnl price p) 2;
          total_fees = round p.total_fees 4;
          current_price = round price 2;
        }

    -- `get_pnl_summary`
    unfoldable pub get_pnl_summary : (String → String) → Option String → State → Option PnlSummary
    unfolding compute_equity pnl_row
    get_pnl_summary upper symbol st =
        let equity = compute_equity st in
        let shown = keep (λ (e : String × Position). passes upper symbol e.0) st.positions in
        if st.initial_equity ≈ nought
        then none
        else some (record {
          initial_equity = st.initial_equity;
          current_equity = round equity 2;
          total_realized_pnl = round (total_realized_pnl st.positions) 2;
          total_unrealized_pnl = round (total_unrealized_pnl st.latest_prices st.positions) 2;
          total_fees = round (total_fees st.positions) 4;
          total_return_pct =
              round (((equity ⊖ st.initial_equity) ⊘ st.initial_equity) ⊗ lit 100 0) 4;
          positions =
              map (λ (e : String × Position). (e.0, pnl_row st.latest_prices e.0 e.1)) shown;
          num_fills = st.total_fills;
        })

    abbrev pub averages : List TcaResult → TcaAverages
    averages results = record {
      spread_cost_bps = round (average (map (λ (t : TcaResult). t.spread_cost_bps) results)) 2;
      slippage_bps = round (average (map (λ (t : TcaResult). t.slippage_bps) results)) 2;
      market_impact_bps = round (average (map (λ (t : TcaResult). t.market_impact_bps) results)) 2;
      fee_bps = round (average (map (λ (t : TcaResult). t.fee_bps) results)) 2;
      total_cost_bps = round (average (map (λ (t : TcaResult). t.total_cost_bps) results)) 2;
    }

    abbrev pub rounded_costs : TcaResult → TcaAverages
    rounded_costs t = record {
      spread_cost_bps = round t.spread_cost_bps 2;
      slippage_bps = round t.slippage_bps 2;
      market_impact_bps = round t.market_impact_bps 2;
      fee_bps = round t.fee_bps 2;
      total_cost_bps = round t.total_cost_bps 2;
    }

    -- `get_tca_summary`: the last hundred fills, each with its id, and the averages if there are
    -- any results, and their number.
    unfoldable pub get_tca_summary :
        (String → String)
        → Option String
        → State
        → List (String × TcaAverages) × Option (TcaAverages × ℕ)
    unfolding latest
    get_tca_summary upper symbol st =
        let results = keep (λ (t : TcaResult). passes upper symbol t.symbol) st.tca_results in
        if nonempty results
        then (
          map (λ (t : TcaResult). (t.fill_id, rounded_costs t)) (latest 100 results),
          some (averages results, length results),
        )
        else ([], none)

    -- `get_risk_metrics`, first from the drawdown on.
    abbrev pub rounded_ratio : Ratio → Ratio
    rounded_ratio (finite x) = finite (round x 4)
    rounded_ratio infinite = infinite

    unfoldable pub risk_metrics :
        (Float → Float) → (Float → Float) → Float → ℕ → State → Option RiskMetrics
    unfolding compute_equity latest
    risk_metrics sqrt half_power max_dd max_dd_dur st =
        let equity = compute_equity st in
        let returns = latest 365 st.daily_returns in
        let total_return = (equity ⊖ st.initial_equity) ⊘ st.initial_equity in
        let n_periods = if nonempty returns then length returns else 1 in
        let annualized = total_return ⊗ (lit 365 0 ⊘ lit n_periods 0) in
        if st.initial_equity ≈ nought
        then none
        else some (record {
          sharpe_ratio = round (compute_sharpe sqrt half_power returns nought) 4;
          sortino_ratio = rounded_ratio (compute_sortino sqrt half_power returns nought);
          calmar_ratio = round (compute_calmar annualized max_dd) 4;
          max_drawdown_pct = round (max_dd ⊗ lit 100 0) 4;
          max_drawdown_duration_periods = max_dd_dur;
          total_return_pct = round (total_return ⊗ lit 100 0) 4;
          annualized_return_pct = round (annualized ⊗ lit 100 0) 4;
          win_rate_pct =
              round
                ((if ltb 0 st.total_fills
                    then lit st.winning_fills 0 ⊘ lit st.total_fills 0
                    else nought)
                  ⊗ lit 100 0)
                2;
          profit_factor =
              round (if nought ≺ st.gross_loss then st.gross_profit ⊘ st.gross_loss else nought) 4;
          num_trades = st.total_fills;
          current_equity = round equity 2;
          peak_equity = round st.peak_equity 2;
        })

    unfoldable pub get_risk_metrics : (Float → Float) → (Float → Float) → State → Option RiskMetrics
    unfolding risk_metrics
    get_risk_metrics sqrt half_power st = do
      (max_dd, max_dd_dur) ←
          compute_max_drawdown (map (λ (s : EquitySnapshot). s.equity) st.equity_curve)
      risk_metrics sqrt half_power max_dd max_dd_dur st

    -- `get_drawdown_data`
    abbrev pub drop_from : Float → Float → Float
    drop_from peak equity = if nought ≺ peak then (peak ⊖ equity) ⊘ peak else nought

    unfoldable pub drawdown_from : Float → List EquitySnapshot → List (ℕ × Float)
    drawdown_from peak [] = []
    drawdown_from peak (s ∷ ss) =
        let peak' = if peak ≺ s.equity then s.equity else peak in
        (s.timestamp, round (drop_from peak' s.equity ⊗ lit 100 0) 4) ∷ drawdown_from peak' ss

    unfoldable pub get_drawdown_data : State → DrawdownData
    unfolding compute_equity latest drawdown_from
    get_drawdown_data st =
        let curve = latest 500 st.equity_curve in
        if nonempty st.equity_curve
        then record {
          equity_curve = map (λ (s : EquitySnapshot). (s.timestamp, round s.equity 2)) curve;
          drawdown_curve = drawdown_from st.initial_equity curve;
          current_drawdown_pct = round (drop_from st.peak_equity (compute_equity st) ⊗ lit 100 0) 4;
        }
        else record { equity_curve = []; drawdown_curve = []; current_drawdown_pct = nought }

    -- `get_fill_analysis`: the summary; the fills it lists are the last hundred, with rounded
    -- prices.
    abbrev pub shown_fill : FillRecord → FillRecord
    shown_fill f = record f {
      fill_price = round f.fill_price 2;
      fee = round f.fee 4;
      slippage_bps = round f.slippage_bps 2;
    }

    unfoldable pub get_fill_analysis :
        (String → String) → Option String → State → List FillRecord × Option FillSummary
    unfolding latest
    get_fill_analysis upper symbol st =
        let filtered = keep (λ (f : FillRecord). passes upper symbol f.symbol) st.fills in
        if nonempty filtered
        then (
          map shown_fill (latest 100 filtered),
          some (record {
            total_fills = length filtered;
            buy_fills = length (keep (λ (f : FillRecord). f.side == "BUY") filtered);
            sell_fills = length (keep (λ (f : FillRecord). f.side == "SELL") filtered);
            avg_slippage_bps =
                round (average (map (λ (f : FillRecord). f.slippage_bps) filtered)) 2;
            total_fees = round (total_fees st.positions) 4;
          }),
        )
        else ([], none)
