-- ===== src/Risk/Checks.antt =====
-- services/risk-gateway/risk_gateway_svc/risk_checks.py. A check answers whether it failed; the
-- text of a failure is only logged.
use quant_system.Prelude.{
  ℕ, String, Bool, true, false, Option, none, some, List, [], ◌∷◌, get_or, nonempty, if◌then◌else◌,
}
use quant_system.Prelude.Eq.{string_eq}
use quant_system.Prelude.Dict.{Dict, lookup}
use quant_system.Num.{Num, Float, ◌⊕◌, ◌⊖◌, ◌⊗◌, ◌⊘◌, ◌≺◌, ◌≼◌, nought, one, abs, lit}
use quant_system.Core.Models.{
  Signal, RiskDecision, approved, rejected_, failures, text, scaled_by_drawdown,
}

module _ ⦃N : Num⦄ where
  pub record PortfolioState : Type 0 where
    pub positions : Dict String Float
    pub unrealized_pnl : Float
    pub realized_pnl : Float
    pub peak_equity : Float
    pub current_equity : Float

  pub record RiskLimits : Type 0 where
    pub max_position_notional : Float
    pub max_order_notional : Float
    pub max_drawdown_pct : Float
    pub max_total_exposure : Float
    pub max_var_pct : Float

  -- The defaults of `RiskLimits`.
  pub default_limits : RiskLimits
  default_limits = record {
    max_position_notional = lit 10_000 0;
    max_order_notional = lit 1_000 0;
    max_drawdown_pct = lit 10 2;
    max_total_exposure = lit 500_000 0;
    max_var_pct = lit 2 2;
  }

  unfoldable pub check_position_notional : Signal → PortfolioState → RiskLimits → Bool
  check_position_notional sig state limits =
      let current_pos = get_or (lookup sig.symbol state.positions) nought in
      let new_pos = current_pos ⊕ sig.target_quantity in
      let price = sig.mid_price_at_signal in
      let new_notional = if nought ≺ price then abs new_pos ⊗ price else nought in
      limits.max_position_notional ≺ new_notional

  unfoldable pub check_order_notional : Signal → RiskLimits → Bool
  check_order_notional sig limits =
      limits.max_order_notional ≺ sig.target_quantity ⊗ sig.mid_price_at_signal

  abbrev pub drawdown : PortfolioState → Float
  drawdown state = (state.peak_equity ⊖ state.current_equity) ⊘ state.peak_equity

  unfoldable pub check_drawdown : PortfolioState → RiskLimits → Bool
  check_drawdown state limits =
      if state.peak_equity ≼ nought then false else limits.max_drawdown_pct ≺ drawdown state

  -- The linear part: from 1.0 at 3% to 0.25 at 7%.
  abbrev pub ramp : Float → Float
  ramp d = one ⊖ (d ⊖ lit 3 2) ⊘ lit 4 2 ⊗ lit 75 2

  unfoldable pub drawdown_scale_factor : PortfolioState → Float
  drawdown_scale_factor state =
      if state.peak_equity ≼ nought
      then one
      else if drawdown state ≼ lit 3 2
      then one
      else if drawdown state ≼ lit 7 2
      then ramp (drawdown state)
      else lit 25 2

  unfoldable pub check_var : RiskLimits → Option Float → Bool
  check_var limits none = false
  check_var limits (some var_pct) = limits.max_var_pct ≺ var_pct

  -- The loop over the positions.
  unfoldable pub exposure_from : Dict String Float → Float → Dict String Float → Float
  exposure_from prices total [] = total
  exposure_from prices total ((sym, qty) ∷ rest) =
      exposure_from prices (total ⊕ abs (qty ⊗ get_or (lookup sym prices) nought)) rest

  unfoldable pub check_total_exposure :
      Signal → PortfolioState → RiskLimits → Option (Dict String Float) → Bool
  unfolding exposure_from
  check_total_exposure sig state limits latest_prices =
      let prices = get_or latest_prices [] in
      let proposed_notional = sig.target_quantity ⊗ sig.mid_price_at_signal in
      limits.max_total_exposure ≺ exposure_from prices nought state.positions ⊕ proposed_notional

  -- The five checks with their names, in the order in which they run.
  pub results :
      Signal
      → PortfolioState
      → RiskLimits
      → Option Float
      → Option (Dict String Float)
      → List (String × Bool)
  results sig state limits var_pct latest_prices =
      ("position_notional", check_position_notional sig state limits)
      ∷ ("order_notional", check_order_notional sig limits)
      ∷ ("drawdown", check_drawdown state limits)
      ∷ ("var", check_var limits var_pct)
      ∷ ("total_exposure", check_total_exposure sig state limits latest_prices)
      ∷ []

  -- The loop that sorts the names.
  abbrev pub names : Bool → List (String × Bool) → List String
  names b [] = []
  names true ((name, failed) ∷ rest) = if failed then name ∷ names true rest else names true rest
  names false ((name, failed) ∷ rest) = if failed then names false rest else name ∷ names false rest

  -- `run_risk_checks`; `now` is the reading of the clock.
  unfoldable pub run_risk_checks :
      ℕ
      → Signal
      → PortfolioState
      → RiskLimits
      → Option Float
      → Option (Dict String Float)
      → RiskDecision
  unfolding results
  run_risk_checks now sig state limits var_pct latest_prices =
      let all = results sig state limits var_pct latest_prices in
      let scale = drawdown_scale_factor state in
      if nonempty (names true all)
      then record {
        signal_id = sig.signal_id;
        decision = rejected_;
        reason = failures (names true all);
        adjusted_quantity = nought;
        timestamp = now;
        checks_passed = names false all;
        checks_failed = names true all;
      }
      else record {
        signal_id = sig.signal_id;
        decision = approved;
        reason = if one ≼ scale then text "all_checks_passed" else scaled_by_drawdown scale;
        adjusted_quantity = sig.target_quantity ⊗ scale;
        timestamp = now;
        checks_passed = names false all;
        checks_failed = [];
      }
