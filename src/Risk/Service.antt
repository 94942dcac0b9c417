-- ===== src/Risk/Service.antt =====
-- services/risk-gateway/risk_gateway_svc/main.py: `consume_loop`, one message at a time. The clock,
-- the new order id, the portfolio read from Redis (`none` if the read raises) and Redis itself
-- are arguments; metrics and logs are left out.
pub mod Safety
pub mod Inputs
use quant_system.Prelude.{
  ℕ, suc, String, Bool, true, false, Option, none, some, List, [], ◌∷◌, ◌++◌, if◌then◌else◌,
}
use quant_system.Num.{Num, Float, ◌≼◌, nought, lit}
use quant_system.Core.Models.{
  Signal, Order, RiskDecision, Decision, approved, rejected_, text, submitted,
}
use quant_system.Core.CircuitBreaker.{Breaker, Redis, is_tripped}
use quant_system.Risk.Checks.{PortfolioState, RiskLimits, run_risk_checks}

module _ ⦃N : Num⦄ where
  -- What the service publishes: decisions, orders, and the two audit events.
  pub data Message : Type 0 where
    risk_event : RiskDecision → Message
    order_placed : Order → Message
    audit_approved audit_rejected : String → String → Message

  pub record Gateway : Type 0 where
    pub breaker : Breaker
    pub approved_count : ℕ
    pub rejected_count : ℕ
    pub breaker_blocked : ℕ
    pub outbox : List Message

  -- What one round of the loop reads: the signal (`none` if it does not parse), the two clocks,
  -- the id for a new order, Redis and the portfolio.
  pub record Input : Type 0 where
    pub signal : Option Signal
    pub monotonic : Float
    pub now : ℕ
    pub order_id : String
    pub redis : Redis
    pub portfolio : Option PortfolioState

  abbrev pub publish : List Message → Gateway → Gateway
  publish ms g = record g { outbox = g.outbox ++ ms }

  -- The decision of a signal that the breaker blocks.
  abbrev pub blocked : ℕ → Signal → RiskDecision
  blocked now sig = record {
    signal_id = sig.signal_id;
    decision = rejected_;
    reason = text "circuit_breaker_tripped";
    adjusted_quantity = nought;
    timestamp = now;
    checks_passed = [];
    checks_failed = "circuit_breaker" ∷ [];
  }

  -- The order for an approved signal: urgent ones at the market, others at the mid price.
  abbrev pub order_for : ℕ → String → Option String → Signal → RiskDecision → Order
  order_for now order_id backtest_id sig d =
      let urgent = lit 8 1 ≼ sig.urgency in
      record {
        order_id = order_id;
        timestamp = now;
        symbol = sig.symbol;
        side = sig.side;
        order_type = if urgent then "MARKET" else "LIMIT";
        quantity = d.adjusted_quantity;
        limit_price = if urgent then none else some sig.mid_price_at_signal;
        status = submitted;
        signal_id = sig.signal_id;
        strategy_id = sig.strategy_id;
        backtest_id = backtest_id;
      }

  -- From the portfolio state on: checks, decision, order or rejection.
  pub decide : RiskLimits → Option String → Input → Signal → PortfolioState → Gateway → Gateway
  decide limits backtest_id i sig state g =
      let d = run_risk_checks i.now sig state limits none none in
      elim d.decision [
        | approved ↦
            publish
              (risk_event d
                ∷ order_placed (order_for i.now i.order_id backtest_id sig d)
                ∷ audit_approved i.order_id sig.signal_id
                ∷ [])
              (record g { approved_count = suc g.approved_count })
        | rejected_ ↦
            publish (risk_event d ∷ audit_rejected sig.signal_id sig.symbol ∷ [])
              (record g { rejected_count = suc g.rejected_count })
      ]

  -- One round of `consume_loop`. The second value says whether an exception ended the loop: the
  -- read of the portfolio stands outside every `try`.
  unfoldable pub handle : RiskLimits → Option String → Input → Gateway → Gateway × Bool
  unfolding decide
  handle limits backtest_id i g = elim i.signal [
    | none ↦ (g, false)
    | some sig ↦
        let (tripped, breaker) = is_tripped i.monotonic i.redis g.breaker in
        let g' = record g { breaker = breaker } in
        if tripped
        then (
          publish (risk_event (blocked i.now sig) ∷ [])
              (record g' { breaker_blocked = suc g.breaker_blocked }),
          false,
        )
        else elim i.portfolio [
          | none ↦ (g', true)
          | some state ↦ (decide limits backtest_id i sig state g', false)
        ]
  ]
