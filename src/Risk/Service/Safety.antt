-- ===== src/Risk/Service/Safety.antt =====
-- An order leaves the gateway only after every check, and never while the breaker is tripped.
use quant_system.Prelude.{
  ◌+◌, ◌≡◌, ◌∙◌, ◌⊎◌, inl, inr, refl, String, false, Option, none, some, List, [], ◌∷◌, ◌++◌, arith,
  Option-cases, Bool-cases, is_none, if◌then◌else◌, ◌||◌,
}
use mathlib.Core.List.{append-nil}
use quant_system.Num.{Num, ◌⊗◌}
use quant_system.Core.Models.{Signal, Order}
use quant_system.Core.CircuitBreaker.{is_tripped}
use quant_system.Risk.Checks.{
  PortfolioState, RiskLimits, check_position_notional, check_order_notional, check_drawdown,
  drawdown_scale_factor, run_risk_checks,
}
use quant_system.Risk.Decision.{run_risk_checks_decides}
use quant_system.Risk.Service.{
  Gateway, Input, Message, risk_event, order_placed, audit_approved, audit_rejected, handle, decide,
  order_for, blocked,
}

module _ ⦃N : Num⦄ where
  -- The orders among the messages.
  abbrev pub orders : List Message → List Order
  orders [] = []
  orders (order_placed o ∷ ms) = o ∷ orders ms
  orders (risk_event d ∷ ms) = orders ms
  orders (audit_approved a b ∷ ms) = orders ms
  orders (audit_rejected a b ∷ ms) = orders ms

  orders-append : (ms ns : List Message) → orders (ms ++ ns) ≡ orders ms ++ orders ns
  orders-append [] ns = refl
  orders-append (order_placed o ∷ ms) ns = ground (arith, orders-append ms ns)
  orders-append (risk_event d ∷ ms) ns = orders-append ms ns
  orders-append (audit_approved a b ∷ ms) ns = orders-append ms ns
  orders-append (audit_rejected a b ∷ ms) ns = orders-append ms ns

  -- What must hold for a round to place an order.
  abbrev pub Justified : RiskLimits → Input → Gateway → Order → Type 0
  Justified limits i g o =
      (sig : Signal) × (state : PortfolioState) × (i.signal ≡ some sig)
      × (i.portfolio ≡ some state)
      × ((is_tripped i.monotonic i.redis g.breaker).0 ≡ false)
      × (check_position_notional sig state limits ≡ false)
      × (check_order_notional sig limits ≡ false)
      × (check_drawdown state limits ≡ false)
      × (o.symbol ≡ sig.symbol)
      × (o.side ≡ sig.side)
      × (o.quantity ≡ sig.target_quantity ⊗ drawdown_scale_factor state)

  decide_places :
      (limits : RiskLimits) (backtest_id : Option String) (i : Input) (sig : Signal)
      (state : PortfolioState) (g : Gateway)
      → let g' = decide limits backtest_id i sig state g in
        let d = run_risk_checks i.now sig state limits none none in
        (orders g'.outbox ≡ orders g.outbox)
        ⊎ ((orders g'.outbox ≡ orders g.outbox ++ order_for i.now i.order_id backtest_id sig d ∷ [])
            × (check_position_notional sig state limits ≡ false)
            × (check_order_notional sig limits ≡ false)
            × (check_drawdown state limits ≡ false)
            × (d.adjusted_quantity ≡ sig.target_quantity ⊗ drawdown_scale_factor state))
  unfolding decide
  decide_places limits backtest_id i sig state g =
      let d = run_risk_checks i.now sig state limits none none in
      elim (run_risk_checks_decides i.now sig state limits none none) [
        | inl (yes', q, _, p, o, dd, _, _) ↦
            rw (yes', decide)
              (inr (
                orders-append g.outbox (
                    risk_event d
                    ∷ order_placed (order_for i.now i.order_id backtest_id sig d)
                    ∷ audit_approved i.order_id sig.signal_id
                    ∷ []),
                p,
                o,
                dd,
                q,
              ))
        | inr (no', _, _) ↦
            rw (no', decide)
              (inl (
                orders-append g.outbox (risk_event d ∷ audit_rejected sig.signal_id sig.symbol ∷ [])
                ∙ append-nil (orders g.outbox)))
      ]

  -- A round places no order, or exactly one, and then the breaker had answered that it is not
  -- tripped, the position, the order and the drawdown checks had passed on the portfolio read in
  -- that round, and the order is the signal's with its quantity scaled by the drawdown.
  pub order_only_after_checks :
      (limits : RiskLimits) (backtest_id : Option String) (i : Input) (g : Gateway)
      → let g' = (handle limits backtest_id i g).0 in
        (orders g'.outbox ≡ orders g.outbox)
        ⊎ ((o : Order) × (orders g'.outbox ≡ orders g.outbox ++ o ∷ []) × Justified limits i g o)
  unfolding handle
  order_only_after_checks limits backtest_id i g = elim (Option-cases i.signal) [
    | inl e ↦ rw (e, handle) (inl refl)
    | inr (sig, e) ↦ elim (Bool-cases (is_tripped i.monotonic i.redis g.breaker).0) [
      | inl halted ↦
          rw (e, handle, halted)
            (inl (
              orders-append g.outbox (risk_event (blocked i.now sig) ∷ [])
              ∙ append-nil (orders g.outbox)))
      | inr live ↦ elim (Option-cases i.portfolio) [
        | inl unread ↦ rw (e, handle, live, unread) (inl refl)
        | inr (state, read) ↦
            let g' = record g { breaker = (is_tripped i.monotonic i.redis g.breaker).1 } in
            elim (decide_places limits backtest_id i sig state g') [
              | inl none' ↦ rw (e, handle, live, read) (inl none')
              | inr (one, p, o, d, q) ↦
                  rw (e, handle, live, read)
                    (inr (
                      order_for i.now i.order_id backtest_id sig
                          (run_risk_checks i.now sig state limits none none),
                      one,
                      (sig, state, refl, refl, refl, p, o, d, refl, refl, q),
                    ))
            ]
      ]
    ]
  ]

  -- Every signal that parses is approved, rejected or blocked, and counted as one of these, unless
  -- the read of the portfolio raised and ended the loop.
  every_signal_counted :
      (limits : RiskLimits) (backtest_id : Option String) (i : Input) (g : Gateway)
      → let (g', ended) = handle limits backtest_id i g in
        g'.approved_count + g'.rejected_count + g'.breaker_blocked
        ≡ g.approved_count
          + g.rejected_count
          + g.breaker_blocked
          + (if is_none i.signal || ended then 0 else 1)
  unfolding handle
  every_signal_counted limits backtest_id i g = ground arith
