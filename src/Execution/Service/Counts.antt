-- ===== src/Execution/Service/Counts.antt =====
-- The counters of the execution service against what it published.
use quant_system.Prelude.{
  ℕ, suc, ◌+◌, String, ◌≡◌, inl, inr, refl, Option, none, some, List, [], ◌∷◌, ◌++◌, arith, get_or,
  Bool-cases, Option-cases, List-cases,
}
use quant_system.Prelude.Eq.{◌==◌, string_eq}
use quant_system.Prelude.Dict.{lookup}
use quant_system.Num.{Num, Float}
use quant_system.Core.Models.{Order, OrderStatusUpdate, accepted, filled}
use quant_system.Core.CircuitBreaker.{is_tripped}
use quant_system.Execution.StrategyMode.{Manager, get_mode}
use quant_system.Execution.Service.{
  Service, Env, Event, raw_depth, orders, Message, order_status, fill_event, audit_blocked,
  audit_no_client, audit_sent, audit_fill, status_of, publish, moved, settle, reject, accept,
  execute, on_depth, on_order, handle, default_spread,
}
use quant_system.Execution.FillSimulator.{simulate_fill}
use quant_system.Execution.OrderTracker.{only, register_order}

module _ ⦃N : Num⦄ where
  -- The fills, and the orders blocked by the breaker, among the messages.
  abbrev pub fills : List Message → ℕ
  fills [] = 0
  fills (fill_event f ∷ ms) = suc (fills ms)
  fills (order_status u ∷ ms) = fills ms
  fills (audit_blocked k ∷ ms) = fills ms
  fills (audit_no_client k ∷ ms) = fills ms
  fills (audit_sent k j ∷ ms) = fills ms
  fills (audit_fill f ∷ ms) = fills ms

  abbrev pub blocks : List Message → ℕ
  blocks [] = 0
  blocks (audit_blocked k ∷ ms) = suc (blocks ms)
  blocks (fill_event f ∷ ms) = blocks ms
  blocks (order_status u ∷ ms) = blocks ms
  blocks (audit_no_client k ∷ ms) = blocks ms
  blocks (audit_sent k j ∷ ms) = blocks ms
  blocks (audit_fill f ∷ ms) = blocks ms

  counts-append :
      (ms ns : List Message)
      → (fills (ms ++ ns) ≡ fills ms + fills ns) × (blocks (ms ++ ns) ≡ blocks ms + blocks ns)
  counts-append [] ns = (omega arith, omega arith)
  counts-append (fill_event f ∷ ms) ns = ground (arith, counts-append ms ns)
  counts-append (order_status u ∷ ms) ns = counts-append ms ns
  counts-append (audit_blocked k ∷ ms) ns = ground (arith, counts-append ms ns)
  counts-append (audit_no_client k ∷ ms) ns = counts-append ms ns
  counts-append (audit_sent k j ∷ ms) ns = counts-append ms ns
  counts-append (audit_fill f ∷ ms) ns = counts-append ms ns

  -- The counters are the numbers of fills and of blocked orders that were published.
  abbrev pub IsCounted : Service → Type 0
  IsCounted v = (fills v.outbox ≡ v.fill_count) × (blocks v.outbox ≡ v.breaker_blocked)

  counts-status_of :
      (u : Option OrderStatusUpdate) → (fills (status_of u) ≡ 0) × (blocks (status_of u) ≡ 0)
  counts-status_of none = (refl, refl)
  counts-status_of (some u) = (refl, refl)

  -- Messages of neither kind leave the counters right.
  publish-IsCounted :
      (ms : List Message) (v : Service)
      → (fills ms ≡ 0) × (blocks ms ≡ 0)
      → IsCounted v
      → IsCounted (publish ms v)
  publish-IsCounted ms v h c = ground (arith, counts-append v.outbox ms)

  accept-IsCounted :
      (env : Env) (order : Order) (v : Service) → IsCounted v → IsCounted (accept env order v)
  unfolding accept moved
  accept-IsCounted env order v c =
      let t = register_order env.now env.now env.written order v.tracker in
      let (u, v') = moved env order.order_id (only accepted) (record v { tracker = t }) in
      publish-IsCounted (status_of u) v' (counts-status_of u) c

  settle-IsCounted :
      (env : Env) (order : Order) (mode : String) (mid spread : Float) (v : Service)
      → IsCounted v
      → IsCounted (settle env order mode mid spread v)
  unfolding settle moved
  settle-IsCounted env order mode mid spread v c =
      let (simulated, simulator) = simulate_fill env.simulation order mid spread [] v.simulator in
      let f = record simulated { trading_mode = mode } in
      let u =
        (moved env order.order_id
          (record (only filled) { filled_quantity = f.quantity; avg_fill_price = f.fill_price })
          (record v { simulator = simulator })).0 in
      omega (
        arith,
        counts-append v.outbox (status_of u ++ fill_event f ∷ audit_fill f ∷ []),
        counts-append (status_of u) (fill_event f ∷ audit_fill f ∷ []),
        counts-status_of u,
        c,
      )

  reject-IsCounted :
      (env : Env) (order : Order) (reason : String) (v : Service)
      → IsCounted v
      → IsCounted (reject env order reason v)
  unfolding reject moved
  reject-IsCounted env order reason v c = c

  execute-IsCounted :
      (env : Env) (order : Order) (mode : String) (mid spread : Float) (v : Service)
      → IsCounted v
      → IsCounted (execute env order mode mid spread v)
  unfolding execute
  execute-IsCounted env order mode mid spread v c = elim (Bool-cases (mode == "live")) [
    | inr paper ↦ rw (paper, execute) (settle-IsCounted env order mode mid spread v c)
    | inl live ↦ elim (Option-cases env.client) [
      | inl e ↦
          rw (live, execute, e)
            (publish-IsCounted (audit_no_client order.order_id ∷ [])
              (reject env order "live_client_unavailable" v) (refl, refl) c)
      | inr (place_order, e) ↦ elim (Option-cases (place_order order)) [
        | inl f ↦ rw (live, execute, e, f) (reject-IsCounted env order "exchange_error" v c)
        | inr (id, f) ↦
            rw (live, execute, e, f)
              (settle-IsCounted env order mode mid spread
                (publish (audit_sent order.order_id id ∷ []) v)
                (publish-IsCounted (audit_sent order.order_id id ∷ []) v (refl, refl) c))
      ]
    ]
  ]

  on_order-IsCounted :
      (env : Env) (modes : Manager) (order : Order) (v : Service)
      → IsCounted v
      → IsCounted (on_order env modes order v)
  unfolding on_order
  on_order-IsCounted env modes order v c =
      elim (Option-cases (lookup (env.upper order.symbol) v.latest_mid)) [
        | inl e ↦ rw (e, on_order) c
        | inr (mid, e) ↦
            rw (e, on_order)
              (execute-IsCounted env order (get_mode order.strategy_id modes) mid
                (get_or (lookup (env.upper order.symbol) v.latest_spread) default_spread)
                (accept env order v) (accept-IsCounted env order v c))
      ]

  -- Whatever message arrives, the fill counter and the breaker's counter stay the numbers of
  -- fills and of blocked orders that the service published.
  pub handle-IsCounted :
      (env : Env) (modes : Manager) (event : Event) (v : Service)
      → IsCounted v
      → IsCounted (handle env modes event v)
  unfolding handle on_depth
  handle-IsCounted env modes (raw_depth none) v c = c
  handle-IsCounted env modes (raw_depth (some depth)) v c = elim (List-cases depth.bids) [
    | inl e ↦ rw (e, handle, on_depth) c
    | inr (b, bs, e) ↦ elim (List-cases depth.asks) [
      | inl f ↦ rw (e, handle, on_depth, f) c
      | inr (a, as', f) ↦ rw (e, handle, on_depth, f) c
    ]
  ]
  handle-IsCounted env modes (orders none) v c = c
  handle-IsCounted env modes (orders (some order)) v c =
      elim (Bool-cases (is_tripped env.monotonic env.redis v.breaker).0) [
        | inl halted ↦
            rw (halted, handle)
              (omega (arith, counts-append v.outbox (audit_blocked order.order_id ∷ []), c))
        | inr open' ↦
            rw (open', handle)
              (on_order-IsCounted env modes order
                (record v { breaker = (is_tripped env.monotonic env.redis v.breaker).1 }) c)
      ]
