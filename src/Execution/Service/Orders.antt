-- ===== src/Execution/Service/Orders.antt =====
-- What becomes of an order that reaches the execution service.
use quant_system.Prelude.{
  ℕ, suc, String, Bool, true, false, ◌≡◌, inl, inr, refl, sym, subst, Option, none, some, is_none,
  [], ◌∷◌, ◌||◌, not, Bool-cases, Option-cases, if◌then◌else◌,
}
use quant_system.Prelude.Eq.{◌==◌, string_eq}
use quant_system.Prelude.Dict.{lookup, insert, lookup-insert_self}
use quant_system.Num.{Num, Float}
use quant_system.Core.Models.{Order, OrderStatus, accepted, filled, rejected}
use quant_system.Execution.OrderTracker.{
  OrderState, Change, allowed, only, new_state, register_order, transition, apply_change,
}
use quant_system.Execution.OrderTracker.Transition.{orders-persist}
use quant_system.Execution.FillSimulator.{simulate_fill}
use quant_system.Execution.StrategyMode.{Manager, get_mode}
use quant_system.Execution.Service.{
  Service, Env, audit_sent, publish, moved, settle, reject, accept, execute, on_order,
}

module _ ⦃N : Num⦄ where
  -- A move that the table lists, and one that it does not, made by the service.
  moved_listed :
      (env : Env) (k : String) (c : Change) (v : Service) (s : OrderState)
      → lookup k v.tracker.orders ≡ some s
      → allowed s.status c.new_status ≡ true
      → lookup k (moved env k c v).1.tracker.orders ≡ some (apply_change env.now c s)
  unfolding moved transition
  moved_listed env k c v s e yes' =
      rw (e, moved, transition, yes', orders-persist)
        (lookup-insert_self k (apply_change env.now c s) v.tracker.orders)

  moved_unlisted :
      (env : Env) (k : String) (c : Change) (v : Service) (s : OrderState)
      → lookup k v.tracker.orders ≡ some s
      → allowed s.status c.new_status ≡ false
      → (moved env k c v).1 ≡ v
  unfolding moved transition
  moved_unlisted env k c v s e no' = rw (e, moved, transition, no') refl

  apply_change-status :
      (now : ℕ) (c : Change) (s : OrderState) → (apply_change now c s).status ≡ c.new_status
  unfolding apply_change
  apply_change-status now c s = refl

  -- The state of an order in the tracker.
  abbrev pub Has : String → OrderStatus → Service → Type 0
  Has k status v = (s : OrderState) × (lookup k v.tracker.orders ≡ some s) × (s.status ≡ status)

  accept-Has :
      (env : Env) (order : Order) (v : Service) → Has order.order_id accepted (accept env order v)
  unfolding accept register_order
  accept-Has env order v =
      let s = new_state env.now env.now order in
      let t = register_order env.now env.now env.written order v.tracker in
      (
        apply_change env.now (only accepted) s,
        moved_listed env order.order_id (only accepted) (record v { tracker = t }) s
            (rw
              (orders-persist env.written order.order_id s
                (record v.tracker { orders = insert order.order_id s v.tracker.orders }))
              (lookup-insert_self order.order_id s v.tracker.orders))
            refl,
        apply_change-status env.now (only accepted) s,
      )

  accept-fill_count :
      (env : Env) (order : Order) (v : Service) → (accept env order v).fill_count ≡ v.fill_count
  unfolding accept moved
  accept-fill_count env order v = refl

  reject-Has :
      (env : Env) (order : Order) (reason : String) (v : Service)
      → Has order.order_id accepted v
      → Has order.order_id accepted (reject env order reason v)
        × ((reject env order reason v).fill_count ≡ v.fill_count)
  unfolding reject
  reject-Has env order reason v (s, e, a) =
      subst (λ (w : Service). Has order.order_id accepted w × (w.fill_count ≡ v.fill_count))
        (sym (
          moved_unlisted env order.order_id (record (only rejected) { reason = reason }) v s e
            (rw a refl)))
        ((s, e, a), refl)

  settle-Has :
      (env : Env) (order : Order) (mode : String) (mid spread : Float) (v : Service)
      → Has order.order_id accepted v
      → Has order.order_id filled (settle env order mode mid spread v)
        × ((settle env order mode mid spread v).fill_count ≡ suc v.fill_count)
  unfolding settle moved
  settle-Has env order mode mid spread v (s, e, a) =
      let (f, simulator) = simulate_fill env.simulation order mid spread [] v.simulator in
      let c = record (only filled) {
        filled_quantity = f.quantity;
        avg_fill_price = f.fill_price;
      } in
      (
        (
          apply_change env.now c s,
          moved_listed env order.order_id c (record v { simulator = simulator }) s e (rw a refl),
          apply_change-status env.now c s,
        ),
        refl,
      )

  -- What `client.place_order` answers, if there is a client.
  abbrev pub exchange_id : Env → Order → Option String
  exchange_id env order = elim env.client [ none ↦ none | some place_order ↦ place_order order ]

  -- The strategy trades on paper, or the exchange took the order.
  abbrev pub goes_through : Env → Order → String → Bool
  goes_through env order mode = not (mode == "live") || not (is_none (exchange_id env order))

  execute-outcome :
      (env : Env) (order : Order) (mode : String) (mid spread : Float) (v : Service)
      → Has order.order_id accepted v
      → let v' = execute env order mode mid spread v in
        let through = goes_through env order mode in
        Has order.order_id (if through then filled else accepted) v'
        × (v'.fill_count ≡ (if through then suc v.fill_count else v.fill_count))
  unfolding execute
  execute-outcome env order mode mid spread v h = elim (Bool-cases (mode == "live")) [
    | inr paper ↦ rw (paper, execute) (settle-Has env order mode mid spread v h)
    | inl live ↦ elim (Option-cases env.client) [
      | inl e ↦ rw (live, execute, e) (reject-Has env order "live_client_unavailable" v h)
      | inr (place_order, e) ↦ elim (Option-cases (place_order order)) [
        | inl f ↦ rw (live, execute, e, f) (reject-Has env order "exchange_error" v h)
        | inr (id, f) ↦
            rw (live, execute, e, f)
              (settle-Has env order mode mid spread (publish (audit_sent order.order_id id ∷ []) v)
                h)
      ]
    ]
  ]

  -- An order of a symbol with market data, once the breaker let it through: traded on paper or
  -- taken by the exchange it ends `filled` and one fill is counted; if the exchange fails or there
  -- is no client, no fill is counted and the order is still `accepted`, so it is not rejected as
  -- the call of `transition` there asks.
  pub order_outcome :
      (env : Env) (modes : Manager) (order : Order) (v : Service) (mid : Float)
      → lookup (env.upper order.symbol) v.latest_mid ≡ some mid
      → let v' = on_order env modes order v in
        let through = goes_through env order (get_mode order.strategy_id modes) in
        Has order.order_id (if through then filled else accepted) v'
        × (v'.fill_count ≡ (if through then suc v.fill_count else v.fill_count))
  unfolding on_order
  order_outcome env modes order v mid e =
      rw (e, on_order)
        (execute-outcome env order (get_mode order.strategy_id modes) mid _ (accept env order v)
          (accept-Has env order v))
