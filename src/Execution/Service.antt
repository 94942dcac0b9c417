-- ===== src/Execution/Service.antt =====
-- services/execution/execution_svc/main.py: `consume_loop`, one message at a time. The clocks,
-- whether a write to Redis succeeds, the exchange client and `str.upper` are arguments; metrics,
-- logs and the random ids are left out.
pub mod Orders
pub mod Counts
use quant_system.Prelude.{
  ℕ, suc, String, Bool, true, false, Option, none, some, List, [], ◌∷◌, ◌++◌, ◌&&◌, nonempty,
  get_or, if◌then◌else◌,
}
use quant_system.Prelude.Eq.{◌==◌, string_eq}
use quant_system.Prelude.Dict.{Dict, lookup, insert}
use quant_system.Num.{Num, Float, ◌⊕◌, ◌⊖◌, ◌⊘◌, lit, min, max}
use quant_system.Core.Models.{
  DepthUpdate, Order, Fill, OrderStatusUpdate, accepted, filled, rejected,
}
use quant_system.Core.CircuitBreaker.{Breaker, Redis, is_tripped}
use quant_system.Execution.OrderTracker.{Tracker, Change, only, register_order, transition}
use quant_system.Execution.StrategyMode.{Manager, get_mode}
use quant_system.Execution.FillSimulator.{Simulator, Outside, simulate_fill}

module _ ⦃N : Num⦄ where
  -- What the service publishes: status events, fills, and the audit events.
  pub data Message : Type 0 where
    order_status : OrderStatusUpdate → Message
    fill_event : Fill → Message
    audit_blocked audit_no_client : String → Message
    audit_sent : String → String → Message
    audit_fill : Fill → Message

  pub record Service : Type 0 where
    pub breaker : Breaker
    pub tracker : Tracker
    pub simulator : Simulator
    pub latest_mid : Dict String Float
    pub latest_spread : Dict String Float
    pub fill_count : ℕ
    pub breaker_blocked : ℕ
    pub outbox : List Message

  -- The exchange client: `place_order` returns an id (`none` if it raises).
  abbrev pub Client : Type 0
  Client = Order → Option String

  -- What one round of the loop takes from outside.
  pub record Env : Type 0 where
    pub monotonic : Float
    pub redis : Redis
    pub now : ℕ
    pub written : Bool
    pub client : Option Client
    pub upper : String → String
    pub simulation : Outside

  -- A message of the two topics; `none` is a payload that does not parse.
  pub data Event : Type 0 where
    raw_depth : Option DepthUpdate → Event
    orders : Option Order → Event

  -- DEFAULT_SPREAD
  abbrev pub default_spread : Float
  default_spread = lit 1 0

  abbrev pub publish : List Message → Service → Service
  publish ms v = record v { outbox = v.outbox ++ ms }

  abbrev pub status_of : Option OrderStatusUpdate → List Message
  status_of none = []
  status_of (some u) = order_status u ∷ []

  -- `max(b[0] for b in bids)` and `min(a[0] for a in asks)` of a first level and the others.
  pub best_bid : Float → List (Float × Float) → Float
  best_bid best [] = best
  best_bid best ((p, q) ∷ ls) = best_bid (max best p) ls

  pub best_ask : Float → List (Float × Float) → Float
  best_ask best [] = best
  best_ask best ((p, q) ∷ ls) = best_ask (min best p) ls

  -- A depth message: the mid and the spread of its symbol, when both sides have levels.
  unfoldable pub on_depth : (String → String) → DepthUpdate → Service → Service
  on_depth upper depth v = elim depth.bids [
    | [] ↦ v
    | (b, _) ∷ bids ↦ elim depth.asks [
      | [] ↦ v
      | (a, _) ∷ asks ↦
          let bid = best_bid b bids in
          let ask = best_ask a asks in
          let symbol = upper depth.symbol in
          record v {
            latest_mid = insert symbol ((bid ⊕ ask) ⊘ lit 2 0) v.latest_mid;
            latest_spread = insert symbol (ask ⊖ bid) v.latest_spread;
          }
    ]
  ]

  -- `tracker.transition` and the status event that the caller publishes.
  unfoldable pub moved : Env → String → Change → Service → Option OrderStatusUpdate × Service
  moved env order_id c v =
      let (u, t) = transition env.now env.now env.written order_id c v.tracker in
      (u, record v { tracker = t })

  -- From the simulated fill on: the fill with its mode, the transition to FILLED, the events.
  unfoldable pub settle : Env → Order → String → Float → Float → Service → Service
  unfolding moved simulate_fill
  settle env order order_mode mid spread v =
      let (simulated, simulator) = simulate_fill env.simulation order mid spread [] v.simulator in
      let fill = record simulated { trading_mode = order_mode } in
      let (u, v') =
        moved env order.order_id
          (record (only filled) {
            filled_quantity = fill.quantity;
            avg_fill_price = fill.fill_price;
          })
          (record v { simulator = simulator }) in
      publish (status_of u ++ fill_event fill ∷ audit_fill fill ∷ [])
        (record v' { fill_count = suc v'.fill_count })

  -- The transition to REJECTED of a live order that could not be placed; its event is not
  -- published.
  unfoldable pub reject : Env → Order → String → Service → Service
  unfolding moved
  reject env order reason v =
      (moved env order.order_id (record (only rejected) { reason = reason }) v).1

  -- `register_order`, and the transition to ACCEPTED with its event.
  unfoldable pub accept : Env → Order → Service → Service
  unfolding moved
  accept env order v =
      let registered = record v {
        tracker = register_order env.now env.now env.written order v.tracker;
      } in
      let (u, v') = moved env order.order_id (only accepted) registered in publish (status_of u) v'

  -- The three ways to execute an accepted order.
  unfoldable pub execute : Env → Order → String → Float → Float → Service → Service
  unfolding settle reject
  execute env order order_mode mid spread v =
      if order_mode == "live"
      then elim env.client [
        | none ↦
            publish (audit_no_client order.order_id ∷ [])
              (reject env order "live_client_unavailable" v)
        | some place_order ↦ elim (place_order order) [
          | none ↦ reject env order "exchange_error" v
          | some exchange_id ↦
              settle env order order_mode mid spread
                (publish (audit_sent order.order_id exchange_id ∷ []) v)
        ]
      ]
      else settle env order order_mode mid spread v

  -- An order that the breaker lets through.
  unfoldable pub on_order : Env → Manager → Order → Service → Service
  unfolding accept execute
  on_order env modes order v =
      let symbol = env.upper order.symbol in
      elim (lookup symbol v.latest_mid) [
        | none ↦ v
        | some mid ↦
            execute env order (get_mode order.strategy_id modes) mid
              (get_or (lookup symbol v.latest_spread) default_spread) (accept env order v)
      ]

  -- One round of `consume_loop`.
  unfoldable pub handle : Env → Manager → Event → Service → Service
  unfolding on_depth on_order
  handle env modes (raw_depth none) v = v
  handle env modes (raw_depth (some depth)) v = on_depth env.upper depth v
  handle env modes (orders none) v = v
  handle env modes (orders (some order)) v =
      let (tripped, breaker) = is_tripped env.monotonic env.redis v.breaker in
      if tripped
      then publish (audit_blocked order.order_id ∷ [])
          (record v { breaker = breaker; breaker_blocked = suc v.breaker_blocked })
      else on_order env modes order (record v { breaker = breaker })
