-- ===== src/Execution/OrderTracker.antt =====
-- services/execution/execution_svc/order_tracker.py. The clock and the outcome of a Redis write
-- are arguments, and a client comes with the text that `json.dumps` makes of a state; the keys `orders:{run_id}:{order_id}` of one run are named by the order id.
pub mod Transition
pub mod Lifecycle
pub mod Store
use quant_system.Prelude.{
  ℕ, String, Bool, true, false, Option, none, some, List, [], ◌∷◌, ◌*◌, if◌then◌else◌,
}
use quant_system.Prelude.Eq.{◌==◌, string_eq}
use quant_system.Prelude.Dict.{Dict, lookup, insert}
use quant_system.Num.{Num, Float, ◌⊖◌, ◌≺◌, nought}
use quant_system.Core.Models.{
  Order, OrderStatus, submitted, accepted, filled, partially_filled, rejected, cancelled,
  OrderStatusUpdate,
}

-- `new_status in TRANSITIONS.get(current, set())`
abbrev pub allowed : OrderStatus → OrderStatus → Bool
allowed submitted accepted = true
allowed submitted rejected = true
allowed accepted filled = true
allowed accepted partially_filled = true
allowed accepted cancelled = true
allowed partially_filled filled = true
allowed partially_filled partially_filled = true
allowed partially_filled cancelled = true
allowed _ _ = false

-- The set `terminal` of `get_open_orders`.
abbrev pub is_terminal : OrderStatus → Bool
is_terminal filled = true
is_terminal rejected = true
is_terminal cancelled = true
is_terminal _ = false

module _ ⦃N : Num⦄ where
  -- The dict that the tracker keeps for an order.
  pub record OrderState : Type 0 where
    pub order_id : String
    pub symbol : String
    pub side : String
    pub quantity : Float
    pub status : OrderStatus
    pub filled_quantity : Float
    pub remaining_quantity : Float
    pub avg_fill_price : Float
    pub exchange_order_id : String
    pub created_at : ℕ
    pub updated_at : ℕ
    pub strategy_id : String

  -- A value in Redis with its time to live in seconds.
  pub record Saved : Type 0 where
    pub text : String
    pub ex : ℕ

  -- `redis` is the client, if one was given, by its `json.dumps`; `stored` is, for each key of the
  -- run, what the last SET put there: when it has expired, Redis has the key no more.
  pub record Tracker : Type 0 where
    pub orders : Dict String OrderState
    pub redis : Option (OrderState → String)
    pub stored : Dict String Saved

  -- The arguments of `transition` after the order id.
  pub record Change : Type 0 where
    pub new_status : OrderStatus
    pub filled_quantity : Float
    pub avg_fill_price : Float
    pub exchange_order_id : String
    pub reason : String

  -- `transition(order_id, status)` with the defaults of the other arguments.
  abbrev pub only : OrderStatus → Change
  only status = record {
    new_status = status;
    filled_quantity = nought;
    avg_fill_price = nought;
    exchange_order_id = "";
    reason = "";
  }

  -- `_persist`: a write that raises is logged and forgotten.
  pub persist : Bool → String → OrderState → Tracker → Tracker
  persist written order_id state t = elim t.redis [
    | none ↦ t
    | some dumps ↦
        let value : Saved = record { text = dumps state; ex = 86_400 * 7 } in
        if written then record t { stored = insert order_id value t.stored } else t
  ]

  -- `register_order`
  abbrev pub new_state : ℕ → ℕ → Order → OrderState
  new_state created updated order = record {
    order_id = order.order_id;
    symbol = order.symbol;
    side = order.side;
    quantity = order.quantity;
    status = submitted;
    filled_quantity = nought;
    remaining_quantity = order.quantity;
    avg_fill_price = nought;
    exchange_order_id = "";
    created_at = created;
    updated_at = updated;
    strategy_id = order.strategy_id;
  }

  unfoldable pub register_order : ℕ → ℕ → Bool → Order → Tracker → Tracker
  unfolding persist
  register_order created updated written order t =
      let state = new_state created updated order in
      persist written order.order_id state
        (record t { orders = insert order.order_id state t.orders })

  -- The assignments to `state` once a transition is allowed.
  unfoldable pub apply_change : ℕ → Change → OrderState → OrderState
  apply_change now c s = record s {
    status = c.new_status;
    updated_at = now;
    exchange_order_id =
        if c.exchange_order_id == "" then s.exchange_order_id else c.exchange_order_id;
    filled_quantity = if nought ≺ c.filled_quantity then c.filled_quantity else s.filled_quantity;
    remaining_quantity =
        if nought ≺ c.filled_quantity then s.quantity ⊖ c.filled_quantity else s.remaining_quantity;
    avg_fill_price = if nought ≺ c.avg_fill_price then c.avg_fill_price else s.avg_fill_price;
  }

  pub update_of : ℕ → String → Change → OrderState → OrderStatusUpdate
  update_of now order_id c s = record {
    order_id = order_id;
    exchange_order_id = s.exchange_order_id;
    status = c.new_status;
    filled_quantity = s.filled_quantity;
    remaining_quantity = s.remaining_quantity;
    avg_fill_price = s.avg_fill_price;
    timestamp = now;
    reason = c.reason;
    backtest_id = none;
  }

  -- `transition`: `updated` and `stamped` are the two readings of the clock.
  unfoldable pub transition :
      ℕ → ℕ → Bool → String → Change → Tracker → Option OrderStatusUpdate × Tracker
  unfolding persist apply_change update_of
  transition updated stamped written order_id c t = elim (lookup order_id t.orders) [
    | none ↦ (none, t)
    | some s ↦
        let s' = apply_change updated c s in
        if allowed s.status c.new_status
        then (
          some (update_of stamped order_id c s'),
          persist written order_id s' (record t { orders = insert order_id s' t.orders }),
        )
        else (none, t)
  ]

  -- `get_order`
  pub get_order : String → Tracker → Option OrderState
  get_order order_id t = lookup order_id t.orders

  -- `get_open_orders`
  abbrev pub open_values : Dict String OrderState → List OrderState
  open_values [] = []
  open_values ((k, s) ∷ d) =
      let rest = open_values d in if is_terminal s.status then rest else s ∷ rest

  pub get_open_orders : Tracker → List OrderState
  get_open_orders t = open_values t.orders
