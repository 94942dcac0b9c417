-- ===== src/Execution/Tests.antt =====
-- The theorems on the execution service at concrete orders.
mod Sample
use quant_system.Prelude.{
  ℕ, suc, ◌≡◌, ◌≢◌, ◌⊎◌, refl, String, Bool, true, false, none, some, Option, List, [], ◌∷◌, map,
  if◌then◌else◌, Option-cases, arith,
}
use quant_system.Prelude.Eq.{◌==◌, string_eq}
use quant_system.Prelude.Dict.{lookup, insert}
use quant_system.Prelude.Int.{ℤ, pos}
use quant_system.Num.{Num, lit, nought, ◌⊗◌, sum_from}
use quant_system.Num.Order.{Le}
use quant_system.Num.Fixed.{integers, fixed}
use quant_system.Num.Fixed.Decimal.{fixed-IsMonotone}
use quant_system.Core.Models.{
  Order, Fill, OrderStatus, submitted, accepted, filled, partially_filled, rejected,
}
use quant_system.Execution.OrderTracker.{
  Tracker, OrderState, Change, only, register_order, transition, new_state,
}
use quant_system.Execution.OrderTracker.Lifecycle.{
  Call, after_all, Leads, Step, moves, registers, after_steps, lifecycle_follows_machine,
  terminal_is_final,
}
use quant_system.Execution.OrderTracker.Store.{
  AllAccounted, IsSynced, transition-AllAccounted, transition-IsSynced,
}
use quant_system.Execution.StrategyMode.{Manager, is_valid, get_mode, set_mode, has_any_live}
use quant_system.Execution.StrategyMode.Requests.{Post, serve, no_client_no_live}
use quant_system.Execution.FillSimulator.{
  simulate_fill, price_for, Simulator, Outside, coinbase_fee_rate,
}
use quant_system.Execution.FillSimulator.Fees.{coinbase_fee_rate_falls}
use quant_system.Execution.Service.{Service, Env, Event, orders, on_order, handle}
use quant_system.Execution.Service.Orders.{Has, goes_through, order_outcome}
use quant_system.Execution.Service.Counts.{IsCounted, handle-IsCounted}
use quant_system.Execution.Tests.Sample.{an_order, simulator, outside}

abbrev state : OrderStatus → OrderState
state status = record (new_state 1 1 an_order) { status = status }

-- Stands for the JSON text.
abbrev dumps : OrderState → String
dumps s = "{}"

abbrev tracking : OrderStatus → Tracker
tracking status = record {
  orders = ("o", state status) ∷ [];
  redis = some dumps;
  stored = ("o", record { text = "{}"; ex = 604_800 }) ∷ [];
}

abbrev call : OrderStatus → Call
call status = record {
  updated = 2;
  stamped = 3;
  written = true;
  order_id = "o";
  change = only status;
}

lifecycle_follows_machine_example :
    (s' : OrderState) × (lookup "o"
        (after_all (call rejected ∷ call filled ∷ []) (tracking accepted)).orders
      ≡ some s')
    × Leads accepted s'.status
unfolding lookup
lifecycle_follows_machine_example =
    lifecycle_follows_machine (call rejected ∷ call filled ∷ []) (tracking accepted) "o"
      (state accepted) refl

abbrev another : Order
another = record an_order { order_id = "p" }

abbrev steps : List Step
steps = moves (call accepted) ∷ registers 4 5 true another ∷ moves (call rejected) ∷ []

terminal_is_final_example :
    lookup "o" (after_steps steps (tracking filled)).orders ≡ some (state filled)
unfolding lookup
terminal_is_final_example =
    terminal_is_final steps (tracking filled) "o" (state filled) refl refl refl

-- One of three units is filled.
abbrev part : Change
part = record (only partially_filled) { filled_quantity = pos 1; avg_fill_price = pos 100 }

tracking-AllAccounted : AllAccounted (tracking accepted)
unfolding lookup
tracking-AllAccounted k s e = ground arith

transition-AllAccounted_example : AllAccounted (transition 2 3 true "o" part (tracking accepted)).1
transition-AllAccounted_example =
    transition-AllAccounted 2 3 true "o" part (tracking accepted) tracking-AllAccounted

tracking-IsSynced : IsSynced dumps (tracking accepted)
unfolding lookup
tracking-IsSynced k = ground arith

transition-IsSynced_example : IsSynced dumps (transition 2 3 true "o" part (tracking accepted)).1
transition-IsSynced_example =
    transition-IsSynced dumps 2 3 "o" part (tracking accepted) refl tracking-IsSynced

abbrev modes : Manager
modes = record { default_mode = "paper"; modes = ("s", "live") ∷ [] }

abbrev posts : List Post
posts =
    record { path = "/api/strategy-modes/set"; strategy_id = some "s"; mode = some "live" }
    ∷ record { path = "/api/strategy-modes/reset"; strategy_id = some "s"; mode = none }
    ∷ []

no_client_no_live_example :
    has_any_live (serve false posts (record { default_mode = "paper"; modes = [] })) ≡ false
unfolding has_any_live
no_client_no_live_example =
    no_client_no_live posts (record { default_mode = "paper"; modes = [] }) refl

coinbase_fee_rate_falls_example :
    Le
      (coinbase_fee_rate ⦃N = fixed⦄ (lit 20_000 0) false)
      (coinbase_fee_rate ⦃N = fixed⦄ (lit 5 0) false)
coinbase_fee_rate_falls_example =
    coinbase_fee_rate_falls ⦃N = fixed⦄ fixed-IsMonotone (lit 5 0) (lit 20_000 0) false refl

-- Redis holds no trip, and the client, if any, is as given.
abbrev env : Option (Order → Option String) → Env
env client = record {
  monotonic = pos 10;
  redis = record { key = none; reachable = true };
  now = 5;
  written = true;
  client = client;
  upper = λ x. x;
  simulation = outside;
}

abbrev service : Service
service = record {
  breaker = record { cached_state = false; last_check = pos 0 };
  tracker = record { orders = []; redis = some dumps; stored = [] };
  simulator = simulator;
  latest_mid = ("BTC", pos 100) ∷ [];
  latest_spread = ("BTC", pos 2) ∷ [];
  fill_count = 0;
  breaker_blocked = 0;
  outbox = [];
}

-- A live order that the exchange refuses.
order_outcome_example :
    let v' = on_order (env (some (λ o. none))) modes an_order service in
    let through = goes_through (env (some (λ o. none))) an_order (get_mode "s" modes) in
    Has "o" (if through then filled else accepted) v' × (v'.fill_count ≡ (if through then 1 else 0))
unfolding lookup
order_outcome_example = order_outcome (env (some (λ o. none))) modes an_order service (pos 100) refl

handle-IsCounted_example : IsCounted (handle (env none) modes (orders (some an_order)) service)
handle-IsCounted_example =
    handle-IsCounted (env none) modes (orders (some an_order)) service (refl, refl)
