-- ===== src/Execution/OrderTracker/Store.antt =====
-- The quantities that an entry records, and what is written of the entries to Redis.
use quant_system.Prelude.{
  ℕ, String, Bool, true, Option, none, ◌≡◌, ◌⊎◌, inl, inr, refl, some, arith, Option-cases,
  Bool-cases,
}
use quant_system.Prelude.Eq.{string_eq}
use quant_system.Prelude.Dict.{lookup, insert, lookup-insert}
use quant_system.Num.{Num, ◌⊖◌, nought}
use quant_system.Core.Models.{Order}
use quant_system.Execution.OrderTracker.{
  Tracker, Saved, OrderState, Change, apply_change, transition, register_order, persist, new_state,
  allowed,
}
use quant_system.Execution.OrderTracker.Transition.{transition_outcome, orders-persist}

module _ ⦃N : Num⦄ where
  -- What is left of an order is its quantity less what is filled.
  abbrev pub IsAccounted : OrderState → Type 0
  IsAccounted s =
      ((s.filled_quantity ≡ nought) × (s.remaining_quantity ≡ s.quantity))
      ⊎ (s.remaining_quantity ≡ s.quantity ⊖ s.filled_quantity)

  abbrev pub AllAccounted : Tracker → Type 0
  AllAccounted t = (k : String) (s : OrderState) → lookup k t.orders ≡ some s → IsAccounted s

  apply_change-IsAccounted :
      (now : ℕ) (c : Change) (s : OrderState) → IsAccounted s → IsAccounted (apply_change now c s)
  unfolding apply_change
  apply_change-IsAccounted now c s h = ground arith

  insert-IsAccounted :
      (k j : String) (s s' : OrderState) (t : Tracker)
      → IsAccounted s'
      → (lookup j t.orders ≡ some s → IsAccounted s)
      → lookup j (insert k s' t.orders) ≡ some s
      → IsAccounted s
  insert-IsAccounted k j s s' t h old e = ground (arith, lookup-insert k j s' t.orders)

  -- The quantities stay accounted for (what remains of each order is its quantity less what is
  -- filled, all of it while nothing is), whatever the call and however it ends.
  pub transition-AllAccounted :
      (updated stamped : ℕ) (w : Bool) (k : String) (c : Change) (t : Tracker)
      → AllAccounted t
      → AllAccounted (transition updated stamped w k c t).1
  transition-AllAccounted updated stamped w k c t h j s e =
      elim (transition_outcome updated stamped w k c t) [
        | inl (_, same, _) ↦ h j s (rw same at e)
        | inr (s', found, _, _, new) ↦
            insert-IsAccounted k j s (apply_change updated c s') t
              (apply_change-IsAccounted updated c s' (h k s' found)) (h j s) (rw new at e)
      ]

  pub register_order-AllAccounted :
      (created updated : ℕ) (w : Bool) (o : Order) (t : Tracker)
      → AllAccounted t
      → AllAccounted (register_order created updated w o t)
  unfolding register_order
  register_order-AllAccounted created updated w o t h j s e =
      insert-IsAccounted o.order_id j s (new_state created updated o) t (inl (refl, refl)) (h j s)
        (rw orders-persist at e)

  -- The last thing written for each order is the text of its entry in memory, to live for seven
  -- days, and nothing is written for other ids.
  abbrev pub saved : (OrderState → String) → Option OrderState → Option Saved
  saved dumps none = none
  saved dumps (some s) = some (record { text = dumps s; ex = 604_800 })

  abbrev pub IsSynced : (OrderState → String) → Tracker → Type 0
  IsSynced dumps t = (k : String) → lookup k t.stored ≡ saved dumps (lookup k t.orders)

  persist-IsSynced :
      (dumps : OrderState → String) (k : String) (s : OrderState) (t : Tracker)
      → t.redis ≡ some dumps
      → IsSynced dumps t
      → IsSynced dumps (persist true k s (record t { orders = insert k s t.orders }))
  unfolding persist
  persist-IsSynced dumps k s t r h j =
      rw (r, persist)
        (ground (
          arith,
          lookup-insert k j (record { text = dumps s; ex = 604_800 }) t.stored,
          lookup-insert k j s t.orders,
          h j,
        ))

  -- With a client whose write succeeds, a call keeps the last text written for each order equal
  -- to the JSON text of its entry in memory, to live for seven days from that write.
  pub transition-IsSynced :
      (dumps : OrderState → String) (updated stamped : ℕ) (k : String) (c : Change) (t : Tracker)
      → t.redis ≡ some dumps
      → IsSynced dumps t
      → IsSynced dumps (transition updated stamped true k c t).1
  unfolding transition
  transition-IsSynced dumps updated stamped k c t r h = elim (Option-cases (lookup k t.orders)) [
    | inl missing ↦ rw (missing, transition) h
    | inr (s, e) ↦ elim (Bool-cases (allowed s.status c.new_status)) [
      | inl made ↦
          rw (e, transition, made) (persist-IsSynced dumps k (apply_change updated c s) t r h)
      | inr refused ↦ rw (e, transition, refused) h
    ]
  ]

  pub register_order-IsSynced :
      (dumps : OrderState → String) (created updated : ℕ) (o : Order) (t : Tracker)
      → t.redis ≡ some dumps
      → IsSynced dumps t
      → IsSynced dumps (register_order created updated true o t)
  unfolding register_order
  register_order-IsSynced dumps created updated o t r h =
      persist-IsSynced dumps o.order_id (new_state created updated o) t r h

  -- Redis is no part of the decision: with another client, or other outcomes of the writes, a
  -- call returns the same event and leaves the same orders in memory.
  pub transition_ignores_redis :
      (updated stamped : ℕ) (w w' : Bool) (k : String) (c : Change) (t t' : Tracker)
      → t.orders ≡ t'.orders
      → ((transition updated stamped w k c t).0 ≡ (transition updated stamped w' k c t').0)
        × ((transition updated stamped w k c t).1.orders
            ≡ (transition updated stamped w' k c t').1.orders)
  unfolding transition
  transition_ignores_redis updated stamped w w' k c t t' same = ground arith
