-- ===== src/Execution/OrderTracker/Transition.antt =====
-- What one call of `transition` or `register_order` does, on every branch.
use quant_system.Prelude.{
  ℕ, String, Bool, true, false, ◌≡◌, ◌≢◌, ◌⊎◌, inl, inr, refl, Option, none, some, Option-cases,
  Bool-cases,
}
use quant_system.Prelude.Eq.{string_eq}
use quant_system.Prelude.Dict.{lookup, insert, lookup-insert_ne}
use quant_system.Num.{Num}
use quant_system.Core.Models.{OrderStatusUpdate}
use quant_system.Execution.OrderTracker.{
  Tracker, OrderState, Change, allowed, persist, apply_change, update_of, transition,
}

module _ ⦃N : Num⦄ where
  -- `persist` touches Redis only.
  pub orders-persist :
      (w : Bool) (k : String) (s : OrderState) (t : Tracker) → (persist w k s t).orders ≡ t.orders
  unfolding persist
  orders-persist w k s t = elim (Option-cases t.redis) [
    | inl e ↦ rw (e, persist) refl
    | inr (dumps, e) ↦ elim (Bool-cases w) [
      | inl made ↦ rw (e, persist, made) refl
      | inr failed ↦ rw (e, persist, failed) refl
    ]
  ]

  -- A call is refused and changes nothing, or the table allows the move and it is made.
  abbrev pub Refused : String → Change → Tracker → Option OrderStatusUpdate × Tracker → Type 0
  Refused k c t (u, t') =
      (u ≡ none)
      × (t' ≡ t)
      × ((lookup k t.orders ≡ none)
          ⊎ ((s : OrderState) × (lookup k t.orders ≡ some s)
              × (allowed s.status c.new_status ≡ false)))

  abbrev pub Made : ℕ → ℕ → String → Change → Tracker → Option OrderStatusUpdate × Tracker → Type 0
  Made updated stamped k c t (u, t') =
      (s : OrderState) × (lookup k t.orders ≡ some s)
      × (allowed s.status c.new_status ≡ true)
      × (u ≡ some (update_of stamped k c (apply_change updated c s)))
      × (t'.orders ≡ insert k (apply_change updated c s) t.orders)

  -- Every call of `transition` is either refused, for an unknown order or a move that the table
  -- does not list, with the tracker left as it was, or it is made: the table lists the move, the
  -- event reports the new state, and the order's entry alone is replaced.
  pub transition_outcome :
      (updated stamped : ℕ) (w : Bool) (k : String) (c : Change) (t : Tracker)
      → Refused k c t (transition updated stamped w k c t)
        ⊎ Made updated stamped k c t (transition updated stamped w k c t)
  unfolding transition
  transition_outcome updated stamped w k c t = elim (Option-cases (lookup k t.orders)) [
    | inl missing ↦ rw (missing, transition) (inl (refl, refl, inl refl))
    | inr (s, e) ↦ elim (Bool-cases (allowed s.status c.new_status)) [
      | inl yes' ↦
          rw (e, transition, yes')
            (inr (s, refl, yes', refl, orders-persist w k (apply_change updated c s) _))
      | inr no' ↦ rw (e, transition, no') (inl (refl, refl, inr (s, refl, no')))
    ]
  ]

  -- An order's entry after a call for another order is what it was.
  pub transition_other :
      (updated stamped : ℕ) (w : Bool) (k j : String) (c : Change) (t : Tracker)
      → k ≢ j
      → lookup j (transition updated stamped w k c t).1.orders ≡ lookup j t.orders
  transition_other updated stamped w k j c t ne =
      elim (transition_outcome updated stamped w k c t) [
        | inl (_, same, _) ↦ rw same
        | inr (s, _, _, _, e) ↦ rw e (lookup-insert_ne k j _ t.orders ne)
      ]
