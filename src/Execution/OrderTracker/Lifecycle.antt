-- ===== src/Execution/OrderTracker/Lifecycle.antt =====
-- The life of an order over any sequence of calls.
use quant_system.Prelude.{
  ℕ, String, Bool, true, false, not, ◌&&◌, ◌≡◌, ◌≢◌, ◌∙◌, ◌⊎◌, inl, inr, refl, some, List, [], ◌∷◌,
  arith, subst,
}
use quant_system.Prelude.Eq.{◌==◌, string_eq}
use quant_system.Prelude.Dict.{lookup, insert, lookup-insert}
use quant_system.Num.{Num}
use quant_system.Core.Models.{
  Order, OrderStatus, submitted, accepted, filled, partially_filled, rejected, cancelled,
}
use quant_system.Execution.OrderTracker.{
  Tracker, OrderState, Change, allowed, is_terminal, apply_change, transition, register_order,
  new_state,
}
use quant_system.Execution.OrderTracker.Transition.{transition_outcome, orders-persist}

-- The state machine of the file's header: one move, and any number of them.
pub data Move : OrderStatus → OrderStatus → Type 0 where
  accept : Move submitted accepted
  reject : Move submitted rejected
  fill : Move accepted filled
  fill_part : Move accepted partially_filled
  cancel : Move accepted cancelled
  fill_rest : Move partially_filled filled
  fill_more : Move partially_filled partially_filled
  cancel_rest : Move partially_filled cancelled

pub data Leads : OrderStatus → OrderStatus → Type 0 where
  stay : {a : OrderStatus} → Leads a a
  next : {a b c : OrderStatus} → Move a b → Leads b c → Leads a c

Move_of_allowed : (a b : OrderStatus) → allowed a b ≡ true → Move a b
Move_of_allowed submitted accepted h = accept
Move_of_allowed submitted rejected h = reject
Move_of_allowed accepted filled h = fill
Move_of_allowed accepted partially_filled h = fill_part
Move_of_allowed accepted cancelled h = cancel
Move_of_allowed partially_filled filled h = fill_rest
Move_of_allowed partially_filled partially_filled h = fill_more
Move_of_allowed partially_filled cancelled h = cancel_rest
Move_of_allowed _ _ h = cc

no_move_from_terminal : (a b : OrderStatus) → is_terminal a ≡ true → allowed a b ≡ false
no_move_from_terminal filled b h = refl
no_move_from_terminal rejected b h = refl
no_move_from_terminal cancelled b h = refl
no_move_from_terminal _ b h = cc

module _ ⦃N : Num⦄ where
  -- The arguments of one call of `transition`.
  pub record Call : Type 0 where
    pub updated : ℕ
    pub stamped : ℕ
    pub written : Bool
    pub order_id : String
    pub change : Change

  pub after : Call → Tracker → Tracker
  after c t = (transition c.updated c.stamped c.written c.order_id c.change t).1

  pub after_all : List Call → Tracker → Tracker
  after_all [] t = t
  after_all (c ∷ cs) t = after_all cs (after c t)

  -- One call moves an order by one listed move, or leaves its entry alone.
  after_cases :
      (c : Call) (t : Tracker) (k : String) (s : OrderState)
      → lookup k t.orders ≡ some s
      → (lookup k (after c t).orders ≡ some s)
        ⊎ ((allowed s.status c.change.new_status ≡ true)
            × (lookup k (after c t).orders ≡ some (apply_change c.updated c.change s)))
  unfolding after
  after_cases c t k s h =
      elim (transition_outcome c.updated c.stamped c.written c.order_id c.change t) [
        | inl (_, same, _) ↦ inl (rw same h)
        | inr (s', e, ok, _, new) ↦ ground (
          arith,
          string_eq.equals_iff c.order_id k,
          lookup-insert c.order_id k (apply_change c.updated c.change s') t.orders,
        )
      ]

  after_Leads :
      (c : Call) (t : Tracker) (k : String) (s : OrderState)
      → lookup k t.orders ≡ some s
      → (s' : OrderState) × (lookup k (after c t).orders ≡ some s')
        × ((s' ≡ s) ⊎ (Move s.status s'.status))
  unfolding apply_change
  after_Leads c t k s h = elim (after_cases c t k s h) [
    | inl same ↦ (s, same, inl refl)
    | inr (ok, e) ↦ (apply_change c.updated c.change s, e, inr (Move_of_allowed _ _ ok))
  ]

  -- Over any sequence of transition calls, for this order and for others, a registered order
  -- stays registered and its status goes along the moves of the state machine.
  pub lifecycle_follows_machine :
      (cs : List Call) (t : Tracker) (k : String) (s : OrderState)
      → lookup k t.orders ≡ some s
      → (s' : OrderState) × (lookup k (after_all cs t).orders ≡ some s') × Leads s.status s'.status
  unfolding after_all
  lifecycle_follows_machine [] t k s h = (s, h, stay)
  lifecycle_follows_machine (c ∷ cs) t k s h =
      let (s', e, m) = after_Leads c t k s h in
      let (s'', e', l) = lifecycle_follows_machine cs (after c t) k s' e in (s'', e', extend m l)
    where
      extend :
          {a b : OrderState} {z : OrderStatus}
          → (b ≡ a) ⊎ (Move a.status b.status)
          → Leads b.status z
          → Leads a.status z
      extend {z = z} (inl same) l = subst (λ (x : OrderState). Leads x.status z) same l
      extend (inr m) l = next m l

  -- A call of `transition` or of `register_order`, and any number of them.
  pub data Step : Type 0 where
    moves : Call → Step
    registers : ℕ → ℕ → Bool → Order → Step

  pub after_step : Step → Tracker → Tracker
  after_step (moves c) t = after c t
  after_step (registers created updated written order) t =
      register_order created updated written order t

  pub after_steps : List Step → Tracker → Tracker
  after_steps [] t = t
  after_steps (x ∷ xs) t = after_steps xs (after_step x t)

  -- None of the calls registers an order of a given id.
  abbrev pub registers_no : String → List Step → Bool
  registers_no k [] = true
  registers_no k (moves c ∷ xs) = registers_no k xs
  registers_no k (registers _ _ _ order ∷ xs) = not (order.order_id == k) && registers_no k xs

  registered_other :
      (created updated : ℕ) (w : Bool) (o : Order) (t : Tracker) (k : String)
      → (o.order_id == k) ≡ false
      → lookup k (register_order created updated w o t).orders ≡ lookup k t.orders
  unfolding register_order
  registered_other created updated w o t k h =
      let state = new_state created updated o in
      let t' = record t { orders = insert o.order_id state t.orders } in
      ground
        (arith, orders-persist w o.order_id state t', lookup-insert o.order_id k state t.orders, h)

  -- An order that is filled, rejected or cancelled keeps its whole entry over any transition calls
  -- and any registrations of orders with other ids; a registration with its own id is excluded,
  -- since that overwrites the entry.
  pub terminal_is_final :
      (xs : List Step) (t : Tracker) (k : String) (s : OrderState)
      → lookup k t.orders ≡ some s
      → is_terminal s.status ≡ true
      → registers_no k xs ≡ true
      → lookup k (after_steps xs t).orders ≡ some s
  unfolding after_steps after_step
  terminal_is_final [] t k s h e r = h
  terminal_is_final (moves c ∷ xs) t k s h e r =
      terminal_is_final xs (after c t) k s
        (ground
          (arith, after_cases c t k s h, no_move_from_terminal s.status c.change.new_status e))
        e r
  terminal_is_final (registers created updated w o ∷ xs) t k s h e r =
      terminal_is_final xs (register_order created updated w o t) k s
        (registered_other created updated w o t k (ground (arith, r)) ∙ h) e (ground (arith, r))

  -- An order that was accepted is never rejected later, whatever calls are made: the table lists
  -- `rejected` after `submitted` alone.
  accepted_never_rejected :
      (cs : List Call) (t : Tracker) (k : String) (s : OrderState)
      → lookup k t.orders ≡ some s
      → s.status ≡ accepted
      → (s' : OrderState) × (lookup k (after_all cs t).orders ≡ some s') × (s'.status ≢ rejected)
  accepted_never_rejected cs t k s h e =
      let (s', e', l) = lifecycle_follows_machine cs t k s h in (s', e', kept l (λ r. cc) (λ r. cc))
    where
      kept : {a b : OrderStatus} → Leads a b → a ≢ submitted → a ≢ rejected → b ≢ rejected
      kept stay p q = q
      kept (next accept l) p q = absurd (p refl)
      kept (next reject l) p q = absurd (p refl)
      kept (next fill l) p q = kept l (λ r. cc) (λ r. cc)
      kept (next fill_part l) p q = kept l (λ r. cc) (λ r. cc)
      kept (next cancel l) p q = kept l (λ r. cc) (λ r. cc)
      kept (next fill_rest l) p q = kept l (λ r. cc) (λ r. cc)
      kept (next fill_more l) p q = kept l (λ r. cc) (λ r. cc)
      kept (next cancel_rest l) p q = kept l (λ r. cc) (λ r. cc)
