-- ===== src/Num/Ring/Laws.antt =====
-- What follows from the laws of exact arithmetic about negation, zero and order.
use quant_system.Prelude.{◌≡◌, sym, ap, subst, ◌∙◌, arith}
use quant_system.Num.Floats.{Num, Float, ◌⊕◌, ◌⊖◌, ◌⊗◌, neg, nought}
use quant_system.Num.Exact.{IsExact}
use quant_system.Num.Order.{Le, lt_asymm, le_trans}

module _ ⦃N : Num⦄ (X : IsExact) where
  pub zero_add : (a : Float) → nought ⊕ a ≡ a
  zero_add a = X.add_comm nought a ∙ X.add_zero a

  pub add_left_comm : (a b c : Float) → a ⊕ (b ⊕ c) ≡ b ⊕ (a ⊕ c)
  add_left_comm a b c =
      sym (X.add_assoc a b c) ∙ ap (λ (t : Float). t ⊕ c) (X.add_comm a b) ∙ X.add_assoc b a c

  pub mul_left_comm : (a b c : Float) → a ⊗ (b ⊗ c) ≡ b ⊗ (a ⊗ c)
  mul_left_comm a b c =
      sym (X.mul_assoc a b c) ∙ ap (λ (t : Float). t ⊗ c) (X.mul_comm a b) ∙ X.mul_assoc b a c

  pub neg_add_self : (a : Float) → neg a ⊕ a ≡ nought
  neg_add_self a = X.add_comm (neg a) a ∙ X.add_neg a

  pub add-neg_left : (a b : Float) → a ⊕ (neg a ⊕ b) ≡ b
  add-neg_left a b = rw (← X.add_assoc a (neg a) b, X.add_neg a) (zero_add b)

  pub neg-add_left : (a b : Float) → neg a ⊕ (a ⊕ b) ≡ b
  neg-add_left a b = rw (← X.add_assoc (neg a) a b, neg_add_self a) (zero_add b)

  pub neg_unique : (a b : Float) → a ⊕ b ≡ nought → b ≡ neg a
  neg_unique a b h = sym (neg-add_left a b) ∙ ap (λ (t : Float). neg a ⊕ t) h ∙ X.add_zero (neg a)

  pub neg_zero : neg nought ≡ nought
  neg_zero = sym (neg_unique nought nought (X.add_zero nought))

  pub neg_neg : (a : Float) → neg (neg a) ≡ a
  neg_neg a = sym (neg_unique (neg a) a (neg_add_self a))

  pub neg_add : (a b : Float) → neg (a ⊕ b) ≡ neg a ⊕ neg b
  neg_add a b = sym (
      neg_unique (a ⊕ b) (neg a ⊕ neg b) (
        X.add_assoc a b (neg a ⊕ neg b)
        ∙ ap (λ (t : Float). a ⊕ t) (add_left_comm b (neg a) (neg b))
        ∙ add-neg_left a (b ⊕ neg b)
        ∙ X.add_neg b))

  pub add_cancel : (a b c : Float) → a ⊕ b ≡ a ⊕ c → b ≡ c
  add_cancel a b c h = sym (neg-add_left a b) ∙ ap (λ (t : Float). neg a ⊕ t) h ∙ neg-add_left a c

  pub mul_zero : (a : Float) → a ⊗ nought ≡ nought
  mul_zero a = add_cancel (a ⊗ nought) (a ⊗ nought) nought (
      sym (X.mul_add a nought nought)
      ∙ ap (λ (t : Float). a ⊗ t) (X.add_zero nought)
      ∙ sym (X.add_zero (a ⊗ nought)))

  pub zero_mul : (a : Float) → nought ⊗ a ≡ nought
  zero_mul a = X.mul_comm nought a ∙ mul_zero a

  pub mul_neg : (a b : Float) → a ⊗ neg b ≡ neg (a ⊗ b)
  mul_neg a b =
      neg_unique (a ⊗ b) (a ⊗ neg b)
        (sym (X.mul_add a b (neg b)) ∙ ap (λ (t : Float). a ⊗ t) (X.add_neg b) ∙ mul_zero a)

  pub neg_mul : (a b : Float) → neg a ⊗ b ≡ neg (a ⊗ b)
  neg_mul a b = X.mul_comm (neg a) b ∙ mul_neg b a ∙ ap (λ (t : Float). neg t) (X.mul_comm b a)

  pub add_mul : (a b c : Float) → (a ⊕ b) ⊗ c ≡ a ⊗ c ⊕ b ⊗ c
  add_mul a b c = rw (X.mul_comm (a ⊕ b) c, X.mul_add c a b, X.mul_comm c a, X.mul_comm c b)

  -- Sums and products respect the order.
  pub add_mono_left : (a b c : Float) → Le a b → Le (a ⊕ c) (b ⊕ c)
  add_mono_left a b c h = ground (
    arith,
    N.le_iff a b,
    N.le_iff (a ⊕ c) (b ⊕ c),
    X.lt_add a b c,
    N.lt_total a b,
    lt_asymm (a ⊕ c) (b ⊕ c),
    N.lt_irrefl (a ⊕ c),
  )

  pub add_mono : (a b c d : Float) → Le a b → Le c d → Le (a ⊕ c) (b ⊕ d)
  add_mono a b c d h k =
      le_trans (a ⊕ c) (b ⊕ c) (b ⊕ d) (add_mono_left a b c h)
        (rw (X.add_comm b c, X.add_comm b d) (add_mono_left c d b k))

  pub sub_nonneg : (a b : Float) → Le b a → Le nought (a ⊖ b)
  sub_nonneg a b h =
      rw (X.sub_eq a b)
        (subst (λ (t : Float). Le t (a ⊕ neg b)) (X.add_neg b) (add_mono_left b a (neg b) h))

  pub mul_nonneg : (a b : Float) → Le nought a → Le nought b → Le nought (a ⊗ b)
  mul_nonneg a b h k = ground (
    arith,
    N.le_iff nought a,
    N.le_iff nought b,
    N.le_iff nought (a ⊗ b),
    X.lt_mul a b,
    N.lt_total nought a,
    N.lt_total nought b,
    mul_zero a,
    zero_mul b,
    N.lt_irrefl nought,
    lt_asymm nought (a ⊗ b),
  )

  pub sub_add_self : (a b : Float) → a ⊖ b ⊕ b ≡ a
  sub_add_self a b = rw (X.sub_eq a b, X.add_assoc a (neg b) b, neg_add_self b) (X.add_zero a)

  pub sub_le : (a b : Float) → Le nought b → Le (a ⊖ b) a
  sub_le a b h =
      subst (λ (t : Float). Le t a) (zero_add (a ⊖ b))
        (subst (λ (t : Float). Le (nought ⊕ (a ⊖ b)) t) (X.add_comm b (a ⊖ b) ∙ sub_add_self a b)
          (add_mono_left nought b (a ⊖ b) h))
