-- ===== src/Num/Ring/Sign.antt =====
-- Absolute values and signs under exact arithmetic.
use quant_system.Prelude.{◌≡◌, false, subst, arith}
use quant_system.Num.Floats.{Num, Float, ◌⊕◌, ◌≺◌, neg, nought, abs}
use quant_system.Num.Exact.{IsExact}
use quant_system.Num.Order.{Le, Lt, lt_asymm, le_of_not_lt, not_lt_of_le}
use quant_system.Num.Ring.Laws

module _ ⦃N : Num⦄ where
  pub abs_of_pos : (a : Float) → Lt nought a → abs a ≡ a
  abs_of_pos a h = ground (arith, lt_asymm nought a h)

  pub abs_of_neg : (a : Float) → Lt a nought → abs a ≡ neg a
  abs_of_neg a h = ground arith

  pub abs_zero : abs nought ≡ nought
  abs_zero = ground (arith, N.lt_irrefl nought)

module _ ⦃N : Num⦄ (X : IsExact) where
  pub abs_of_nonpos : (a : Float) → (nought ≺ a) ≡ false → abs a ≡ neg a
  abs_of_nonpos a h = ground (arith, N.lt_total nought a, Laws.neg_zero X)

  -- a < -b  exactly when  a + b < 0
  pub lt_neg_sum : (a b : Float) → Lt a (neg b) → Lt (a ⊕ b) nought
  lt_neg_sum a b h =
      subst (λ (t : Float). Lt (a ⊕ b) t) (Laws.neg_add_self X b) (X.lt_add a (neg b) b h)

  pub not_lt_neg_sum : (a b : Float) → (a ≺ neg b) ≡ false → (a ⊕ b ≺ nought) ≡ false
  not_lt_neg_sum a b h = not_lt_of_le nought (a ⊕ b) (
      subst (λ (t : Float). Le t (a ⊕ b)) (Laws.neg_add_self X b)
        (Laws.add_mono_left X (neg b) a b (le_of_not_lt (neg b) a h)))

  pub neg_pos : (a : Float) → Lt a nought → Lt nought (neg a)
  neg_pos a h =
      subst (λ (t : Float). Lt t (neg a)) (X.add_neg a)
        (subst (λ (t : Float). Lt (a ⊕ neg a) t) (Laws.zero_add X (neg a))
          (X.lt_add a nought (neg a) h))

  pub add_pos : (a b : Float) → Lt nought a → Lt nought b → Lt nought (a ⊕ b)
  add_pos a b h k =
      N.lt_trans nought b (a ⊕ b) k
        (subst (λ (t : Float). Lt t (a ⊕ b)) (Laws.zero_add X b) (X.lt_add nought a b h))

  pub add_neg_lt : (a b : Float) → Lt a nought → Lt b nought → Lt (a ⊕ b) nought
  add_neg_lt a b h k =
      N.lt_trans (a ⊕ b) b nought
        (subst (λ (t : Float). Lt (a ⊕ b) t) (Laws.zero_add X b) (X.lt_add a nought b h)) k

  -- neg a < b  exactly when  0 < a + b
  pub neg_lt_sum : (a b : Float) → Lt (neg a) b → Lt nought (a ⊕ b)
  neg_lt_sum a b h =
      subst (λ (t : Float). Lt nought t) (X.add_comm b a)
        (subst (λ (t : Float). Lt t (b ⊕ a)) (Laws.neg_add_self X a) (X.lt_add (neg a) b a h))

  pub not_neg_lt_sum : (a b : Float) → (neg a ≺ b) ≡ false → (nought ≺ a ⊕ b) ≡ false
  not_neg_lt_sum a b h = not_lt_of_le (a ⊕ b) nought (
      subst (λ (t : Float). Le t nought) (X.add_comm b a)
        (subst (λ (t : Float). Le (b ⊕ a) t) (Laws.neg_add_self X a)
          (Laws.add_mono_left X b (neg a) a (le_of_not_lt b (neg a) h))))
