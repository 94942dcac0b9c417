-- ===== src/Num/Exact.antt =====
-- Arithmetic without rounding: the laws of an ordered commutative ring, which doubles have only
-- approximately. A theorem about sums of money takes them as a hypothesis. Division is left out:
-- where a quotient matters the theorem says that it is exact.
use quant_system.Prelude.{◌≡◌, true}
use quant_system.Num.Floats.{Num, Float, ◌⊕◌, ◌⊖◌, ◌⊗◌, ◌≺◌, neg, nought, one}

pub record IsExact ⦃N : Num⦄ : Type 0 where
  pub add_comm : (a b : Float) → a ⊕ b ≡ b ⊕ a
  pub add_assoc : (a b c : Float) → a ⊕ b ⊕ c ≡ a ⊕ (b ⊕ c)
  pub add_zero : (a : Float) → a ⊕ nought ≡ a
  pub add_neg : (a : Float) → a ⊕ neg a ≡ nought
  pub sub_eq : (a b : Float) → a ⊖ b ≡ a ⊕ neg b
  pub mul_comm : (a b : Float) → a ⊗ b ≡ b ⊗ a
  pub mul_assoc : (a b c : Float) → a ⊗ b ⊗ c ≡ a ⊗ (b ⊗ c)
  pub mul_one : (a : Float) → a ⊗ one ≡ a
  pub mul_add : (a b c : Float) → a ⊗ (b ⊕ c) ≡ a ⊗ b ⊕ a ⊗ c
  pub lt_add : (a b c : Float) → (a ≺ b) ≡ true → (a ⊕ c ≺ b ⊕ c) ≡ true
  pub lt_mul : (a b : Float) → (nought ≺ a) ≡ true → (nought ≺ b) ≡ true → (nought ≺ a ⊗ b) ≡ true
  pub zero_lt_one : (nought ≺ one) ≡ true
