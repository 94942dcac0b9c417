-- ===== src/Num/Monotone.antt =====
-- What rounded arithmetic keeps: each operation is monotone, and zero is neutral. Doubles have
-- these laws as long as no operation overflows, and so does decimal fixed point.
use quant_system.Prelude.{ℕ, ◌≡◌, ◌≤◌, ◌<◌}
use quant_system.Num.Floats.{Num, Float, ◌⊕◌, ◌⊖◌, ◌⊗◌, ◌⊘◌, nought, lit}
use quant_system.Num.Order.{Le, Lt}

pub record IsMonotone ⦃N : Num⦄ : Type 0 where
  pub add_mono : (a b c d : Float) → Le a b → Le c d → Le (a ⊕ c) (b ⊕ d)
  pub sub_mono : (a b c d : Float) → Le a b → Le d c → Le (a ⊖ c) (b ⊖ d)
  pub mul_mono : (a b c : Float) → Le nought c → Le a b → Le (a ⊗ c) (b ⊗ c)
  pub div_mono : (a b c : Float) → Lt nought c → Le a b → Le (a ⊘ c) (b ⊘ c)
  pub zero_add : (a : Float) → nought ⊕ a ≡ a
  pub add_zero : (a : Float) → a ⊕ nought ≡ a
  pub sub_zero : (a : Float) → a ⊖ nought ≡ a
  pub sub_self : (a : Float) → a ⊖ a ≡ nought
  pub zero_mul : (a : Float) → nought ⊗ a ≡ nought
  pub mul_zero : (a : Float) → a ⊗ nought ≡ nought
  pub zero_div : (a : Float) → nought ⊘ a ≡ nought
  -- Hundredths keep their order as literals.
  pub hundredths_mono : (m n : ℕ) → m ≤ n → Le (lit m 2) (lit n 2)
  pub hundredths_pos : (m : ℕ) → 0 < m → Lt nought (lit m 2)
  -- So do ten-thousandths.
  pub parts_mono : (m n : ℕ) → m ≤ n → Le (lit m 4) (lit n 4)
