-- ===== src/Num/Floats.antt =====
-- The interface of floats, the operators over it, and Python's `abs`, `min`, `max`, `sum`.
use quant_system.Prelude.{ℕ, ◌≡◌, ◌↔◌, Bool, true, false, not, List, [], ◌∷◌, if◌then◌else◌}
use quant_system.Prelude.Eq.{Eq}

pub record Num : Type 1 where
  pub Value : Type 0
  -- The literal m * 10 ** -k, as the nearest value: 0.03 is `lit 3 2`.
  pub lit : ℕ → ℕ → Value
  pub add : Value → Value → Value
  pub sub : Value → Value → Value
  pub mul : Value → Value → Value
  pub div : Value → Value → Value
  pub neg : Value → Value
  pub lt : Value → Value → Bool
  pub le : Value → Value → Bool
  pub eq : Value → Value → Bool
  pub eq_iff : (a b : Value) → (eq a b ≡ true) ↔ (a ≡ b)
  pub le_iff : (a b : Value) → le a b ≡ not (lt b a)
  pub lt_irrefl : (a : Value) → lt a a ≡ false
  pub lt_trans : (a b c : Value) → lt a b ≡ true → lt b c ≡ true → lt a c ≡ true
  pub lt_total : (a b : Value) → lt a b ≡ false → lt b a ≡ false → a ≡ b

abbrev pub Float : ⦃N : Num⦄ → Type 0
Float ⦃N⦄ = N.Value

infixl 65 ◌⊕◌ ◌⊖◌
infixl 70 ◌⊗◌ ◌⊘◌
infix 50 ◌≺◌ ◌≼◌ ◌≈◌
abbrev pub ◌⊕◌ : ⦃N : Num⦄ → Float → Float → Float
◌⊕◌ ⦃N⦄ = N.add

abbrev pub ◌⊖◌ : ⦃N : Num⦄ → Float → Float → Float
◌⊖◌ ⦃N⦄ = N.sub

abbrev pub ◌⊗◌ : ⦃N : Num⦄ → Float → Float → Float
◌⊗◌ ⦃N⦄ = N.mul

abbrev pub ◌⊘◌ : ⦃N : Num⦄ → Float → Float → Float
◌⊘◌ ⦃N⦄ = N.div

abbrev pub neg : ⦃N : Num⦄ → Float → Float
neg ⦃N⦄ = N.neg

abbrev pub ◌≺◌ : ⦃N : Num⦄ → Float → Float → Bool
◌≺◌ ⦃N⦄ = N.lt

abbrev pub ◌≼◌ : ⦃N : Num⦄ → Float → Float → Bool
◌≼◌ ⦃N⦄ = N.le

abbrev pub ◌≈◌ : ⦃N : Num⦄ → Float → Float → Bool
◌≈◌ ⦃N⦄ = N.eq

abbrev pub lit : ⦃N : Num⦄ → ℕ → ℕ → Float
lit ⦃N⦄ = N.lit

module _ ⦃N : Num⦄ where
  -- 0.0
  abbrev pub nought : Float
  nought = N.lit 0 0

  -- 1.0
  abbrev pub one : Float
  one = N.lit 1 0

  abbrev pub abs : Float → Float
  abs a = if a ≺ nought then neg a else a

  -- `min(a, b)` and `max(a, b)` keep the first of two equal values.
  abbrev pub min : Float → Float → Float
  min a b = if b ≺ a then b else a

  abbrev pub max : Float → Float → Float
  max a b = if a ≺ b then b else a

  -- `sum(xs)` adds from the left, from 0.
  unfoldable pub sum_from : Float → List Float → Float
  sum_from acc [] = acc
  sum_from acc (x ∷ xs) = sum_from (acc ⊕ x) xs

instance abbrev pub float_eq : ⦃N : Num⦄ → Eq N.Value
float_eq ⦃N⦄ = record { equals = N.eq; equals_iff = N.eq_iff }
