-- ===== src/Num/Order.antt =====
-- The order of floats as propositions, with the laws that proofs about comparisons use.
use quant_system.Prelude.{◌≡◌, true, false, arith}
use quant_system.Num.Floats.{Num, Float, ◌≺◌, ◌≼◌, min, max}

module _ ⦃N : Num⦄ where
  abbrev pub Le : Float → Float → Type 0
  Le a b = (a ≼ b) ≡ true

  abbrev pub Lt : Float → Float → Type 0
  Lt a b = (a ≺ b) ≡ true

  pub le_of_not_lt : (a b : Float) → (b ≺ a) ≡ false → Le a b
  le_of_not_lt a b h = ground (arith, N.le_iff a b)

  pub not_lt_of_le : (a b : Float) → Le a b → (b ≺ a) ≡ false
  not_lt_of_le a b h = ground (arith, N.le_iff a b)

  pub not_le_of_lt : (a b : Float) → Lt a b → (b ≼ a) ≡ false
  not_le_of_lt a b h = ground (arith, N.le_iff b a)

  pub lt_of_not_le : (a b : Float) → (b ≼ a) ≡ false → Lt a b
  lt_of_not_le a b h = ground (arith, N.le_iff b a)

  pub lt_asymm : (a b : Float) → Lt a b → (b ≺ a) ≡ false
  lt_asymm a b h = ground (arith, N.lt_trans a b a, N.lt_irrefl a)

  pub le_refl : (a : Float) → Le a a
  le_refl a = le_of_not_lt a a (N.lt_irrefl a)

  pub le_of_lt : (a b : Float) → Lt a b → Le a b
  le_of_lt a b h = le_of_not_lt a b (lt_asymm a b h)

  pub lt_of_lt_le : (a b c : Float) → Lt a b → Le b c → Lt a c
  lt_of_lt_le a b c h k = ground (arith, N.le_iff b c, N.lt_trans a b c, N.lt_total b c)

  pub lt_of_le_lt : (a b c : Float) → Le a b → Lt b c → Lt a c
  lt_of_le_lt a b c h k = ground (arith, N.le_iff a b, N.lt_trans a b c, N.lt_total a b)

  pub le_trans : (a b c : Float) → Le a b → Le b c → Le a c
  le_trans a b c h k = ground (
    arith,
    N.le_iff a b,
    N.le_iff b c,
    N.le_iff a c,
    N.lt_trans c a b,
    N.lt_trans b c a,
    N.lt_total a b,
    N.lt_total c a,
  )

  pub le_antisymm : (a b : Float) → Le a b → Le b a → a ≡ b
  le_antisymm a b h k = N.lt_total a b (not_lt_of_le b a k) (not_lt_of_le a b h)

  pub min-le_left : (a b : Float) → Le (min a b) a
  min-le_left a b = ground (arith, le_refl a, le_of_lt b a)

  pub min-le_right : (a b : Float) → Le (min a b) b
  min-le_right a b = ground (arith, le_refl b, le_of_not_lt a b)

  pub le-max_left : (a b : Float) → Le a (max a b)
  le-max_left a b = ground (arith, le_refl a, le_of_lt a b)

  pub le-max_right : (a b : Float) → Le b (max a b)
  le-max_right a b = ground (arith, le_refl b, le_of_not_lt b a)

  pub le_of_eq : (a b : Float) → a ≡ b → Le a b
  le_of_eq a b h = ground (arith, le_refl a)
