-- ===== src/Num/Fixed/Decimal.antt =====
-- Fixed point has the laws of rounded arithmetic.
use quant_system.Prelude.{
  ◌≤◌, ◌<◌, le→leb, leb→le, lt→ltb, ℕ, zero, suc, ◌+◌, ◌*◌, ◌/◌, ◌^◌, ◌≡◌, true, refl, arith,
}
use quant_system.Prelude.Int.{
  ℤ, pos, negsuc, ◌+ℤ◌, ◌-ℤ◌, ◌*ℤ◌, div, trunc, ltb_ℤ, leb_ℤ, int_laws, +ℤ_parts, -ℤ_parts,
  pos_part, neg_part,
}
use native.Mathlib.Nat.{le_trans, div-mul-le_self, le-div_iff_mul-le}
use quant_system.Num.Monotone.{IsMonotone}
use quant_system.Num.Fixed.{fixed, places}
use quant_system.Num.Fixed.Integers.{*ℤ_parts}

div_mono_ℕ : (k m n : ℕ) → m ≤ n → m / k ≤ n / k
div_mono_ℕ zero m n h = omega arith
div_mono_ℕ (suc k) m n h =
    (le-div_iff_mul-le (omega arith)).1 (le_trans (div-mul-le_self m (suc k)) h)

trunc_mono : (k : ℕ) (a b : ℤ) → leb_ℤ a b ≡ true → leb_ℤ (trunc a k) (trunc b k) ≡ true
unfolding trunc
trunc_mono k (pos a) (pos b) h = ground (arith, div_mono_ℕ k a b, div_mono_ℕ k 0 0)
trunc_mono k (pos a) (negsuc b) h = ground arith
trunc_mono k (negsuc a) (pos b) h = ground (arith, div_mono_ℕ k 0 b)
trunc_mono k (negsuc a) (negsuc b) h =
    ground (arith, div_mono_ℕ k (suc b) (suc a), div_mono_ℕ k 0 0)

scale_le : (k m n : ℕ) → m ≤ n → k * m ≤ k * n
scale_le k m n h = grind arith

mul_mono_ℤ :
    (a b c : ℤ) → leb_ℤ (pos 0) c ≡ true → leb_ℤ a b ≡ true → leb_ℤ (a *ℤ c) (b *ℤ c) ≡ true
mul_mono_ℤ a b (pos c) h k = le→leb _ _ (
    omega (
      arith,
      *ℤ_parts a (pos c),
      *ℤ_parts b (pos c),
      scale_le c (pos_part a + neg_part b) (pos_part b + neg_part a) (leb→le _ _ k),
    ))
mul_mono_ℤ a b (negsuc c) h k = absurd (ground arith)

-- One factor of `places` keeps the order.
times_places : (a b : ℤ) → leb_ℤ a b ≡ true → leb_ℤ (a *ℤ pos places) (b *ℤ pos places) ≡ true
times_places a b h = mul_mono_ℤ a b (pos places) refl h

div_mono_ℤ :
    (a b c : ℤ)
    → ltb_ℤ (pos 0) c ≡ true
    → leb_ℤ a b ≡ true
    → leb_ℤ (div (a *ℤ pos places) c) (div (b *ℤ pos places) c) ≡ true
unfolding div
div_mono_ℤ a b (pos c) h k = trunc_mono c _ _ (times_places a b k)
div_mono_ℤ a b (negsuc c) h k = absurd (ground arith)

add_mono_ℤ : (a b c d : ℤ) → leb_ℤ a b ≡ true → leb_ℤ c d ≡ true → leb_ℤ (a +ℤ c) (b +ℤ d) ≡ true
add_mono_ℤ a b c d h k =
    le→leb _ _ (omega (arith, +ℤ_parts a c, +ℤ_parts b d, leb→le _ _ h, leb→le _ _ k))

sub_mono_ℤ : (a b c d : ℤ) → leb_ℤ a b ≡ true → leb_ℤ d c ≡ true → leb_ℤ (a -ℤ c) (b -ℤ d) ≡ true
sub_mono_ℤ a b c d h k =
    le→leb _ _ (omega (arith, -ℤ_parts a c, -ℤ_parts b d, leb→le _ _ h, leb→le _ _ k))

zero_mul_ℤ : (a : ℤ) → trunc (pos 0 *ℤ a) places ≡ pos 0
unfolding trunc ◌*ℤ◌
zero_mul_ℤ a = ground arith

mul_zero_ℤ : (a : ℤ) → trunc (a *ℤ pos 0) places ≡ pos 0
unfolding trunc ◌*ℤ◌
mul_zero_ℤ a = ground arith

zero_div_ℤ : (a : ℤ) → div (pos 0 *ℤ pos places) a ≡ pos 0
unfolding div ◌*ℤ◌
zero_div_ℤ (pos a) = ground (arith, div_mono_ℕ a 0 0)
zero_div_ℤ (negsuc a) = ground arith

hundredths :
    (m n : ℕ) → m ≤ n → leb_ℤ (pos (m * places / 10 ^ 2)) (pos (n * places / 10 ^ 2)) ≡ true
hundredths m n h = le→leb _ _ (omega arith)

hundredths_pos : (m : ℕ) → 0 < m → ltb_ℤ (pos 0) (pos (m * places / 10 ^ 2)) ≡ true
hundredths_pos m h = lt→ltb _ _ (omega arith)

parts : (m n : ℕ) → m ≤ n → leb_ℤ (pos (m * places / 10 ^ 4)) (pos (n * places / 10 ^ 4)) ≡ true
parts m n h = le→leb _ _ (omega arith)

pub fixed-IsMonotone : IsMonotone ⦃N = fixed⦄
fixed-IsMonotone = record {
  add_mono = add_mono_ℤ;
  sub_mono = sub_mono_ℤ;
  mul_mono = λ a b c h k. trunc_mono places _ _ (mul_mono_ℤ a b c h k);
  div_mono = div_mono_ℤ;
  zero_add = λ a. omega int_laws;
  add_zero = λ a. omega int_laws;
  sub_zero = λ a. omega int_laws;
  sub_self = λ a. omega int_laws;
  zero_mul = zero_mul_ℤ;
  mul_zero = mul_zero_ℤ;
  zero_div = zero_div_ℤ;
  hundredths_mono = hundredths;
  hundredths_pos = hundredths_pos;
  parts_mono = parts;
}
