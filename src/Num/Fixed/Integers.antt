-- ===== src/Num/Fixed/Integers.antt =====
-- The integers have the laws of exact arithmetic.
use quant_system.Prelude.{ℕ, zero, suc, ◌+◌, ◌*◌, ◌≡◌, true, refl, ap, arith}
use quant_system.Prelude.Int.{
  ℤ, pos, negsuc, ◌+ℤ◌, ◌*ℤ◌, ltb_ℤ, int_laws, +ℤ_parts, pos_part, neg_part, eq_of_parts,
}
use quant_system.Num.Exact.{IsExact}
use quant_system.Num.Fixed.{integers}

-- What a product is, up to what both of its parts may share.
pub *ℤ_parts :
    (a b : ℤ)
    → pos_part (a *ℤ b) + (pos_part a * neg_part b + neg_part a * pos_part b)
      ≡ neg_part (a *ℤ b) + (pos_part a * pos_part b + neg_part a * neg_part b)
unfolding ◌*ℤ◌
*ℤ_parts a b = ground arith

*ℤ_comm : (a b : ℤ) → a *ℤ b ≡ b *ℤ a
*ℤ_comm a b = omega (arith, *ℤ_parts a b, *ℤ_parts b a, eq_of_parts)

-- An equation between numbers, multiplied.
pub scale : (k : ℕ) {a b : ℕ} → a ≡ b → k * a ≡ k * b
scale k e = ap (λ (t : ℕ). k * t) e

*ℤ_assoc : (a b c : ℤ) → a *ℤ b *ℤ c ≡ a *ℤ (b *ℤ c)
*ℤ_assoc a b c = omega (
  arith,
  eq_of_parts,
  *ℤ_parts (a *ℤ b) c,
  *ℤ_parts a (b *ℤ c),
  scale (pos_part c) (*ℤ_parts a b),
  scale (neg_part c) (*ℤ_parts a b),
  scale (pos_part a) (*ℤ_parts b c),
  scale (neg_part a) (*ℤ_parts b c),
)

*ℤ_add : (a b c : ℤ) → a *ℤ (b +ℤ c) ≡ a *ℤ b +ℤ a *ℤ c
*ℤ_add a b c = omega (
  arith,
  eq_of_parts,
  *ℤ_parts a (b +ℤ c),
  *ℤ_parts a b,
  *ℤ_parts a c,
  +ℤ_parts (a *ℤ b) (a *ℤ c),
  scale (pos_part a) (+ℤ_parts b c),
  scale (neg_part a) (+ℤ_parts b c),
)

*ℤ_pos : (a b : ℤ) → ltb_ℤ (pos 0) a ≡ true → ltb_ℤ (pos 0) b ≡ true → ltb_ℤ (pos 0) (a *ℤ b) ≡ true
unfolding ◌*ℤ◌
*ℤ_pos (pos (suc a)) (pos (suc b)) h k = ground arith
*ℤ_pos (pos zero) b h k = cc
*ℤ_pos a (pos zero) h k = cc
*ℤ_pos (pos (suc a)) (negsuc b) h k = ground arith
*ℤ_pos (negsuc a) b h k = ground arith

*ℤ_one : (a : ℤ) → a *ℤ pos 1 ≡ a
unfolding ◌*ℤ◌
*ℤ_one a = ground arith

lt_add_ℤ : (a b c : ℤ) → ltb_ℤ a b ≡ true → ltb_ℤ (a +ℤ c) (b +ℤ c) ≡ true
unfolding ◌+ℤ◌
lt_add_ℤ a b c h = ground arith

pub integers-IsExact : IsExact ⦃N = integers⦄
integers-IsExact = record {
  add_comm = λ a b. omega int_laws;
  add_assoc = λ a b c. omega int_laws;
  add_zero = λ a. omega int_laws;
  add_neg = λ a. omega int_laws;
  sub_eq = λ a b. omega int_laws;
  mul_comm = *ℤ_comm;
  mul_assoc = *ℤ_assoc;
  mul_one = *ℤ_one;
  mul_add = *ℤ_add;
  lt_add = lt_add_ℤ;
  lt_mul = *ℤ_pos;
  zero_lt_one = refl;
}
