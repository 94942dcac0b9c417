-- ===== src/Num/Fixed.antt =====
-- Two concrete interpretations of the floats, which show that the laws can be met and on which
-- the tests run: the integers, and decimal fixed point with eight places.
pub mod Integers
pub mod Decimal
use quant_system.Prelude.{
  ℕ, zero, suc, ◌+◌, ◌*◌, ◌/◌, ◌^◌, ◌≡◌, ◌↔◌, true, false, not, refl, ap, arith,
}
use quant_system.Prelude.Int.{
  ℤ, pos, negsuc, ◌+ℤ◌, ◌-ℤ◌, ◌*ℤ◌, div, trunc, ltb_ℤ, leb_ℤ, eqb_ℤ, int_laws, +ℤ_parts, pos_part,
  neg_part, eq_of_parts,
}
use quant_system.Num.Floats.{Num}
use quant_system.Num.Exact.{IsExact}

pub eqb_ℤ_iff : (a b : ℤ) → (eqb_ℤ a b ≡ true) ↔ (a ≡ b)
eqb_ℤ_iff a b = ground arith

pub leb_ℤ_iff : (a b : ℤ) → leb_ℤ a b ≡ not (ltb_ℤ b a)
leb_ℤ_iff a b = ground arith

pub ltb_ℤ_irrefl : (a : ℤ) → ltb_ℤ a a ≡ false
ltb_ℤ_irrefl a = ground arith

pub ltb_ℤ_trans : (a b c : ℤ) → ltb_ℤ a b ≡ true → ltb_ℤ b c ≡ true → ltb_ℤ a c ≡ true
ltb_ℤ_trans a b c h k = ground arith

pub ltb_ℤ_total : (a b : ℤ) → ltb_ℤ a b ≡ false → ltb_ℤ b a ≡ false → a ≡ b
ltb_ℤ_total a b h k = ground arith

-- Whole numbers: sums and products are exact, quotients round towards zero.
instance abbrev pub integers : Num
integers = record {
  Value = ℤ;
  lit = λ m k. pos (m / 10 ^ k);
  add = ◌+ℤ◌;
  sub = ◌-ℤ◌;
  mul = ◌*ℤ◌;
  div = div;
  neg = λ a. pos 0 -ℤ a;
  lt = ltb_ℤ;
  le = leb_ℤ;
  eq = eqb_ℤ;
  eq_iff = eqb_ℤ_iff;
  le_iff = leb_ℤ_iff;
  lt_irrefl = ltb_ℤ_irrefl;
  lt_trans = ltb_ℤ_trans;
  lt_total = ltb_ℤ_total;
}

-- Eight decimal places: 1.0 is 100000000.
abbrev pub places : ℕ
places = 100_000_000

abbrev pub fixed : Num
fixed = record {
  Value = ℤ;
  lit = λ m k. pos (m * places / 10 ^ k);
  add = ◌+ℤ◌;
  sub = ◌-ℤ◌;
  mul = λ a b. trunc (a *ℤ b) places;
  div = λ a b. div (a *ℤ pos places) b;
  neg = λ a. pos 0 -ℤ a;
  lt = ltb_ℤ;
  le = leb_ℤ;
  eq = eqb_ℤ;
  eq_iff = eqb_ℤ_iff;
  le_iff = leb_ℤ_iff;
  lt_irrefl = ltb_ℤ_irrefl;
  lt_trans = ltb_ℤ_trans;
  lt_total = ltb_ℤ_total;
}
