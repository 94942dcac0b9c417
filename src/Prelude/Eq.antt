-- ===== src/Prelude/Eq.antt =====
-- Equality of keys as an interface, with its instances for numbers and texts.
use Prim.Native.Nat.{ℕ}
use Prim.Native.String.{String}
use mathlib.Core.Path.{◌≡◌}
use mathlib.Core.Logic.{◌↔◌}
use mathlib.Core.Bool.{Bool, true}
use text.Mathlib.Text.{◌==◌ as text_equals}
use text.Mathlib.TextEquality.{eq_iff}
use quant_system.Prelude.Tests.{eqb, eqb_iff}

-- A test on keys, and that it answers true on equal keys alone.
pub record Eq {ℓ} (Key : Type ℓ) : Type ℓ where
  pub equals : Key → Key → Bool
  pub equals_iff : (j k : Key) → (equals j k ≡ true) ↔ (j ≡ k)

instance abbrev pub string_eq : Eq String
string_eq = record { equals_iff = eq_iff; equals = text_equals }

instance abbrev pub nat_eq : Eq ℕ
nat_eq = record { equals_iff = eqb_iff; equals = eqb }

infix 50 ◌==◌
abbrev pub ◌==◌ {ℓ} : {Key : Type ℓ} ⦃class : Eq Key⦄ → Key → Key → Bool
◌==◌ ⦃class⦄ = class.equals
