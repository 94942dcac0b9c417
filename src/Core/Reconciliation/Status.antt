-- ===== src/Core/Reconciliation/Status.antt =====
-- The report's status and the list of its discrepancies.
use quant_system.Prelude.{
  ◌≡◌, String, Bool, true, false, not, ◌||◌, List, [], ◌∷◌, map, if◌then◌else◌,
}
use quant_system.Prelude.Eq.{string_eq}
use quant_system.Prelude.Dict.{Dict}
use quant_system.Num.{Num, Float, ◌⊖◌, ◌≈◌, nought, abs}
use quant_system.Core.Reconciliation.{
  Severity, warning, critical, Level, ok, warned, alarmed, PositionDiscrepancy, quantity_of,
}

module _ ⦃N : Num⦄ where
  abbrev pub any : (Severity → Bool) → List PositionDiscrepancy → Bool
  any p [] = false
  any p (d ∷ ds) = p d.severity || any p ds

  abbrev pub is_critical : Severity → Bool
  is_critical critical = true
  is_critical _ = false

  abbrev pub is_warning : Severity → Bool
  is_warning warning = true
  is_warning _ = false

  -- The state that a list of discrepancies deserves: that of the gravest one.
  abbrev pub gravest : List PositionDiscrepancy → Level
  gravest ds = if any is_critical ds then alarmed else if any is_warning ds then warned else ok

  -- The two sides hold different quantities of a symbol.
  abbrev pub differs : Dict String Float → Dict String Float → String → Bool
  differs internals exchanges symbol =
      not (abs (quantity_of symbol internals ⊖ quantity_of symbol exchanges) ≈ nought)

  abbrev pub names : List PositionDiscrepancy → List String
  names = map (λ (d : PositionDiscrepancy). d.symbol)

  -- What is to be shown of the loop's result, after symbols with the given differences.
  abbrev Reported : List String → List PositionDiscrepancy × Level → Type 0
  Reported wanted st = (st.1 ≡ gravest st.0) × (names st.0 ≡ wanted)
