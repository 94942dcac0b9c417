-- ===== src/Risk/Scale.antt =====
-- The position scale by drawdown.
use quant_system.Prelude.{◌≡◌, ◌⊎◌, inl, inr, refl, subst, arith, Bool-cases}
use quant_system.Num.{Num, Float, ◌⊖◌, ◌⊗◌, ◌⊘◌, ◌≼◌, nought, one, lit}
use quant_system.Num.Order.{Le, Lt, le_refl, le_of_lt, lt_of_not_le, lt_of_lt_le}
use quant_system.Num.Monotone.{IsMonotone}
use quant_system.Risk.Checks.{PortfolioState, drawdown, ramp, drawdown_scale_factor}

module _ ⦃N : Num⦄ (M : IsMonotone) where
  -- What the ramp takes off the full size is not negative past 3%.
  ramp_part : (d : Float) → Le (lit 3 2) d → Le nought ((d ⊖ lit 3 2) ⊘ lit 4 2 ⊗ lit 75 2)
  ramp_part d h =
      let excess : Le nought (d ⊖ lit 3 2) =
        subst (λ (t : Float). Le t (d ⊖ lit 3 2)) (M.sub_self (lit 3 2))
          (M.sub_mono (lit 3 2) d (lit 3 2) (lit 3 2) h (le_refl (lit 3 2))) in
      let share : Le nought ((d ⊖ lit 3 2) ⊘ lit 4 2) =
        subst (λ (t : Float). Le t ((d ⊖ lit 3 2) ⊘ lit 4 2)) (M.zero_div (lit 4 2))
          (M.div_mono nought (d ⊖ lit 3 2) (lit 4 2) (M.hundredths_pos 4 (omega arith)) excess) in
      subst (λ (t : Float). Le t ((d ⊖ lit 3 2) ⊘ lit 4 2 ⊗ lit 75 2)) (M.zero_mul (lit 75 2))
        (M.mul_mono nought ((d ⊖ lit 3 2) ⊘ lit 4 2) (lit 75 2)
          (le_of_lt nought (lit 75 2) (M.hundredths_pos 75 (omega arith))) share)

  ramp-le-one : (d : Float) → Le (lit 3 2) d → Le (ramp d) one
  ramp-le-one d h =
      subst (λ (t : Float). Le (ramp d) t) (M.sub_zero one)
        (M.sub_mono one one ((d ⊖ lit 3 2) ⊘ lit 4 2 ⊗ lit 75 2) nought (le_refl one)
          (ramp_part d h))

  -- A larger drawdown leaves no larger ramp.
  ramp-antitone : (d e : Float) → Le d e → Le (ramp e) (ramp d)
  ramp-antitone d e h = M.sub_mono one one _ _ (le_refl one) (
      M.mul_mono _ _ (lit 75 2) (le_of_lt nought (lit 75 2) (M.hundredths_pos 75 (omega arith))) (
        M.div_mono _ _ (lit 4 2) (M.hundredths_pos 4 (omega arith))
          (M.sub_mono d e (lit 3 2) (lit 3 2) h (le_refl (lit 3 2)))))

  -- With monotone arithmetic the scale never enlarges an order and is always positive, whatever
  -- the drawdown, past 10% too: it is at least the ramp's value at 7%, or it is a quarter. The
  -- constants are such that a quarter and the ramp's value at 7% are at most one and that the
  -- latter is positive.
  pub drawdown_scale_bounds :
      (state : PortfolioState)
      → Le (lit 25 2) one
      → Le (ramp (lit 7 2)) one
      → Lt nought (ramp (lit 7 2))
      → let s = drawdown_scale_factor state in
        Le s one × Lt nought s × (Le (ramp (lit 7 2)) s ⊎ (s ≡ lit 25 2))
  unfolding drawdown_scale_factor
  drawdown_scale_bounds state quarter end above =
      let d = drawdown state in
      let full = lt_of_lt_le nought (ramp (lit 7 2)) one above end in
      elim (Bool-cases (state.peak_equity ≼ nought)) [
        | inl flat ↦ rw flat (le_refl one, full, inl end)
        | inr some' ↦ elim (Bool-cases (d ≼ lit 3 2)) [
          | inl small ↦ rw (some', small) (le_refl one, full, inl end)
          | inr past ↦ elim (Bool-cases (d ≼ lit 7 2)) [
            | inl middle ↦
                let least = ramp-antitone d (lit 7 2) middle in
                rw (some', past, middle)
                  (
                    ramp-le-one d (le_of_lt (lit 3 2) d (lt_of_not_le (lit 3 2) d past)),
                    lt_of_lt_le nought (ramp (lit 7 2)) (ramp d) above least,
                    inl least,
                  )
            | inr deep ↦
                rw (some', past, deep) (quarter, M.hundredths_pos 25 (omega arith), inr refl)
          ]
        ]
      ]
