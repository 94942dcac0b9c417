-- ===== src/PostTrade/Metrics/Falls.antt =====
-- The maximal drawdown against a description that looks at each point of the curve by itself.
use quant_system.Prelude.{
  ℕ, suc, ◌+◌, ◌≤◌, ◌≡◌, ◌≢◌, ◌⊎◌, inl, inr, refl, true, false, some, List, [], ◌∷◌, length, All,
  arith, Bool-cases, if◌then◌else◌,
}
use quant_system.Num.{Num, Float, ◌⊖◌, ◌⊘◌, ◌≺◌, ◌≼◌, ◌≈◌, nought, max, float_eq}
use quant_system.Num.Order.{
  Le, Lt, le_of_eq, not_le_of_lt, lt_of_lt_le, le_trans, le_refl, le-max_left, le-max_right,
}
use quant_system.PostTrade.Metrics.{Drawdown, longer, turn, turns, compute_max_drawdown}

module _ ⦃N : Num⦄ where
  -- The falls of a curve: at each point below the highest one before it, the distance to that
  -- one, as a share of it.
  abbrev pub falls : Float → List Float → List Float
  falls peak [] = []
  falls peak (v ∷ vs) = if peak ≼ v then falls v vs else ((peak ⊖ v) ⊘ peak) ∷ falls peak vs

  abbrev pub Among : Float → List Float → Type 0
  Among x [] = ⊥
  Among x (y ∷ ys) = (x ≡ y) ⊎ Among x ys

  -- A greatest one of the items of a list.
  abbrev pub IsGreatest : Float → List Float → Type 0
  IsGreatest m xs = All (λ y. Le y m) xs × Among m xs

  one_of_max : (m x y : Float) (xs : List Float) → m ≡ max x y → Among m (x ∷ y ∷ xs)
  one_of_max m x y xs e = elim (Bool-cases (x ≺ y)) [
    | inl lt ↦ inr (inl (rw (e, lt)))
    | inr ge ↦ inl (rw (e, ge))
  ]

  IsGreatest-max :
      (m x y : Float) (xs : List Float) → IsGreatest m (max x y ∷ xs) → IsGreatest m (x ∷ y ∷ xs)
  IsGreatest-max m x y xs ((b, bs), a) = (
    (le_trans x (max x y) m (le-max_left x y) b, (le_trans y (max x y) m (le-max_right x y) b, bs)),
    elim a [ inl e ↦ one_of_max m x y xs e | inr later ↦ inr (inr later) ],
  )

  IsGreatest-cast :
      (r x y p q : Float) (vs : List Float)
      → (x ≡ y) × (p ≡ q)
      → IsGreatest r (x ∷ falls p vs)
      → IsGreatest r (y ∷ falls q vs)
  IsGreatest-cast r x y p q vs (e, f) g = rw (← e, ← f) g

  -- A turn of the loop, for a peak that is not zero.
  step : Drawdown → Float → Drawdown
  step d v = if d.peak ≼ v then record d { peak = v; current_duration = 0 } else record d {
    max_dd = max d.max_dd ((d.peak ⊖ v) ⊘ d.peak);
    max_duration = longer d.max_duration (suc d.current_duration);
    current_duration = suc d.current_duration;
  }

  steps : Drawdown → List Float → Drawdown
  steps d [] = d
  steps d (v ∷ vs) = steps (step d v) vs

  lt_irrefl : (a b : Float) → Lt b a → a ≢ b
  lt_irrefl a b h e = ground (arith, not_le_of_lt b a h, le_of_eq a b e)

  not_zero : (x : Float) → Lt nought x → (x ≈ nought) ≡ false
  not_zero x h = ground (arith, float_eq.equals_iff x nought, lt_irrefl x nought h)

  turn-step :
      (d : Drawdown) (v : Float)
      → Lt nought d.peak
      → (turn d v ≡ some (step d v)) × Lt nought (step d v).peak
  unfolding turn step
  turn-step d v h = elim (Bool-cases (d.peak ≼ v)) [
    | inl up ↦ rw (up) (refl, lt_of_lt_le nought d.peak v h up)
    | inr down ↦ rw (down, not_zero d.peak h) (refl, h)
  ]

  -- From a positive peak on, no turn divides by zero.
  turns-steps : (d : Drawdown) (vs : List Float) → Lt nought d.peak → turns d vs ≡ some (steps d vs)
  unfolding turns steps
  turns-steps d [] h = refl
  turns-steps d (v ∷ vs) h =
      let (e, h') = turn-step d v h in rw (turns, e) (turns-steps (step d v) vs h')

  step_up :
      (d : Drawdown) (v : Float)
      → (d.peak ≼ v) ≡ true
      → ((step d v).max_dd ≡ d.max_dd) × ((step d v).peak ≡ v)
  unfolding step
  step_up d v up = (rw (up), rw (up))

  step_down :
      (d : Drawdown) (v : Float)
      → (d.peak ≼ v) ≡ false
      → ((step d v).max_dd ≡ max d.max_dd ((d.peak ⊖ v) ⊘ d.peak)) × ((step d v).peak ≡ d.peak)
  unfolding step
  step_down d v down = (rw (down), rw (down))

  steps-falls :
      (d : Drawdown) (vs : List Float) → IsGreatest (steps d vs).max_dd (d.max_dd ∷ falls d.peak vs)
  unfolding steps
  steps-falls d [] = ((le_refl d.max_dd, tt), inl refl)
  steps-falls d (v ∷ vs) =
      let later = steps-falls (step d v) vs in
      elim (Bool-cases (d.peak ≼ v)) [
        | inl up ↦ rw (up) (
            IsGreatest-cast (steps (step d v) vs).max_dd (step d v).max_dd d.max_dd (step d v).peak
              v vs (step_up d v up) later)
        | inr down ↦
            let fall = (d.peak ⊖ v) ⊘ d.peak in
            let m = (steps (step d v) vs).max_dd in
            rw (down) (
              IsGreatest-max m d.max_dd fall (falls d.peak vs) (
                IsGreatest-cast m (step d v).max_dd (max d.max_dd fall) (step d v).peak d.peak vs
                  (step_down d v down) later))
      ]

  abbrev start : Float → Drawdown
  start e = record { peak = e; max_dd = nought; max_duration = 0; current_duration = 0 }

  longest :
      (d : Drawdown) (vs : List Float)
      → d.current_duration ≤ d.max_duration
      → (steps d vs).max_duration ≤ d.max_duration + length vs
  unfolding steps step
  longest d [] h = omega arith
  longest d (v ∷ vs) h = ground (arith, longest (step d v) vs)

  longest_from : (e : Float) (es : List Float) → (steps (start e) (e ∷ es)).max_duration ≤ length es
  unfolding steps step
  longest_from e es = ground (arith, longest (step (start e) e) es, le_refl e)

  -- On a curve whose first point is positive, the maximal drawdown is computed: it is a greatest
  -- one of zero and the curve's falls, and lasts for less periods than the curve has points.
  pub max_drawdown-IsGreatest :
      (e : Float) (es : List Float)
      → Lt nought e
      → (r : Float × ℕ) × (compute_max_drawdown (e ∷ es) ≡ some r)
        × IsGreatest r.0 (nought ∷ falls e (e ∷ es))
        × (r.1 ≤ length es)
  unfolding compute_max_drawdown
  max_drawdown-IsGreatest e es h = (
    _,
    rw (turns-steps (start e) (e ∷ es) h) refl,
    steps-falls (start e) (e ∷ es),
    longest_from e es,
  )
