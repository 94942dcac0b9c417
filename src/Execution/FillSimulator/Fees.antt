-- ===== src/Execution/FillSimulator/Fees.antt =====
-- The fees of simulated fills along Coinbase's tiers, and the volume that selects the tier.
use quant_system.Prelude.{
  Bool, true, false, ◌≡◌, inl, inr, refl, subst, Option, none, some, List, [], ◌∷◌, map, arith,
  Bool-cases, Option-cases, if◌then◌else◌,
}
use quant_system.Num.{Num, Float, ◌⊕◌, ◌⊗◌, nought, lit, sum_from}
use quant_system.Num.Order.{Le, le_refl, le_trans, lt_of_le_lt}
use quant_system.Num.Monotone.{IsMonotone}
use quant_system.Core.Models.{Order, Fill}
use quant_system.Execution.FillSimulator.{
  Tier, rate_of, below, first_rate, coinbase_fee_rate, coinbase_fee_tiers, Simulator, Outside,
  is_limit, default_fee_rate, fee_rate_for_order, simulate_fill,
}

module _ ⦃N : Num⦄ where
  -- Each rate of a schedule is at least the next, and the last at least the given one.
  abbrev pub Falls : Bool → List Tier → Float → Type 0
  Falls m [] last = Unit
  Falls m (r ∷ []) last = Le last (rate_of m r)
  Falls m (r ∷ r' ∷ rs) last = Le (rate_of m r') (rate_of m r) × Falls m (r' ∷ rs) last

  first_rate-le :
      (m : Bool) (last volume : Float) (r : Tier) (rs : List Tier)
      → Falls m (r ∷ rs) last
      → Le (first_rate m last volume (r ∷ rs)) (rate_of m r)
  unfolding first_rate
  first_rate-le m last volume r [] h = ground (arith, le_refl (rate_of m r))
  first_rate-le m last volume r (r' ∷ rs) (h, hs) = ground (
    arith,
    le_refl (rate_of m r),
    first_rate-le m last volume r' rs hs,
    le_trans (first_rate m last volume (r' ∷ rs)) (rate_of m r') (rate_of m r),
  )

  below_mono : (a b : Float) (t : Option Float) → Le a b → below b t ≡ true → below a t ≡ true
  below_mono a b none h e = refl
  below_mono a b (some t) h e = lt_of_le_lt a b t h e

  first_rate_mono :
      (m : Bool) (last a b : Float) (rs : List Tier)
      → Falls m rs last
      → Le a b
      → Le (first_rate m last b rs) (first_rate m last a rs)
  unfolding first_rate
  first_rate_mono m last a b [] f h = le_refl last
  first_rate_mono m last a b (r ∷ []) f h =
      ground (arith, below_mono a b r.threshold h, le_refl (rate_of m r), le_refl last)
  first_rate_mono m last a b (r ∷ r' ∷ rs) (f, fs) h = ground (
    arith,
    below_mono a b r.threshold h,
    le_refl (rate_of m r),
    first_rate_mono m last a b (r' ∷ rs) fs h,
    first_rate-le m last b r' rs fs,
    le_trans (first_rate m last b (r' ∷ rs)) (rate_of m r') (rate_of m r),
  )

  tiers-Falls :
      IsMonotone → (m : Bool) → Falls m coinbase_fee_tiers (if m then lit 0 4 else lit 5 4)
  tiers-Falls M true = (
    M.parts_mono 35 60 (omega arith),
    (
      M.parts_mono 25 35 (omega arith),
      (
        M.parts_mono 15 25 (omega arith),
        (
          M.parts_mono 10 15 (omega arith),
          (
            M.parts_mono 7 10 (omega arith),
            (
              M.parts_mono 5 7 (omega arith),
              (
                M.parts_mono 2 5 (omega arith),
                (
                  M.parts_mono 0 2 (omega arith),
                  (M.parts_mono 0 0 (omega arith), M.parts_mono 0 0 (omega arith)),
                ),
              ),
            ),
          ),
        ),
      ),
    ),
  )
  tiers-Falls M false = (
    M.parts_mono 75 120 (omega arith),
    (
      M.parts_mono 40 75 (omega arith),
      (
        M.parts_mono 25 40 (omega arith),
        (
          M.parts_mono 20 25 (omega arith),
          (
            M.parts_mono 16 20 (omega arith),
            (
              M.parts_mono 14 16 (omega arith),
              (
                M.parts_mono 10 14 (omega arith),
                (
                  M.parts_mono 8 10 (omega arith),
                  (M.parts_mono 5 8 (omega arith), M.parts_mono 5 5 (omega arith)),
                ),
              ),
            ),
          ),
        ),
      ),
    ),
  )

  -- With monotone arithmetic the fee rate never rises with the volume, for a maker and for a taker.
  pub coinbase_fee_rate_falls :
      (M : IsMonotone) (a b : Float) (m : Bool)
      → Le a b
      → Le (coinbase_fee_rate b m) (coinbase_fee_rate a m)
  unfolding coinbase_fee_rate
  coinbase_fee_rate_falls M a b m h =
      first_rate_mono m (if m then lit 0 4 else lit 5 4) a b coinbase_fee_tiers (tiers-Falls M m) h

  -- One simulated fill after another, each with its order, quote and depth.
  record Call : Type 0 where
    outside : Outside
    order : Order
    mid_price : Float
    spread : Float
    book_depth : List (Float × Float)

  abbrev fill_of : Call → Simulator → Fill × Simulator
  fill_of c s = simulate_fill c.outside c.order c.mid_price c.spread c.book_depth s

  session : List Call → Simulator → List Fill × Simulator
  session [] s = ([], s)
  session (c ∷ cs) s = let (f, s') = fill_of c s in let (fs, s'') = session cs s' in (f ∷ fs, s'')

  abbrev notional_of : Fill → Float
  notional_of f = f.quantity ⊗ f.fill_price

  -- Over any sequence of simulated fills the simulator's volume is the volume at the start plus
  -- the notionals of the fills, added in their order; the fee of each fill is its notional times
  -- its rate.
  session_volume :
      (cs : List Call) (s : Simulator)
      → let (fs, s') = session cs s in
        (s'.rolling_volume_30d ≡ sum_from s.rolling_volume_30d (map notional_of fs))
        × (map (λ (f : Fill). f.fee) fs ≡ map (λ (f : Fill). notional_of f ⊗ f.fee_rate) fs)
  unfolding session simulate_fill sum_from
  session_volume [] s = (refl, refl)
  session_volume (c ∷ cs) s = let (v, e) = session_volume cs (fill_of c s).1 in (v, cc e)

  fee_rate_for_order_mono :
      (M : IsMonotone) (o o' : Order) (s : Simulator) (v : Float)
      → is_limit o ≡ is_limit o'
      → Le s.rolling_volume_30d v
      → Le
          (fee_rate_for_order o' (record s { rolling_volume_30d = v })).0
          (fee_rate_for_order o s).0
  unfolding fee_rate_for_order
  fee_rate_for_order_mono M o o' s v same h = elim (Option-cases s.fixed_fee_rate) [
    | inr (rate, e) ↦ rw (e, fee_rate_for_order) (le_refl rate)
    | inl e ↦ elim (Bool-cases s.use_tiered_fees) [
      | inl t ↦
          rw (e, fee_rate_for_order, t, same)
            (coinbase_fee_rate_falls M s.rolling_volume_30d v (is_limit o') h)
      | inr t ↦ rw (e, fee_rate_for_order, t) (le_refl default_fee_rate)
    ]
  ]

  -- With monotone arithmetic, if a fill's notional is not negative, the next order of the same type pays no higher rate.
  next_rate_no_higher :
      (M : IsMonotone) (c d : Call) (s : Simulator)
      → is_limit c.order ≡ is_limit d.order
      → Le nought (notional_of (fill_of c s).0)
      → Le (fill_of d (fill_of c s).1).0.fee_rate (fill_of c s).0.fee_rate
  unfolding simulate_fill
  next_rate_no_higher M c d s same h =
      let v = s.rolling_volume_30d in
      fee_rate_for_order_mono M c.order d.order s (v ⊕ notional_of (fill_of c s).0) same (
        subst (λ (t : Float). Le t (v ⊕ notional_of (fill_of c s).0)) (M.add_zero v)
          (M.add_mono v v nought (notional_of (fill_of c s).0) (le_refl v) h))
