-- ===== src/PostTrade/Pnl/Increase.antt =====
-- A fill that enlarges a position: the cost of the position grows by the cost of the fill.
use quant_system.Prelude.{
  true, false, ◌≡◌, ◌≢◌, inl, inr, refl, sym, ap, subst, ◌∙◌, [], ◌∷◌, arith, Bool-cases,
}
use quant_system.Num.{Num, Float, ◌⊕◌, ◌⊖◌, ◌⊗◌, ◌⊘◌, ◌≺◌, ◌≈◌, neg, nought, one, abs}
use quant_system.Num.Exact.{IsExact}
use quant_system.Num.Order.{Lt, lt_asymm}
use quant_system.Num.Ring.{Expr, ring}
use quant_system.Num.Ring.Laws
use quant_system.Num.Ring.Sign.{abs_of_pos, abs_of_nonpos, abs_zero, add_pos, add_neg_lt}
use quant_system.PostTrade.Pnl.{Position, same_direction, increase, unrealized_pnl}
use quant_system.PostTrade.Pnl.Unrealized.{unrealized_pnl-eq}

module _ ⦃N : Num⦄ (X : IsExact) where
  -- In an enlarging fill the old quantity, the fill and the new quantity have one sign.
  abbrev OneSign : Float → Float → Type 0
  OneSign q s = (e : Float) × (q ≡ e ⊗ abs q) × (s ≡ e ⊗ abs s) × (q ⊕ s ≡ e ⊗ abs (q ⊕ s))

  plus_one : (a : Float) → Lt nought a → a ≡ one ⊗ abs a
  plus_one a h = rw (abs_of_pos a h) (sym (X.mul_comm one a ∙ X.mul_one a))

  minus_one : (a : Float) → (nought ≺ a) ≡ false → a ≡ neg one ⊗ abs a
  minus_one a h = rw (abs_of_nonpos X a h) (
      ring X (a ∷ []) (Expr.var 0)
        (Expr.times (Expr.minus_of Expr.one_) (Expr.minus_of (Expr.var 0))) refl)

  zero_sign : (e : Float) → nought ≡ e ⊗ abs nought
  zero_sign e = rw abs_zero (sym (Laws.mul_zero X e))

  one_sign : (q s : Float) → same_direction q s ≡ true → OneSign q s
  one_sign q s h = elim (Bool-cases (q ≈ nought)) [
    | inl z ↦
        let zero_q : q ≡ nought = (N.eq_iff q nought).0 z in
        let same_s : q ⊕ s ≡ s = ap (λ (t : Float). t ⊕ s) zero_q ∙ Laws.zero_add X s in
        elim (Bool-cases (nought ≺ s)) [
          | inl up ↦
              (one, zero_part q one zero_q, plus_one s up, sum_part q s one same_s (plus_one s up))
          | inr down ↦ (
            neg one,
            zero_part q (neg one) zero_q,
            minus_one s down,
            sum_part q s (neg one) same_s (minus_one s down),
          )
        ]
    | inr nz ↦ elim (Bool-cases (nought ≺ q)) [
      | inl up ↦
          let up_s : Lt nought s = ground (arith, lt_asymm nought q up) in
          (one, plus_one q up, plus_one s up_s, plus_one (q ⊕ s) (add_pos X q s up up_s))
      | inr down ↦
          let down_q : Lt q nought = ground arith in
          let down_s : Lt s nought = ground arith in
          (
            neg one,
            minus_one q down,
            minus_one s (lt_asymm s nought down_s),
            minus_one (q ⊕ s) (lt_asymm (q ⊕ s) nought (add_neg_lt X q s down_q down_s)),
          )
    ]
  ]
    where
      zero_part : (a e : Float) → a ≡ nought → a ≡ e ⊗ abs a
      zero_part a e z = subst (λ (t : Float). t ≡ e ⊗ abs t) (sym z) (zero_sign e)

      sum_part : (a b e : Float) → a ⊕ b ≡ b → b ≡ e ⊗ abs b → a ⊕ b ≡ e ⊗ abs (a ⊕ b)
      sum_part a b e same h' = subst (λ (t : Float). t ≡ e ⊗ abs t) (sym same) h'

  -- A fill that enlarges a position to nothing was nothing.
  enlarged_to_zero :
      (q s : Float) → same_direction q s ≡ true → q ⊕ s ≡ nought → (q ≡ nought) × (s ≡ nought)
  enlarged_to_zero q s h z = elim (Bool-cases (q ≈ nought)) [
    | inl e ↦
        let zero_q : q ≡ nought = (N.eq_iff q nought).0 e in
        (zero_q, sym (Laws.zero_add X s) ∙ ap (λ (t : Float). t ⊕ s) (sym zero_q) ∙ z)
    | inr nz ↦ elim (Bool-cases (nought ≺ q)) [
      | inl up ↦
          let up_s : Lt nought s = ground (arith, lt_asymm nought q up) in
          absurd (grind (arith, add_pos X q s up up_s, N.lt_irrefl nought))
      | inr down ↦
          let down_q : Lt q nought = ground arith in
          let down_s : Lt s nought = ground arith in
          absurd (grind (arith, add_neg_lt X q s down_q down_s, N.lt_irrefl nought))
    ]
  ]

  -- The quotient in `apply_fill` is the exact average.
  abbrev pub IsExactAverage : Float → Float → Position → Type 0
  IsExactAverage s price p =
      let q = p.quantity ⊕ s in
      let total_cost = p.avg_entry_price ⊗ abs p.quantity ⊕ price ⊗ abs s in
      q ≢ nought → (total_cost ⊘ abs q) ⊗ abs q ≡ total_cost

  -- The cost of a position, with its sign, grows by the signed cost of the fill.
  increase-cost :
      (s price : Float) (p : Position)
      → same_direction p.quantity s ≡ true
      → IsExactAverage s price p
      → let r = increase s price p in
        r.quantity ⊗ r.avg_entry_price ≡ p.quantity ⊗ p.avg_entry_price ⊕ s ⊗ price
  unfolding increase
  increase-cost s price p h exact = elim (Bool-cases (p.quantity ⊕ s ≈ nought)) [
    | inl z ↦
        let zero_sum : p.quantity ⊕ s ≡ nought = (N.eq_iff _ nought).0 z in
        let (zero_q, zero_s) = enlarged_to_zero p.quantity s h zero_sum in
        rw (z, zero_sum, zero_s, zero_q)
          (ring X (p.avg_entry_price ∷ price ∷ []) (Expr.times Expr.zero_ (Expr.var 0))
            (Expr.plus (Expr.times Expr.zero_ (Expr.var 0)) (Expr.times Expr.zero_ (Expr.var 1)))
            refl)
    | inr nz ↦ rw nz (
        averaged (one_sign p.quantity s h)
          (exact (λ e. cc ((N.eq_iff (p.quantity ⊕ s) nought).1 e))))
  ]
    where
      averaged :
          OneSign p.quantity s
          → let total_cost = p.avg_entry_price ⊗ abs p.quantity ⊕ price ⊗ abs s in
            (total_cost ⊘ abs (p.quantity ⊕ s)) ⊗ abs (p.quantity ⊕ s) ≡ total_cost
            → (p.quantity ⊕ s) ⊗ (total_cost ⊘ abs (p.quantity ⊕ s))
              ≡ p.quantity ⊗ p.avg_entry_price ⊕ s ⊗ price
      averaged (e, eq, es, esum) whole =
          let a = abs p.quantity in
          let b = abs s in
          let c = abs (p.quantity ⊕ s) in
          let mean = (p.avg_entry_price ⊗ a ⊕ price ⊗ b) ⊘ c in
          ap (λ (t : Float). t ⊗ mean) esum
          ∙ ring X (e ∷ c ∷ mean ∷ [])
              (Expr.times (Expr.times (Expr.var 0) (Expr.var 1)) (Expr.var 2))
              (Expr.times (Expr.var 0) (Expr.times (Expr.var 2) (Expr.var 1))) refl
          ∙ ap (λ (t : Float). e ⊗ t) whole
          ∙ ring X (e ∷ p.avg_entry_price ∷ a ∷ price ∷ b ∷ [])
              (Expr.times (Expr.var 0) (
                Expr.plus (Expr.times (Expr.var 1) (Expr.var 2))
                  (Expr.times (Expr.var 3) (Expr.var 4))))
              (Expr.plus (Expr.times (Expr.times (Expr.var 0) (Expr.var 2)) (Expr.var 1))
                (Expr.times (Expr.times (Expr.var 0) (Expr.var 4)) (Expr.var 3)))
              refl
          ∙ ap (λ (t : Float). t ⊗ p.avg_entry_price ⊕ (e ⊗ b) ⊗ price) (sym eq)
          ∙ ap (λ (t : Float). p.quantity ⊗ p.avg_entry_price ⊕ t ⊗ price) (sym es)

  pub increase_value :
      (mark s price : Float) (p : Position)
      → same_direction p.quantity s ≡ true
      → IsExactAverage s price p
      → let r = increase s price p in
        r.realized_pnl ⊕ unrealized_pnl mark r
        ≡ p.realized_pnl ⊕ unrealized_pnl mark p ⊕ s ⊗ (mark ⊖ price)
  unfolding increase
  increase_value mark s price p h exact =
      let r = increase s price p in
      rw (unrealized_pnl-eq X mark r, unrealized_pnl-eq X mark p)
        (ring X (p.realized_pnl ∷ p.quantity ∷ s ∷ mark ∷ r.avg_entry_price ∷ [])
            (Expr.plus (Expr.var 0) (
              Expr.times (Expr.plus (Expr.var 1) (Expr.var 2))
                (Expr.minus (Expr.var 3) (Expr.var 4))))
            (Expr.plus (Expr.var 0) (
              Expr.minus (Expr.times (Expr.plus (Expr.var 1) (Expr.var 2)) (Expr.var 3))
                (Expr.times (Expr.plus (Expr.var 1) (Expr.var 2)) (Expr.var 4))))
            refl
          ∙ ap (λ (t : Float). p.realized_pnl ⊕ ((p.quantity ⊕ s) ⊗ mark ⊖ t))
              (increase-cost s price p h exact)
          ∙ ring X (p.realized_pnl ∷ p.quantity ∷ s ∷ mark ∷ p.avg_entry_price ∷ price ∷ [])
              (Expr.plus (Expr.var 0) (
                Expr.minus (Expr.times (Expr.plus (Expr.var 1) (Expr.var 2)) (Expr.var 3)) (
                  Expr.plus (Expr.times (Expr.var 1) (Expr.var 4))
                    (Expr.times (Expr.var 2) (Expr.var 5)))))
              (Expr.plus
                (Expr.plus (Expr.var 0)
                  (Expr.times (Expr.var 1) (Expr.minus (Expr.var 3) (Expr.var 4))))
                (Expr.times (Expr.var 2) (Expr.minus (Expr.var 3) (Expr.var 5))))
              refl)
