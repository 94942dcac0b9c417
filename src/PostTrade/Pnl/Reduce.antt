-- ===== src/PostTrade/Pnl/Reduce.antt =====
-- A fill in the other direction: it closes a part of the position, or all and turns it round.
use quant_system.Prelude.{
  true, false, ◌≡◌, inl, inr, refl, sym, ap, subst, ◌∙◌, [], ◌∷◌, arith, Bool-cases,
}
use quant_system.Num.{Num, Float, ◌⊕◌, ◌⊖◌, ◌⊗◌, ◌≺◌, neg, nought}
use quant_system.Num.Exact.{IsExact}
use quant_system.Num.Order.{Lt, lt_asymm}
use quant_system.Num.Ring.{Expr, ring}
use quant_system.Num.Ring.Laws
use quant_system.Num.Ring.Sign.{
  abs_of_nonpos, lt_neg_sum, not_lt_neg_sum, neg_lt_sum, not_neg_lt_sum, neg_pos,
}
use quant_system.PostTrade.Pnl.{
  Position, same_direction, flipped, realized_by, reduce, unrealized_pnl,
}
use quant_system.PostTrade.Pnl.Unrealized.{unrealized_pnl-eq}

module _ ⦃N : Num⦄ (X : IsExact) where
  -- What a fill in the other direction leaves: realized PnL and the value at any mark together
  -- move by the signed fill times its distance from the mark.
  abbrev Reduces : Float → Float → Float → Position → Type 0
  Reduces mark s price p =
      let r = reduce s price p in
      realized_by s price p ⊕ r.quantity ⊗ (mark ⊖ r.avg_entry_price)
      ≡ p.quantity ⊗ (mark ⊖ p.avg_entry_price) ⊕ s ⊗ (mark ⊖ price)

  -- Variables of the four equations below: quantity, fill, mark, cost, price.
  abbrev q' : Expr
  q' = Expr.var 0

  abbrev s' : Expr
  s' = Expr.var 1

  abbrev m' : Expr
  m' = Expr.var 2

  abbrev c' : Expr
  c' = Expr.var 3

  abbrev p' : Expr
  p' = Expr.var 4

  abbrev moved : Expr
  moved = Expr.plus (Expr.times q' (Expr.minus m' c')) (Expr.times s' (Expr.minus m' p'))

  reduce_long :
      (mark s price : Float) (p : Position)
      → Lt nought p.quantity
      → (nought ≺ s) ≡ false
      → Reduces mark s price p
  unfolding realized_by reduce
  reduce_long mark s price p up down_s = elim (Bool-cases (p.quantity ≺ neg s)) [
    | inl over ↦
        let back : Lt (p.quantity ⊕ s) nought = lt_neg_sum X p.quantity s over in
        let short_s : Lt s nought = neg_of_pos s (N.lt_trans nought p.quantity (neg s) up over) in
        let turned : flipped (p.quantity ⊕ s) s ≡ true = ground arith in
        rw (turned, up, lt_asymm nought p.quantity up, abs_of_nonpos X s down_s, over)
          (ring X (p.quantity ∷ s ∷ mark ∷ p.avg_entry_price ∷ price ∷ [])
            (Expr.plus (Expr.times q' (Expr.minus p' c'))
              (Expr.times (Expr.plus q' s') (Expr.minus m' p')))
            moved refl)
    | inr within ↦
        let kept : flipped (p.quantity ⊕ s) s ≡ false =
          ground (arith, not_lt_neg_sum X p.quantity s within) in
        rw (kept, up, lt_asymm nought p.quantity up, abs_of_nonpos X s down_s, within)
          (ring X (p.quantity ∷ s ∷ mark ∷ p.avg_entry_price ∷ price ∷ [])
            (Expr.plus (Expr.times (Expr.minus_of s') (Expr.minus p' c'))
              (Expr.times (Expr.plus q' s') (Expr.minus m' c')))
            moved refl)
  ]
    where
      neg_of_pos : (a : Float) → Lt nought (neg a) → Lt a nought
      neg_of_pos a h =
          subst (λ (t : Float). Lt t nought) (Laws.zero_add X a)
            (subst (λ (t : Float). Lt (nought ⊕ a) t) (Laws.neg_add_self X a)
              (X.lt_add nought (neg a) a h))

  reduce_short :
      (mark s price : Float) (p : Position)
      → Lt p.quantity nought
      → (s ≺ nought) ≡ false
      → Reduces mark s price p
  unfolding realized_by reduce
  reduce_short mark s price p down up_s = elim (Bool-cases (neg p.quantity ≺ s)) [
    | inl over ↦
        let back : Lt nought (p.quantity ⊕ s) = neg_lt_sum X p.quantity s over in
        let long_s : Lt nought s =
          N.lt_trans nought (neg p.quantity) s (neg_pos X p.quantity down) over in
        let turned : flipped (p.quantity ⊕ s) s ≡ true = ground arith in
        rw (turned, lt_asymm p.quantity nought down, down, up_s, over)
          (ring X (p.quantity ∷ s ∷ mark ∷ p.avg_entry_price ∷ price ∷ [])
            (Expr.plus (Expr.times (Expr.minus_of q') (Expr.minus c' p'))
              (Expr.times (Expr.plus q' s') (Expr.minus m' p')))
            moved refl)
    | inr within ↦
        let kept : flipped (p.quantity ⊕ s) s ≡ false =
          ground (arith, not_neg_lt_sum X p.quantity s within) in
        rw (kept, lt_asymm p.quantity nought down, down, up_s, within)
          (ring X (p.quantity ∷ s ∷ mark ∷ p.avg_entry_price ∷ price ∷ [])
            (Expr.plus (Expr.times s' (Expr.minus c' p'))
              (Expr.times (Expr.plus q' s') (Expr.minus m' c')))
            moved refl)
  ]

  reduce-Reduces :
      (mark s price : Float) (p : Position)
      → same_direction p.quantity s ≡ false
      → Reduces mark s price p
  reduce-Reduces mark s price p h = elim (Bool-cases (nought ≺ p.quantity)) [
    | inl up ↦ reduce_long mark s price p up (ground arith)
    | inr not_up ↦
        reduce_short mark s price p
          (ground (arith, N.lt_total nought p.quantity, N.eq_iff p.quantity nought))
          (ground (arith, N.lt_total nought p.quantity, N.eq_iff p.quantity nought))
  ]

  pub reduce_value :
      (mark s price : Float) (p : Position)
      → same_direction p.quantity s ≡ false
      → let r = reduce s price p in
        r.realized_pnl ⊕ unrealized_pnl mark r
        ≡ p.realized_pnl ⊕ unrealized_pnl mark p ⊕ s ⊗ (mark ⊖ price)
  unfolding reduce
  reduce_value mark s price p h =
      let r = reduce s price p in
      rw (unrealized_pnl-eq X mark r, unrealized_pnl-eq X mark p)
        (X.add_assoc p.realized_pnl (realized_by s price p)
            (r.quantity ⊗ (mark ⊖ r.avg_entry_price))
          ∙ ap (λ (t : Float). p.realized_pnl ⊕ t) (reduce-Reduces mark s price p h)
          ∙ sym (
              X.add_assoc p.realized_pnl (p.quantity ⊗ (mark ⊖ p.avg_entry_price))
                (s ⊗ (mark ⊖ price))))
