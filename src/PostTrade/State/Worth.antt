-- ===== src/PostTrade/State/Worth.antt =====
-- The equity of a portfolio as one sum over its positions.
use quant_system.Prelude.{◌≡◌, inl, inr, refl, sym, ap, ◌∙◌, String, [], ◌∷◌, map, Bool-cases}
use quant_system.Prelude.Eq.{◌==◌, string_eq}
use quant_system.Prelude.Dict.{Dict, lookup, insert}
use quant_system.Num.{Num, Float, ◌⊕◌, ◌⊖◌, nought, sum_from}
use quant_system.Num.Exact.{IsExact}
use quant_system.Num.Ring.{Expr, ring}
use quant_system.Num.Ring.Laws
use quant_system.Num.Sum.{sum, sum_from-sum}
use quant_system.PostTrade.Pnl.{
  Position, unrealized_pnl, flat, get_or_create, values, mark_of, total_realized_pnl,
  total_unrealized_pnl, total_fees,
}
use quant_system.PostTrade.State.{State, compute_equity}

module _ ⦃N : Num⦄ where
  -- The sum of a quantity over the positions.
  abbrev pub over : (Position → Float) → Dict String Position → Float
  over f ps = sum (map f (values ps))

  -- What a position is worth at the latest prices: realized and unrealized PnL less fees.
  abbrev pub worth : Dict String Float → Position → Float
  worth prices p = p.realized_pnl ⊕ unrealized_pnl (mark_of prices p) p ⊖ p.total_fees

module _ ⦃N : Num⦄ (X : IsExact) where
  sum_from-over :
      (f : Position → Float) (ps : Dict String Position)
      → sum_from nought (map f (values ps)) ≡ over f ps
  sum_from-over f ps = sum_from-sum X nought (map f (values ps)) ∙ Laws.zero_add X (over f ps)

  -- Replacing one position changes the sum by the difference of the two.
  pub over-insert :
      (f : Position → Float) (k : String) (p : Position) (ps : Dict String Position)
      → f (flat k) ≡ nought
      → over f (insert k p ps) ⊕ f (get_or_create k ps) ≡ over f ps ⊕ f p
  unfolding insert get_or_create lookup
  over-insert f k p [] z = rw z (
      ring X (f p ∷ []) (Expr.plus (Expr.plus (Expr.var 0) Expr.zero_) Expr.zero_)
        (Expr.plus Expr.zero_ (Expr.var 0)) refl)
  over-insert f k p ((j, q) ∷ ps) z = elim (Bool-cases (j == k)) [
    | inl hit ↦ rw hit (
        ring X (f p ∷ over f ps ∷ f q ∷ [])
          (Expr.plus (Expr.plus (Expr.var 0) (Expr.var 1)) (Expr.var 2))
          (Expr.plus (Expr.plus (Expr.var 2) (Expr.var 1)) (Expr.var 0)) refl)
    | inr miss ↦ rw miss (
        X.add_assoc (f q) (over f (insert k p ps)) (f (get_or_create k ps))
        ∙ ap (λ (t : Float). f q ⊕ t) (over-insert f k p ps z)
        ∙ sym (X.add_assoc (f q) (over f ps) (f p)))
  ]

  over-worth :
      (prices : Dict String Float) (ps : Dict String Position)
      → over (worth prices) ps
        ≡ over (λ p. p.realized_pnl) ps
          ⊕ over (λ p. unrealized_pnl (mark_of prices p) p) ps
          ⊖ over (λ p. p.total_fees) ps
  over-worth prices [] =
      ring X [] Expr.zero_ (Expr.minus (Expr.plus Expr.zero_ Expr.zero_) Expr.zero_) refl
  over-worth prices ((j, p) ∷ ps) =
      let u = unrealized_pnl (mark_of prices p) p in
      let rs = over (λ q. q.realized_pnl) ps in
      let us = over (λ q. unrealized_pnl (mark_of prices q) q) ps in
      let fs = over (λ q. q.total_fees) ps in
      ap (λ (t : Float). worth prices p ⊕ t) (over-worth prices ps)
      ∙ ring X (p.realized_pnl ∷ u ∷ p.total_fees ∷ rs ∷ us ∷ fs ∷ [])
          (Expr.plus (Expr.minus (Expr.plus (Expr.var 0) (Expr.var 1)) (Expr.var 2))
            (Expr.minus (Expr.plus (Expr.var 3) (Expr.var 4)) (Expr.var 5)))
          (Expr.minus
            (Expr.plus (Expr.plus (Expr.var 0) (Expr.var 3)) (Expr.plus (Expr.var 1) (Expr.var 4)))
            (Expr.plus (Expr.var 2) (Expr.var 5)))
          refl

  pub compute_equity-eq :
      (st : State)
      → compute_equity st ≡ st.initial_equity ⊕ over (worth st.latest_prices) st.positions
  unfolding compute_equity total_realized_pnl total_unrealized_pnl total_fees
  compute_equity-eq st =
      let ps = st.positions in
      let r = λ (p : Position). p.realized_pnl in
      let u = λ (p : Position). unrealized_pnl (mark_of st.latest_prices p) p in
      let f = λ (p : Position). p.total_fees in
      rw (sum_from-over r ps, sum_from-over u ps, sum_from-over f ps)
        (ring X (st.initial_equity ∷ over r ps ∷ over u ps ∷ over f ps ∷ [])
            (Expr.minus (Expr.plus (Expr.plus (Expr.var 0) (Expr.var 1)) (Expr.var 2)) (Expr.var 3))
            (Expr.plus (Expr.var 0) (Expr.minus (Expr.plus (Expr.var 1) (Expr.var 2)) (Expr.var 3)))
            refl
          ∙ ap (λ (t : Float). st.initial_equity ⊕ t) (sym (over-worth st.latest_prices ps)))

  pub worth-flat : (prices : Dict String Float) (k : String) → worth prices (flat k) ≡ nought
  unfolding unrealized_pnl
  worth-flat prices k =
      rw ((N.eq_iff nought nought).1 refl)
        (ring X [] (Expr.minus (Expr.plus Expr.zero_ Expr.zero_) Expr.zero_) Expr.zero_ refl)
