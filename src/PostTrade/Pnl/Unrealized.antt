-- ===== src/PostTrade/Pnl/Unrealized.antt =====
-- Unrealized PnL in one equation for both sides of the market.
use quant_system.Prelude.{◌≡◌, inl, inr, refl, sym, ap, ◌∙◌, [], ◌∷◌, Bool-cases}
use quant_system.Num.{Num, Float, ◌⊖◌, ◌⊗◌, ◌≺◌, ◌≈◌, nought}
use quant_system.Num.Exact.{IsExact}
use quant_system.Num.Ring.{Expr, ring}
use quant_system.Num.Ring.Laws
use quant_system.Num.Ring.Sign.{abs_of_nonpos}
use quant_system.PostTrade.Pnl.{Position, unrealized_pnl}

module _ ⦃N : Num⦄ (X : IsExact) where
  -- On both sides of the market the unrealized PnL is quantity times distance from the cost.
  pub unrealized_pnl-eq :
      (mark : Float) (p : Position)
      → unrealized_pnl mark p ≡ p.quantity ⊗ (mark ⊖ p.avg_entry_price)
  unfolding unrealized_pnl
  unrealized_pnl-eq mark p = elim (Bool-cases (p.quantity ≈ nought)) [
    | inl z ↦ rw z (
        sym (
          ap (λ (t : Float). t ⊗ (mark ⊖ p.avg_entry_price)) ((N.eq_iff _ _).0 z)
          ∙ Laws.zero_mul X (mark ⊖ p.avg_entry_price)))
    | inr nz ↦ elim (Bool-cases (nought ≺ p.quantity)) [
      | inl pos ↦ rw (nz, pos)
      | inr neg' ↦
          rw (nz, neg', abs_of_nonpos X p.quantity neg')
            (ring X (p.quantity ∷ mark ∷ p.avg_entry_price ∷ [])
              (Expr.times (Expr.minus_of (Expr.var 0)) (Expr.minus (Expr.var 2) (Expr.var 1)))
              (Expr.times (Expr.var 0) (Expr.minus (Expr.var 1) (Expr.var 2))) refl)
    ]
  ]
