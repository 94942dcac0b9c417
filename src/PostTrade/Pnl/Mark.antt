-- ===== src/PostTrade/Pnl/Mark.antt =====
-- Each fill moves realized plus unrealized PnL by what trading away from the mark costs.
use quant_system.Prelude.{String, true, ◌≡◌, inl, inr, Bool-cases}
use quant_system.Num.{Num, Float, ◌⊕◌, ◌⊖◌, ◌⊗◌}
use quant_system.Num.Exact.{IsExact}
use quant_system.PostTrade.Pnl.{Position, signed_qty, same_direction, apply_fill, unrealized_pnl}
use quant_system.PostTrade.Pnl.Increase.{IsExactAverage, increase_value}
use quant_system.PostTrade.Pnl.Reduce.{reduce_value}

module _ ⦃N : Num⦄ (X : IsExact) where
  -- Under exact arithmetic, where the average of an enlarged position is the exact quotient: every
  -- fill moves realized plus unrealized PnL, at any mark, by the signed quantity times the
  -- distance of the fill's price from the mark. So a fill at the mark moves nothing, and enlarging,
  -- closing and turning round a position are one law.
  pub apply_fill_moves_value :
      (mark quantity price fee : Float) (side : String) (p : Position)
      → (same_direction p.quantity (signed_qty side quantity) ≡ true
          → IsExactAverage X (signed_qty side quantity) price p)
      → let r = (apply_fill quantity price fee side p).1 in
        r.realized_pnl ⊕ unrealized_pnl mark r
        ≡ p.realized_pnl ⊕ unrealized_pnl mark p ⊕ signed_qty side quantity ⊗ (mark ⊖ price)
  unfolding apply_fill unrealized_pnl
  apply_fill_moves_value mark quantity price fee side p exact =
      let s = signed_qty side quantity in
      let charged = record p { total_fees = p.total_fees ⊕ fee } in
      elim (Bool-cases (same_direction p.quantity s)) [
        | inl same ↦ rw same (increase_value X mark s price charged same (exact same))
        | inr other ↦ rw other (reduce_value X mark s price charged other)
      ]
