-- ===== src/PostTrade/Pnl.antt =====
-- services/post-trade/post_trade_svc/pnl.py: positions at average cost.
pub mod Unrealized
pub mod Increase
pub mod Reduce
pub mod Mark
use quant_system.Prelude.{
  String, Bool, true, false, not, ◌&&◌, ◌||◌, Option, none, some, List, [], ◌∷◌, map, get_or,
  if◌then◌else◌,
}
use quant_system.Prelude.Eq.{◌==◌, string_eq}
use quant_system.Prelude.Dict.{Dict, lookup, insert}
use quant_system.Num.{Num, Float, ◌⊕◌, ◌⊖◌, ◌⊗◌, ◌⊘◌, ◌≺◌, ◌≈◌, neg, nought, abs, min, sum_from}

module _ ⦃N : Num⦄ where
  -- `Position`: the quantity is positive for a long position, negative for a short one.
  pub record Position : Type 0 where
    pub symbol : String
    pub quantity : Float
    pub avg_entry_price : Float
    pub realized_pnl : Float
    pub total_fees : Float

  -- `signed_qty`
  abbrev pub signed_qty : String → Float → Float
  signed_qty side quantity = if side == "BUY" then quantity else neg quantity

  -- The two tests of `apply_fill`: does the fill enlarge the position, and, afterwards, has a
  -- fill in the other direction turned it round?
  abbrev pub same_direction : Float → Float → Bool
  same_direction q s = q ≈ nought || (nought ≺ q && nought ≺ s) || (q ≺ nought && s ≺ nought)

  abbrev pub flipped : Float → Float → Bool
  flipped q s = (nought ≺ q && nought ≺ s) || (q ≺ nought && s ≺ nought)

  -- The branch that adds to a position; nothing is realized.
  unfoldable pub increase : Float → Float → Position → Position
  increase s price p =
      let total_cost = p.avg_entry_price ⊗ abs p.quantity ⊕ price ⊗ abs s in
      let q = p.quantity ⊕ s in
      record p {
        quantity = q;
        avg_entry_price = if not (q ≈ nought) then total_cost ⊘ abs q else p.avg_entry_price;
      }

  -- What a fill in the other direction realizes, and the position that it leaves.
  unfoldable pub realized_by : Float → Float → Position → Float
  realized_by s price p =
      let close_qty = min (abs s) (abs p.quantity) in
      if nought ≺ p.quantity
      then close_qty ⊗ (price ⊖ p.avg_entry_price)
      else close_qty ⊗ (p.avg_entry_price ⊖ price)

  unfoldable pub reduce : Float → Float → Position → Position
  unfolding realized_by
  reduce s price p =
      let q = p.quantity ⊕ s in
      record p {
        realized_pnl = p.realized_pnl ⊕ realized_by s price p;
        quantity = q;
        avg_entry_price = if flipped q s then price else p.avg_entry_price;
      }

  -- `Position.apply_fill`: the new position and the PnL realized by the fill.
  unfoldable pub apply_fill : Float → Float → Float → String → Position → Float × Position
  unfolding increase realized_by reduce
  apply_fill quantity price fee side p =
      let s = signed_qty side quantity in
      let charged = record p { total_fees = p.total_fees ⊕ fee } in
      if same_direction p.quantity s
      then (nought, increase s price charged)
      else (realized_by s price charged, reduce s price charged)

  -- `Position.unrealized_pnl`
  unfoldable pub unrealized_pnl : Float → Position → Float
  unrealized_pnl price p =
      if p.quantity ≈ nought
      then nought
      else if nought ≺ p.quantity
      then p.quantity ⊗ (price ⊖ p.avg_entry_price)
      else abs p.quantity ⊗ (p.avg_entry_price ⊖ price)

  -- `PortfolioPnL.get_or_create`: the position of a symbol, new and flat if there was none.
  abbrev pub flat : String → Position
  flat symbol = record {
    symbol = symbol;
    quantity = nought;
    avg_entry_price = nought;
    realized_pnl = nought;
    total_fees = nought;
  }

  unfoldable pub get_or_create : String → Dict String Position → Position
  get_or_create symbol positions = get_or (lookup symbol positions) (flat symbol)

  abbrev pub values : Dict String Position → List Position
  values = map (λ e. e.1)

  -- `PortfolioPnL.total_realized_pnl`, `total_fees` and `total_unrealized_pnl`
  unfoldable pub total_realized_pnl : Dict String Position → Float
  unfolding sum_from
  total_realized_pnl ps = sum_from nought (map (λ p. p.realized_pnl) (values ps))

  unfoldable pub total_fees : Dict String Position → Float
  unfolding sum_from
  total_fees ps = sum_from nought (map (λ p. p.total_fees) (values ps))

  abbrev pub mark_of : Dict String Float → Position → Float
  mark_of prices p = get_or (lookup p.symbol prices) p.avg_entry_price

  unfoldable pub total_unrealized_pnl : Dict String Float → Dict String Position → Float
  unfolding sum_from unrealized_pnl
  total_unrealized_pnl prices ps =
      sum_from nought (map (λ p. unrealized_pnl (mark_of prices p) p) (values ps))
