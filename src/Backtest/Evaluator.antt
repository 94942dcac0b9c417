-- ===== src/Backtest/Evaluator.antt =====
-- services/backtest/backtest_svc/evaluator.py: the account that the metrics are computed from.
-- Timestamps are whole and not negative.
pub mod Account
pub mod Report
use quant_system.Prelude.{
  ℕ, zero, suc, ◌-◌, ◌*◌, ◌/◌, String, Bool, true, false, not, ◌&&◌, ◌||◌, Option, none, some, List,
  [], ◌∷◌, map, length, keep, nonempty, leb, ltb, get_or, if◌then◌else◌, ◌>>=◌,
}
use quant_system.Prelude.Eq.{◌==◌, string_eq, nat_eq}
use quant_system.Prelude.Dict.{Dict, lookup, insert}
use quant_system.Num.{
  Num, Float, ◌⊕◌, ◌⊖◌, ◌⊗◌, ◌⊘◌, ◌≺◌, ◌≈◌, neg, nought, one, lit, abs, min, max, sum_from,
}
use quant_system.Core.Models.{Fill}

module _ ⦃N : Num⦄ where
  -- The variables of the loop over the fills.
  pub record Book : Type 0 where
    pub position : Float
    pub avg_entry : Float
    pub realized_pnl : Float
    pub total_fees : Float
    pub total_slippage_cost : Float
    pub equity : Float
    pub peak : Float
    pub max_dd : Float
    pub bucket_equity : Dict ℕ Float

  abbrev pub opening : Float → Book
  opening initial_equity = record {
    position = nought;
    avg_entry = nought;
    realized_pnl = nought;
    total_fees = nought;
    total_slippage_cost = nought;
    equity = initial_equity;
    peak = initial_equity;
    max_dd = nought;
    bucket_equity = [];
  }

  abbrev pub slip_cost : Fill → Float
  slip_cost f = f.quantity ⊗ f.fill_price ⊗ f.slippage_bps ⊘ lit 10_000 0

  abbrev pub signed_qty : Fill → Float
  signed_qty f = if f.side == "BUY" then f.quantity else neg f.quantity

  -- The fill reduces the position.
  abbrev pub reduces : Float → Float → Bool
  reduces q s = not (q ≈ nought) && ((nought ≺ q && s ≺ nought) || (q ≺ nought && nought ≺ s))

  -- The realized PnL after a fill, and the average entry price after it.
  unfoldable pub realized_after : Fill → Book → Float
  realized_after f a =
      let close_qty = min (abs (signed_qty f)) (abs a.position) in
      let sign = if nought ≺ a.position then one else neg one in
      let fill_pnl = close_qty ⊗ (f.fill_price ⊖ a.avg_entry) ⊗ sign in
      if reduces a.position (signed_qty f)
      then a.realized_pnl ⊕ (fill_pnl ⊖ f.fee ⊖ slip_cost f)
      else a.realized_pnl ⊖ (f.fee ⊕ slip_cost f)

  unfoldable pub entry_after : Fill → Book → Float
  entry_after f a =
      let s = signed_qty f in
      let new_position = a.position ⊕ s in
      let total_cost = a.avg_entry ⊗ abs a.position ⊕ f.fill_price ⊗ abs s in
      if abs a.position ≺ abs new_position
      then (if a.position ≈ nought then f.fill_price else total_cost ⊘ (abs a.position ⊕ abs s))
      else if new_position ≈ nought
      then nought
      else a.avg_entry

  -- One turn of the loop.
  unfoldable pub account_fill : Float → ℕ → Fill → Book → Book
  unfolding realized_after entry_after
  account_fill initial_equity bucket_ms f a =
      let realized = realized_after f a in
      let equity = initial_equity ⊕ realized in
      let peak = if a.peak ≺ equity then equity else a.peak in
      let bucket = if ltb 0 f.timestamp then f.timestamp / bucket_ms else 0 in
      record {
        position = a.position ⊕ signed_qty f;
        avg_entry = entry_after f a;
        realized_pnl = realized;
        total_fees = a.total_fees ⊕ f.fee;
        total_slippage_cost = a.total_slippage_cost ⊕ slip_cost f;
        equity = equity;
        peak = peak;
        max_dd = if nought ≺ peak then max a.max_dd ((peak ⊖ equity) ⊘ peak) else a.max_dd;
        bucket_equity = insert bucket equity a.bucket_equity;
      }

  unfoldable pub account_fills : Float → ℕ → List Fill → Book → Book
  unfolding account_fill
  account_fills initial_equity bucket_ms [] a = a
  account_fills initial_equity bucket_ms (f ∷ fs) a =
      account_fills initial_equity bucket_ms fs (account_fill initial_equity bucket_ms f a)
