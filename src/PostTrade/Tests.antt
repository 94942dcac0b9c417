-- ===== src/PostTrade/Tests.antt =====
-- The post-trade theorems at concrete fills, over whole numbers.
mod Service
use quant_system.Prelude.{
  if◌then◌else◌, ℕ, length, suc, ◌+◌, ◌≡◌, ◌≢◌, refl, String, true, some, List, [], ◌∷◌,
}
use quant_system.Prelude.Int.{ℤ, pos, negsuc}
use quant_system.Prelude.Dict.{lookup, insert}
use quant_system.Num.{◌≈◌, ◌⊕◌, ◌⊗◌, ◌⊖◌}
use quant_system.Num.Fixed.{integers}
use quant_system.Num.Fixed.Integers.{integers-IsExact}
use quant_system.PostTrade.Pnl.{
  Position, increase, get_or_create, apply_fill, signed_qty, unrealized_pnl,
}
use quant_system.PostTrade.Pnl.Mark.{apply_fill_moves_value}
use quant_system.PostTrade.State.{
  State, FillRecord, init, compute_equity, book_fill, process_fill, update_price,
}
use quant_system.PostTrade.State.Invariant.{
  IsValid, init-IsValid, process_fill-IsValid, process_fill_raises, arrival_price,
}
use quant_system.PostTrade.State.Equity.{AllNamed, book_fill-AllNamed, process_fill_moves_equity}

-- A long position of five at 100, and a sale of eight at 90, which turns it round.
abbrev long_five : Position
long_five = record {
  symbol = "BTC";
  quantity = pos 5;
  avg_entry_price = pos 100;
  realized_pnl = pos 0;
  total_fees = pos 0;
}

apply_fill_moves_value_example :
    let r = (apply_fill (pos 8) (pos 90) (pos 1) "SELL" long_five).1 in
    r.realized_pnl ⊕ unrealized_pnl (pos 80) r
    ≡ long_five.realized_pnl
      ⊕ unrealized_pnl (pos 80) long_five
      ⊕ signed_qty "SELL" (pos 8) ⊗ (pos 80 ⊖ pos 90)
unfolding quant_system.Prelude.Int.◌*ℤ◌ quant_system.Prelude.Int.◌+ℤ◌ quant_system.Prelude.Int.div
    quant_system.Prelude.Int.trunc quant_system.Prelude.Int.◌-ℤ◌
apply_fill_moves_value_example =
    apply_fill_moves_value integers-IsExact (pos 80) (pos 8) (pos 90) (pos 1) "SELL" long_five
      (λ e. cc)

abbrev fill_of : String → ℤ → ℤ → FillRecord
fill_of side quantity price = record {
  fill_id = "f";
  timestamp = 1;
  symbol = "BTC";
  side = side;
  quantity = quantity;
  fill_price = price;
  fee = pos 1;
  slippage_bps = pos 0;
  strategy_id = "s";
  decision_price = pos 0;
  trading_mode = "paper";
}

-- A portfolio of 1000 that has bought five at 100, the latest price being 110.
abbrev bought : State
bought =
    book_fill (fill_of "BUY" (pos 5) (pos 100)) (update_price "BTC" (pos 110) 0 (init (pos 1000)))

bought-AllNamed : AllNamed bought.positions
unfolding init update_price lookup
bought-AllNamed =
    book_fill-AllNamed (fill_of "BUY" (pos 5) (pos 100))
      (update_price "BTC" (pos 110) 0 (init (pos 1000))) (λ k p e. cc)

process_fill_moves_equity_example :
    compute_equity (process_fill (fill_of "SELL" (pos 2) (pos 105)) bought).0
    ≡ compute_equity bought ⊕ (signed_qty "SELL" (pos 2) ⊗ (pos 110 ⊖ pos 105) ⊖ pos 1)
unfolding apply_fill increase init update_price book_fill get_or_create lookup insert
    quant_system.Prelude.Int.◌*ℤ◌ quant_system.Prelude.Int.◌+ℤ◌ quant_system.Prelude.Int.div
    quant_system.Prelude.Int.trunc quant_system.Prelude.Int.◌-ℤ◌
process_fill_moves_equity_example =
    process_fill_moves_equity integers-IsExact (fill_of "SELL" (pos 2) (pos 105)) bought (pos 110)
      bought-AllNamed refl (λ e. cc)

process_fill-IsValid_example :
    IsValid (process_fill (fill_of "BUY" (pos 5) (pos 100)) (init (pos 1000))).0
process_fill-IsValid_example =
    process_fill-IsValid (fill_of "BUY" (pos 5) (pos 100)) (init (pos 1000))
      (init-IsValid (pos 1000))

-- A symbol whose latest price is zero.
abbrev zero_priced : State
zero_priced = update_price "BTC" (pos 0) 0 (init (pos 1000))

process_fill_raises_example :
    let (st', raised) = process_fill (fill_of "BUY" (pos 5) (pos 100)) zero_priced in
    let added : ℕ = if raised then 0 else 1 in
    (raised ≡ (arrival_price (fill_of "BUY" (pos 5) (pos 100)) zero_priced ≈ pos 0))
    × (st'.total_fills ≡ suc zero_priced.total_fills)
    × (length st'.fills ≡ length zero_priced.fills + added)
    × (length st'.tca_results ≡ length zero_priced.tca_results + added)
    × (length st'.equity_curve ≡ length zero_priced.equity_curve + added)
process_fill_raises_example = process_fill_raises (fill_of "BUY" (pos 5) (pos 100)) zero_priced
