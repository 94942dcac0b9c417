-- ===== src/Core/Tests/Portfolio.antt =====
-- The theorems on the portfolio in Redis and on reconciliation, over whole numbers. As the text of
-- a number stands a text of twice its length, or one more for a negative number.

use Prim.Native.Char.{nul}
use quant_system.Prelude.{
  ℕ, zero, suc, ◌*◌, ◌/◌, ◌%◌, ◌≡◌, refl, ap, sym, String, Option, some, List, [], ◌∷◌, eqb,
  if◌then◌else◌, arith, inl, inr, Bool-cases,
}
use quant_system.Prelude.Eq.{◌==◌, string_eq}
use quant_system.Prelude.Int.{ℤ, pos, negsuc}
use quant_system.Prelude.Dict.{Dict, lookup, insert}
use quant_system.Num.Fixed.{integers}
use quant_system.Core.Keys.{position_key, position_key_cancel}
use quant_system.Core.Portfolio.{
  Store, hset, PositionData, Totals, Portfolio, write_positions, sync_portfolio_to_redis,
  read_portfolio_from_redis,
}
use quant_system.Core.Portfolio.Roundtrip.{
  Reports, Readable, Scanned, ArePlain, read-sync, stale_position_read,
}

abbrev bars : ℕ → String
bars zero = String.[]
bars (suc n) = String.◌∷◌ nul (bars n)

abbrev size : String → ℕ
size String.[] = 0
size (String.◌∷◌ c s) = suc (size s)

abbrev str : ℤ → String
str (pos n) = bars (2 * n)
str (negsuc n) = bars (suc (2 * n))

abbrev float : String → Option ℤ
float s = some (if eqb (size s % 2) 0 then pos (size s / 2) else negsuc (size s / 2))

size-bars : (n : ℕ) → size (bars n) ≡ n
size-bars zero = refl
size-bars (suc n) = ap suc (size-bars n)

float-str : (x : ℤ) → float (str x) ≡ some x
float-str (pos n) = ground (arith, size-bars (2 * n))
float-str (negsuc n) = ground (arith, size-bars (suc (2 * n)))

abbrev btc : PositionData
btc = record {
  quantity = pos 3;
  avg_entry_price = pos 100;
  realized_pnl = pos 7;
  unrealized_pnl = negsuc 4;
}

abbrev totals : Totals
totals = record {
  current_equity = pos 1002;
  peak_equity = pos 1010;
  realized_pnl = pos 7;
  unrealized_pnl = negsuc 4;
  total_fees = pos 1;
}

abbrev eth_key : String
eth_key = "positions:live:ETH"

abbrev btc_key : String
btc_key = "positions:live:BTC"

-- A store that holds one position of the run, of a symbol that is not written again.
abbrev before : Store
before = record {
  run_id = "live";
  summary = [];
  positions = (eth_key, ("quantity", str (pos 2)) ∷ []) ∷ [];
}

before-Readable : Readable str "live" before.positions
unfolding lookup
before-Readable s h e = elim (Bool-cases (eth_key == position_key "live" s)) [
  | inl same ↦
      let eq : (("quantity", str (pos 2)) ∷ []) ≡ h = ground (arith, rw same at e) in
      (pos 2, rw (← eq) refl)
  | inr other ↦ absurd (ground (arith, rw other at e))
]

abbrev written : Dict String PositionData
written = ("BTC", btc) ∷ []

abbrev scanned : List String
scanned = eth_key ∷ btc_key ∷ []

written-Scanned : Scanned "live" (write_positions str "live" written before.positions) scanned
unfolding write_positions lookup insert hset position_key
written-Scanned k = elim (Bool-cases (eth_key == k)) [
  | inl eth ↦ (
    λ m. (
      λ gone. ground (arith, rw eth at gone),
      ("ETH", sym ((string_eq.equals_iff eth_key k).0 eth)),
    ),
    λ there. rw eth refl,
  )
  | inr no_eth ↦ elim (Bool-cases (btc_key == k)) [
    | inl is_btc ↦ (
      λ m. (
        λ gone. ground (arith, rw (no_eth, is_btc) at gone),
        ("BTC", sym ((string_eq.equals_iff btc_key k).0 is_btc)),
      ),
      λ there. rw (no_eth, is_btc) refl,
    )
    | inr no_btc ↦ (
      λ m. absurd (ground (arith, rw (no_eth, no_btc) at m)),
      λ (there, s). absurd (there (rw (no_eth, no_btc) refl)),
    )
  ]
]

scanned-ArePlain : ArePlain "live" scanned
unfolding position_key
scanned-ArePlain s m = elim (Bool-cases (eth_key == position_key "live" s)) [
  | inl eth ↦
      let e = position_key_cancel "live" "ETH" s ((string_eq.equals_iff eth_key _).0 eth) in
      rw (← e) refl
  | inr no_eth ↦ elim (Bool-cases (btc_key == position_key "live" s)) [
    | inl is_btc ↦
        let e = position_key_cancel "live" "BTC" s ((string_eq.equals_iff btc_key _).0 is_btc) in
        rw (← e) refl
    | inr no_btc ↦ absurd (ground (arith, rw (no_eth, no_btc) at m))
  ]
]

read-sync_example :
    (pf : Portfolio) × (read_portfolio_from_redis float
        (λ s. s)
        []
        scanned
        (sync_portfolio_to_redis str written totals before)
      ≡ some pf)
    × Reports totals pf
    × (lookup "BTC" pf.positions ≡ some (pos 3))
unfolding lookup
read-sync_example =
    read-sync str float float-str (λ s. s) scanned written totals before "BTC" btc (refl, tt)
      before-Readable written-Scanned scanned-ArePlain refl

stale_position_read_example :
    (pf : Portfolio) × (read_portfolio_from_redis float
        (λ s. s)
        []
        scanned
        (sync_portfolio_to_redis str written totals before)
      ≡ some pf)
    × Reports totals pf
    × (lookup "ETH" pf.positions ≡ some (pos 2))
unfolding lookup position_key
stale_position_read_example =
    stale_position_read str float float-str (λ s. s) scanned written totals before "ETH" (pos 2)
      (refl, tt) before-Readable written-Scanned scanned-ArePlain refl (_, refl, refl)

abbrev held : Dict String ℤ
held = ("BTC", pos 5) ∷ ("ETH", pos 2) ∷ []

abbrev balances : Dict String ℤ
balances = ("BTC", pos 5) ∷ ("SOL", pos 9) ∷ []
