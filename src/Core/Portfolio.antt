-- ===== src/Core/Portfolio.antt =====
-- lib/quant_core/portfolio_state.py: the portfolio that the post-trade service writes to Redis
-- and the risk gateway reads. A store is Redis as it is seen with the run id that the caller
-- passes: the hash at that run's `Keys.portfolio`, and the other hashes by their keys. Python's `str` and `float` on numbers (`none` is a
-- ValueError), `str.upper` and the order in which SCAN returns the keys are arguments.
pub mod Sync
pub mod Roundtrip
use quant_system.Prelude.{
  String, Bool, true, false, not, Option, none, some, List, [], ◌∷◌, map, nonempty, get_or,
  if◌then◌else◌, ◌>>=◌,
}
use quant_system.Prelude.Eq.{◌==◌, string_eq}
use quant_system.Prelude.Dict.{Dict, lookup, insert}
use quant_system.Core.Keys.{position_key, last_part}
use quant_system.Num.{Num, Float, ◌≈◌, nought, lit}

abbrev pub Hash : Type 0
Hash = Dict String String

pub record Store : Type 0 where
  pub run_id : String
  pub summary : Hash
  pub positions : Dict String Hash

-- HSET with a mapping.
unfoldable pub hset : List (String × String) → Hash → Hash
hset [] h = h
hset ((k, v) ∷ kvs) h = hset kvs (insert k v h)

module _ ⦃N : Num⦄ where
  -- INITIAL_EQUITY
  abbrev pub initial_equity : Float
  initial_equity = lit 100_000 0

  -- What the post-trade service passes for each position, and for the whole.
  pub record PositionData : Type 0 where
    pub quantity : Float
    pub avg_entry_price : Float
    pub realized_pnl : Float
    pub unrealized_pnl : Float

  pub record Totals : Type 0 where
    pub current_equity : Float
    pub peak_equity : Float
    pub realized_pnl : Float
    pub unrealized_pnl : Float
    pub total_fees : Float

  -- `sync_portfolio_to_redis`: the mappings, the loop over the positions, the whole pipeline.
  abbrev pub position_fields : (Float → String) → PositionData → List (String × String)
  position_fields str p =
      ("quantity", str p.quantity)
      ∷ ("avg_entry_price", str p.avg_entry_price)
      ∷ ("realized_pnl", str p.realized_pnl)
      ∷ ("unrealized_pnl", str p.unrealized_pnl)
      ∷ []

  abbrev pub summary_fields : (Float → String) → Totals → List (String × String)
  summary_fields str t =
      ("current_equity", str t.current_equity)
      ∷ ("peak_equity", str t.peak_equity)
      ∷ ("realized_pnl", str t.realized_pnl)
      ∷ ("unrealized_pnl", str t.unrealized_pnl)
      ∷ ("total_fees", str t.total_fees)
      ∷ []

  unfoldable pub write_positions :
      (Float → String) → String → Dict String PositionData → Dict String Hash → Dict String Hash
  unfolding hset position_key
  write_positions str run_id [] stored = stored
  write_positions str run_id ((symbol, p) ∷ ps) stored =
      let key = position_key run_id symbol in
      write_positions str run_id ps
        (insert key (hset (position_fields str p) (get_or (lookup key stored) [])) stored)

  unfoldable pub sync_portfolio_to_redis :
      (Float → String) → Dict String PositionData → Totals → Store → Store
  unfolding write_positions hset
  sync_portfolio_to_redis str positions totals r = record r {
    summary = hset (summary_fields str totals) r.summary;
    positions = write_positions str r.run_id positions r.positions;
  }

  -- What `read_portfolio_from_redis` returns.
  pub record Portfolio : Type 0 where
    pub positions : Dict String Float
    pub current_equity : Float
    pub peak_equity : Float
    pub realized_pnl : Float
    pub unrealized_pnl : Float

  -- `float(d.get(key, default))`
  unfoldable pub number_or : (String → Option Float) → String → Float → Hash → Option Float
  number_or float key default h = elim (lookup key h) [
    | none ↦ some default
    | some text ↦ float text
  ]

  -- One key of the loops: what it adds to the positions. The outer `none` is an exception.
  unfoldable pub entry : (String → Option Float) → Dict String Hash → String → Option (Option Float)
  unfolding number_or
  entry float stored key =
      let h = get_or (lookup key stored) [] in
      if nonempty h
      then elim (number_or float "quantity" nought h) [
        | none ↦ none
        | some qty ↦ some (if qty ≈ nought then none else some qty)
      ]
      else some none

  abbrev pub add : String → Option Float → Dict String Float → Dict String Float
  add symbol none d = d
  add symbol (some qty) d = insert symbol qty d

  -- The loops, over keys with the symbols under which their quantities are put.
  unfoldable pub collect :
      (String → Option Float)
      → Dict String Hash
      → List (String × String)
      → Dict String Float
      → Option (Dict String Float)
  unfolding entry
  collect float stored [] d = some d
  collect float stored ((key, symbol) ∷ targets) d = elim (entry float stored key) [
    | none ↦ none
    | some o ↦ collect float stored targets (add symbol o d)
  ]

  unfoldable pub read_stored :
      (String → Option Float) → List (String × String) → Store → Option Portfolio
  unfolding collect number_or
  read_stored float wanted r = do
    equity ← number_or float "current_equity" initial_equity r.summary
    peak ← number_or float "peak_equity" initial_equity r.summary
    realized ← number_or float "realized_pnl" nought r.summary
    unrealized ← number_or float "unrealized_pnl" nought r.summary
    positions ← collect float r.positions wanted []
    some (record {
      positions = positions;
      current_equity = equity;
      peak_equity = peak;
      realized_pnl = realized;
      unrealized_pnl = unrealized;
    })

  -- The keys of some symbols, and the symbols of the keys that a SCAN returned.
  unfoldable pub named : (String → String) → String → List String → List (String × String)
  unfolding position_key
  named upper run_id = map (λ (s : String). (position_key run_id (upper s), upper s))

  unfoldable pub found : List String → List (String × String)
  unfolding last_part
  found = map (λ (key : String). (key, last_part key))

  -- `read_portfolio_from_redis`, for some symbols or, when none are named, for the keys that a
  -- SCAN returned.
  unfoldable pub read_portfolio_from_redis :
      (String → Option Float)
      → (String → String)
      → List String
      → List String
      → Store
      → Option Portfolio
  unfolding read_stored named found
  read_portfolio_from_redis float upper symbols scanned r =
      let wanted = if nonempty symbols then named upper r.run_id symbols else found scanned in
      if nonempty r.summary
      then read_stored float wanted r
      else some (record {
        positions = [];
        current_equity = initial_equity;
        peak_equity = initial_equity;
        realized_pnl = nought;
        unrealized_pnl = nought;
      })
