-- ===== src/Core/Reconciliation.antt =====
-- lib/quant_core/reconciliation.py: the comparison of the portfolio's positions with the exchange's
-- balances. `sorted` on texts and the clock are arguments; logs are left out.
pub mod Status
use quant_system.Prelude.{
  ℕ, String, Bool, true, false, not, ◌&&◌, Option, none, some, List, [], ◌∷◌, ◌++◌, map, length,
  get_or, if◌then◌else◌, ◌>>=◌,
}
use quant_system.Prelude.Eq.{◌==◌, string_eq}
use quant_system.Prelude.Dict.{Dict, lookup, insert}
use quant_system.Num.{Num, Float, ◌⊖◌, ◌⊗◌, ◌⊘◌, ◌≼◌, ◌≈◌, nought, abs, max, lit}

-- The severities of a discrepancy, and the states of a report.
pub data Severity : Type 0 where
  info warning critical : Severity

pub data Level : Type 0 where
  ok warned alarmed : Level

module _ ⦃N : Num⦄ where
  -- `PositionDiscrepancy`
  pub record PositionDiscrepancy : Type 0 where
    pub symbol : String
    pub internal_quantity : Float
    pub exchange_quantity : Float
    pub difference : Float
    pub difference_pct : Float
    pub severity : Severity

  -- `ReconciliationReport`, without its `error`, which the code leaves at None.
  pub record ReconciliationReport : Type 0 where
    pub timestamp : ℕ
    pub symbols_checked : ℕ
    pub discrepancies : List PositionDiscrepancy
    pub exchange_balances : Dict String Float
    pub internal_positions : Dict String Float
    pub status : Level

  -- The union of the two sets of keys.
  abbrev pub adjoin : List String → String → List String
  adjoin [] k = k ∷ []
  adjoin (j ∷ js) k = let rest = adjoin js k in if j == k then j ∷ js else j ∷ rest

  abbrev pub keys_of : List String → Dict String Float → List String
  keys_of ks [] = ks
  keys_of ks ((k, v) ∷ d) = keys_of (adjoin ks k) d

  abbrev pub all_symbols : Dict String Float → Dict String Float → List String
  all_symbols internal exchange = keys_of (keys_of [] internal) exchange

  abbrev pub max3 : Float → Float → Float → Float
  max3 a b c = max (max a b) c

  -- The share by which two quantities differ, and its severity.
  unfoldable pub diff_pct : Float → Float → Float
  diff_pct internal exchange =
      abs (internal ⊖ exchange) ⊘ max3 (abs internal) (abs exchange) (lit 1 4)

  unfoldable pub severity_of : Float → Float → Severity
  severity_of tolerance pct =
      if pct ≼ tolerance then info else if pct ≼ tolerance ⊗ lit 10 0 then warning else critical

  -- What a discrepancy makes of `worst_severity`.
  unfoldable pub worsen : Severity → Level → Level
  worsen info worst = worst
  worsen warning ok = warned
  worsen warning worst = worst
  worsen critical worst = alarmed

  abbrev pub quantity_of : String → Dict String Float → Float
  quantity_of symbol held = get_or (lookup symbol held) nought

  unfoldable pub discrepancy :
      Dict String Float → Dict String Float → Float → String → PositionDiscrepancy
  unfolding diff_pct severity_of
  discrepancy internals exchanges tolerance symbol =
      let internal = quantity_of symbol internals in
      let exchange = quantity_of symbol exchanges in
      let pct = diff_pct internal exchange in
      record {
        symbol = symbol;
        internal_quantity = internal;
        exchange_quantity = exchange;
        difference = internal ⊖ exchange;
        difference_pct = pct ⊗ lit 100 0;
        severity = severity_of tolerance pct;
      }

  -- One turn of the loop over the symbols.
  unfoldable pub compare_symbol :
      Dict String Float
      → Dict String Float
      → Float
      → String
      → List PositionDiscrepancy × Level
      → List PositionDiscrepancy × Level
  unfolding discrepancy worsen
  compare_symbol internals exchanges tolerance symbol (found, worst) =
      let d = discrepancy internals exchanges tolerance symbol in
      if abs (quantity_of symbol internals ⊖ quantity_of symbol exchanges) ≈ nought
      then (found, worst)
      else (found ++ d ∷ [], worsen d.severity worst)

  unfoldable pub compare_all :
      Dict String Float
      → Dict String Float
      → Float
      → List String
      → List PositionDiscrepancy × Level
      → List PositionDiscrepancy × Level
  unfolding compare_symbol
  compare_all internals exchanges tolerance [] s = s
  compare_all internals exchanges tolerance (symbol ∷ symbols) s =
      compare_all internals exchanges tolerance symbols
        (compare_symbol internals exchanges tolerance symbol s)

  -- `reconcile_positions`
  unfoldable pub reconcile_positions :
      (List String → List String)
      → ℕ
      → Dict String Float
      → Dict String Float
      → Float
      → ReconciliationReport
  unfolding compare_all
  reconcile_positions sorted now internals exchanges tolerance =
      let symbols = all_symbols internals exchanges in
      let (found, worst) = compare_all internals exchanges tolerance (sorted symbols) ([], ok) in
      record {
        timestamp = now;
        symbols_checked = length symbols;
        discrepancies = found;
        exchange_balances = exchanges;
        internal_positions = internals;
        status = worst;
      }

  -- An account as Coinbase returns it: the currency, and the value of its balance as a number,
  -- `none` if `float` raises on it.
  pub record Account : Type 0 where
    pub currency : String
    pub available : Option Float

  unfoldable pub balances_of :
      (String → String) → List Account → Dict String Float → Option (Dict String Float)
  balances_of symbol_of [] balances = some balances
  balances_of symbol_of (a ∷ accounts) balances = do
    available ← a.available
    balances_of symbol_of accounts (
        if not (available ≈ nought) && not (a.currency == "USD")
        then insert (symbol_of a.currency) available balances
        else balances)

  -- `fetch_exchange_balances`: `none` is a call of the client that raises, and `symbol_of` appends
  -- "USD". An exception anywhere gives no balances at all.
  unfoldable pub fetch_exchange_balances :
      (String → String) → Option (List Account) → Dict String Float
  unfolding balances_of
  fetch_exchange_balances symbol_of answer =
      get_or (do accounts ← answer; balances_of symbol_of accounts []) []
