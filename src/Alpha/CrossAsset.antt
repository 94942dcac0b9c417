-- ===== src/Alpha/CrossAsset.antt =====
-- services/alpha-engine/alpha_engine_svc/cross_asset.py: price histories per symbol and the metrics
-- of a pair. `math.log`, `math.sqrt` and `sorted` on texts are arguments; `** 2` is the product.
use quant_system.Prelude.{
  ℕ, suc, String, ◌&&◌, ◌||◌, Option, none, some, List, [], ◌∷◌, ◌++◌, map, length, get_or, ltb,
  if◌then◌else◌, ◌>>=◌,
}
use quant_system.Prelude.Eq.{string_eq}
use quant_system.Prelude.Dict.{Dict, lookup, insert}
use quant_system.Prelude.Window.{append_max, latest}
use quant_system.Num.{Num, Float, ◌⊖◌, ◌⊗◌, ◌⊘◌, ◌≺◌, nought, lit, abs, sum_from}

-- DEFAULT_WINDOW and MIN_OBSERVATIONS
abbrev pub default_window : ℕ
default_window = 100

abbrev pub min_observations : ℕ
min_observations = 20

module _ ⦃N : Num⦄ where
  pub record CrossAssetSnapshot : Type 0 where
    pub symbol_a : String
    pub symbol_b : String
    pub correlation : Option Float
    pub relative_strength : Option Float
    pub spread_z_score : Option Float
    pub timestamp_ms : ℕ

  -- `CrossAssetTracker`: times and prices, oldest first.
  pub record Tracker : Type 0 where
    pub window : ℕ
    pub prices : Dict String (List (ℕ × Float))

  pub init : ℕ → Tracker
  init window = record { window = window; prices = [] }

  -- `on_price`
  unfoldable pub on_price : String → ℕ → Float → Tracker → Tracker
  unfolding append_max
  on_price symbol timestamp_ms price t =
      let seen = get_or (lookup symbol t.prices) [] in
      record t {
        prices = insert symbol (append_max (suc t.window) (timestamp_ms, price) seen) t.prices;
      }

  -- `_log_returns`: the loop, and the whole.
  abbrev pub returns_from : (Float → Float) → Float → List (ℕ × Float) → List Float
  returns_from log prev [] = []
  returns_from log prev ((t, price) ∷ ps) =
      let rest = returns_from log price ps in
      if nought ≺ prev && nought ≺ price then log (price ⊘ prev) ∷ rest else rest

  abbrev pub returns_of : (Float → Float) → List (ℕ × Float) → Option (List Float)
  returns_of log [] = none
  returns_of log (p ∷ []) = none
  returns_of log (p ∷ q ∷ ps) = some (returns_from log p.1 (q ∷ ps))

  unfoldable pub log_returns : (Float → Float) → String → Tracker → Option (List Float)
  log_returns log symbol t = do prices ← lookup symbol t.prices; returns_of log prices

  -- `_pearson`; the lists are of one length.
  abbrev pub products : Float → Float → List Float → List Float → List Float
  products mx my (x ∷ xs) (y ∷ ys) = ((x ⊖ mx) ⊗ (y ⊖ my)) ∷ products mx my xs ys
  products mx my _ _ = []

  abbrev pub mean : List Float → Float
  unfolding sum_from
  mean xs = sum_from nought xs ⊘ lit (length xs) 0

  unfoldable pub pearson : (Float → Float) → List Float → List Float → Option Float
  pearson sqrt xs ys =
      let cov = mean (products (mean xs) (mean ys) xs ys) in
      let var_x = mean (products (mean xs) (mean xs) xs xs) in
      let var_y = mean (products (mean ys) (mean ys) ys ys) in
      if ltb (length xs) min_observations
      then none
      else if var_x ≺ lit 1 15 || var_y ≺ lit 1 15
      then none
      else some (cov ⊘ sqrt (var_x ⊗ var_y))

  -- `_relative_strength`
  unfoldable pub relative_strength : (Float → Float) → String → String → ℕ → Tracker → Option Float
  unfolding sum_from log_returns latest
  relative_strength log a b n t = do
    returns_a ← log_returns log a t
    returns_b ← log_returns log b t
    let cum_a = sum_from nought (latest n returns_a) in
        let cum_b = sum_from nought (latest n returns_b) in
        if abs cum_b ≺ lit 1 15 then none else some (cum_a ⊘ cum_b)

  -- `_spread_z_score`: the logs of the price ratios, the last of them, the score.
  abbrev pub ratios_of : (Float → Float) → List (ℕ × Float) → List (ℕ × Float) → List Float
  ratios_of log ((t, pa) ∷ ps) ((u, pb) ∷ qs) =
      let rest = ratios_of log ps qs in
      if nought ≺ pa && nought ≺ pb then log (pa ⊘ pb) ∷ rest else rest
  ratios_of log _ _ = []

  abbrev pub last_or : Float → List Float → Float
  last_or x [] = x
  last_or x (y ∷ ys) = last_or y ys

  unfoldable pub z_of : (Float → Float) → List Float → Option Float
  z_of sqrt ratios =
      let mean_r = mean ratios in
      let var_r = mean (products mean_r mean_r ratios ratios) in
      if ltb (length ratios) min_observations
      then none
      else if var_r ≺ lit 1 15
      then none
      else some ((last_or nought ratios ⊖ mean_r) ⊘ sqrt var_r)

  abbrev pub shorter : ℕ → ℕ → ℕ
  shorter m n = if ltb n m then n else m

  unfoldable pub spread_z_score :
      (Float → Float) → (Float → Float) → String → String → Tracker → Option Float
  unfolding latest z_of
  spread_z_score log sqrt a b t = do
    prices_a ← lookup a t.prices
    prices_b ← lookup b t.prices
    let n = shorter (length prices_a) (length prices_b) in
        if ltb n min_observations
        then none
        else z_of sqrt (ratios_of log (latest n prices_a) (latest n prices_b))

  -- `get_snapshot`
  abbrev pub last_time : List (ℕ × Float) → ℕ
  last_time [] = 0
  last_time ((t, p) ∷ []) = t
  last_time (p ∷ q ∷ ps) = last_time (q ∷ ps)

  unfoldable pub get_snapshot :
      (Float → Float) → (Float → Float) → String → String → Tracker → CrossAssetSnapshot
  unfolding log_returns pearson relative_strength spread_z_score latest
  get_snapshot log sqrt a b t =
      let snapshot : CrossAssetSnapshot = record {
        symbol_a = a;
        symbol_b = b;
        correlation = none;
        relative_strength = none;
        spread_z_score = none;
        timestamp_ms = last_time (get_or (lookup a t.prices) []);
      } in
      elim (log_returns log a t) [
        | none ↦ snapshot
        | some returns_a ↦ elim (log_returns log b t) [
          | none ↦ snapshot
          | some returns_b ↦
              let n = shorter (length returns_a) (length returns_b) in
              if ltb n min_observations then snapshot else record snapshot {
                correlation = pearson sqrt (latest n returns_a) (latest n returns_b);
                relative_strength = relative_strength log a b n t;
                spread_z_score = spread_z_score log sqrt a b t;
              }
        ]
      ]

  -- `get_all_snapshots`, over the sorted symbols.
  unfoldable pub snapshots_of :
      (Float → Float) → (Float → Float) → Tracker → List String → List CrossAssetSnapshot
  unfolding get_snapshot
  snapshots_of log sqrt t [] = []
  snapshots_of log sqrt t (a ∷ symbols) =
      map (λ (b : String). get_snapshot log sqrt a b t) symbols ++ snapshots_of log sqrt t symbols

  unfoldable pub get_all_snapshots :
      (Float → Float)
      → (Float → Float)
      → (List String → List String)
      → Tracker
      → List CrossAssetSnapshot
  unfolding snapshots_of
  get_all_snapshots log sqrt sorted t =
      snapshots_of log sqrt t (sorted (map (λ (e : String × List (ℕ × Float)). e.0) t.prices))
