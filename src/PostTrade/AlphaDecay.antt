-- ===== src/PostTrade/AlphaDecay.antt =====
-- services/post-trade/post_trade_svc/alpha_decay.py: the returns that follow a signal, at each of
-- some horizons. `math.sqrt`, `round(x, 4)` and `str.upper` are arguments; `** 2` is the product.
pub mod Horizons
use quant_system.Prelude.{
  ℕ, suc, ◌+◌, ◌/◌, String, Bool, true, false, not, ◌&&◌, Option, none, some, List, [], ◌∷◌, map,
  length, leb, ltb, is_none, nonempty, keep, if◌then◌else◌,
}
use quant_system.Prelude.Eq.{◌==◌, string_eq, nat_eq}
use quant_system.Prelude.Dict.{Dict, lookup, insert}
use quant_system.Prelude.Window.{append_max}
use quant_system.Num.{Num, Float, ◌⊕◌, ◌⊖◌, ◌⊗◌, ◌⊘◌, ◌≺◌, ◌≈◌, neg, nought, lit, sum_from}

-- `_format_horizon`: the text is a number and a unit.
pub data Label : Type 0 where
  in_seconds in_minutes in_hours : ℕ → Label

pub format_horizon : ℕ → Label
format_horizon ms =
    let seconds = ms / 1000 in
    let minutes = seconds / 60 in
    if ltb seconds 60
    then in_seconds seconds
    else if ltb minutes 60
    then in_minutes minutes
    else in_hours (minutes / 60)

-- DEFAULT_HORIZONS_MS
abbrev pub default_horizons_ms : List ℕ
default_horizons_ms = 60_000 ∷ 300_000 ∷ 900_000 ∷ 1_800_000 ∷ 3_600_000 ∷ []

-- `sorted`
abbrev pub place : ℕ → List ℕ → List ℕ
place h [] = h ∷ []
place h (k ∷ ks) = let rest = place h ks in if leb h k then h ∷ k ∷ ks else k ∷ rest

pub sorted : List ℕ → List ℕ
sorted [] = []
sorted (h ∷ hs) = place h (sorted hs)

module _ ⦃N : Num⦄ where
  pub record TrackedSignal : Type 0 where
    pub signal_id : String
    pub timestamp_ms : ℕ
    pub strategy_id : String
    pub symbol : String
    pub predicted_direction : Float
    pub mid_price : Float
    pub horizon_returns : Dict ℕ (Option Float)

  -- `fully_filled`
  abbrev pub all_filled : Dict ℕ (Option Float) → Bool
  all_filled [] = true
  all_filled ((h, r) ∷ d) = not (is_none r) && all_filled d

  abbrev pub fully_filled : TrackedSignal → Bool
  fully_filled sig = all_filled sig.horizon_returns

  -- `_pearson_correlation`; the lists are of one length.
  abbrev pub products : Float → Float → List Float → List Float → List Float
  products mx my (x ∷ xs) (y ∷ ys) = ((x ⊖ mx) ⊗ (y ⊖ my)) ∷ products mx my xs ys
  products mx my _ _ = []

  pub pearson_correlation : (Float → Float) → List Float → List Float → Option Float
  unfolding sum_from
  pearson_correlation sqrt xs ys =
      let n = lit (length xs) 0 in
      let mean_x = sum_from nought xs ⊘ n in
      let mean_y = sum_from nought ys ⊘ n in
      let cov = sum_from nought (products mean_x mean_y xs ys) ⊘ n in
      let var_x = sum_from nought (products mean_x mean_x xs xs) ⊘ n in
      let var_y = sum_from nought (products mean_y mean_y ys ys) ⊘ n in
      let denom = sqrt (var_x ⊗ var_y) in
      if ltb (length xs) 5 then none else if denom ≺ lit 1 15 then none else some (cov ⊘ denom)

  -- `AlphaDecayTracker`
  pub record Tracker : Type 0 where
    pub horizons_ms : List ℕ
    pub max_signals : ℕ
    pub signals : List TrackedSignal

  -- `__init__`: no horizons, or an empty list of them, are the default ones.
  unfoldable pub init : List ℕ → ℕ → Tracker
  unfolding sorted
  init horizons_ms max_signals = record {
    horizons_ms = sorted (if nonempty horizons_ms then horizons_ms else default_horizons_ms);
    max_signals = max_signals;
    signals = [];
  }

  -- `{h: None for h in horizons}`
  unfoldable pub blank : List ℕ → Dict ℕ (Option Float)
  unfolding insert
  blank [] = []
  blank (h ∷ hs) = insert h none (blank hs)

  abbrev pub tracked :
      List ℕ → String → ℕ → String → String → String → Float → Float → TrackedSignal
  tracked horizons signal_id timestamp_ms strategy_id symbol side strength mid_price = record {
    signal_id = signal_id;
    timestamp_ms = timestamp_ms;
    strategy_id = strategy_id;
    symbol = symbol;
    predicted_direction = if side == "BUY" then strength else neg strength;
    mid_price = mid_price;
    horizon_returns = blank horizons;
  }

  -- `record_signal`
  unfoldable pub record_signal :
      (String → String) → String → ℕ → String → String → String → Float → Float → Tracker → Tracker
  unfolding append_max
  record_signal upper signal_id timestamp_ms strategy_id symbol side strength mid_price t =
      let sig =
        tracked t.horizons_ms signal_id timestamp_ms strategy_id symbol (upper side) strength
          mid_price in
      record t { signals = append_max t.max_signals sig t.signals }

  -- A horizon without a return yet, whose time has come. Every horizon is a key of the dict.
  abbrev pub pending : Option (Option Float) → Bool
  pending (some none) = true
  pending _ = false

  -- The loop of `on_trade` over the horizons of a signal.
  unfoldable pub fill_due : ℕ → Float → ℕ → List ℕ → Dict ℕ (Option Float) → Dict ℕ (Option Float)
  fill_due now ret start [] d = d
  fill_due now ret start (h ∷ hs) d =
      fill_due now ret start hs
        (if pending (lookup h d) && leb (start + h) now then insert h (some ret) d else d)

  -- What a trade does to one signal.
  unfoldable pub evaluate : List ℕ → String → ℕ → Float → TrackedSignal → TrackedSignal
  unfolding fill_due
  evaluate horizons symbol now price sig =
      if fully_filled sig
      then sig
      else if not (sig.symbol == symbol)
      then sig
      else if sig.mid_price ≈ nought
      then sig
      else record sig {
        horizon_returns =
            fill_due now ((price ⊖ sig.mid_price) ⊘ sig.mid_price) sig.timestamp_ms horizons
              sig.horizon_returns;
      }

  -- `on_trade`
  unfoldable pub on_trade : String → ℕ → Float → Tracker → Tracker
  unfolding evaluate
  on_trade symbol timestamp_ms price t = record t {
    signals = map (evaluate t.horizons_ms symbol timestamp_ms price) t.signals;
  }

  -- `_compute_ic_for_signals`: the predictions and returns of the signals filled at a horizon.
  abbrev pub filled_at : ℕ → List TrackedSignal → List (Float × Float)
  filled_at h [] = []
  filled_at h (s ∷ ss) = elim (lookup h s.horizon_returns) [
    | some (some r) ↦ (s.predicted_direction, r) ∷ filled_at h ss
    | other ↦ filled_at h ss
  ]

  pub compute_ic_for_signals : (Float → Float) → List TrackedSignal → ℕ → Option Float × ℕ
  unfolding pearson_correlation
  compute_ic_for_signals sqrt signals h =
      let found = filled_at h signals in
      (pearson_correlation sqrt (map (λ p. p.0) found) (map (λ p. p.1) found), length found)

  -- `get_alpha_decay_data`; the total of signals that each overall horizon repeats is one field.
  pub record Horizon : Type 0 where
    pub horizon_ms : ℕ
    pub horizon_label : Label
    pub ic : Option Float
    pub filled_count : ℕ

  abbrev pub rounded : (Float → Float) → Option Float → Option Float
  rounded round4 none = none
  rounded round4 (some x) = some (round4 x)

  pub horizon_data : (Float → Float) → (Float → Float) → List TrackedSignal → ℕ → Horizon
  unfolding compute_ic_for_signals
  horizon_data sqrt round4 signals h =
      let (ic, filled) = compute_ic_for_signals sqrt signals h in
      record {
        horizon_ms = h;
        horizon_label = format_horizon h;
        ic = rounded round4 ic;
        filled_count = filled;
      }

  pub record DecayData : Type 0 where
    pub horizons : List Horizon
    pub total_signals : ℕ
    pub strategies : Dict String (ℕ × List Horizon)

  -- The ids of the strategies, in the order of their first signals.
  abbrev pub has_id : String → List String → Bool
  has_id k [] = false
  has_id k (j ∷ js) = if j == k then true else has_id k js

  abbrev pub ids_from : List String → List TrackedSignal → List String
  ids_from seen [] = []
  ids_from seen (s ∷ ss) =
      let rest = ids_from (s.strategy_id ∷ seen) ss in
      let rest' = ids_from seen ss in
      if has_id s.strategy_id seen then rest' else s.strategy_id ∷ rest

  pub get_alpha_decay_data :
      (Float → Float) → (Float → Float) → (String → String) → Option String → Tracker → DecayData
  unfolding horizon_data
  get_alpha_decay_data sqrt round4 upper symbol t =
      let all_signals : List TrackedSignal = elim symbol [
        | none ↦ t.signals
        | some s ↦ if s == "" then t.signals else keep (λ g. g.symbol == upper s) t.signals
      ] in
      record {
        horizons = map (horizon_data sqrt round4 all_signals) t.horizons_ms;
        total_signals = length all_signals;
        strategies =
            map
              (λ (k : String).
                let own = keep (λ (g : TrackedSignal). g.strategy_id == k) all_signals in
                (k, (length own, map (horizon_data sqrt round4 own) t.horizons_ms)))
              (ids_from [] all_signals);
      }
