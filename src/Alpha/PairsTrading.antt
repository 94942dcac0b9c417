-- ===== src/Alpha/PairsTrading.antt =====
-- services/alpha-engine/alpha_engine_svc/strategies/pairs_trading.py: two legs on the spread of a
-- pair. The tracker is shared with the caller; here it is a field. The metadata of the signals is
-- left out. `raised` is the ZeroDivisionError of a threshold of zero.
pub mod Legs
use quant_system.Prelude.{
  ℕ, suc, String, Bool, true, false, not, ◌||◌, Option, none, some, leb, if◌then◌else◌,
}
use quant_system.Prelude.Eq.{◌==◌, string_eq}
use quant_system.Num.{Num, Float, ◌⊗◌, ◌⊘◌, ◌≺◌, ◌≈◌, neg, nought, one, lit, abs, min}
use quant_system.Core.Models.{Trade, Signal}
use quant_system.Alpha.CrossAsset.{Tracker, CrossAssetSnapshot, on_price, get_snapshot}
use quant_system.Alpha.Strategy.{Outcome, quiet, raised, emitted, repeats}

module _ ⦃N : Num⦄ where
  -- DEFAULT_PARAMS, as a record.
  pub record Params : Type 0 where
    pub entry_threshold : Float
    pub min_correlation : Float
    pub base_quantity : Float
    pub cooldown_trades : ℕ
    pub warmup_trades : ℕ

  pub default_params : Params
  default_params = record {
    entry_threshold = lit 2 0;
    min_correlation = lit 5 1;
    base_quantity = lit 1 3;
    cooldown_trades = 20;
    warmup_trades = 30;
  }

  pub record Pairs : Type 0 where
    pub strategy_id : String
    pub symbol : String
    pub symbol_b : String
    pub tracker : Tracker
    pub params : Params
    pub trade_count : ℕ
    pub trades_since_last_signal : ℕ
    pub last_signal_side : Option String
    pub pending_counterpart : Option Signal

  -- `__init__`
  pub init : String → String → String → Tracker → Params → Pairs
  init strategy_id symbol symbol_b tracker params = record {
    strategy_id = strategy_id;
    symbol = symbol;
    symbol_b = symbol_b;
    tracker = tracker;
    params = params;
    trade_count = 0;
    trades_since_last_signal = 0;
    last_signal_side = none;
    pending_counterpart = none;
  }

  -- What comes from outside: the functions on floats and texts, two clock readings, two ids.
  pub record Outside : Type 0 where
    pub log : Float → Float
    pub sqrt : Float → Float
    pub upper : String → String
    pub now_a : ℕ
    pub now_b : ℕ
    pub signal_id_a : String
    pub signal_id_b : String

  abbrev pub is_warmed_up : Pairs → Bool
  is_warmed_up s = leb s.params.warmup_trades s.trade_count

  abbrev pub cooldown_elapsed : Pairs → Bool
  cooldown_elapsed s = leb s.params.cooldown_trades s.trades_since_last_signal

  -- The part before the test of the warm-up.
  unfoldable pub fed : Outside → Trade → Pairs → Pairs
  unfolding on_price
  fed o t s = record s {
    trade_count = suc s.trade_count;
    trades_since_last_signal = suc s.trades_since_last_signal;
    tracker = on_price (o.upper t.symbol) t.timestamp_exchange t.price s.tracker;
  }

  abbrev pub side_for : Float → Float → Option String
  side_for threshold z =
      if z ≺ neg threshold then some "BUY" else if threshold ≺ z then some "SELL" else none

  abbrev pub leg : String → ℕ → String → String → String → Float → Float → Float → Signal
  leg signal_id now strategy_id symbol side strength quantity price = record {
    signal_id = signal_id;
    timestamp = now;
    strategy_id = strategy_id;
    symbol = symbol;
    side = side;
    strength = strength;
    target_quantity = quantity;
    urgency = strength;
    mid_price_at_signal = price;
    spread_at_signal = nought;
  }

  abbrev pub other_side : String → String
  other_side side = if side == "BUY" then "SELL" else "BUY"

  -- From the choice of a side on: both legs.
  unfoldable pub act : Outside → Float → String → Float → Pairs → Outcome × Pairs
  act o z side price s =
      let threshold = s.params.entry_threshold in
      let strength = min (abs z ⊘ (threshold ⊗ lit 2 0)) one in
      let quantity = s.params.base_quantity in
      let s' = record s { last_signal_side = some side; trades_since_last_signal = 0 } in
      if repeats side s.last_signal_side
      then (quiet, s)
      else if threshold ⊗ lit 2 0 ≈ nought
      then (raised, s')
      else (
        emitted (leg o.signal_id_a o.now_a s.strategy_id s.symbol side strength quantity price),
        record s' {
          pending_counterpart = some (
              leg o.signal_id_b o.now_b s.strategy_id s.symbol_b (other_side side) strength quantity
                nought);
        },
      )

  -- From the snapshot on.
  unfoldable pub decide : Outside → CrossAssetSnapshot → Float → Pairs → Outcome × Pairs
  unfolding act
  decide o snap price s = elim snap.correlation [
    | none ↦ (quiet, s)
    | some correlation ↦ elim snap.spread_z_score [
      | none ↦ (quiet, s)
      | some z ↦
          if abs correlation ≺ s.params.min_correlation
          then (quiet, s)
          else elim (side_for s.params.entry_threshold z) [
            | none ↦ (quiet, s)
            | some side ↦ act o z side price s
          ]
    ]
  ]

  -- `on_trade`
  unfoldable pub on_trade : Outside → Trade → Pairs → Outcome × Pairs
  unfolding fed decide get_snapshot
  on_trade o t s =
      let s' = fed o t s in
      if not (is_warmed_up s') || not (cooldown_elapsed s')
      then (quiet, s')
      else decide o (get_snapshot o.log o.sqrt s.symbol s.symbol_b s'.tracker) t.price s'

  -- `get_counterpart_signal`
  unfoldable pub get_counterpart_signal : Pairs → Option Signal × Pairs
  get_counterpart_signal s = (s.pending_counterpart, record s { pending_counterpart = none })
