-- ===== src/Alpha/Strategy.antt =====
-- What services/alpha-engine/alpha_engine_svc/strategies/momentum.py and mean_reversion.py share:
-- all but the side that a deviation from the average price gives. The square roots, `round(x, 8)`,
-- the clock and the id of a signal are arguments.
pub mod Cooldown
use quant_system.Prelude.{
  ℕ, suc, String, Bool, true, false, not, ◌&&◌, ◌||◌, Option, none, some, List, [], ◌∷◌, leb,
  get_or, if◌then◌else◌,
}
use quant_system.Prelude.Eq.{◌==◌, string_eq}
use quant_system.Num.{Num, Float, ◌⊖◌, ◌⊕◌, ◌⊗◌, ◌⊘◌, ◌≺◌, ◌≈◌, neg, nought, one, lit, abs, min}
use quant_system.Core.Models.{Trade, DepthUpdate, Signal}
use quant_system.Alpha.OrderBook.{prices, highest, lowest}
use quant_system.Alpha.FeatureEngine
use quant_system.Alpha.FeatureEngine.{Engine, Features, compute, on_book_snapshot}

-- The sides for a price above and for one below the band round the average, and which of the two
-- tests the code makes first.
pub record Style : Type 0 where
  pub below_first : Bool
  pub above : String
  pub below : String

-- `side == self._last_signal_side`
abbrev pub repeats : String → Option String → Bool
repeats side none = false
repeats side (some last) = side == last

module _ ⦃N : Num⦄ where
  -- The strategy's `params`.
  pub record Params : Type 0 where
    pub window_size : ℕ
    pub threshold_std : Float
    pub warmup_trades : ℕ
    pub cooldown_trades : ℕ
    pub target_risk_usd : Float
    pub max_notional_usd : Float
    pub min_notional_usd : Float
    pub holding_period_trades : Float

  -- DEFAULT_PARAMS
  pub default_params : Params
  default_params = record {
    window_size = 200;
    threshold_std = lit 25 1;
    warmup_trades = 100;
    cooldown_trades = 30;
    target_risk_usd = lit 15 0;
    max_notional_usd = lit 500 0;
    min_notional_usd = lit 10 0;
    holding_period_trades = lit 30 0;
  }

  pub record Strategy : Type 0 where
    pub strategy_id : String
    pub symbol : String
    pub params : Params
    pub engine : Engine
    pub trade_count : ℕ
    pub trades_since_last_signal : ℕ
    pub last_signal_side : Option String
    pub mid_price : Option Float
    pub spread : Option Float

  pub init : String → String → Params → Strategy
  init strategy_id symbol params = record {
    strategy_id = strategy_id;
    symbol = symbol;
    params = params;
    engine = FeatureEngine.init symbol params.window_size;
    trade_count = 0;
    trades_since_last_signal = 0;
    last_signal_side = none;
    mid_price = none;
    spread = none;
  }

  pub record Outside : Type 0 where
    pub root : Float → Float
    pub sqrt : Float → Float
    pub round8 : Float → Float
    pub now : ℕ
    pub signal_id : String

  -- What `on_trade` does: it returns None, it raises, or it returns a signal.
  pub data Outcome : Type 0 where
    quiet raised : Outcome
    emitted : Signal → Outcome

  -- `is_warmed_up` and `cooldown_elapsed`
  abbrev pub is_warmed_up : Strategy → Bool
  is_warmed_up s = leb s.params.warmup_trades s.trade_count

  abbrev pub cooldown_elapsed : Strategy → Bool
  cooldown_elapsed s = leb s.params.cooldown_trades s.trades_since_last_signal

  -- The z-score of a price.
  abbrev pub z_score_of : Float → Features → Float
  z_score_of price f =
      let abs_volatility = f.volatility ⊗ f.vwap in
      if nought ≺ abs_volatility then (price ⊖ f.vwap) ⊘ abs_volatility else nought

  -- The side that a z-score gives, if it is outside the band.
  abbrev pub side_for : Style → Float → Float → Option String
  side_for style threshold z =
      if style.below_first
      then (if z ≺ neg threshold
          then some style.below
          else if threshold ≺ z
          then some style.above
          else none)
      else if threshold ≺ z
      then some style.above
      else if z ≺ neg threshold
      then some style.below
      else none

  -- `self._mid_price or trade.price`
  abbrev pub price_or : Option Float → Float → Float
  price_or none p = p
  price_or (some m) p = if m ≈ nought then p else m

  -- The sizing of a position: a ZeroDivisionError, no price, or a quantity.
  pub data Size : Type 0 where
    division_error no_price : Size
    quantity : Float → Size

  abbrev pub clamped : Params → Float → Float → Float
  clamped p price q =
      if p.max_notional_usd ≺ q ⊗ price
      then p.max_notional_usd ⊘ price
      else if q ⊗ price ≺ p.min_notional_usd
      then p.min_notional_usd ⊘ price
      else q

  unfoldable pub size_for : (Float → Float) → Params → Float → Float → Size
  size_for sqrt p price volatility =
      let holding_vol = volatility ⊗ sqrt p.holding_period_trades in
      if nought ≺ holding_vol && nought ≺ price
      then (if price ⊗ holding_vol ≈ nought
          then division_error
          else quantity (clamped p price (p.target_risk_usd ⊘ (price ⊗ holding_vol))))
      else if nought ≺ price
      then quantity (p.min_notional_usd ⊘ price)
      else no_price

  abbrev pub signal_for : Outside → Strategy → String → Float → Float → Float → Signal
  signal_for o s side z price q = record {
    signal_id = o.signal_id;
    timestamp = o.now;
    strategy_id = s.strategy_id;
    symbol = s.symbol;
    side = side;
    strength = min (abs z ⊘ (s.params.threshold_std ⊗ lit 2 0)) one;
    target_quantity = o.round8 q;
    urgency = min ((abs z ⊖ s.params.threshold_std) ⊘ s.params.threshold_std) one;
    mid_price_at_signal = price;
    spread_at_signal = get_or s.spread nought;
  }

  -- From the choice of a side on: no second signal to one side, the sizing, the signal.
  unfoldable pub act : Outside → Float → Float → String → Float → Strategy → Outcome × Strategy
  unfolding size_for
  act o z volatility side trade_price s =
      let price = price_or s.mid_price trade_price in
      let s' = record s { last_signal_side = some side; trades_since_last_signal = 0 } in
      if s.params.threshold_std ⊗ lit 2 0 ≈ nought
      then (raised, s)
      else if repeats side s.last_signal_side
      then (quiet, s)
      else elim (size_for o.sqrt s.params price volatility) [
        | division_error ↦ (raised, s')
        | no_price ↦ (quiet, s')
        | quantity q ↦ (emitted (signal_for o s side z price q), s')
      ]

  -- From the features on.
  unfoldable pub decide : Style → Outside → Float → Strategy → Outcome × Strategy
  unfolding act
  decide style o price s =
      let f = compute o.root s.engine in
      let z = z_score_of price f in
      if f.vwap ≈ nought || f.volatility ≈ nought
      then (quiet, s)
      else elim (side_for style s.params.threshold_std z) [
        | none ↦ (quiet, s)
        | some side ↦ act o z f.volatility side price s
      ]

  -- The counters count before the engine sees the trade.
  abbrev pub counted : Strategy → Strategy
  counted s = record s {
    trade_count = suc s.trade_count;
    trades_since_last_signal = suc s.trades_since_last_signal;
  }

  -- `on_trade`
  unfoldable pub on_trade : Style → Outside → Trade → Strategy → Outcome × Strategy
  unfolding decide
  on_trade style o trade s =
      elim (FeatureEngine.on_trade trade.price trade.quantity trade.is_buyer_maker
        trade.timestamp_exchange s.engine) [
          | none ↦ (raised, counted s)
          | some engine ↦
              let s' = record (counted s) { engine = engine } in
              if not (is_warmed_up s') || not (cooldown_elapsed s')
              then (quiet, s')
              else decide style o trade.price s'
        ]

  -- The mid and the spread of an update with levels on both sides and no best price of zero.
  abbrev pub quoted : DepthUpdate → Strategy → Strategy
  quoted update s = elim update.bids [
    | [] ↦ s
    | (b, _) ∷ bids ↦ elim update.asks [
      | [] ↦ s
      | (a, _) ∷ asks ↦
          let best_bid = highest b (prices bids) in
          let best_ask = lowest a (prices asks) in
          if best_bid ≈ nought || best_ask ≈ nought then s else record s {
            mid_price = some ((best_bid ⊕ best_ask) ⊘ lit 2 0);
            spread = some (best_ask ⊖ best_bid);
          }
    ]
  ]

  -- `on_book_update`, which returns None always.
  unfoldable pub on_book_update : DepthUpdate → Strategy → Strategy
  unfolding on_book_snapshot
  on_book_update update s =
      let s' = quoted update s in
      record s' { engine = on_book_snapshot s'.mid_price s'.spread nought s'.engine }
