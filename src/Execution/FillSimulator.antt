-- ===== src/Execution/FillSimulator.antt =====
-- services/execution/execution_svc/fill_simulator.py. The ids and times of a fill, the normal
-- sample of `random.gauss(0, 1)`, and the two square roots (`math.sqrt` and `** 0.5`) are
-- arguments; `volatility**2` is the product.
pub mod Fees
use quant_system.Prelude.{
  ℕ, String, Bool, true, false, not, Option, none, some, is_none, List, [], ◌∷◌, ◌&&◌, ◌||◌,
  nonempty, if◌then◌else◌,
}
use quant_system.Prelude.Eq.{◌==◌, string_eq}
use quant_system.Num.{Num, Float, ◌⊕◌, ◌⊖◌, ◌⊗◌, ◌⊘◌, ◌≺◌, ◌≼◌, nought, lit, abs, min}
use quant_system.Core.Models.{Order, Fill}

module _ ⦃N : Num⦄ where
  -- One row of COINBASE_FEE_TIERS: the threshold, the maker's and the taker's rate. The threshold
  -- `none` is infinity, which every volume is below (or equal to, with the same rates then).
  pub record Tier : Type 0 where
    pub threshold : Option Float
    pub maker : Float
    pub taker : Float

  abbrev pub tier : ℕ → ℕ → ℕ → Tier
  tier t m k = record { threshold = some (lit t 0); maker = lit m 4; taker = lit k 4 }

  -- COINBASE_FEE_TIERS: its rows before the last, and the last.
  abbrev pub coinbase_fee_tiers : List Tier
  coinbase_fee_tiers =
      tier 1000 60 120
      ∷ tier 10000 35 75
      ∷ tier 50000 25 40
      ∷ tier 500000 15 25
      ∷ tier 1000000 10 20
      ∷ tier 15000000 7 16
      ∷ tier 50000000 5 14
      ∷ tier 100000000 2 10
      ∷ tier 250000000 0 8
      ∷ record { threshold = none; maker = lit 0 4; taker = lit 5 4 }
      ∷ []

  abbrev pub rate_of : Bool → Tier → Float
  rate_of is_maker r = if is_maker then r.maker else r.taker

  -- `volume_30d < threshold`
  abbrev pub below : Float → Option Float → Bool
  below volume none = true
  below volume (some t) = volume ≺ t

  -- The loop over the tiers; `last` is the rate after it.
  pub first_rate : Bool → Float → Float → List Tier → Float
  first_rate is_maker last volume [] = last
  first_rate is_maker last volume (r ∷ rs) =
      let rest = first_rate is_maker last volume rs in
      if below volume r.threshold then rate_of is_maker r else rest

  unfoldable pub coinbase_fee_rate : Float → Bool → Float
  coinbase_fee_rate volume_30d is_maker =
      first_rate is_maker (if is_maker then lit 0 4 else lit 5 4) volume_30d coinbase_fee_tiers

  -- DEFAULT_FEE_RATE
  abbrev pub default_fee_rate : Float
  default_fee_rate = lit 75 4

  -- `brownian_bridge_sample`, with the sample z.
  pub brownian_bridge_sample : (Float → Float) → Float → Float → Float → Float → Float → Float
  brownian_bridge_sample root z start_price end_price volatility dt_seconds =
      let t = dt_seconds ⊘ lit 2 0 in
      let bridge_mean = start_price ⊕ (end_price ⊖ start_price) ⊗ (t ⊘ dt_seconds) in
      let bridge_var = volatility ⊗ volatility ⊗ t ⊗ (dt_seconds ⊖ t) ⊘ dt_seconds in
      if dt_seconds ≼ nought || volatility ≼ nought
      then (start_price ⊕ end_price) ⊘ lit 2 0
      else bridge_mean ⊕ z ⊗ root bridge_var

  -- The loop of `walk_the_book`: what remains and what was paid.
  pub walk : Float → Float → List (Float × Float) → Float × Float
  walk remaining total_cost [] = (remaining, total_cost)
  walk remaining total_cost ((price, size) ∷ levels) =
      let fill_at_level = min remaining size in
      let rest = walk (remaining ⊖ fill_at_level) (total_cost ⊕ fill_at_level ⊗ price) levels in
      if remaining ⊖ fill_at_level ≼ nought
      then (remaining ⊖ fill_at_level, total_cost ⊕ fill_at_level ⊗ price)
      else rest

  unfoldable pub walk_the_book : Float → List (Float × Float) → Float
  walk_the_book quantity [] = nought
  walk_the_book quantity ((price, size) ∷ levels) =
      let (remaining, total_cost) = walk quantity nought ((price, size) ∷ levels) in
      if quantity ⊖ remaining ≼ nought then price else total_cost ⊘ (quantity ⊖ remaining)

  -- `FillSimulator`
  pub record Simulator : Type 0 where
    pub fixed_fee_rate : Option Float
    pub use_tiered_fees : Bool
    pub use_brownian_bridge : Bool
    pub latency_ms : Float
    pub last_volatility : Float
    pub rolling_volume_30d : Float

  pub init : Option Float → Bool → Float → Bool → Simulator
  init fee_rate use_brownian_bridge latency_ms use_tiered_fees = record {
    fixed_fee_rate = fee_rate;
    use_tiered_fees = use_tiered_fees && is_none fee_rate;
    use_brownian_bridge = use_brownian_bridge;
    latency_ms = latency_ms;
    last_volatility = nought;
    rolling_volume_30d = nought;
  }

  pub set_volatility : Float → Simulator → Simulator
  set_volatility volatility s = record s { last_volatility = volatility }

  pub set_rolling_volume : Float → Simulator → Simulator
  set_rolling_volume volume_30d s = record s { rolling_volume_30d = volume_30d }

  abbrev pub is_limit : Order → Bool
  is_limit order = order.order_type == "LIMIT"

  unfoldable pub fee_rate_for_order : Order → Simulator → Float × Bool
  fee_rate_for_order order s = elim s.fixed_fee_rate [
    | some rate ↦ (rate, is_limit order)
    | none ↦
        if s.use_tiered_fees
        then (coinbase_fee_rate s.rolling_volume_30d (is_limit order), is_limit order)
        else (default_fee_rate, is_limit order)
  ]

  -- `_simple_fill`
  abbrev pub simple_fill : Order → Float → Float → Float
  simple_fill order mid_price spread =
      let half_spread = spread ⊘ lit 2 0 in
      if order.side == "BUY" then mid_price ⊕ half_spread else mid_price ⊖ half_spread

  -- What a call takes from outside the code.
  pub record Outside : Type 0 where
    pub sqrt : Float → Float
    pub root : Float → Float
    pub z : Float
    pub fill_id : String
    pub now : ℕ

  -- `_brownian_bridge_fill`; no depth and an empty depth are the same.
  pub brownian_bridge_fill :
      Outside → Order → Float → Float → List (Float × Float) → Simulator → Float
  brownian_bridge_fill o order mid_price spread book_depth s =
      let vol_per_second = s.last_volatility ⊘ o.sqrt (lit 365 0 ⊗ lit 24 0 ⊗ lit 3600 0) in
      let bridge_price =
        brownian_bridge_sample o.root o.z mid_price (simple_fill order mid_price spread)
          (vol_per_second ⊗ mid_price) (s.latency_ms ⊘ lit 1000 0) in
      if nonempty book_depth
      then (bridge_price ⊕ walk_the_book order.quantity book_depth) ⊘ lit 2 0
      else bridge_price

  -- The price that `simulate_fill` chooses.
  unfoldable pub price_for :
      Outside → Order → Float → Float → List (Float × Float) → Simulator → Float
  price_for o order mid_price spread book_depth s =
      let market =
        if s.use_brownian_bridge && nought ≺ s.last_volatility
        then brownian_bridge_fill o order mid_price spread book_depth s
        else if nonempty book_depth
        then walk_the_book order.quantity book_depth
        else simple_fill order mid_price spread in
      elim order.limit_price [
        | some limit ↦ if is_limit order then limit else market
        | none ↦ market
      ]

  -- `simulate_fill`: the fill, and the simulator with the notional added to its volume.
  unfoldable pub simulate_fill :
      Outside → Order → Float → Float → List (Float × Float) → Simulator → Fill × Simulator
  simulate_fill o order mid_price spread book_depth s =
      let fill_price = price_for o order mid_price spread book_depth s in
      let notional = order.quantity ⊗ fill_price in
      let (fee_rate, _) = fee_rate_for_order order s in
      (
        record {
          fill_id = o.fill_id;
          timestamp = o.now;
          order_id = order.order_id;
          symbol = order.symbol;
          side = order.side;
          quantity = order.quantity;
          fill_price = fill_price;
          fee = notional ⊗ fee_rate;
          fee_rate = fee_rate;
          is_maker = is_limit order;
          slippage_bps =
              if nought ≺ mid_price
              then abs (fill_price ⊖ mid_price) ⊘ mid_price ⊗ lit 10000 0
              else nought;
          backtest_id = order.backtest_id;
          strategy_id = order.strategy_id;
          trading_mode = "paper";
        },
        record s { rolling_volume_30d = s.rolling_volume_30d ⊕ notional },
      )
