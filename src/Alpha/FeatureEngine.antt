-- ===== src/Alpha/FeatureEngine.antt =====
-- services/alpha-engine/alpha_engine_svc/feature_engine.py. The four deques are lists, oldest
-- first; `** 0.5` is an argument, and `** 2` the product.
pub mod Window
use quant_system.Prelude.{
  ℕ, zero, suc, ◌-◌, String, Bool, true, false, not, Option, none, some, List, [], ◌∷◌, map, length,
  leb, ltb, eqb, if◌then◌else◌,
}
use quant_system.Prelude.Window.{append_max}
use quant_system.Num.{Num, Float, ◌⊕◌, ◌⊖◌, ◌⊗◌, ◌⊘◌, ◌≺◌, nought, one, lit, sum_from}

-- `xs[-1]` and `xs[0]` of a list of timestamps, 0 if it is empty.
abbrev pub last_of : List ℕ → ℕ
last_of [] = 0
last_of (t ∷ []) = t
last_of (t ∷ u ∷ ts) = last_of (u ∷ ts)

abbrev pub first_of : List ℕ → ℕ
first_of [] = 0
first_of (t ∷ ts) = t

module _ ⦃N : Num⦄ where
  pub record Features : Type 0 where
    pub timestamp : ℕ
    pub symbol : String
    pub vwap : Float
    pub trade_imbalance : Float
    pub volatility : Float
    pub trade_rate : Float
    pub mid_price : Option Float
    pub spread : Option Float
    pub book_imbalance : Float

  pub record Engine : Type 0 where
    pub symbol : String
    pub window_size : ℕ
    pub prices : List Float
    pub quantities : List Float
    pub sides : List Bool
    pub timestamps : List ℕ
    pub pv_sum : Float
    pub v_sum : Float
    pub mid_price : Option Float
    pub spread : Option Float
    pub book_imbalance : Float

  -- `FeatureEngine.__init__`
  unfoldable pub init : String → ℕ → Engine
  init symbol window_size = record {
    symbol = symbol;
    window_size = window_size;
    prices = [];
    quantities = [];
    sides = [];
    timestamps = [];
    pv_sum = nought;
    v_sum = nought;
    mid_price = none;
    spread = none;
    book_imbalance = nought;
  }

  -- The oldest trade leaves the running sums; `none` is the IndexError of an empty deque.
  unfoldable pub take_off : List Float → List Float → Engine → Option Engine
  take_off [] qs e = none
  take_off (p ∷ ps) [] e = none
  take_off (p ∷ ps) (q ∷ qs) e = some (record e { pv_sum = e.pv_sum ⊖ p ⊗ q; v_sum = e.v_sum ⊖ q })

  unfoldable pub evict : Engine → Option Engine
  unfolding take_off
  evict e = if eqb (length e.prices) e.window_size then take_off e.prices e.quantities e else some e

  -- The part of `on_trade` that appends.
  unfoldable pub append_trade : Float → Float → Bool → ℕ → Engine → Engine
  unfolding append_max
  append_trade price quantity is_buyer_maker timestamp_ms e = record e {
    prices = append_max e.window_size price e.prices;
    quantities = append_max e.window_size quantity e.quantities;
    sides = append_max e.window_size is_buyer_maker e.sides;
    timestamps = append_max e.window_size timestamp_ms e.timestamps;
    pv_sum = e.pv_sum ⊕ price ⊗ quantity;
    v_sum = e.v_sum ⊕ quantity;
  }

  -- `on_trade`
  unfoldable pub on_trade : Float → Float → Bool → ℕ → Engine → Option Engine
  unfolding evict append_trade
  on_trade price quantity is_buyer_maker timestamp_ms e = elim (evict e) [
    | none ↦ none
    | some e' ↦ some (append_trade price quantity is_buyer_maker timestamp_ms e')
  ]

  -- `on_book_snapshot`
  unfoldable pub on_book_snapshot : Option Float → Option Float → Float → Engine → Engine
  on_book_snapshot mid_price spread imbalance e = record e {
    mid_price = mid_price;
    spread = spread;
    book_imbalance = imbalance;
  }

  -- A `len` as a float.
  abbrev pub count_of : {A : Type 0} → List A → Float
  count_of xs = lit (length xs) 0

  -- The quantities of the trades with the given side.
  abbrev pub on_side : Bool → List Float → List Bool → List Float
  on_side b (q ∷ qs) (s ∷ ss) =
      let rest = on_side b qs ss in if (if b then s else not s) then q ∷ rest else rest
  on_side b _ _ = []

  -- The returns from each price to the next, where the former is positive.
  abbrev pub returns_of : List Float → List Float
  returns_of (p ∷ q ∷ ps) =
      let rest = returns_of (q ∷ ps) in if nought ≺ p then (q ⊘ p ⊖ one) ∷ rest else rest
  returns_of _ = []

  -- The sample deviation of the returns.
  pub deviation : (Float → Float) → List Float → Float
  unfolding sum_from
  deviation root rs =
      let mean = sum_from nought rs ⊘ count_of rs in
      let squares = map (λ r. (r ⊖ mean) ⊗ (r ⊖ mean)) rs in
      if leb 2 (length rs) then root (sum_from nought squares ⊘ lit (length rs - 1) 0) else nought

  pub trade_imbalance_of : List Float → List Bool → Float
  unfolding sum_from
  trade_imbalance_of quantities sides =
      let buy_vol = sum_from nought (on_side true quantities sides) in
      let sell_vol = sum_from nought (on_side false quantities sides) in
      let total_vol = buy_vol ⊕ sell_vol in
      if nought ≺ total_vol then (buy_vol ⊖ sell_vol) ⊘ total_vol else nought

  -- The span in seconds is positive when the last timestamp is past the first.
  pub trade_rate_of : ℕ → List ℕ → Float
  trade_rate_of n timestamps =
      let span = lit (last_of timestamps - first_of timestamps) 0 ⊘ lit 1000 0 in
      if ltb (first_of timestamps) (last_of timestamps)
      then if nought ≺ span then lit n 0 ⊘ span else nought
      else nought

  -- The default `Features(symbol=...)`, and `compute`.
  abbrev pub no_features : String → Features
  no_features symbol = record {
    timestamp = 0;
    symbol = symbol;
    vwap = nought;
    trade_imbalance = nought;
    volatility = nought;
    trade_rate = nought;
    mid_price = none;
    spread = none;
    book_imbalance = nought;
  }

  unfoldable pub compute : (Float → Float) → Engine → Features
  unfolding deviation trade_imbalance_of trade_rate_of
  compute root e = if eqb (length e.prices) 0 then no_features e.symbol else record {
    timestamp = last_of e.timestamps;
    symbol = e.symbol;
    vwap = if nought ≺ e.v_sum then e.pv_sum ⊘ e.v_sum else nought;
    trade_imbalance = trade_imbalance_of e.quantities e.sides;
    volatility = if leb 2 (length e.prices) then deviation root (returns_of e.prices) else nought;
    trade_rate =
        if leb 2 (length e.prices) then trade_rate_of (length e.prices) e.timestamps else nought;
    mid_price = e.mid_price;
    spread = e.spread;
    book_imbalance = e.book_imbalance;
  }
