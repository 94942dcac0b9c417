-- ===== src/Alpha/OrderBook.antt =====
-- services/alpha-engine/alpha_engine_svc/order_book.py: the book kept from depth updates, as one
-- dict from price to quantity for each side.
pub mod Levels
use quant_system.Prelude.{
  ℕ, zero, suc, String, Option, none, some, List, [], ◌∷◌, map, get_or, if◌then◌else◌,
}
use quant_system.Prelude.Dict.{Dict, lookup, insert, erase}
use quant_system.Num.{
  Num, Float, ◌⊕◌, ◌⊖◌, ◌⊘◌, ◌≺◌, ◌≈◌, nought, lit, min, max, sum_from, float_eq,
}
use quant_system.Core.Models.{DepthUpdate}

-- `xs[:n]`
abbrev pub first : {A : Type 0} → ℕ → List A → List A
first zero xs = []
first (suc n) [] = []
first (suc n) (x ∷ xs) = x ∷ first n xs

module _ ⦃N : Num⦄ where
  pub record Book : Type 0 where
    pub symbol : String
    pub bids : Dict Float Float
    pub asks : Dict Float Float

  -- `OrderBook.__init__`
  pub init : String → Book
  init symbol = record { symbol = symbol; bids = []; asks = [] }

  -- The loop of `apply_delta` over the levels of one side.
  unfoldable pub apply_levels : List (Float × Float) → Dict Float Float → Dict Float Float
  apply_levels [] d = d
  apply_levels ((price, qty) ∷ levels) d =
      apply_levels levels (if qty ≈ nought then erase price d else insert price qty d)

  unfoldable pub apply_delta : DepthUpdate → Book → Book
  unfolding apply_levels
  apply_delta update b = record b {
    bids = apply_levels update.bids b.bids;
    asks = apply_levels update.asks b.asks;
  }

  abbrev pub prices : Dict Float Float → List Float
  prices = map (λ l. l.0)

  -- `max(d)` and `min(d)` of a first key and the others.
  abbrev pub highest : Float → List Float → Float
  highest p [] = p
  highest p (q ∷ qs) = highest (max p q) qs

  abbrev pub lowest : Float → List Float → Float
  lowest p [] = p
  lowest p (q ∷ qs) = lowest (min p q) qs

  -- `(price, d[price])`; `none` would be a KeyError.
  abbrev pub level_at : Dict Float Float → Float → Option (Float × Float)
  level_at d p = elim (lookup p d) [ none ↦ none | some q ↦ some (p, q) ]

  -- The level at the highest and the one at the lowest price of a side.
  abbrev pub highest_level : Dict Float Float → Option (Float × Float)
  highest_level [] = none
  highest_level ((p, q) ∷ d) = level_at ((p, q) ∷ d) (highest p (prices d))

  abbrev pub lowest_level : Dict Float Float → Option (Float × Float)
  lowest_level [] = none
  lowest_level ((p, q) ∷ d) = level_at ((p, q) ∷ d) (lowest p (prices d))

  unfoldable pub best_bid : Book → Option (Float × Float)
  best_bid b = highest_level b.bids

  unfoldable pub best_ask : Book → Option (Float × Float)
  best_ask b = lowest_level b.asks

  -- `mid_price` and `spread`
  pub mid_price : Book → Option Float
  mid_price b = elim (best_bid b) [
    | none ↦ none
    | some bid ↦ elim (best_ask b) [ none ↦ none | some ask ↦ some ((bid.0 ⊕ ask.0) ⊘ lit 2 0) ]
  ]

  pub spread : Book → Option Float
  spread b = elim (best_bid b) [
    | none ↦ none
    | some bid ↦ elim (best_ask b) [ none ↦ none | some ask ↦ some (ask.0 ⊖ bid.0) ]
  ]

  -- `sorted(d.keys())` and `sorted(d.keys(), reverse=True)`; the keys of a dict differ.
  abbrev pub place_up : Float → List Float → List Float
  place_up p [] = p ∷ []
  place_up p (q ∷ qs) = if p ≺ q then p ∷ q ∷ qs else q ∷ place_up p qs

  abbrev pub sorted_up : List Float → List Float
  sorted_up [] = []
  sorted_up (p ∷ ps) = place_up p (sorted_up ps)

  abbrev pub place_down : Float → List Float → List Float
  place_down p [] = p ∷ []
  place_down p (q ∷ qs) = if q ≺ p then p ∷ q ∷ qs else q ∷ place_down p qs

  abbrev pub sorted_down : List Float → List Float
  sorted_down [] = []
  sorted_down (p ∷ ps) = place_down p (sorted_down ps)

  -- `d[p]` for a price out of the keys.
  abbrev pub quantity_at : Dict Float Float → Float → Float
  quantity_at d p = get_or (lookup p d) nought

  -- `top_bids` and `top_asks`
  pub top_bids : ℕ → Book → List (Float × Float)
  top_bids levels b =
      map (λ p. (p, quantity_at b.bids p)) (first levels (sorted_down (prices b.bids)))

  pub top_asks : ℕ → Book → List (Float × Float)
  top_asks levels b =
      map (λ p. (p, quantity_at b.asks p)) (first levels (sorted_up (prices b.asks)))

  -- `imbalance`
  pub imbalance : ℕ → Book → Float
  unfolding sum_from
  imbalance levels b =
      let bid_volume =
        sum_from nought (map (quantity_at b.bids) (first levels (sorted_down (prices b.bids)))) in
      let ask_volume =
        sum_from nought (map (quantity_at b.asks) (first levels (sorted_up (prices b.asks)))) in
      let total = bid_volume ⊕ ask_volume in
      if total ≈ nought then nought else (bid_volume ⊖ ask_volume) ⊘ total
