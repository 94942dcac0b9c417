-- ===== src/Alpha/OrderBook/Levels.antt =====
-- What a book holds after any updates, and what its best levels are.
use quant_system.Prelude.{
  ◌≡◌, ◌⊎◌, inl, inr, refl, ◌∙◌, false, Option, none, some, List, [], ◌∷◌, All, arith, Bool-cases,
}
use quant_system.Prelude.Dict.{Dict, lookup, insert, erase}
use quant_system.Num.{Num, Float, ◌≈◌, nought, min, max, float_eq}
use quant_system.Num.Order.{
  Le, le_refl, le_trans, le-max_left, le-max_right, min-le_left, min-le_right,
}
use quant_system.Core.Models.{DepthUpdate}
use quant_system.Alpha.OrderBook.{
  Book, apply_levels, apply_delta, prices, highest, lowest, level_at, highest_level, lowest_level,
  best_bid, best_ask,
}

module _ ⦃N : Num⦄ where
  -- No level of the book has the quantity zero.
  abbrev pub IsPresent : Float × Float → Type 0
  IsPresent l = (l.1 ≈ nought) ≡ false

  abbrev pub AllPresent : Book → Type 0
  AllPresent b = All IsPresent b.bids × All IsPresent b.asks

  insert-IsPresent :
      (p q : Float) (d : Dict Float Float)
      → (q ≈ nought) ≡ false
      → All IsPresent d
      → All IsPresent (insert p q d)
  unfolding insert
  insert-IsPresent p q [] h a = (h, tt)
  insert-IsPresent p q ((j, w) ∷ d) h a = elim (Bool-cases (j ≈ p)) [
    | inl e ↦ rw e (h, a.1)
    | inr e ↦ rw e (a.0, insert-IsPresent p q d h a.1)
  ]

  erase-IsPresent : (p : Float) (d : Dict Float Float) → All IsPresent d → All IsPresent (erase p d)
  unfolding erase
  erase-IsPresent p [] a = a
  erase-IsPresent p ((j, w) ∷ d) a = elim (Bool-cases (j ≈ p)) [
    | inl e ↦ rw e a.1
    | inr e ↦ rw e (a.0, erase-IsPresent p d a.1)
  ]

  apply_levels-IsPresent :
      (ls : List (Float × Float)) (d : Dict Float Float)
      → All IsPresent d
      → All IsPresent (apply_levels ls d)
  unfolding apply_levels
  apply_levels-IsPresent [] d a = a
  apply_levels-IsPresent ((p, q) ∷ ls) d a = elim (Bool-cases (q ≈ nought)) [
    | inl e ↦ rw e (apply_levels-IsPresent ls (erase p d) (erase-IsPresent p d a))
    | inr e ↦ rw e (apply_levels-IsPresent ls (insert p q d) (insert-IsPresent p q d e a))
  ]

  -- An update leaves no level of quantity zero in the book, whatever levels it lists.
  apply_delta-AllPresent :
      (update : DepthUpdate) (b : Book) → AllPresent b → AllPresent (apply_delta update b)
  unfolding apply_delta
  apply_delta-AllPresent update b (l, r) =
      (apply_levels-IsPresent update.bids b.bids l, apply_levels-IsPresent update.asks b.asks r)

  highest_bounds :
      (p : Float) (ps : List Float)
      → Le p (highest p ps) × All (λ (q : Float). Le q (highest p ps)) ps
  highest_bounds p [] = (le_refl p, tt)
  highest_bounds p (q ∷ qs) =
      let (h, hs) = highest_bounds (max p q) qs in
      (
        le_trans p (max p q) (highest (max p q) qs) (le-max_left p q) h,
        (le_trans q (max p q) (highest (max p q) qs) (le-max_right p q) h, hs),
      )

  lowest_bounds :
      (p : Float) (ps : List Float)
      → Le (lowest p ps) p × All (λ (q : Float). Le (lowest p ps) q) ps
  lowest_bounds p [] = (le_refl p, tt)
  lowest_bounds p (q ∷ qs) =
      let (h, hs) = lowest_bounds (min p q) qs in
      (
        le_trans (lowest (min p q) qs) (min p q) p h (min-le_left p q),
        (le_trans (lowest (min p q) qs) (min p q) q h (min-le_right p q), hs),
      )

  abbrev pub HasPrice : Float → Dict Float Float → Type 0
  HasPrice p d = (q : Float) × (lookup p d ≡ some q)

  has_further : (k j w : Float) (d : Dict Float Float) → HasPrice k d → HasPrice k ((j, w) ∷ d)
  unfolding lookup
  has_further k j w d (q, e) = elim (Bool-cases (j ≈ k)) [
    | inl h ↦ (w, rw h refl)
    | inr h ↦ (q, rw h e)
  ]

  has_first : (k j w : Float) (d : Dict Float Float) → k ≡ j → HasPrice k ((j, w) ∷ d)
  unfolding lookup
  has_first k j w d e = (w, rw (e, (N.eq_iff j j).1 refl) refl)

  max_cases : (p q : Float) → (max p q ≡ p) ⊎ (max p q ≡ q)
  max_cases p q = ground arith

  min_cases : (p q : Float) → (min p q ≡ p) ⊎ (min p q ≡ q)
  min_cases p q = ground arith

  highest_found :
      (p : Float) (d : Dict Float Float)
      → (highest p (prices d) ≡ p) ⊎ HasPrice (highest p (prices d)) d
  highest_found p [] = inl refl
  highest_found p ((j, w) ∷ d) = elim (highest_found (max p j) d) [
    | inr found ↦ inr (has_further (highest (max p j) (prices d)) j w d found)
    | inl e ↦ elim (max_cases p j) [
      | inl m ↦ inl (e ∙ m)
      | inr m ↦ inr (has_first (highest (max p j) (prices d)) j w d (e ∙ m))
    ]
  ]

  lowest_found :
      (p : Float) (d : Dict Float Float)
      → (lowest p (prices d) ≡ p) ⊎ HasPrice (lowest p (prices d)) d
  lowest_found p [] = inl refl
  lowest_found p ((j, w) ∷ d) = elim (lowest_found (min p j) d) [
    | inr found ↦ inr (has_further (lowest (min p j) (prices d)) j w d found)
    | inl e ↦ elim (min_cases p j) [
      | inl m ↦ inl (e ∙ m)
      | inr m ↦ inr (has_first (lowest (min p j) (prices d)) j w d (e ∙ m))
    ]
  ]

  -- A side has no level and no best one, or its best one is a level of it, and no price of the side
  -- is better.
  abbrev pub IsBest : (Float → Float → Type 0) → Dict Float Float → Option (Float × Float) → Type 0
  IsBest Worse d best =
      ((d ≡ []) × (best ≡ none))
      ⊎ ((p : Float) × (q : Float) × (best ≡ some (p, q))
          × (lookup p d ≡ some q)
          × All (λ (k : Float). Worse k p) (prices d))

  side-IsBest :
      (Worse : Float → Float → Type 0) (p q k : Float) (d : Dict Float Float)
      → (k ≡ p) ⊎ HasPrice k d
      → All (λ (j : Float). Worse j k) (p ∷ prices d)
      → IsBest Worse ((p, q) ∷ d) (level_at ((p, q) ∷ d) k)
  side-IsBest Worse p q k d found all =
      let has : HasPrice k ((p, q) ∷ d) = elim found [
        | inl e ↦ has_first k p q d e
        | inr h ↦ has_further k p q d h
      ] in
      inr (k, has.0, rw (level_at, has.1) refl, has.1, all)

  highest_level-IsBest : (d : Dict Float Float) → IsBest (λ k p. Le k p) d (highest_level d)
  highest_level-IsBest [] = inl (refl, refl)
  highest_level-IsBest ((p, q) ∷ d) =
      side-IsBest (λ k p. Le k p) p q (highest p (prices d)) d (highest_found p d)
        (highest_bounds p (prices d))

  lowest_level-IsBest : (d : Dict Float Float) → IsBest (λ k p. Le p k) d (lowest_level d)
  lowest_level-IsBest [] = inl (refl, refl)
  lowest_level-IsBest ((p, q) ∷ d) =
      side-IsBest (λ k p. Le p k) p q (lowest p (prices d)) d (lowest_found p d)
        (lowest_bounds p (prices d))

  -- The best bid of any book is the level at the highest bid price and the best ask the level at
  -- the lowest ask price, and a side has none only if it has no level.
  pub best_bid-IsBest :
      (b : Book)
      → IsBest (λ k p. Le k p) b.bids (best_bid b) × IsBest (λ k p. Le p k) b.asks (best_ask b)
  unfolding best_bid best_ask
  best_bid-IsBest b = (highest_level-IsBest b.bids, lowest_level-IsBest b.asks)
