-- ===== src/Backtest/WalkForward/Folds.antt =====
-- The bounds of the folds, and the order of the test windows.
use quant_system.Prelude.{
  ℕ, zero, suc, ◌+◌, ◌*◌, ◌-◌, ◌/◌, ◌≤◌, ◌<◌, ◌≡◌, refl, inl, inr, true, false, ◌||◌, Option, some,
  List, [], ◌∷◌, All, leb, eqb, arith, Bool-cases,
}
use quant_system.Prelude.Int.{ℤ, pos, ◌+ℤ◌, ltb_ℤ, leb_ℤ, +ℤ_parts}
use quant_system.Num.{Num, Float, ◌⊗◌, lit}
use quant_system.Backtest.WalkForward.{
  WindowType, rolling, expanding, Fold, min_ℕ, min_ℤ, max_ℕ, expanding_from, WalkForwardConfig,
  rolling_from, rolling_folds, sizes, generate_rolling, generate_expanding, generate_folds,
}

abbrev Le_ℤ : ℤ → ℤ → Type 0
Le_ℤ a b = leb_ℤ a b ≡ true

abbrev Lt_ℤ : ℤ → ℤ → Type 0
Lt_ℤ a b = ltb_ℤ a b ≡ true

-- A fold among n trades: it trains on trades before those it tests on, and tests on some.
abbrev pub IsFold : ℕ → Fold → Type 0
IsFold n f =
    Le_ℤ f.train_start f.train_end
    × (f.train_end ≡ f.test_start)
    × Lt_ℤ f.test_start f.test_end
    × Le_ℤ f.test_end (pos n)

lt_of_not_leb : (a b : ℤ) → leb_ℤ b a ≡ false → Lt_ℤ a b
lt_of_not_leb a b h = ground (arith, h)

min-le_right : (a b : ℤ) → Le_ℤ (min_ℤ a b) b
min-le_right a b = ground arith

le_add : (a b : ℤ) → Le_ℤ (pos 0) b → Le_ℤ a (a +ℤ b)
le_add a b h = ground (arith, +ℤ_parts a b, h)

pos_le : (a b : ℕ) → a ≤ b → Le_ℤ (pos a) (pos b)
pos_le a b h = ground (arith, h)

pos_lt : (a b : ℕ) → a < b → Lt_ℤ (pos a) (pos b)
pos_lt a b h = ground (arith, h)

-- The test windows do not overlap, and start at a given trade or later.
abbrev pub TestsFrom : ℤ → List Fold → Type 0
TestsFrom t [] = Unit
TestsFrom t (f ∷ fs) = Le_ℤ t f.test_start × TestsFrom f.test_end fs

expanding-IsFold : (n initial size i k : ℕ) → All (IsFold n) (expanding_from n initial size i k)
unfolding expanding_from
expanding-IsFold n initial size i zero = tt
expanding-IsFold n initial size i (suc k) =
    let start = initial + i * size in
    let end = min_ℕ (start + size) n in
    elim (Bool-cases (leb n start || leb end start)) [
      | inl stop ↦ rw (stop) tt
      | inr go ↦ rw (go) (
        (
          pos_le 0 start (omega arith),
          refl,
          pos_lt start end (ground (arith, go)),
          pos_le end n (ground arith),
        ),
        expanding-IsFold n initial size (suc i) k,
      )
    ]

TestsFrom-le : (s t : ℤ) (fs : List Fold) → Le_ℤ s t → TestsFrom t fs → TestsFrom s fs
TestsFrom-le s t [] h g = tt
TestsFrom-le s t (f ∷ fs) h (g, gs) = (ground (arith, h, g), gs)

expanding-TestsFrom :
    (n initial size i k : ℕ)
    → TestsFrom (pos (initial + i * size)) (expanding_from n initial size i k)
unfolding expanding_from
expanding-TestsFrom n initial size i zero = tt
expanding-TestsFrom n initial size i (suc k) =
    let start = initial + i * size in
    let end = min_ℕ (start + size) n in
    elim (Bool-cases (leb n start || leb end start)) [
      | inl stop ↦ rw (stop) tt
      | inr go ↦ rw (go) (
        pos_le start start (omega arith),
        TestsFrom-le (pos end) (pos (initial + suc i * size))
            (expanding_from n initial size (suc i) k)
            (pos_le end (initial + suc i * size) (ground arith))
            (expanding-TestsFrom n initial size (suc i) k),
      )
    ]

module _ ⦃N : Num⦄ where
  rolling-IsFold :
      (int : Float → ℤ) (n : ℕ) (train test : ℤ) (step : Float) (i k : ℕ)
      → Le_ℤ (pos 0) train
      → All (IsFold n) (rolling_from int n train test step i k)
  unfolding rolling_from
  rolling-IsFold int n train test step i zero h = tt
  rolling-IsFold int n train test step i (suc k) h =
      let begin = int (lit i 0 ⊗ step) in
      let start = begin +ℤ train in
      let end = min_ℤ (start +ℤ test) (pos n) in
      elim (Bool-cases (leb_ℤ end start)) [
        | inl stop ↦ rw (stop) tt
        | inr go ↦ rw (go) (
          (
            le_add begin train h,
            refl,
            lt_of_not_leb start end go,
            min-le_right (start +ℤ test) (pos n),
          ),
          rolling-IsFold int n train test step (suc i) k h,
        )
      ]

  rolling_folds-IsFold :
      (int : Float → ℤ) (n k : ℕ) (s : ℤ × ℤ)
      → Le_ℤ (pos 0) s.0
      → All (IsFold n) (rolling_folds int n k s)
  unfolding rolling_folds
  rolling_folds-IsFold int n k (train, test) h = rolling-IsFold int n train test _ 0 k h

  -- The share of training in a fold of any size comes out as a whole number from zero on.
  abbrev pub TrainsForward : (Float → ℤ) → Float → Type 0
  TrainsForward int train_pct = (n k : ℕ) → Le_ℤ (pos 0) (sizes int n k train_pct).0

  -- A result that is there, and whose folds all lie within n trades.
  abbrev pub Produces : ℕ → Option (List Fold) → Type 0
  Produces n o = (fs : List Fold) × (o ≡ some fs) × All (IsFold n) fs

  generate_rolling-Produces :
      (int : Float → ℤ) (n : ℕ) (c : WalkForwardConfig)
      → TrainsForward int c.train_pct
      → eqb c.n_splits 0 ≡ false
      → eqb (c.min_train_size + c.min_test_size) 0 ≡ false
      → Produces n (generate_rolling int n c)
  unfolding generate_rolling
  generate_rolling-Produces int n c forward splits mins =
      let (train_size, test_size) = sizes int n c.n_splits c.train_pct in
      let fewer = max_ℕ 1 (n / (c.min_train_size + c.min_test_size)) in
      elim (Bool-cases
        (ltb_ℤ train_size (pos c.min_train_size) || ltb_ℤ test_size (pos c.min_test_size))) [
          | inl small ↦
              rw (splits, small, mins)
                (
                  _,
                  refl,
                  rolling_folds-IsFold int n fewer (sizes int n fewer c.train_pct)
                      (forward n fewer),
                )
          | inr big ↦
              rw (splits, big)
                (
                  _,
                  refl,
                  rolling_folds-IsFold int n c.n_splits (train_size, test_size)
                      (forward n c.n_splits),
                )
        ]

  generate_expanding-TestsFrom :
      (n : ℕ) (c : WalkForwardConfig)
      → All (IsFold n) (generate_expanding n c) × TestsFrom (pos 0) (generate_expanding n c)
  unfolding generate_expanding
  generate_expanding-TestsFrom n c =
      let size = max_ℕ c.min_test_size (n / (c.n_splits + 1)) in
      let initial = max_ℕ c.min_train_size (n - c.n_splits * size) in
      (
        expanding-IsFold n initial size 0 c.n_splits,
        TestsFrom-le (pos 0) (pos (initial + 0 * size)) (expanding_from n initial size 0 c.n_splits)
            (pos_le 0 (initial + 0 * size) (omega arith))
            (expanding-TestsFrom n initial size 0 c.n_splits),
      )

  -- With at least one split, minimal sizes that are not both zero, and a share of training that
  -- never makes a negative size, a list of folds is returned (it may be empty), for either type of
  -- window, and in each fold the training trades do not end before they start, end where the test
  -- trades start, and the test trades are at least one and end within the n trades.
  pub generate_folds-IsFold :
      (int : Float → ℤ) (n : ℕ) (c : WalkForwardConfig)
      → TrainsForward int c.train_pct
      → eqb c.n_splits 0 ≡ false
      → eqb (c.min_train_size + c.min_test_size) 0 ≡ false
      → (fs : List Fold) × (generate_folds int n c ≡ some fs) × All (IsFold n) fs
  unfolding generate_folds
  generate_folds-IsFold int n c forward splits mins = elim (Bool-cases (eqb n 0)) [
    | inl zero_trades ↦ rw (zero_trades) ([], refl, tt)
    | inr some_trades ↦ rw (some_trades) (by_type c.window_type)
  ]
    where
      by_type :
          (w : WindowType)
          → (fs : List Fold) × ((elim w [
            | rolling ↦ generate_rolling int n c
            | expanding ↦ some (generate_expanding n c)
          ])
              ≡ some fs)
            × All (IsFold n) fs
      by_type rolling = generate_rolling-Produces int n c forward splits mins
      by_type expanding = (_, refl, (generate_expanding-TestsFrom n c).0)
