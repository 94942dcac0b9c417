-- ===== src/Backtest/MonteCarlo/Resample.antt =====
-- The length of a resampled series, and the rounds that it takes.
use quant_system.Prelude.{
  ℕ, zero, suc, ◌+◌, ◌-◌, ◌%◌, ◌≤◌, ◌<◌, ◌≡◌, refl, ◌∙◌, bind_some, Option, some, List, [], ◌∷◌,
  ◌++◌, length, length-append, arith, leb, inl, inr, Bool-cases, if◌then◌else◌,
}
use quant_system.Backtest.MonteCarlo.{nth, sample, block, blocks, resample_returns}

nth_in_range : {A : Type 0} (i : ℕ) (xs : List A) → i < length xs → (x : A) × (nth i xs ≡ some x)
unfolding nth
nth_in_range i [] h = absurd (omega (arith, h))
nth_in_range zero (x ∷ xs) h = (x, refl)
nth_in_range (suc i) (x ∷ xs) h = nth_in_range i xs (omega (arith, h))

abbrev min_ℕ : ℕ → ℕ → ℕ
min_ℕ a b = if leb a b then a else b

module _ {A R : Type 0} (randint : R → ℕ → ℕ × R) where
  block_step :
      (xs : List A) (start j left room : ℕ) (x : A) (ys : List A)
      → nth ((start + j) % length xs) xs ≡ some x
      → block randint xs start (suc j) left room ≡ some ys
      → block randint xs start j (suc left) (suc room) ≡ some (x ∷ ys)
  unfolding block
  block_step xs start j left room x ys e f = ground (arith, e, f)

  block_total :
      (xs : List A) (start j left room : ℕ)
      → 0 < length xs
      → (ys : List A) × (block randint xs start j left room ≡ some ys)
        × (length ys ≡ min_ℕ left room)
  unfolding block
  block_total xs start j zero room h = ([], refl, ground arith)
  block_total xs start j (suc left) zero h = ([], refl, ground arith)
  block_total xs start j (suc left) (suc room) h =
      let (x, e) = nth_in_range ((start + j) % length xs) xs (omega (arith, h)) in
      let (ys, ran, size) = block_total xs start (suc j) left room h in
      (x ∷ ys, block_step xs start j left room x ys e ran, ground (arith, size))

  sample_step :
      (xs : List A) (k : ℕ) (g g' : R) (x : A) (ys : List A)
      → nth (randint g (length xs - 1)).0 xs ≡ some x
      → sample randint xs k (randint g (length xs - 1)).1 ≡ some (ys, g')
      → sample randint xs (suc k) g ≡ some (x ∷ ys, g')
  unfolding sample
  sample_step xs k g g' x ys e f = bind_some _ x _ e ∙ bind_some _ (ys, g') _ f

  blocks_step :
      (fuel : ℕ) (xs : List A) (size room : ℕ) (g g' : R) (ys zs : List A)
      → block randint xs (randint g (length xs - 1)).0 0 size (suc room) ≡ some ys
      → blocks randint fuel xs size (suc room - length ys) (randint g (length xs - 1)).1
        ≡ some (zs, g')
      → blocks randint (suc fuel) xs size (suc room) g ≡ some (ys ++ zs, g')
  unfolding blocks
  blocks_step fuel xs size room g g' ys zs e f = bind_some _ ys _ e ∙ bind_some _ (zs, g') _ f

  -- That the generator's numbers are those of a list's positions.
  abbrev pub InRange : List A → Type 0
  InRange xs = (g : R) → (randint g (length xs - 1)).0 ≤ length xs - 1

  -- A series of a given length, and the generator after it.
  abbrev pub Draws : ℕ → Option (List A × R) → Type 0
  Draws n o = (ys : List A) × (g : R) × (o ≡ some (ys, g)) × (length ys ≡ n)

  sample-Draws :
      (xs : List A) (k : ℕ) (g : R) → 0 < length xs → InRange xs → Draws k (sample randint xs k g)
  unfolding sample
  sample-Draws xs zero g h range = ([], g, refl, refl)
  sample-Draws xs (suc k) g h range =
      let (x, e) = nth_in_range (randint g (length xs - 1)).0 xs (omega (arith, h, range g)) in
      let (ys, g', ran, size) = sample-Draws xs k (randint g (length xs - 1)).1 h range in
      (x ∷ ys, g', sample_step xs k g g' x ys e ran, omega (arith, size))

  blocks-Draws :
      (fuel : ℕ) (xs : List A) (size room : ℕ) (g : R)
      → 0 < length xs
      → 0 < size
      → room ≤ fuel
      → Draws room (blocks randint fuel xs size room g)
  unfolding blocks
  blocks-Draws fuel xs size zero g h pos_size enough = ([], g, refl, refl)
  blocks-Draws zero xs size (suc room) g h pos_size enough = absurd (omega (arith, enough))
  blocks-Draws (suc fuel) xs size (suc room) g h pos_size enough =
      let (ys, ran, took) = block_total xs (randint g (length xs - 1)).0 0 size (suc room) h in
      let (zs, g', rest, left) =
        blocks-Draws fuel xs size (suc room - length ys) (randint g (length xs - 1)).1 h pos_size
          (ground (arith, took, pos_size, enough)) in
      (
        ys ++ zs,
        g',
        blocks_step fuel xs size room g g' ys zs ran rest,
        ground (arith, length-append ys zs, took, left),
      )

  -- The bootstrap returns: with a generator that keeps to its range, the standard and the block
  -- form, for any size of the blocks, end within one round per return and give a series as long as
  -- the one that they are given.
  pub resample_returns-Draws :
      (xs : List A) (g : R) (block_size : ℕ)
      → InRange xs
      → (ys : List A) × (g' : R) × (resample_returns randint xs g block_size ≡ some (ys, g'))
        × (length ys ≡ length xs)
  unfolding resample_returns
  resample_returns-Draws [] g block_size range = ([], g, refl, refl)
  resample_returns-Draws (x ∷ xs) g block_size range = elim (Bool-cases (leb block_size 1)) [
    | inl standard ↦ rw (standard) (sample-Draws (x ∷ xs) (length (x ∷ xs)) g (omega arith) range)
    | inr blockwise ↦ rw (blockwise) (
        blocks-Draws (length (x ∷ xs)) (x ∷ xs) block_size (length (x ∷ xs)) g (omega arith)
          (ground (arith, blockwise)) (omega arith))
  ]
