-- ===== src/Core/RateLimiter/Bucket.antt =====
-- What the token bucket grants, over any rounds of `acquire`.
use quant_system.Prelude.{
  ℕ, zero, suc, ◌≡◌, inl, inr, refl, sym, ◌∙◌, subst, Bool, true, false, List, [], ◌∷◌, arith,
  Bool-cases, if◌then◌else◌,
}
use quant_system.Num.{Num, Float, ◌⊕◌, ◌⊖◌, ◌⊗◌, ◌≼◌, nought, one, min}
use quant_system.Num.Exact.{IsExact}
use quant_system.Num.Order.{Le, le_of_eq, le_of_lt, le_refl, le_trans, min-le_left, min-le_right}
use quant_system.Num.Ring.{Expr, ring}
use quant_system.Num.Ring.Laws
use quant_system.Core.RateLimiter.{Limiter, refill, attempt}

module _ ⦃N : Num⦄ where
  -- A number of tokens, as a float.
  abbrev pub count : ℕ → Float
  count zero = nought
  count (suc n) = one ⊕ count n

  -- Rounds of `acquire` by any number of callers, one under the lock at a time: how many were
  -- granted, and the bucket that is left.
  unfoldable pub attempts : List Float → Limiter → ℕ × Limiter
  attempts [] l = (0, l)
  attempts (now ∷ times) l =
      let (taken, l') = attempt now l in
      let (n, l'') = attempts times l' in (if taken then suc n else n, l'')

  pub attempt-rate :
      (now : Float) (l : Limiter)
      → ((attempt now l).1.rate ≡ l.rate)
        × ((attempt now l).1.max_tokens ≡ l.max_tokens)
        × ((attempt now l).1.last_refill ≡ now)
  unfolding attempt
  attempt-rate now l = ground arith

  -- The bucket holds between nothing and its size.
  abbrev pub IsInBucket : Limiter → Type 0
  IsInBucket l = Le nought l.tokens × Le l.tokens l.max_tokens

  nonneg_min : (a b : Float) → Le nought a → Le nought b → Le nought (min a b)
  nonneg_min a b h k = ground arith

module _ ⦃N : Num⦄ (X : IsExact) where
  -- Under exact arithmetic, with a clock that does not run backwards and a rate that is not negative, a round of `acquire`
  -- leaves between nothing and the size of the bucket in it.
  attempt-IsInBucket :
      (now : Float) (l : Limiter)
      → Le l.last_refill now
      → Le nought l.rate
      → IsInBucket l
      → IsInBucket (attempt now l).1
  unfolding attempt
  attempt-IsInBucket now l clock rate (low, high) =
      let earned = (now ⊖ l.last_refill) ⊗ l.rate in
      let full = min (l.tokens ⊕ earned) l.max_tokens in
      let full_low : Le nought full =
        nonneg_min (l.tokens ⊕ earned) l.max_tokens
          (subst (λ (t : Float). Le t (l.tokens ⊕ earned)) (X.add_zero nought)
            (Laws.add_mono X nought l.tokens nought earned low (
              Laws.mul_nonneg X (now ⊖ l.last_refill) l.rate
                (Laws.sub_nonneg X now l.last_refill clock) rate)))
          (le_trans nought l.tokens l.max_tokens low high) in
      let full_high : Le full l.max_tokens = min-le_right (l.tokens ⊕ earned) l.max_tokens in
      elim (Bool-cases (one ≼ full)) [
        | inl e ↦ rw e (
          Laws.sub_nonneg X full one e,
          le_trans (full ⊖ one) full l.max_tokens
              (Laws.sub_le X full one (le_of_lt nought one X.zero_lt_one)) full_high,
        )
        | inr e ↦ rw e (full_low, full_high)
      ]

  refill_earns :
      (now : Float) (l : Limiter)
      → Le (refill now l).tokens (l.tokens ⊕ (now ⊖ l.last_refill) ⊗ l.rate)
  unfolding refill
  refill_earns now l = min-le_left _ l.max_tokens

  -- What a round hands out and leaves is at most what there was and what time has earned.
  attempt_earns :
      (now : Float) (l : Limiter)
      → Le
          ((if (attempt now l).0 then one else nought) ⊕ (attempt now l).1.tokens)
          (l.tokens ⊕ (now ⊖ l.last_refill) ⊗ l.rate)
  unfolding attempt
  attempt_earns now l = elim (Bool-cases (one ≼ (refill now l).tokens)) [
    | inl e ↦ rw e (
        subst (λ (t : Float). Le t (l.tokens ⊕ (now ⊖ l.last_refill) ⊗ l.rate))
          (ring X ((refill now l).tokens ∷ []) (Expr.var 0)
            (Expr.plus Expr.one_ (Expr.minus (Expr.var 0) Expr.one_)) refl)
          (refill_earns now l))
    | inr e ↦ rw e (
        subst (λ (t : Float). Le t (l.tokens ⊕ (now ⊖ l.last_refill) ⊗ l.rate))
          (sym (Laws.zero_add X (refill now l).tokens)) (refill_earns now l))
  ]

  -- What is granted, with what is left, is at most what there was and what time has earned.
  attempts_earn :
      (times : List Float) (l : Limiter)
      → let (n, l') = attempts times l in
        Le (count n ⊕ l'.tokens) (l.tokens ⊕ (l'.last_refill ⊖ l.last_refill) ⊗ l.rate)
  unfolding attempts
  attempts_earn [] l = le_of_eq _ _ (
      ring X (l.tokens ∷ l.last_refill ∷ l.rate ∷ []) (Expr.plus Expr.zero_ (Expr.var 0))
        (Expr.plus (Expr.var 0) (Expr.times (Expr.minus (Expr.var 1) (Expr.var 1)) (Expr.var 2)))
        refl)
  attempts_earn (now ∷ times) l =
      let l' = (attempt now l).1 in
      let g = if (attempt now l).0 then one else nought in
      let n = (attempts times l').0 in
      let l'' = (attempts times l').1 in
      let later = (l''.last_refill ⊖ l'.last_refill) ⊗ l'.rate in
      let (same_rate, _, refilled) = attempt-rate now l in
      subst (λ (t : Float). Le t (l.tokens ⊕ (l''.last_refill ⊖ l.last_refill) ⊗ l.rate))
        (regroup (attempt now l).0 n l''.tokens)
        (le_trans (g ⊕ (count n ⊕ l''.tokens)) (g ⊕ (l'.tokens ⊕ later)) _
          (Laws.add_mono X g g (count n ⊕ l''.tokens) (l'.tokens ⊕ later) (le_refl g)
            (attempts_earn times l'))
          (le_trans (g ⊕ (l'.tokens ⊕ later)) (l.tokens ⊕ (now ⊖ l.last_refill) ⊗ l.rate ⊕ later) _
            (subst (λ (t : Float). Le t (l.tokens ⊕ (now ⊖ l.last_refill) ⊗ l.rate ⊕ later))
              (X.add_assoc g l'.tokens later)
              (Laws.add_mono_left X (g ⊕ l'.tokens) (l.tokens ⊕ (now ⊖ l.last_refill) ⊗ l.rate)
                later (attempt_earns now l)))
            (le_of_eq _ _ (
              rw (refilled, same_rate)
                (ring X (l.tokens ∷ now ∷ l.last_refill ∷ l.rate ∷ l''.last_refill ∷ [])
                  (Expr.plus
                    (Expr.plus (Expr.var 0)
                      (Expr.times (Expr.minus (Expr.var 1) (Expr.var 2)) (Expr.var 3)))
                    (Expr.times (Expr.minus (Expr.var 4) (Expr.var 1)) (Expr.var 3)))
                  (Expr.plus (Expr.var 0)
                    (Expr.times (Expr.minus (Expr.var 4) (Expr.var 2)) (Expr.var 3)))
                  refl)))))
    where
      regroup :
          (b : Bool) (m : ℕ) (t : Float)
          → (if b then one else nought) ⊕ (count m ⊕ t) ≡ count (if b then suc m else m) ⊕ t
      regroup true m t = sym (X.add_assoc one (count m) t)
      regroup false m t = Laws.zero_add X (count m ⊕ t)

  -- Readings of the clock that do not run backwards.
  abbrev pub Rises : Float → List Float → Type 0
  Rises t [] = Unit
  Rises t (now ∷ times) = Le t now × Rises now times

  attempts-IsInBucket :
      (times : List Float) (l : Limiter)
      → Le nought l.rate
      → IsInBucket l
      → Rises l.last_refill times
      → let l' = (attempts times l).1 in
        IsInBucket l' × (l'.rate ≡ l.rate) × (l'.max_tokens ≡ l.max_tokens)
  unfolding attempts
  attempts-IsInBucket [] l rate h _ = (h, refl, refl)
  attempts-IsInBucket (now ∷ times) l rate h (clock, clocks) =
      let (r, m, f) = attempt-rate now l in
      let (h', r', m') =
        attempts-IsInBucket times (attempt now l).1 (rw r rate)
          (attempt-IsInBucket now l clock rate h) (rw f clocks) in
      (h', r' ∙ r, m' ∙ m)

  -- Under exact arithmetic, with a rate that is not negative, a bucket that holds between nothing
  -- and its size, and a clock that does not run backwards: after any earlier rounds, however long
  -- they left the bucket alone, the tokens granted in further rounds are at most the bucket's
  -- size and the rate times the time that the further rounds take. So no client gets past its
  -- rate by more than one full bucket.
  pub grants_within_rate :
      (earlier times : List Float) (l : Limiter)
      → Le nought l.rate
      → IsInBucket l
      → Rises l.last_refill earlier
      → Rises (attempts earlier l).1.last_refill times
      → let l' = (attempts earlier l).1 in
        let (n, l'') = attempts times l' in
        Le (count n) (l.max_tokens ⊕ (l''.last_refill ⊖ l'.last_refill) ⊗ l.rate)
  grants_within_rate earlier times l rate h clock clock' =
      let l' = (attempts earlier l).1 in
      let (n, l'') = attempts times l' in
      let (b, r, m) = attempts-IsInBucket earlier l rate h clock in
      let (b', _, _) = attempts-IsInBucket times l' (rw r rate) b clock' in
      let earned = (l''.last_refill ⊖ l'.last_refill) ⊗ l.rate in
      let within : Le (count n ⊕ l''.tokens) (l'.tokens ⊕ earned) =
        rw r at (attempts_earn times l') in
      le_trans (count n) (count n ⊕ l''.tokens) (l.max_tokens ⊕ earned)
        (subst (λ (t : Float). Le t (count n ⊕ l''.tokens)) (X.add_zero (count n))
          (Laws.add_mono X (count n) (count n) nought l''.tokens (le_refl (count n)) b'.0))
        (le_trans (count n ⊕ l''.tokens) (l'.tokens ⊕ earned) (l.max_tokens ⊕ earned) within
          (Laws.add_mono_left X l'.tokens l.max_tokens earned (rw m at b.1)))
