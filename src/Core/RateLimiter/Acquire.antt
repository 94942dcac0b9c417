-- ===== src/Core/RateLimiter/Acquire.antt =====
-- When the loop of `acquire` ends, and what its answer means.
use quant_system.Prelude.{
  suc, ◌≡◌, ◌⊎◌, inl, inr, refl, true, false, List, [], ◌∷◌, arith, subst, Bool-cases,
}
use quant_system.Num.{Num, Float, ◌⊖◌, ◌⊘◌, ◌≼◌, ◌≈◌, nought, one, min}
use quant_system.Num.Order.{Le, Lt, le_trans, min-le_right, not_le_of_lt}
use quant_system.Core.RateLimiter.Bucket.{attempt-rate}
use quant_system.Core.RateLimiter.{
  Limiter, attempt, Answer, granted, timed_out, division_error, acquire_from,
}

module _ ⦃N : Num⦄ where
  -- One of the rounds reads the clock at or past the deadline.
  abbrev pub Reaches : Float → List (Float × Float) → Type 0
  Reaches deadline [] = ⊥
  Reaches deadline ((now, later) ∷ rounds) =
      (Le (deadline ⊖ later) nought) ⊎ Reaches deadline rounds

  waits_no_more : (a b : Float) → Le b nought → Le (min a b) nought
  waits_no_more a b h = le_trans (min a b) b nought (min-le_right a b) h

  past_deadline : (a b : Float) → Lt nought a → Le (min a b) nought → Le b nought
  past_deadline a b h k = ground (arith, not_le_of_lt nought a h)

  -- The answers that end a call: a token, the time-out at a rate other than zero, or the
  -- ZeroDivisionError at rate zero.
  abbrev pub Ends : Float → Answer → Type 0
  Ends rate a =
      (a ≡ granted)
      ⊎ (((a ≡ timed_out) × ((rate ≈ nought) ≡ false))
          ⊎ ((a ≡ division_error) × ((rate ≈ nought) ≡ true)))

  -- `acquire` does not wait past its deadline: once a round reads a time that is not before it,
  -- the call has ended, with a token, with the time-out, or, at rate zero only, with the
  -- ZeroDivisionError; the time-out comes at other rates only.
  pub acquire_returns :
      (deadline : Float) (rounds : List (Float × Float)) (l : Limiter)
      → Reaches deadline rounds
      → Ends l.rate (acquire_from deadline rounds l).0
  unfolding acquire_from
  acquire_returns deadline [] l h = absurd h
  acquire_returns deadline ((now, later) ∷ rounds) l h =
      let l' = (attempt now l).1 in
      elim (Bool-cases (attempt now l).0) [
        | inl taken ↦ rw (taken) (inl refl)
        | inr empty ↦ elim (Bool-cases (l.rate ≈ nought)) [
          | inl still ↦ rw (empty, still) (inr (inr (refl, refl)))
          | inr moving ↦ elim (Bool-cases (min (one ⊘ l.rate) (deadline ⊖ later) ≼ nought)) [
            | inl over ↦ rw (empty, moving, over) (inr (inl (refl, refl)))
            | inr wait ↦
                let l'' = record l' { total_waits = suc l'.total_waits } in
                let later_round : Ends l.rate (acquire_from deadline rounds l'').0 =
                  subst (λ (r : Float). Ends r (acquire_from deadline rounds l'').0)
                    (attempt-rate now l).0 (acquire_returns deadline rounds l'' (go_on h wait)) in
                rw (empty, moving, wait) (rw moving at later_round)
          ]
        ]
      ]
    where
      go_on :
          Reaches deadline ((now, later) ∷ rounds)
          → (min (one ⊘ l.rate) (deadline ⊖ later) ≼ nought) ≡ false
          → Reaches deadline rounds
      go_on (inl past) wait =
          absurd (ground (arith, wait, waits_no_more (one ⊘ l.rate) (deadline ⊖ later) past))
      go_on (inr more) wait = more

  -- With a positive pause between rounds, the time-out means that a round found no token and read
  -- a time that was not before the deadline.
  timeout_means_deadline :
      (deadline : Float) (rounds : List (Float × Float)) (l : Limiter)
      → Lt nought (one ⊘ l.rate)
      → (acquire_from deadline rounds l).0 ≡ timed_out
      → Reaches deadline rounds
  unfolding acquire_from
  timeout_means_deadline deadline [] l pause h = cc
  timeout_means_deadline deadline ((now, later) ∷ rounds) l pause h =
      elim (Bool-cases (attempt now l).0) [
        | inl taken ↦ absurd (ground arith)
        | inr empty ↦ elim (Bool-cases (l.rate ≈ nought)) [
          | inl still ↦ absurd (ground arith)
          | inr moving ↦ elim (Bool-cases (min (one ⊘ l.rate) (deadline ⊖ later) ≼ nought)) [
            | inl over ↦ inl (past_deadline (one ⊘ l.rate) (deadline ⊖ later) pause over)
            | inr wait ↦
                let l' = (attempt now l).1 in
                inr (
                  timeout_means_deadline deadline rounds
                    (record l' { total_waits = suc l'.total_waits })
                    (rw ((attempt-rate now l).0) pause) (ground arith))
          ]
        ]
      ]
