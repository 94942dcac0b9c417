-- ===== src/Core/RateLimiter.antt =====
-- lib/quant_core/rate_limiter.py: the token bucket and the retry policy. The lock makes one round
-- of `acquire` a step; the readings of the clock are arguments.
pub mod Bucket
pub mod Acquire
use quant_system.Prelude.{
  ℕ, suc, ◌^◌, Bool, true, false, not, ◌&&◌, Option, none, some, List, [], ◌∷◌, leb, ltb, eqb,
  if◌then◌else◌,
}
use quant_system.Num.{Num, Float, ◌⊕◌, ◌⊖◌, ◌⊗◌, ◌⊘◌, ◌≼◌, ◌≈◌, nought, one, min, lit}

-- `burst_size or max(int(calls_per_second * 2), 1)`, the integer part being given.
pub burst : Option ℕ → ℕ → ℕ
burst none doubled = if ltb doubled 1 then 1 else doubled
burst (some size) doubled = if eqb size 0 then (if ltb doubled 1 then 1 else doubled) else size

module _ ⦃N : Num⦄ where
  pub record Limiter : Type 0 where
    pub rate : Float
    pub max_tokens : Float
    pub tokens : Float
    pub last_refill : Float
    pub total_waits : ℕ

  -- `RateLimiter.__init__`
  pub init : Float → Option ℕ → ℕ → Float → Limiter
  unfolding burst
  init calls_per_second burst_size doubled now =
      let most = lit (burst burst_size doubled) 0 in
      record {
        rate = calls_per_second;
        max_tokens = most;
        tokens = most;
        last_refill = now;
        total_waits = 0;
      }

  -- `_refill`
  unfoldable pub refill : Float → Limiter → Limiter
  refill now l = record l {
    tokens = min (l.tokens ⊕ (now ⊖ l.last_refill) ⊗ l.rate) l.max_tokens;
    last_refill = now;
  }

  -- What `acquire` does under the lock: refill, and take a token if there is one.
  unfoldable pub attempt : Float → Limiter → Bool × Limiter
  unfolding refill
  attempt now l =
      let full = refill now l in
      if one ≼ full.tokens
      then (true, record full { tokens = full.tokens ⊖ one })
      else (false, full)

  -- How a call of `acquire` ends: True, False, or the ZeroDivisionError of `1.0 / self._rate`.
  -- `waiting` says that the readings given were used up while it still waited.
  pub data Answer : Type 0 where
    granted timed_out division_error waiting : Answer

  -- The loop of `acquire`: in each round the clock is read at the refill and after it.
  unfoldable pub acquire_from : Float → List (Float × Float) → Limiter → Answer × Limiter
  unfolding attempt
  acquire_from deadline [] l = (waiting, l)
  acquire_from deadline ((now, later) ∷ rounds) l =
      let (taken, l') = attempt now l in
      let wait_time = min (one ⊘ l.rate) (deadline ⊖ later) in
      let rest = acquire_from deadline rounds (record l' { total_waits = suc l'.total_waits }) in
      if taken
      then (granted, l')
      else if l.rate ≈ nought
      then (division_error, l')
      else if wait_time ≼ nought
      then (timed_out, l')
      else rest

  -- `acquire`
  pub acquire : Float → Float → List (Float × Float) → Limiter → Answer × Limiter
  unfolding acquire_from
  acquire start timeout rounds l = acquire_from (start ⊕ timeout) rounds l

  pub record RetryPolicy : Type 0 where
    pub max_retries : ℕ
    pub base_delay : Float
    pub max_delay : Float
    pub exponential_base : Float

  -- `exponential_base ** attempt`
  pub power : Float → ℕ → Float
  power b ℕ.zero = one
  power b (suc n) = power b n ⊗ b

  -- `delay_for_attempt`
  pub delay_for_attempt : RetryPolicy → ℕ → Float
  unfolding power
  delay_for_attempt p attempt' = min (p.base_delay ⊗ power p.exponential_base attempt') p.max_delay

  -- `should_retry`
  pub should_retry : RetryPolicy → ℕ → Option ℕ → Bool
  should_retry p attempt' none = not (leb p.max_retries attempt')
  should_retry p attempt' (some code) =
      if leb p.max_retries attempt'
      then false
      else not (leb 400 code && ltb code 500 && not (eqb code 429))
