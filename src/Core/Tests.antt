-- ===== src/Core/Tests.antt =====
-- The theorems on the breaker and the limiter at concrete times, over whole numbers.
mod Portfolio
use quant_system.Prelude.{◌≡◌, ◌≢◌, inl, inr, refl, Bool, true, false, none, some, List, [], ◌∷◌}
use quant_system.Prelude.Int.{ℤ, pos}
use quant_system.Num.{◌⊕◌, ◌⊖◌, ◌⊗◌}
use quant_system.Num.Order.{Le}
use quant_system.Num.Fixed.{integers}
use quant_system.Num.Fixed.Integers.{integers-IsExact}
use quant_system.Core.CircuitBreaker.{Redis, Breaker, is_tripped, trip}
use quant_system.Core.CircuitBreaker.Halt.{
  Event, check, outage, run, trip_halts_this_service, trip_halts_other_services,
}
use quant_system.Core.RateLimiter.{Limiter, attempt, acquire_from}
use quant_system.Core.RateLimiter.Bucket.{IsInBucket, count, attempts, grants_within_rate}
use quant_system.Core.RateLimiter.Acquire.{Ends, acquire_returns}

abbrev quiet : Redis
quiet = record { key = none; reachable = true }

abbrev tripped : Redis
tripped = record { key = some "loss"; reachable = true }

abbrev fresh : Breaker
fresh = record { cached_state = false; last_check = pos 0 }

abbrev told : Breaker
told = record { cached_state = true; last_check = pos 9 }

abbrev events : List Event
events = check (pos 10) ∷ outage ∷ check (pos 20) ∷ []

trip_halts_this_service_example :
    (is_tripped (pos 30) (run events (tripped, told)).0 (run events (tripped, told)).1).0 ≡ true
unfolding trip quant_system.Prelude.Int.◌*ℤ◌ quant_system.Prelude.Int.◌+ℤ◌
    quant_system.Prelude.Int.div quant_system.Prelude.Int.trunc quant_system.Prelude.Int.◌-ℤ◌
trip_halts_this_service_example =
    trip_halts_this_service (pos 9) (pos 30) "loss" quiet fresh events {w = (tripped, told)} refl

trip_halts_other_services_example :
    let (answer_first, other') = is_tripped (pos 10) tripped fresh in
    let w = run events (tripped, other') in
    (answer_first ≡ true) × ((is_tripped (pos 30) w.0 w.1).0 ≡ true)
unfolding trip quant_system.Prelude.Int.◌*ℤ◌ quant_system.Prelude.Int.◌+ℤ◌
    quant_system.Prelude.Int.div quant_system.Prelude.Int.trunc quant_system.Prelude.Int.◌-ℤ◌
trip_halts_other_services_example =
    trip_halts_other_services (pos 9) (pos 10) (pos 30) "loss" quiet tripped fresh told fresh events
      refl refl

-- Two tokens, and one a second.
abbrev two_tokens : Limiter
two_tokens = record {
  rate = pos 1;
  max_tokens = pos 2;
  tokens = pos 2;
  last_refill = pos 0;
  total_waits = 0;
}

abbrev times : List ℤ
times = pos 9 ∷ pos 10 ∷ pos 10 ∷ pos 12 ∷ []

grants_within_rate_example :
    let l' = (attempts (pos 9 ∷ []) two_tokens).1 in
    let (n, l'') = attempts times l' in
    Le (count n) (pos 2 ⊕ (l''.last_refill ⊖ l'.last_refill) ⊗ pos 1)
unfolding attempts attempt quant_system.Prelude.Int.◌*ℤ◌ quant_system.Prelude.Int.◌+ℤ◌
    quant_system.Prelude.Int.div quant_system.Prelude.Int.trunc quant_system.Prelude.Int.◌-ℤ◌
grants_within_rate_example =
    grants_within_rate integers-IsExact (pos 9 ∷ []) times two_tokens refl (refl, refl) (refl, tt)
      (refl, (refl, (refl, (refl, tt))))

-- No token left; the clock reads 1 and then 2, the deadline.
abbrev rounds : List (ℤ × ℤ)
rounds = (pos 0, pos 0) ∷ (pos 0, pos 2) ∷ []

abbrev drained : Limiter
drained = record two_tokens { tokens = pos 0 }

acquire_returns_example : Ends (pos 1) (acquire_from (pos 2) rounds drained).0
unfolding quant_system.Prelude.Int.◌*ℤ◌ quant_system.Prelude.Int.◌+ℤ◌ quant_system.Prelude.Int.div
    quant_system.Prelude.Int.trunc quant_system.Prelude.Int.◌-ℤ◌
acquire_returns_example = acquire_returns (pos 2) rounds drained (inr (inl refl))
