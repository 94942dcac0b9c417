-- ===== src/Core/CircuitBreaker/Halt.antt =====
-- A trip halts every service that shares the key, within the interval for which it may rely on
-- its cache, for as long as nobody resets.
use quant_system.Prelude.{
  ◌≡◌, ◌⊎◌, inl, inr, String, true, false, none, some, List, [], ◌∷◌, arith, is_none, Bool-cases,
  if◌then◌else◌,
}
use quant_system.Num.{Num, Float}
use quant_system.Core.CircuitBreaker.{Redis, Breaker, is_fresh, read, is_tripped, trip}

module _ ⦃N : Num⦄ where
  -- The answer is the cached one, or was read at this call, and an unreachable Redis reads as
  -- tripped.
  pub is_tripped_cases :
      (now : Float) (r : Redis) (b : Breaker)
      → ((is_fresh now b ≡ true) × (is_tripped now r b ≡ (b.cached_state, b)))
        ⊎ ((is_fresh now b ≡ false)
            × (is_tripped now r b ≡ (read r, record { cached_state = read r; last_check = now })))
  unfolding is_tripped
  is_tripped_cases now r b = elim (Bool-cases (is_fresh now b)) [
    | inl e ↦ inl (e, rw e)
    | inr e ↦ inr (e, rw e)
  ]

  -- What happens around one service: it checks, Redis fails or comes back, and other services
  -- trip the breaker. Nobody resets.
  pub data Event : Type 0 where
    check : Float → Event
    outage recovery : Event
    tripped_elsewhere : String → Event

  pub step : Event → Redis × Breaker → Redis × Breaker
  step (check now) (r, b) = (r, (is_tripped now r b).1)
  step outage (r, b) = (record r { reachable = false }, b)
  step recovery (r, b) = (record r { reachable = true }, b)
  step (tripped_elsewhere payload) (r, b) =
      (if r.reachable then record r { key = some payload } else r, b)

  pub run : List Event → Redis × Breaker → Redis × Breaker
  run [] w = w
  run (e ∷ es) w = run es (step e w)

  -- The service knows of the trip.
  abbrev pub Halted : Redis × Breaker → Type 0
  Halted (r, b) = (is_none r.key ≡ false) × (b.cached_state ≡ true)

  step-Halted : (e : Event) (w : Redis × Breaker) → Halted w → Halted (step e w)
  unfolding step is_tripped
  step-Halted (check now) (r, b) h = ground arith
  step-Halted outage (r, b) h = h
  step-Halted recovery (r, b) h = h
  step-Halted (tripped_elsewhere payload) (r, b) h = ground arith

  run-Halted : (es : List Event) (w : Redis × Breaker) → Halted w → Halted (run es w)
  unfolding run
  run-Halted [] w h = h
  run-Halted (e ∷ es) w h = run-Halted es (step e w) (step-Halted e w h)

  answer : (now : Float) (w : Redis × Breaker) → Halted w → (is_tripped now w.0 w.1).0 ≡ true
  unfolding is_tripped
  answer now w h = ground arith

  -- After a trip, as long as nobody resets the breaker, every check of the service that tripped it
  -- answers true: through outages of Redis, at any reading of the clock, however often asked.
  pub trip_halts_this_service :
      (now later : Float) (payload : String) (r : Redis) (b : Breaker) (es : List Event)
      {w : Redis × Breaker}
      → trip now payload r b ≡ some w
      → let w' = run es w in (is_tripped later w'.0 w'.1).0 ≡ true
  unfolding trip
  trip_halts_this_service now later payload r b es {w} h =
      answer later (run es w) (run-Halted es w (ground arith))

  -- Another service, whatever it has cached, answers false after the trip only while its cache is
  -- fresh; from its first check with a stale cache on it answers true, until somebody resets.
  pub trip_halts_other_services :
      (now first later : Float) (payload : String) (r r' : Redis) (b b' other : Breaker)
      (es : List Event)
      → trip now payload r b ≡ some (r', b')
      → is_fresh first other ≡ false
      → let (answer_first, other') = is_tripped first r' other in
        let w = run es (r', other') in (answer_first ≡ true) × ((is_tripped later w.0 w.1).0 ≡ true)
  unfolding trip is_tripped
  trip_halts_other_services now first later payload r r' b b' other es h stale =
      let keyed : is_none r'.key ≡ false = ground arith in
      let heard : Halted (r', (is_tripped first r' other).1) = ground arith in
      (ground arith, answer later (run es _) (run-Halted es _ heard))

  -- An answer false is the cached one, at most an interval old, or was read at this call from a
  -- Redis that answered and held no key: an outage never counts as permission to trade. The cache
  -- then holds the answer.
  pub false_is_grounded :
      (now : Float) (r : Redis) (b : Breaker)
      → (is_tripped now r b).0 ≡ false
      → ((is_tripped now r b).1.cached_state ≡ false)
        × (((is_fresh now b ≡ true) × (b.cached_state ≡ false))
            ⊎ ((r.reachable ≡ true) × (r.key ≡ none)))
  unfolding is_tripped
  false_is_grounded now r b h = ground arith
