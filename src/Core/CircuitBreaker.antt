-- ===== src/Core/CircuitBreaker.antt =====
-- lib/quant_core/circuit_breaker.py. Each service holds a `Breaker` over one key of Redis. The
-- clock, and whether Redis answers, are arguments of each call; the payload is a text.
pub mod Halt
use quant_system.Prelude.{
  String, Bool, true, false, not, Option, none, some, is_none, if◌then◌else◌,
}
use quant_system.Num.{Num, Float, ◌⊖◌, ◌≺◌, nought, lit}

-- What the key holds, and whether Redis can be reached.
pub record Redis : Type 0 where
  pub key : Option String
  pub reachable : Bool

module _ ⦃N : Num⦄ where
  pub record Breaker : Type 0 where
    pub cached_state : Bool
    pub last_check : Float

  -- `CircuitBreaker.__init__`
  pub init : Breaker
  init = record { cached_state = false; last_check = nought }

  -- CHECK_INTERVAL_S
  abbrev pub check_interval : Float
  check_interval = lit 5 1

  -- `now - self._last_check < CHECK_INTERVAL_S`
  abbrev pub is_fresh : Float → Breaker → Bool
  is_fresh now b = now ⊖ b.last_check ≺ check_interval

  -- What a check finds in Redis: an error counts as tripped.
  abbrev pub read : Redis → Bool
  read r = if r.reachable then not (is_none r.key) else true

  -- `is_tripped`
  unfoldable pub is_tripped : Float → Redis → Breaker → Bool × Breaker
  is_tripped now r b =
      if is_fresh now b
      then (b.cached_state, b)
      else (read r, record { cached_state = read r; last_check = now })

  -- `trip` and `reset`; `none` is the exception of a Redis that does not answer, after which
  -- neither the key nor the cache has changed.
  unfoldable pub trip : Float → String → Redis → Breaker → Option (Redis × Breaker)
  trip now payload r b =
      if r.reachable
      then some (record r { key = some payload }, record { cached_state = true; last_check = now })
      else none

  unfoldable pub reset : Float → Redis → Breaker → Option (Redis × Breaker)
  reset now r b =
      if r.reachable
      then some (record r { key = none }, record { cached_state = false; last_check = now })
      else none

-- The dict that `status` returns: the field `tripped`, and the decoded or the raw payload.
pub data Status (Payload : Type 0) : Type 0 where
  active : Status Payload
  decoded : Payload → Status Payload
  raw : String → Status Payload

-- `status`, over the JSON decoder; `none` is the exception of a Redis that does not answer.
unfoldable pub status :
    {Payload : Type 0} → (String → Option Payload) → Redis → Option (Status Payload)
status loads r =
    if r.reachable
    then some (elim r.key [
      | none ↦ active
      | some text ↦ elim (loads text) [ some data' ↦ decoded data' | none ↦ raw text ]
    ])
    else none
