-- ===== src/Breaker.antt =====
-- include/pulsegate/http/circuit_breaker.h and src/http/circuit_breaker.cpp. Each method holds the
-- mutex throughout, so that a method is one step. Times are numbers of one unit since the clock's
-- epoch, and the clock's value is an argument.
pub mod Inv
pub mod History
mod Tests
use pulsegate.Base.{
  ℕ, ◌+◌, ◌-◌, ◌%◌, ◌^◌, Bool, true, false, ◌||◌, Result, ok, err, invalid_argument, ltb, leb, ◌==◌,
  if◌then◌else◌,
}

pub data CircuitState : Type 0 where
  closed open_ half_open : CircuitState

pub record CircuitBreakerLimits : Type 0 where
  pub failure_threshold : ℕ
  pub cooldown : ℕ
  pub half_open_max_probes : ℕ

pub record CircuitBreaker : Type 0 where
  pub limits : CircuitBreakerLimits
  pub state : CircuitState
  pub consecutive_failures : ℕ
  pub probes_in_flight : ℕ
  pub retry_at : ℕ

unfoldable pub init : CircuitBreakerLimits → Result CircuitBreaker
init limits =
    if limits.failure_threshold == 0 || (limits.cooldown == 0 || limits.half_open_max_probes == 0)
    then err invalid_argument
    else ok (record {
      limits = limits;
      state = CircuitState.closed;
      consecutive_failures = 0;
      probes_in_flight = 0;
      retry_at = 0;
    })

-- `open`
unfoldable pub trip : ℕ → CircuitBreaker → CircuitBreaker
trip now c = record c {
  state = CircuitState.open_;
  consecutive_failures = 0;
  probes_in_flight = 0;
  retry_at = now + c.limits.cooldown;
}

-- The second test of `allowRequest`: the probe budget of the half-open state.
unfoldable pub admit_probe : CircuitBreaker → Bool × CircuitBreaker
admit_probe c =
    if leb c.limits.half_open_max_probes c.probes_in_flight
    then (false, c)
    else (true, record c { probes_in_flight = (c.probes_in_flight + 1) % 2 ^ 64 })

unfoldable pub allow_request : ℕ → CircuitBreaker → Bool × CircuitBreaker
unfolding admit_probe
allow_request now c = elim c.state [
  | CircuitState.open_ ↦
      if ltb now c.retry_at
      then (false, c)
      else admit_probe (record c { state = CircuitState.half_open; probes_in_flight = 0 })
  | CircuitState.half_open ↦ admit_probe c
  | CircuitState.closed ↦ (true, c)
]

unfoldable pub record_success : CircuitBreaker → CircuitBreaker
record_success c = record c {
  consecutive_failures = 0;
  probes_in_flight = 0;
  state = CircuitState.closed;
  retry_at = 0;
}

unfoldable pub record_failure : ℕ → CircuitBreaker → CircuitBreaker
unfolding trip
record_failure now c = elim c.state [
  | CircuitState.half_open ↦ trip now c
  | CircuitState.open_ ↦ c
  | CircuitState.closed ↦
      let counted = record c { consecutive_failures = (c.consecutive_failures + 1) % 2 ^ 32 } in
      if leb c.limits.failure_threshold counted.consecutive_failures
      then trip now counted
      else counted
]

unfoldable pub record_neutral : CircuitBreaker → CircuitBreaker
record_neutral c = elim c.state [
  | CircuitState.half_open ↦
      if ltb 0 c.probes_in_flight then record c { probes_in_flight = c.probes_in_flight - 1 } else c
  | _ ↦ c
]
