-- ===== src/Breaker/Inv.antt =====
-- The invariant of src/http/circuit_breaker.cpp, and the states that a breaker can reach.
use pulsegate.Base.{ℕ, ◌≤◌, ◌<◌, ◌^◌, ◌≡◌, refl, ◌∙◌, List, [], ◌∷◌, ok, arith}
use pulsegate.Breaker.{
  CircuitState, CircuitBreakerLimits, CircuitBreaker, init, allow_request, record_success,
  record_failure, record_neutral,
}

-- What the counters can be in each state.
abbrev pub Counts : CircuitBreakerLimits → CircuitState → ℕ → ℕ → Type 0
Counts l CircuitState.closed failures probes = (failures < l.failure_threshold) × (probes ≡ 0)
Counts l CircuitState.open_ failures probes = (failures ≡ 0) × (probes ≡ 0)
Counts l CircuitState.half_open failures probes = (failures ≡ 0) × (probes ≤ l.half_open_max_probes)

-- The limits that the constructor accepts, within the types of the source.
abbrev pub LimitsOk : CircuitBreakerLimits → Type 0
LimitsOk l =
    (0 < l.failure_threshold)
    × (l.failure_threshold < 2 ^ 32)
    × (0 < l.cooldown)
    × (0 < l.half_open_max_probes)
    × (l.half_open_max_probes < 2 ^ 64)

pub record IsValid (c : CircuitBreaker) : Type 0 where
  pub limits_ok : LimitsOk c.limits
  pub counts : Counts c.limits c.state c.consecutive_failures c.probes_in_flight

-- The calls of a proxy, each at the time that it reads.
pub data Event : Type 0 where
  requests fails : ℕ → Event
  succeeds neutral : Event

unfoldable pub step : Event → CircuitBreaker → CircuitBreaker
step (requests now) c = (allow_request now c).1
step (fails now) c = record_failure now c
step succeeds c = record_success c
step neutral c = record_neutral c

unfoldable pub run : List Event → CircuitBreaker → CircuitBreaker
run [] c = c
run (e ∷ es) c = run es (step e c)

step-IsValid : (e : Event) (c : CircuitBreaker) → IsValid c → IsValid (step e c)
unfolding step allow_request record_success record_failure record_neutral
step-IsValid (requests now) c v = record {
  limits_ok = ground (arith, v.limits_ok);
  counts = ground (arith, v.limits_ok, v.counts);
}
step-IsValid (fails now) c v = record {
  limits_ok = ground (arith, v.limits_ok);
  counts = ground (arith, v.limits_ok, v.counts);
}
step-IsValid succeeds c v = record { limits_ok = v.limits_ok; counts = ground (arith, v.limits_ok) }
step-IsValid neutral c v = record {
  limits_ok = ground (arith, v.limits_ok);
  counts = ground (arith, v.limits_ok, v.counts);
}

run-IsValid : (es : List Event) (c : CircuitBreaker) → IsValid c → IsValid (run es c)
unfolding run
run-IsValid [] c v = v
run-IsValid (e ∷ es) c v = run-IsValid es (step e c) (step-IsValid e c v)

limits-step : (e : Event) (c : CircuitBreaker) → (step e c).limits ≡ c.limits
unfolding step allow_request record_success record_failure record_neutral
limits-step (requests now) c = ground arith
limits-step (fails now) c = ground arith
limits-step succeeds c = refl
limits-step neutral c = ground arith

limits-run : (es : List Event) (c : CircuitBreaker) → (run es c).limits ≡ c.limits
unfolding run
limits-run [] c = refl
limits-run (e ∷ es) c = limits-run es (step e c) ∙ limits-step e c

-- After any calls on a new breaker: a closed one has counted fewer failures than the threshold, a
-- half-open one has at most the configured probes in flight, and the counters of a state that does not
-- use them are zero. Its limits are still those given to the constructor, all of them positive and within
-- the source's types.
pub run-init-Counts :
    (l : CircuitBreakerLimits) (c : CircuitBreaker) (es : List Event)
    → l.failure_threshold < 2 ^ 32
    → l.half_open_max_probes < 2 ^ 64
    → init l ≡ ok c
    → ((run es c).limits ≡ l) × IsValid (run es c)
run-init-Counts l c es h k made = (limits-run es c ∙ given made, run-IsValid es c (start made))
  where
    given : init l ≡ ok c → c.limits ≡ l
    given e = unfold init in ground arith

    start : init l ≡ ok c → IsValid c
    start e = unfold init in ground arith
