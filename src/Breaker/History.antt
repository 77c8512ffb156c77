-- ===== src/Breaker/History.antt =====
-- What a caller of src/http/circuit_breaker.cpp sees over a history of calls.
use pulsegate.Base.{
  ℕ, ◌+◌, ◌-◌, ◌≤◌, ◌<◌, ◌^◌, ◌≡◌, refl, min, true, false, List, [], ◌∷◌, map, arith, ltb, length,
  if◌then◌else◌, Bool-cases, inl, inr, ltb→lt,
}
use pulsegate.Breaker.{CircuitState, CircuitBreaker, allow_request, record_failure, record_neutral}
use pulsegate.Breaker.Inv.{Event, requests, fails, succeeds, neutral, step, run, IsValid}

-- No event reports a success, and every request comes before `t`.
abbrev pub Before : ℕ → List Event → Type 0
Before t [] = Unit {0}
Before t (requests now ∷ es) = (now < t) × Before t es
Before t (fails now ∷ es) = Before t es
Before t (succeeds ∷ es) = ⊥
Before t (neutral ∷ es) = Before t es

-- An open breaker stays as it is, and refuses each request, until the time to retry, whatever failures
-- and neutral outcomes are reported meanwhile; a reported success would close it.
pub run_open :
    (es : List Event) (c : CircuitBreaker) (now : ℕ)
    → c.state ≡ CircuitState.open_
    → Before c.retry_at es
    → now < c.retry_at
    → (run es c ≡ c) × ((allow_request now (run es c)).0 ≡ false)
unfolding run step allow_request record_failure record_neutral
run_open [] c now o h k = (refl, ground arith)
run_open (requests t ∷ es) c now o h k = ground (arith, run_open es c now o h.1 k)
run_open (fails t ∷ es) c now o h k = ground (arith, run_open es c now o h k)
run_open (succeeds ∷ es) c now o h k = absurd h
run_open (neutral ∷ es) c now o h k = ground (arith, run_open es c now o h k)

count_failure :
    (now : ℕ) (c : CircuitBreaker)
    → c.state ≡ CircuitState.closed
    → c.limits.failure_threshold < 2 ^ 32
    → c.consecutive_failures + 1 < c.limits.failure_threshold
    → record_failure now c ≡ record c { consecutive_failures = c.consecutive_failures + 1 }
unfolding record_failure
count_failure now c s h k = ground arith

-- A closed breaker that is below its threshold counts the failures, and stays closed.
fails_below :
    (ts : List ℕ) (c : CircuitBreaker)
    → c.state ≡ CircuitState.closed
    → c.limits.failure_threshold < 2 ^ 32
    → c.consecutive_failures + length ts < c.limits.failure_threshold
    → ((run (map fails ts) c).state ≡ CircuitState.closed)
      × ((run (map fails ts) c).consecutive_failures ≡ c.consecutive_failures + length ts)
      × ((run (map fails ts) c).limits ≡ c.limits)
unfolding run step
fails_below [] c s h k = ground arith
fails_below (t ∷ ts) c s h k =
    rw (run, count_failure t c s h (omega arith))
      (let (s', f', l') =
          fails_below ts (record c { consecutive_failures = c.consecutive_failures + 1 }) s h
            (omega arith) in
        (s', omega (arith, f'), l'))

-- The requests that a breaker admits, of those at the given times.
pub admitted : List ℕ → CircuitBreaker → ℕ
admitted [] c = 0
admitted (t ∷ ts) c =
    let (allowed, c') = allow_request t c in
    let rest = admitted ts c' in if allowed then rest + 1 else rest

abbrev pub AllFrom : ℕ → List ℕ → Type 0
AllFrom t [] = Unit {0}
AllFrom t (x ∷ xs) = (t ≤ x) × AllFrom t xs

admit_below :
    (now : ℕ) (c : CircuitBreaker)
    → c.state ≡ CircuitState.half_open
    → c.limits.half_open_max_probes < 2 ^ 64
    → c.probes_in_flight < c.limits.half_open_max_probes
    → allow_request now c ≡ (true, record c { probes_in_flight = c.probes_in_flight + 1 })
unfolding allow_request
admit_below now c s h k = ground arith

refuse_full :
    (now : ℕ) (c : CircuitBreaker)
    → c.state ≡ CircuitState.half_open
    → c.limits.half_open_max_probes ≤ c.probes_in_flight
    → allow_request now c ≡ (false, c)
unfolding allow_request
refuse_full now c s h = ground arith

half_open_admitted :
    (ts : List ℕ) (c : CircuitBreaker)
    → c.state ≡ CircuitState.half_open
    → c.limits.half_open_max_probes < 2 ^ 64
    → c.probes_in_flight ≤ c.limits.half_open_max_probes
    → admitted ts c ≡ min (length ts) (c.limits.half_open_max_probes - c.probes_in_flight)
unfolding admitted
half_open_admitted [] c s h k = omega arith
half_open_admitted (t ∷ ts) c s h k =
    elim (Bool-cases (ltb c.probes_in_flight c.limits.half_open_max_probes)) [
      | inl below ↦ rw (admit_below t c s h (ground arith)) (
          omega (
            arith,
            half_open_admitted ts (record c { probes_in_flight = c.probes_in_flight + 1 }) s h
                (ground arith),
            ltb→lt c.probes_in_flight c.limits.half_open_max_probes below,
          ))
      | inr full ↦
          let top : c.limits.half_open_max_probes ≤ c.probes_in_flight = ground arith in
          rw (refuse_full t c s top) (omega (arith, half_open_admitted ts c s h k))
    ]

half_open_after :
    (now : ℕ) (c : CircuitBreaker)
    → c.state ≡ CircuitState.open_
    → 0 < c.limits.half_open_max_probes
    → c.retry_at ≤ now
    → allow_request now c
      ≡ (true, record c { state = CircuitState.half_open; probes_in_flight = 1 })
unfolding allow_request
half_open_after now c o p k = ground arith

-- Requests that come to an open breaker from its time to retry on, with no outcome reported between
-- them: the first ones are admitted, as many as the probe budget, and all others are refused.
pub open-admitted :
    (ts : List ℕ) (c : CircuitBreaker)
    → IsValid c
    → c.state ≡ CircuitState.open_
    → AllFrom c.retry_at ts
    → admitted ts c ≡ min (length ts) c.limits.half_open_max_probes
unfolding admitted
open-admitted [] c v o h = omega arith
open-admitted (t ∷ ts) c v o h = rw (half_open_after t c o v.limits_ok.3 h.0) (
    omega (
      arith,
      half_open_admitted ts (record c { state = CircuitState.half_open; probes_in_flight = 1 }) refl
          v.limits_ok.4 v.limits_ok.3,
      v.limits_ok.3,
    ))

-- A valid closed breaker with no failure counted opens at the failure that makes the threshold, and at
-- none before it. It then waits for the cooldown from the time of that failure.
pub fails_open :
    (ts : List ℕ) (now : ℕ) (c : CircuitBreaker)
    → IsValid c
    → c.state ≡ CircuitState.closed
    → c.consecutive_failures ≡ 0
    → length ts + 1 ≡ c.limits.failure_threshold
    → ((run (map fails ts) c).state ≡ CircuitState.closed)
      × ((record_failure now (run (map fails ts) c)).state ≡ CircuitState.open_)
      × ((record_failure now (run (map fails ts) c)).retry_at ≡ now + c.limits.cooldown)
unfolding record_failure
fails_open ts now c v s z n =
    let (s', f', l') = fails_below ts c s v.limits_ok.1 (omega arith) in
    ground (arith, s', f', l', v.limits_ok.1)
