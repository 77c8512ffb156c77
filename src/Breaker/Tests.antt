-- ===== src/Breaker/Tests.antt =====
-- The theorems on the circuit breaker at concrete inputs.
use pulsegate.Base.{◌≡◌, refl, map, false, [], ◌∷◌, ok, arith}
use pulsegate.Breaker.{
  CircuitState, CircuitBreakerLimits, CircuitBreaker, init, allow_request, record_failure,
}
use pulsegate.Breaker.Inv.{requests, fails, succeeds, neutral, run, IsValid, run-init-Counts}
use pulsegate.Breaker.History.{run_open, open-admitted, fails_open, admitted}

abbrev two_probes : CircuitBreakerLimits
two_probes = record { failure_threshold = 3; cooldown = 10; half_open_max_probes = 2 }

abbrev new_breaker : CircuitBreaker
new_breaker = record {
  limits = two_probes;
  state = CircuitState.closed;
  consecutive_failures = 0;
  probes_in_flight = 0;
  retry_at = 0;
}

abbrev tripped : CircuitBreaker
tripped = record new_breaker { state = CircuitState.open_; retry_at = 40 }

new_breaker-init : init two_probes ≡ ok new_breaker
unfolding init
new_breaker-init = refl

new_breaker-IsValid : IsValid new_breaker
new_breaker-IsValid = omega arith

tripped-IsValid : IsValid tripped
tripped-IsValid = omega arith

run-init-Counts_example :
    ((run (fails 1 ∷ fails 2 ∷ fails 3 ∷ requests 13 ∷ neutral ∷ succeeds ∷ []) new_breaker).limits
      ≡ two_probes)
    × IsValid
        (run (fails 1 ∷ fails 2 ∷ fails 3 ∷ requests 13 ∷ neutral ∷ succeeds ∷ []) new_breaker)
run-init-Counts_example =
    run-init-Counts two_probes new_breaker
      (fails 1 ∷ fails 2 ∷ fails 3 ∷ requests 13 ∷ neutral ∷ succeeds ∷ []) (omega arith)
      (omega arith) new_breaker-init

run_open_example :
    (run (requests 31 ∷ fails 32 ∷ neutral ∷ []) tripped ≡ tripped)
    × ((allow_request 39 (run (requests 31 ∷ fails 32 ∷ neutral ∷ []) tripped)).0 ≡ false)
run_open_example =
    run_open (requests 31 ∷ fails 32 ∷ neutral ∷ []) tripped 39 refl (omega arith, tt) (omega arith)

open-admitted_example : admitted (40 ∷ 41 ∷ 45 ∷ []) tripped ≡ 2
open-admitted_example =
    open-admitted (40 ∷ 41 ∷ 45 ∷ []) tripped tripped-IsValid refl
      (omega arith, (omega arith, (omega arith, tt)))

fails_open_example :
    ((run (map fails (1 ∷ 2 ∷ [])) new_breaker).state ≡ CircuitState.closed)
    × ((record_failure 5 (run (map fails (1 ∷ 2 ∷ [])) new_breaker)).state ≡ CircuitState.open_)
    × ((record_failure 5 (run (map fails (1 ∷ 2 ∷ [])) new_breaker)).retry_at ≡ 15)
fails_open_example = fails_open (1 ∷ 2 ∷ []) 5 new_breaker new_breaker-IsValid refl refl refl
