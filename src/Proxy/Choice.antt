-- ===== src/Proxy/Choice.antt =====
-- The choice of an upstream in src/http/reverse_proxy.cpp, and what the end of a transaction records. The
-- calls on the health store and on a breaker are single steps; the clock's value at each of them is a
-- function of the attempts that are left. No other thread writes the health store or a breaker between two
-- reads of one search. The breakers are as many as the upstreams.
use pulsegate.Base.{
  ℕ, zero, suc, ◌+◌, ◌-◌, ◌/◌, ◌%◌, ◌^◌, max, Bool, true, false, not, ◌&&◌, ◌||◌, Option, none,
  some, List, ◌∷◌, ◌++◌, Bytes, codes, length, get_elem?, set_at, to_string, ltb, leb, ◌==◌,
  if◌then◌else◌,
}
use pulsegate.Headers
use pulsegate.Response.{HttpResponse}
use pulsegate.Config.{UpstreamEndpoint}
use pulsegate.Health.{HealthStateStore, is_healthy, record_outcome}
use pulsegate.Breaker.{
  CircuitBreaker, CircuitState, allow_request, record_success, record_failure, record_neutral,
}
use pulsegate.Proxy.{
  ProxyError, no_error, cancelled, unsupported_request, overloaded, circuit_open,
  no_healthy_upstream, make_proxy_error_response,
}

pub record State : Type 0 where
  pub upstreams : List UpstreamEndpoint
  pub health : HealthStateStore
  pub circuits : List CircuitBreaker
  pub next : ℕ
  pub in_flight : ℕ
  pub max_in_flight_requests : ℕ
  pub overload_retry_after : ℕ
  pub count_5xx_as_health_failure : Bool

-- The locals of the search.
pub record Search : Type 0 where
  pub index : Option ℕ
  pub circuit_rejected : Bool
  pub earliest_retry : ℕ

abbrev pub no_search : Search
no_search = record { index = none; circuit_rejected = false; earliest_retry = 0 }

-- The slot of a request, where there is one.
unfoldable pub take_slot : State → Bool × State
take_slot s =
    if leb s.max_in_flight_requests s.in_flight
    then (false, s)
    else (true, record s { in_flight = (s.in_flight + 1) % 2 ^ 64 })

unfoldable pub release_slot : State → State
release_slot s = record s { in_flight = (s.in_flight + 2 ^ 64 - 1) % 2 ^ 64 }

unfoldable pub endpoint_id : UpstreamEndpoint → Bytes
endpoint_id e = e.host ++ (58 ∷ e.service)

abbrev pub is_closed : CircuitState → Bool
is_closed CircuitState.closed = true
is_closed _ = false

-- What a breaker that did not admit the request adds.
unfoldable pub note_rejection : CircuitBreaker → Search → Search
note_rejection c found = if is_closed c.state then found else record found {
  circuit_rejected = true;
  earliest_retry =
      if found.earliest_retry == 0 || ltb c.retry_at found.earliest_retry
      then c.retry_at
      else found.earliest_retry;
}

unfoldable pub set_circuit : ℕ → CircuitBreaker → State → State
set_circuit i c s = record s { circuits = set_at i c s.circuits }

-- The breaker is asked where the endpoint is healthy.
unfoldable pub ask_candidate :
    ℕ → UpstreamEndpoint → CircuitBreaker → HealthStateStore → Bool × CircuitBreaker
unfolding endpoint_id
ask_candidate now e c health =
    if is_healthy (endpoint_id e) health then allow_request now c else (false, c)

-- One attempt, and the attempts after it, with the endpoint and the breaker of its candidate.
unfoldable pub after_ask :
    (Search → State → Search × State) → ℕ → Bool × CircuitBreaker → Search → State → Search × State
unfolding set_circuit note_rejection
after_ask rest i (true, c) found s = (record found { index = some i }, set_circuit i c s)
after_ask rest i (false, c) found s = rest (note_rejection c found) (set_circuit i c s)

unfoldable pub try_candidate :
    (Search → State → Search × State)
    → ℕ
    → ℕ
    → Option UpstreamEndpoint
    → Option CircuitBreaker
    → Search
    → State
    → Search × State
unfolding after_ask ask_candidate
try_candidate rest now i (some e) (some c) found s =
    after_ask rest i (ask_candidate now e c s.health) found s
try_candidate rest now i (some e) none found s = (found, s)
try_candidate rest now i none c found s = (found, s)

-- The loop, by the attempts that are left.
unfoldable pub search : ℕ → (ℕ → ℕ) → Search → State → Search × State
unfolding try_candidate
search zero clock found s = (found, s)
search (suc left) clock found s =
    let i = s.next % length s.upstreams in
    let s' = record s { next = (s.next + 1) % 2 ^ 64 } in
    try_candidate (search left clock) (clock left) i (get_elem? s'.upstreams i)
      (get_elem? s'.circuits i) found s'

unfoldable pub choose : (ℕ → ℕ) → State → Search × State
unfolding search
choose clock s = search (length s.upstreams) clock no_search s

abbrev pub add_retry_after : ℕ → HttpResponse → HttpResponse
add_retry_after seconds response = record response {
  headers = Headers.add (codes "Retry-After") (to_string seconds) response.headers;
}

-- The answer where no slot or no connection is free.
unfoldable pub overloaded_response : State → HttpResponse
overloaded_response s =
    add_retry_after s.overload_retry_after (make_proxy_error_response overloaded)

-- The answer where no upstream was chosen. Times are milliseconds.
unfoldable pub unavailable_response : ℕ → Search → HttpResponse
unavailable_response now found =
    if found.circuit_rejected
    then add_retry_after (max 1 ((found.earliest_retry - now + 999) / 1000))
        (make_proxy_error_response circuit_open)
    else make_proxy_error_response no_healthy_upstream

-- The transaction that got no connection.
unfoldable pub record_no_lease : CircuitBreaker → CircuitBreaker
record_no_lease c = record_neutral c

abbrev pub is_no_error : ProxyError → Bool
is_no_error no_error = true
is_no_error _ = false

-- The errors that are not the upstream's.
abbrev pub is_own_error : ProxyError → Bool
is_own_error cancelled = true
is_own_error unsupported_request = true
is_own_error _ = false

-- What the end of a transaction does to the health of its endpoint and to its breaker.
unfoldable pub record_result :
    ProxyError
    → ℕ
    → ℕ
    → Bool
    → Bytes
    → HealthStateStore
    → CircuitBreaker
    → HealthStateStore × CircuitBreaker
record_result error upstream_status now count_5xx id health c =
    if not (not (is_no_error error) || (count_5xx && leb 500 upstream_status))
    then (record_outcome id true now health, record_success c)
    else if not (is_own_error error)
    then (record_outcome id false now health, record_failure now c)
    else (health, record_neutral c)
