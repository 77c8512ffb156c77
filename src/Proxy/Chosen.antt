-- ===== src/Proxy/Chosen.antt =====
-- The choice of an upstream in src/http/reverse_proxy.cpp: what the chosen one has.
use pulsegate.Base.{
  ℕ, zero, suc, ◌+◌, ◌%◌, ◌^◌, ◌≡◌, refl, sym, subst, Bool, true, false, Option, none, some, length,
  get_elem?, get_elem?-set_at, ltb, leb, if_cases,
}
use pulsegate.Config.{UpstreamEndpoint}
use pulsegate.Health.{HealthStateStore, is_healthy}
use pulsegate.Breaker.{CircuitBreaker, CircuitState, allow_request, admit_probe}
use pulsegate.Proxy.Choice.{
  State, Search, no_search, endpoint_id, note_rejection, is_closed, set_circuit, ask_candidate,
  after_ask, try_candidate, search, choose,
}

abbrev pub is_open : CircuitState → Bool
is_open CircuitState.open_ = true
is_open _ = false

admit_probe-admits :
    (c : CircuitBreaker) → is_open c.state ≡ false → is_open (admit_probe c).1.state ≡ false
unfolding admit_probe
admit_probe-admits c shut =
    if_cases (λ (r : Bool × CircuitBreaker). is_open (r.1.state) ≡ false)
      (leb c.limits.half_open_max_probes c.probes_in_flight) _ _ (λ _. shut) (λ _. shut)

admits_in :
    (now : ℕ) (state : CircuitState) (c : CircuitBreaker)
    → (allow_request now (record c { state = state })).0 ≡ true
    → is_open (allow_request now (record c { state = state })).1.state ≡ false
unfolding allow_request
admits_in now CircuitState.closed c admitted = refl
admits_in now CircuitState.half_open c admitted =
    admit_probe-admits (record c { state = CircuitState.half_open }) refl
admits_in now CircuitState.open_ c admitted =
    if_cases (λ (r : Bool × CircuitBreaker). r.0 ≡ true → is_open (r.1.state) ≡ false)
      (ltb now c.retry_at) _ _ (λ _ refused. absurd (cc refused))
      (λ _ _.
        admit_probe-admits (record c { state = CircuitState.half_open; probes_in_flight = 0 }) refl)
      admitted

-- The breaker that admits a request is not open afterwards.
allow_request-admits :
    (now : ℕ) (c : CircuitBreaker)
    → (allow_request now c).0 ≡ true
    → is_open (allow_request now c).1.state ≡ false
allow_request-admits now c admitted = admits_in now c.state c admitted

note_rejection-index :
    (c : CircuitBreaker) (found : Search)
    → found.index ≡ none
    → (note_rejection c found).index ≡ none
unfolding note_rejection
note_rejection-index c found nothing =
    if_cases (λ (f : Search). f.index ≡ none) (is_closed c.state) _ _ (λ _. nothing) (λ _. nothing)

-- The index is one of the upstreams, its endpoint is healthy, and its breaker is not open.
unfoldable pub IsUsed : State → Option ℕ → Type 0
IsUsed s none = s ≡ s
IsUsed s (some i) =
    (e : UpstreamEndpoint) × (c : CircuitBreaker) × (get_elem? s.upstreams i ≡ some e)
    × (is_healthy (endpoint_id e) s.health ≡ true)
    × (get_elem? s.circuits i ≡ some c)
    × (is_open c.state ≡ false)

-- The search changes neither the upstreams nor what is held of their health.
IsFound : State → Search × State → Type 0
IsFound s r = IsUsed (r.1) (r.0.index) × (r.1.upstreams ≡ s.upstreams) × (r.1.health ≡ s.health)

ask_candidate-admits :
    (now : ℕ) (e : UpstreamEndpoint) (c : CircuitBreaker) (health : HealthStateStore)
    → (ask_candidate now e c health).0 ≡ true
    → (is_healthy (endpoint_id e) health ≡ true)
      × (is_open (ask_candidate now e c health).1.state ≡ false)
unfolding ask_candidate
ask_candidate-admits now e c health =
    if_cases
      (λ (r : Bool × CircuitBreaker).
        r.0 ≡ true → (is_healthy (endpoint_id e) health ≡ true) × (is_open (r.1.state) ≡ false))
      (is_healthy (endpoint_id e) health) _ _
      (λ healthy admitted. (healthy, allow_request-admits now c admitted))
      (λ _ refused. absurd (cc refused))

module _ (rest : Search → State → Search × State)
    (later : (found : Search) (s : State) → found.index ≡ none → IsFound s (rest found s)) where
  after_ask-IsFound :
      (i : ℕ) (e : UpstreamEndpoint) (c : CircuitBreaker) (r : Bool × CircuitBreaker)
      (found : Search) (s : State)
      → found.index ≡ none
      → get_elem? s.upstreams i ≡ some e
      → get_elem? s.circuits i ≡ some c
      → (r.0 ≡ true → (is_healthy (endpoint_id e) s.health ≡ true) × (is_open (r.1.state) ≡ false))
      → IsFound s (after_ask rest i r found s)
  unfolding after_ask IsFound IsUsed set_circuit
  after_ask-IsFound i e c (true, c') found s nothing here there admits = (
    (e, c', here, (admits refl).0, get_elem?-set_at i c' c s.circuits there, (admits refl).1),
    refl,
    refl,
  )
  after_ask-IsFound i e c (false, c') found s nothing here there admits =
      later (note_rejection c' found) (set_circuit i c' s) (note_rejection-index c' found nothing)

  try_candidate-IsFound :
      (now i : ℕ) (oe : Option UpstreamEndpoint) (oc : Option CircuitBreaker) (found : Search)
      (s : State)
      → found.index ≡ none
      → get_elem? s.upstreams i ≡ oe
      → get_elem? s.circuits i ≡ oc
      → IsFound s (try_candidate rest now i oe oc found s)
  unfolding try_candidate IsFound
  try_candidate-IsFound now i (some e) (some c) found s nothing here there =
      after_ask-IsFound i e c (ask_candidate now e c s.health) found s nothing here there
        (ask_candidate-admits now e c s.health)
  try_candidate-IsFound now i (some e) none found s nothing here there =
      (subst (IsUsed s) (sym nothing) (unfold IsUsed in refl), refl, refl)
  try_candidate-IsFound now i none oc found s nothing here there =
      (subst (IsUsed s) (sym nothing) (unfold IsUsed in refl), refl, refl)

search-IsFound :
    (left : ℕ) (clock : ℕ → ℕ) (found : Search) (s : State)
    → found.index ≡ none
    → IsFound s (search left clock found s)
unfolding search IsFound
search-IsFound zero clock found s nothing =
    (subst (IsUsed s) (sym nothing) (unfold IsUsed in refl), refl, refl)
search-IsFound (suc left) clock found s nothing =
    try_candidate-IsFound (search left clock) (search-IsFound left clock) (clock left)
      (s.next % length s.upstreams) _ _ found (record s { next = (s.next + 1) % 2 ^ 64 }) nothing
      refl refl

-- For every state of the proxy and every clock: the search for an upstream changes neither the upstreams nor
-- what is held of their health, and where it ends with an index, it is the index of an upstream that is held
-- healthy, and the breaker of that index is not open.
pub choose-IsUsed :
    (clock : ℕ → ℕ) (s : State)
    → IsUsed ((choose clock s).1) ((choose clock s).0.index)
      × ((choose clock s).1.upstreams ≡ s.upstreams)
      × ((choose clock s).1.health ≡ s.health)
unfolding choose IsFound
choose-IsUsed clock s = search-IsFound (length s.upstreams) clock no_search s refl
