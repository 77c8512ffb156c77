-- ===== src/Health.antt =====
-- include/pulsegate/http/upstream_health.h and src/http/upstream_health.cpp. A store publishes a
-- snapshot by one atomic exchange; the clock's value is an argument of the methods that read it.
pub mod Hysteresis
mod Tests
use pulsegate.Base.{
  ℕ, ◌+◌, ◌%◌, ◌^◌, Bool, true, false, not, ◌&&◌, ◌||◌, Option, none, some, List, [], ◌∷◌, Bytes,
  Dict, lookup, put, emplace, length, Result, ok, err, invalid_argument, leb, ◌==◌, if◌then◌else◌,
}

pub record EndpointHealth : Type 0 where
  pub healthy : Bool
  pub consecutive_successes : ℕ
  pub consecutive_failures : ℕ
  pub changed_at : ℕ

abbrev pub HealthSnapshot : Type 0
HealthSnapshot = Dict EndpointHealth

pub record HealthThresholds : Type 0 where
  pub healthy_threshold : ℕ
  pub unhealthy_threshold : ℕ

pub record HealthStateStore : Type 0 where
  pub thresholds : HealthThresholds
  pub snapshot : HealthSnapshot

unfoldable pub init : HealthThresholds → Result HealthStateStore
init t =
    if t.healthy_threshold == 0 || t.unhealthy_threshold == 0
    then err invalid_argument
    else ok (record { thresholds = t; snapshot = [] })

unfoldable pub add_endpoint : Bytes → Bool → ℕ → HealthStateStore → Result HealthStateStore
add_endpoint id initially_healthy now s =
    if length id == 0
    then err invalid_argument
    else ok (record s {
      snapshot =
          emplace id
            (record {
              healthy = initially_healthy;
              consecutive_successes = 0;
              consecutive_failures = 0;
              changed_at = now;
            })
            s.snapshot;
    })

-- What `record` does to the state of its endpoint. The counters are 32 bits wide.
unfoldable pub after_success : HealthThresholds → ℕ → EndpointHealth → EndpointHealth
after_success t now e =
    let successes = (e.consecutive_successes + 1) % 2 ^ 32 in
    let counted = record e { consecutive_failures = 0; consecutive_successes = successes } in
    if not e.healthy && leb t.healthy_threshold successes
    then record counted { healthy = true; changed_at = now }
    else counted

unfoldable pub after_failure : HealthThresholds → ℕ → EndpointHealth → EndpointHealth
after_failure t now e =
    let failures = (e.consecutive_failures + 1) % 2 ^ 32 in
    let counted = record e { consecutive_successes = 0; consecutive_failures = failures } in
    if e.healthy && leb t.unhealthy_threshold failures
    then record counted { healthy = false; changed_at = now }
    else counted

unfoldable pub after_outcome : HealthThresholds → Bool → ℕ → EndpointHealth → EndpointHealth
unfolding after_success after_failure
after_outcome t true now e = after_success t now e
after_outcome t false now e = after_failure t now e

-- The next snapshot, made from the one that was read: none where the endpoint is unknown.
unfoldable pub next_snapshot :
    HealthThresholds → Bytes → Bool → ℕ → HealthSnapshot → Option HealthSnapshot
unfolding after_outcome
next_snapshot t id success now current = elim (lookup id current) [
  | none ↦ none
  | some e ↦ some (put id (after_outcome t success now e) current)
]

-- `for (;;)`: each exchange that fails has read the snapshot that another writer had published. The
-- list is what those exchanges read; the last exchange succeeds. The result is the published snapshot.
unfoldable pub record_loop :
    HealthThresholds → Bytes → Bool → ℕ → HealthSnapshot → List HealthSnapshot → HealthSnapshot
unfolding next_snapshot
record_loop t id success now current [] = elim (next_snapshot t id success now current) [
  | none ↦ current
  | some next ↦ next
]
record_loop t id success now current (read ∷ later) =
    let retry = record_loop t id success now read later in
    elim (next_snapshot t id success now current) [ none ↦ current | some _ ↦ retry ]

-- `record`, where no other writer comes between.
unfoldable pub record_outcome : Bytes → Bool → ℕ → HealthStateStore → HealthStateStore
unfolding record_loop
record_outcome id success now s = record s {
  snapshot = record_loop s.thresholds id success now s.snapshot [];
}

unfoldable pub is_healthy : Bytes → HealthStateStore → Bool
is_healthy id s = elim (lookup id s.snapshot) [ none ↦ false | some e ↦ e.healthy ]
