-- ===== src/Sessions.antt =====
-- include/pulsegate/http/session_lifecycle.h and the registry of src/http/http_server.cpp. A session is
-- a number, the identity of its object. The registry holds weak pointers: which objects are alive at a
-- call is an argument. Each method holds the mutex where it reads or writes the registry.
pub mod Registry
mod Tests
use pulsegate.Base.{
  ℕ, ◌+◌, ◌%◌, ◌^◌, Bool, true, false, not, ◌&&◌, ◌||◌, List, [], ◌∷◌, ◌++◌, Bytes, codes, length,
  any_of, map, leb, ◌==◌, if◌then◌else◌, Result, ok, err, invalid_argument,
}

pub data StopReason : Type 0 where
  nothing peer_closed protocol_error header_timeout body_timeout : StopReason
  idle_timeout server_shutdown resource_limit internal_error : StopReason

unfoldable pub to_string : StopReason → Bytes
to_string StopReason.nothing = codes "none"
to_string StopReason.peer_closed = codes "peer_closed"
to_string StopReason.protocol_error = codes "protocol_error"
to_string StopReason.header_timeout = codes "header_timeout"
to_string StopReason.body_timeout = codes "body_timeout"
to_string StopReason.idle_timeout = codes "idle_timeout"
to_string StopReason.server_shutdown = codes "server_shutdown"
to_string StopReason.resource_limit = codes "resource_limit"
to_string StopReason.internal_error = codes "internal_error"

-- The value of the enumerator, the key of `closed_counts_`.
unfoldable pub reason_index : StopReason → ℕ
reason_index StopReason.nothing = 0
reason_index StopReason.peer_closed = 1
reason_index StopReason.protocol_error = 2
reason_index StopReason.header_timeout = 3
reason_index StopReason.body_timeout = 4
reason_index StopReason.idle_timeout = 5
reason_index StopReason.server_shutdown = 6
reason_index StopReason.resource_limit = 7
reason_index StopReason.internal_error = 8

-- An entry of the map: its id, and the session that the weak pointer names.
pub record Entry : Type 0 where
  pub id : ℕ
  pub session : ℕ

-- A count that is missing from the source's map is zero here.
pub record SessionRegistry : Type 0 where
  pub maximum_sessions : ℕ
  pub sessions : List Entry
  pub closed_counts : ℕ → ℕ
  pub draining : Bool

unfoldable pub init : ℕ → Result SessionRegistry
init maximum_sessions =
    if maximum_sessions == 0
    then err invalid_argument
    else ok (record {
      maximum_sessions = maximum_sessions;
      sessions = [];
      closed_counts = λ _. 0;
      draining = false;
    })

-- The loop of `pruneExpiredLocked`, and of `liveSessions`, which also returns what is left.
unfoldable pub prune : (ℕ → Bool) → List Entry → List Entry
prune alive [] = []
prune alive (e ∷ es) = let rest = prune alive es in if alive e.session then e ∷ rest else rest

unfoldable pub has_id : ℕ → List Entry → Bool
has_id id es = any_of (λ e. e.id == id) es

-- `emplace` of an id that is there changes nothing and returns false.
unfoldable pub try_add : (ℕ → Bool) → ℕ → ℕ → SessionRegistry → Bool × SessionRegistry
unfolding prune has_id
try_add alive id session r =
    let left = prune alive r.sessions in
    let pruned = record r { sessions = left } in
    if r.draining || leb r.maximum_sessions (length left)
    then (false, pruned)
    else if has_id id left
    then (false, pruned)
    else (true, record r { sessions = record { id = id; session = session } ∷ left })

-- `++closed_counts_[reason]`
unfoldable pub count_closed : StopReason → (ℕ → ℕ) → ℕ → ℕ
unfolding reason_index
count_closed reason counts i =
    if i == reason_index reason then (counts i + 1) % 2 ^ 64 else counts i

unfoldable pub record_rejected : StopReason → SessionRegistry → SessionRegistry
record_rejected reason r = record r { closed_counts = count_closed reason r.closed_counts }

unfoldable pub without : ℕ → List Entry → List Entry
without id [] = []
without id (e ∷ es) = if e.id == id then es else e ∷ without id es

unfoldable pub remove : ℕ → StopReason → SessionRegistry → SessionRegistry
unfolding without has_id
remove id reason r =
    if has_id id r.sessions
    then record r {
      sessions = without id r.sessions;
      closed_counts = count_closed reason r.closed_counts;
    }
    else r

unfoldable pub live_sessions : (ℕ → Bool) → SessionRegistry → List ℕ × SessionRegistry
unfolding prune
live_sessions alive r =
    let left = prune alive r.sessions in (map (λ e. e.session) left, record r { sessions = left })

-- The list is the sessions whose `beginDrain` the loop calls, after the mutex is free again.
unfoldable pub begin_drain : (ℕ → Bool) → SessionRegistry → List ℕ × SessionRegistry
unfolding live_sessions
begin_drain alive r = live_sessions alive (record r { draining = true })

-- The list is the sessions that the loop stops.
unfoldable pub force_close_all : (ℕ → Bool) → SessionRegistry → List ℕ × SessionRegistry
unfolding live_sessions
force_close_all alive r = live_sessions alive r

unfoldable pub size : (ℕ → Bool) → SessionRegistry → ℕ × SessionRegistry
unfolding prune
size alive r = let left = prune alive r.sessions in (length left, record r { sessions = left })

unfoldable pub closed_count : StopReason → SessionRegistry → ℕ
unfolding reason_index
closed_count reason r = r.closed_counts (reason_index reason)
