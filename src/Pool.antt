-- ===== src/Pool.antt =====
-- include/pulsegate/http/upstream_pool.h and src/http/upstream_pool.cpp, the policy: which connections
-- are idle, how many are busy, and what a lease does with its connection. A connection is owned by one
-- lease or by the idle list at a time, so that its record is a value. A call has one value of the clock,
-- which is an argument: where `acquire` and `prune_idle` test several idle connections, the source reads
-- the clock again for each test.
pub mod Lease
pub mod Strand
pub mod Limits
pub mod Waiters
pub mod Stop
pub mod Owners
pub mod History
pub mod Stalls
pub mod Semaphore
mod Tests
use pulsegate.Base.{
  ℕ, ◌+◌, Bool, true, false, not, ◌&&◌, ◌||◌, Option, none, some, List, [], ◌∷◌, length, ltb, leb,
  ◌==◌, if◌then◌else◌, add64, sub64, Result, ok, err, invalid_argument,
}

pub record PoolLimits : Type 0 where
  pub max_connections : ℕ
  pub max_idle_connections : ℕ
  pub max_reuses : ℕ
  pub max_waiters : ℕ
  pub acquire_timeout : ℕ
  pub idle_timeout : ℕ
  pub max_lifetime : ℕ

-- `has_transport`: the pointer to the socket is set.
pub record UpstreamConnectionRecord : Type 0 where
  pub id : ℕ
  pub reuse_count : ℕ
  pub created_at : ℕ
  pub last_used_at : ℕ
  pub is_open : Bool
  pub has_transport : Bool

-- The front of `idle` is the back of the source's vector.
pub record UpstreamPoolPolicy : Type 0 where
  pub limits : PoolLimits
  pub idle : List UpstreamConnectionRecord
  pub busy : ℕ
  pub next_id : ℕ

unfoldable pub init : PoolLimits → Result UpstreamPoolPolicy
init l =
    if (l.max_connections == 0 || l.max_idle_connections == 0)
      || ((ltb l.max_connections l.max_idle_connections || l.max_reuses == 0)
          || (l.idle_timeout == 0 || l.max_lifetime == 0))
    then err invalid_argument
    else ok (record { limits = l; idle = []; busy = 0; next_id = 1 })

-- `now - t < d` of the source is `now < t + d`.
unfoldable pub is_reusable : PoolLimits → ℕ → UpstreamConnectionRecord → Bool
is_reusable l now c =
    c.is_open
    && (ltb c.reuse_count l.max_reuses
        && (ltb now (c.created_at + l.max_lifetime) && ltb now (c.last_used_at + l.idle_timeout)))

-- The loop of `acquire`: the connections that cannot be used again are dropped on the way.
unfoldable pub take_idle :
    PoolLimits
    → ℕ
    → List UpstreamConnectionRecord
    → Option UpstreamConnectionRecord × List UpstreamConnectionRecord
unfolding is_reusable
take_idle l now [] = (none, [])
take_idle l now (c ∷ cs) =
    let rest = take_idle l now cs in if is_reusable l now c then (some c, cs) else rest

abbrev pub new_connection : ℕ → ℕ → UpstreamConnectionRecord
new_connection id now = record {
  id = id;
  reuse_count = 0;
  created_at = now;
  last_used_at = now;
  is_open = true;
  has_transport = false;
}

-- What `acquire` does after its loop.
unfoldable pub acquire_from :
    ℕ
    → UpstreamPoolPolicy
    → Option UpstreamConnectionRecord × List UpstreamConnectionRecord
    → Option UpstreamConnectionRecord × UpstreamPoolPolicy
acquire_from now p (some c, left) =
    (some (record c { last_used_at = now }), record p { idle = left; busy = add64 p.busy 1 })
acquire_from now p (none, left) =
    if leb p.limits.max_connections (add64 p.busy (length left))
    then (none, record p { idle = left })
    else (
      some (new_connection p.next_id now),
      record p { idle = left; next_id = add64 p.next_id 1; busy = add64 p.busy 1 },
    )

-- The lease is the connection that it holds; a lease that is not valid is `none`.
unfoldable pub acquire :
    ℕ → UpstreamPoolPolicy → Option UpstreamConnectionRecord × UpstreamPoolPolicy
unfolding acquire_from take_idle
acquire now p = acquire_from now p (take_idle p.limits now p.idle)

unfoldable pub release_reusable :
    ℕ → Option UpstreamConnectionRecord → UpstreamPoolPolicy → UpstreamPoolPolicy
unfolding is_reusable
release_reusable now none p = p
release_reusable now (some c) p =
    let used = record c { reuse_count = add64 c.reuse_count 1; last_used_at = now } in
    if is_reusable p.limits now used && ltb (length p.idle) p.limits.max_idle_connections
    then record p { busy = sub64 p.busy 1; idle = used ∷ p.idle }
    else record p { busy = sub64 p.busy 1 }

-- The record that is marked closed goes with the lease.
unfoldable pub discard : Option UpstreamConnectionRecord → UpstreamPoolPolicy → UpstreamPoolPolicy
discard none p = p
discard (some c) p = record p { busy = sub64 p.busy 1 }

-- `std::erase_if`
unfoldable pub keep_reusable :
    PoolLimits → ℕ → List UpstreamConnectionRecord → List UpstreamConnectionRecord
unfolding is_reusable
keep_reusable l now [] = []
keep_reusable l now (c ∷ cs) =
    let rest = keep_reusable l now cs in if is_reusable l now c then c ∷ rest else rest

unfoldable pub prune_idle : ℕ → UpstreamPoolPolicy → UpstreamPoolPolicy
unfolding keep_reusable
prune_idle now p = record p { idle = keep_reusable p.limits now p.idle }

unfoldable pub idle_count : UpstreamPoolPolicy → ℕ
idle_count p = length p.idle

unfoldable pub busy_count : UpstreamPoolPolicy → ℕ
busy_count p = p.busy

unfoldable pub created_count : UpstreamPoolPolicy → ℕ
created_count p = sub64 p.next_id 1
