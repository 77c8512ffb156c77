-- ===== src/Pool/Lease.antt =====
-- `UpstreamLease` of src/http/upstream_pool.cpp. The owner is a weak pointer: whether its pool is alive is an
-- argument. What a lease hands to `discardAbandoned` is a result.
use pulsegate.Base.{ℕ, Bool, true, false, not, ◌&&◌, ◌||◌, Option, none, some, if◌then◌else◌}
use pulsegate.Pool.{UpstreamConnectionRecord}

pub record UpstreamLease : Type 0 where
  pub connection : Option UpstreamConnectionRecord
  pub has_owner : Bool
  pub explicitly_returned : Bool

-- A lease of a connection, and the one of none.
unfoldable pub lease_of : Option UpstreamConnectionRecord → UpstreamLease
lease_of connection = record {
  connection = connection;
  has_owner = false;
  explicitly_returned = false;
}

abbrev pub is_some : Option UpstreamConnectionRecord → Bool
is_some none = false
is_some (some c) = true

unfoldable pub valid : UpstreamLease → Bool
valid lease = is_some lease.connection

unfoldable pub connection_id : Option UpstreamConnectionRecord → ℕ
connection_id none = 0
connection_id (some c) = c.id

unfoldable pub attach_owner : UpstreamLease → UpstreamLease
attach_owner lease = record lease { has_owner = true }

unfoldable pub mark_returned : UpstreamLease → UpstreamLease
mark_returned lease = record lease { explicitly_returned = true; has_owner = false }

-- `abandon`, with the connection that the pool is told to discard.
unfoldable pub abandon : Bool → UpstreamLease → Option UpstreamConnectionRecord × UpstreamLease
abandon alive lease =
    if not (is_some lease.connection) || lease.explicitly_returned then (none, lease) else (
      if lease.has_owner && alive then lease.connection else none,
      record { connection = none; has_owner = false; explicitly_returned = true },
    )

-- What a move leaves of the other lease.
unfoldable pub moved_from : UpstreamLease → UpstreamLease
moved_from other = record { connection = none; has_owner = false; explicitly_returned = true }

-- The move constructor: the new lease and the other one.
unfoldable pub move_lease : UpstreamLease → UpstreamLease × UpstreamLease
unfolding moved_from
move_lease other = (other, moved_from other)

-- The assignment of another lease: the connection that the pool is told to discard, and both leases.
unfoldable pub assign_lease :
    Bool
    → UpstreamLease
    → UpstreamLease
    → Option UpstreamConnectionRecord × UpstreamLease × UpstreamLease
unfolding abandon move_lease
assign_lease alive lease other =
    let (dropped, _) = abandon alive lease in
    let (taken, left) = move_lease other in (dropped, taken, left)
