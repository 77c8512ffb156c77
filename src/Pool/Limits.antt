-- ===== src/Pool/Limits.antt =====
-- The connections of the pool of src/http/upstream_pool.cpp: how many there are, and who owns them.
use pulsegate.Base.{
  ℕ, ◌+◌, ◌≤◌, ◌<◌, ◌≡◌, refl, ◌⊎◌, inl, inr, Option, none, some, List, [], ◌∷◌, ◌++◌, length, leb,
  ◌==◌, if◌then◌else◌, arith, Bool-cases, size_mod, add64, add64_exact,
}
use pulsegate.Pool.{
  PoolLimits, UpstreamConnectionRecord, UpstreamPoolPolicy, is_reusable, take_idle, new_connection,
  acquire_from, acquire,
}

-- How many connections of the list have this id.
unfoldable pub owners : ℕ → List UpstreamConnectionRecord → ℕ
owners i [] = 0
owners i (c ∷ cs) = (if c.id == i then 1 else 0) + owners i cs

pub owners-append :
    (i : ℕ) (xs ys : List UpstreamConnectionRecord)
    → owners i (xs ++ ys) ≡ owners i xs + owners i ys
unfolding owners
owners-append i [] ys = omega arith
owners-append i (x ∷ xs) ys = omega (arith, owners-append i xs ys)

-- The limits are those of the constructor, and `max_connections` is a `std::size_t`.
pub record IsWithin (p : UpstreamPoolPolicy) : Type 0 where
  pub is_size : p.limits.max_connections < size_mod
  pub total : length p.idle + p.busy ≤ p.limits.max_connections
  pub idle_room : length p.idle ≤ p.limits.max_idle_connections

-- What `acquire` gives: an idle connection, or a new one while there is room.
pub data Acquires (p : UpstreamPoolPolicy)
    (r : Option UpstreamConnectionRecord × UpstreamPoolPolicy) : Type 0 where
  refuses :
      (idle : List UpstreamConnectionRecord)
      → r ≡ (none, record p { idle = idle })
      → length idle ≤ length p.idle
      → ((i : ℕ) → owners i idle ≤ owners i p.idle)
      → p.limits.max_connections ≤ p.busy
      → Acquires p r
  reuses :
      (c : UpstreamConnectionRecord) (idle : List UpstreamConnectionRecord)
      → r ≡ (some c, record p { idle = idle; busy = p.busy + 1 })
      → length idle + 1 ≤ length p.idle
      → ((i : ℕ) → owners i (c ∷ idle) ≤ owners i p.idle)
      → Acquires p r
  opens :
      (c : UpstreamConnectionRecord)
      → r ≡ (some c, record p { idle = []; busy = p.busy + 1; next_id = add64 p.next_id 1 })
      → c.id ≡ p.next_id
      → p.busy + 1 ≤ p.limits.max_connections
      → Acquires p r

-- The loop either comes to the end, or finds a connection with those behind it.
take_idle_lem :
    (l : PoolLimits) (now : ℕ) (cs : List UpstreamConnectionRecord)
    → (take_idle l now cs ≡ (none, []))
      ⊎ ((c : UpstreamConnectionRecord) × (left : List UpstreamConnectionRecord) × (take_idle l now
              cs
            ≡ (some c, left))
          × (length left + 1 ≤ length cs)
          × ((i : ℕ) → owners i (c ∷ left) ≤ owners i cs))
unfolding take_idle owners
take_idle_lem l now [] = inl refl
take_idle_lem l now (c ∷ cs) = elim (Bool-cases (is_reusable l now c)) [
  | inl good ↦ inr (c, cs, rw good refl, omega arith, λ i. omega arith)
  | inr stale ↦ elim (take_idle_lem l now cs) [
    | inl nothing ↦ inl (rw stale nothing)
    | inr (d, left, found, shorter, owned) ↦
        inr (d, left, rw stale found, omega (arith, shorter), λ i. omega (arith, owned i))
  ]
]

pub acquire-Acquires : (now : ℕ) (p : UpstreamPoolPolicy) → IsWithin p → Acquires p (acquire now p)
unfolding acquire acquire_from owners
acquire-Acquires now p w = elim (take_idle_lem p.limits now p.idle) [
  | inl nothing ↦ rw nothing (elim (Bool-cases (leb p.limits.max_connections (add64 p.busy 0))) [
    | inl full ↦
        refuses [] (rw (acquire_from, full) refl) (omega arith) (λ i. omega arith)
          (ground (arith, full, exact 0 (omega arith)))
    | inr room ↦
        let below : p.busy + 1 ≤ p.limits.max_connections =
          ground (arith, room, exact 0 (omega arith)) in
        opens (new_connection p.next_id now)
          (rw (acquire_from, room, exact 1 (omega (arith, below, w.is_size))) refl) refl below
  ])
  | inr (c, left, found, shorter, owned) ↦ rw found (
      reuses (record c { last_used_at = now }) left
        (rw (exact 1 (omega (arith, shorter, w.total, w.is_size))) refl) shorter owned)
]
  where
    exact : (k : ℕ) → p.busy + k < size_mod → add64 p.busy k ≡ p.busy + k
    exact k h = add64_exact p.busy k h
