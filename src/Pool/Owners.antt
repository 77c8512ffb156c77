-- ===== src/Pool/Owners.antt =====
-- The connections of the pool of src/http/upstream_pool.cpp over its history: how many there are, and who
-- owns them.
use pulsegate.Base.{
  ℕ, suc, ◌+◌, ◌-◌, ◌≤◌, ◌<◌, ◌≡◌, ◌∙◌, inl, inr, ◌&&◌, Option, none, some, List, [], ◌∷◌, ◌++◌,
  length, ltb, ◌==◌, if◌then◌else◌, arith, Bool-cases, size_mod, add64, sub64, add64_exact,
  sub64_exact, length-append,
}
use pulsegate.Pool.{
  PoolLimits, UpstreamConnectionRecord, UpstreamPoolPolicy, is_reusable, acquire, release_reusable,
  discard, keep_reusable, prune_idle,
}
use pulsegate.Pool.Limits.{
  owners, owners-append, IsWithin, refuses, reuses, opens, acquire-Acquires,
}

-- The policy and the leases that are out, after `n` answers, for the id `i`.
pub record Fits (i : ℕ) (p : UpstreamPoolPolicy) (held : List UpstreamConnectionRecord) (n : ℕ)
    : Type 0 where
  pub within : IsWithin p
  pub counted : p.busy ≡ length held
  pub few : p.next_id ≤ n + 1
  pub once : owners i p.idle + owners i held ≤ 1
  pub fresh : p.next_id ≤ i → owners i p.idle + owners i held ≡ 0

module _ (i : ℕ) where
  -- What an `acquire` leaves, whoever is given the lease.
  abbrev pub FitsAfter :
      List UpstreamConnectionRecord
      → ℕ
      → Option UpstreamConnectionRecord × UpstreamPoolPolicy
      → Type 0
  FitsAfter held n (none, q) = Fits i q held n
  FitsAfter held n (some c, q) = Fits i q (c ∷ held) (n + 1)

  pub acquire-Fits :
      (now : ℕ) (p : UpstreamPoolPolicy) (held : List UpstreamConnectionRecord) (n : ℕ)
      → n + 2 < size_mod
      → Fits i p held n
      → FitsAfter held n (acquire now p)
  unfolding owners
  acquire-Fits now p held n small f = elim (acquire-Acquires now p f.within) [
    | refuses idle e shorter owned full ↦ rw e (record {
      within = record {
        is_size = f.within.is_size;
        total = omega (arith, f.within.total, shorter);
        idle_room = omega (arith, f.within.idle_room, shorter);
      };
      counted = f.counted;
      few = f.few;
      once = omega (arith, f.once, owned i);
      fresh = λ h. omega (arith, f.fresh h, owned i);
    })
    | reuses c idle e shorter owned ↦ rw e (record {
      within = record {
        is_size = f.within.is_size;
        total = omega (arith, f.within.total, shorter);
        idle_room = omega (arith, f.within.idle_room, shorter);
      };
      counted = omega (arith, f.counted);
      few = omega (arith, f.few);
      once = omega (arith, f.once, owned i);
      fresh = λ h. omega (arith, f.fresh h, owned i);
    })
    | opens c e named room ↦ rw e (record {
      within = record {
        is_size = f.within.is_size;
        total = omega (arith, room);
        idle_room = omega arith;
      };
      counted = omega (arith, f.counted);
      few = omega (arith, f.few, next_exact);
      once = ground (arith, f.once, f.fresh, named);
      fresh = λ h. ground (arith, f.fresh, named, next_exact, h);
    })
  ]
    where
      next_exact : add64 p.next_id 1 ≡ p.next_id + 1
      next_exact = add64_exact p.next_id 1 (omega (arith, f.few, small))

  module _ (p : UpstreamPoolPolicy) (before after : List UpstreamConnectionRecord)
      (c : UpstreamConnectionRecord) (n : ℕ) (f : Fits i p (before ++ c ∷ after) n) where
    -- One lease fewer.
    pub one_back :
        (sub64 p.busy 1 ≡ length (before ++ after))
        × (length (before ++ after) + 1 ≡ p.busy)
        × (owners i (before ++ c ∷ after)
            ≡ (if c.id == i then 1 else 0) + owners i (before ++ after))
    unfolding owners
    one_back =
        let long : p.busy ≡ length before + suc (length after) =
          f.counted ∙ length-append before (c ∷ after) in
        let short : length (before ++ after) ≡ length before + length after =
          length-append before after in
        let exact : sub64 p.busy 1 ≡ p.busy - 1 =
          sub64_exact p.busy 1 (omega (arith, long))
            (omega (arith, f.within.total, f.within.is_size)) in
        (
          omega (arith, exact, long, short),
          omega (arith, long, short),
          omega (arith, owners-append i before (c ∷ after), owners-append i before after),
        )

    pub discard-Fits : Fits i (discard (some c) p) (before ++ after) n
    unfolding discard
    discard-Fits =
        let (exact, one, owned) = one_back in
        record {
          within = record {
            is_size = f.within.is_size;
            total = omega (arith, f.within.total, exact, one);
            idle_room = f.within.idle_room;
          };
          counted = exact;
          few = f.few;
          once = omega (arith, f.once, owned);
          fresh = λ h. omega (arith, f.fresh h, owned);
        }

    -- The connection of the lease goes to the idle list, or is dropped.
    pub release-Fits : (now : ℕ) → Fits i (release_reusable now (some c) p) (before ++ after) n
    unfolding release_reusable
    release-Fits now =
        elim (Bool-cases
          (is_reusable p.limits now used && ltb (length p.idle) p.limits.max_idle_connections)) [
            | inl kept ↦ rw kept (back (ground (arith, kept)))
            | inr dropped ↦ rw dropped (unfold discard in discard-Fits)
          ]
      where
        used : UpstreamConnectionRecord
        used = record c { reuse_count = add64 c.reuse_count 1; last_used_at = now }

        back :
            length p.idle < p.limits.max_idle_connections
            → Fits i (record p { busy = sub64 p.busy 1; idle = used ∷ p.idle }) (before ++ after) n
        back room =
            let (exact, one, owned) = one_back in
            record {
              within = record {
                is_size = f.within.is_size;
                total = omega (arith, f.within.total, exact, one);
                idle_room = omega (arith, room);
              };
              counted = exact;
              few = f.few;
              once = unfold owners in omega (arith, f.once, owned);
              fresh = λ h. unfold owners in omega (arith, f.fresh h, owned);
            }

  keep_reusable_le :
      (l : PoolLimits) (now : ℕ) (cs : List UpstreamConnectionRecord)
      → (length (keep_reusable l now cs) ≤ length cs)
        × (owners i (keep_reusable l now cs) ≤ owners i cs)
  unfolding keep_reusable owners
  keep_reusable_le l now [] = (omega arith, omega arith)
  keep_reusable_le l now (c ∷ cs) = ground (arith, keep_reusable_le l now cs)

  pub prune-Fits :
      (now : ℕ) (p : UpstreamPoolPolicy) (held : List UpstreamConnectionRecord) (n : ℕ)
      → Fits i p held n
      → Fits i (prune_idle now p) held n
  unfolding prune_idle
  prune-Fits now p held n f =
      let (shorter, owned) = keep_reusable_le p.limits now p.idle in
      record {
        within = record {
          is_size = f.within.is_size;
          total = omega (arith, f.within.total, shorter);
          idle_room = omega (arith, f.within.idle_room, shorter);
        };
        counted = f.counted;
        few = f.few;
        once = omega (arith, f.once, owned);
        fresh = λ h. omega (arith, f.fresh h, owned);
      }

  pub more-Fits :
      (p : UpstreamPoolPolicy) (held : List UpstreamConnectionRecord) (n m : ℕ)
      → n ≤ m
      → Fits i p held n
      → Fits i p held m
  more-Fits p held n m le f = record {
    within = f.within;
    counted = f.counted;
    few = omega (arith, f.few, le);
    once = f.once;
    fresh = f.fresh;
  }
