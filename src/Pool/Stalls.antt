-- ===== src/Pool/Stalls.antt =====
-- What `discard` of src/http/upstream_pool.cpp does not do: it serves no waiter.
use pulsegate.Base.{
  ℕ, ◌+◌, ◌<◌, ◌≡◌, refl, Bool, some, List, ◌∷◌, ◌++◌, length, arith, subst, size_mod, sub64, ok,
}
use pulsegate.Pool.{
  PoolLimits, UpstreamConnectionRecord, UpstreamPoolPolicy, init, acquire, discard,
}
use pulsegate.Pool.Limits.{IsWithin, refuses, reuses, opens, acquire-Acquires}
use pulsegate.Pool.Owners.{Fits, discard-Fits, one_back}
use pulsegate.Pool.History.{Reach-IsSound, init-Fits}
use pulsegate.Pool.Strand.{UpstreamPool, run_discard, new_pool, Reach}

room-acquire :
    (now : ℕ) (p : UpstreamPoolPolicy)
    → IsWithin p
    → p.busy < p.limits.max_connections
    → (c : UpstreamConnectionRecord) × ((acquire now p).0 ≡ some c)
room-acquire now p w room = elim (acquire-Acquires now p w) [
  | refuses idle e shorter owned full ↦ absurd (omega (arith, full, room))
  | reuses c idle e shorter owned ↦ (c, rw e refl)
  | opens c e named below ↦ (c, rw e refl)
]

-- In a state that a new pool reaches, a lease that is discarded frees a connection, so that an `acquire`
-- would succeed at once; but the waiters stay in the queue, and none of them is answered.
pub run_discard-acquire :
    (l : PoolLimits) (p : UpstreamPoolPolicy) (b : Bool) (s : UpstreamPool) (now : ℕ)
    (before after : List UpstreamConnectionRecord) (c : UpstreamConnectionRecord)
    → l.max_connections < size_mod
    → init l ≡ ok p
    → Reach (new_pool p b) s
    → length s.replies + 2 < size_mod
    → s.held ≡ before ++ c ∷ after
    → ((run_discard c (record s { held = before ++ after })).waiters ≡ s.waiters)
      × ((run_discard c (record s { held = before ++ after })).replies ≡ s.replies)
      × ((d : UpstreamConnectionRecord) × ((acquire now
              (run_discard c (record s { held = before ++ after })).policy).0
            ≡ some d))
unfolding run_discard discard
run_discard-acquire l p b s now before after c big made path small split =
    let (start, given) = init-Fits 0 l p big made in
    let f : Fits 0 s.policy (before ++ c ∷ after) (length s.replies) =
      subst (λ h. Fits 0 s.policy h (length s.replies)) split (Reach-IsSound 0 start path small) in
    let (exact, one, owned) = one_back 0 s.policy before after c (length s.replies) f in
    let left : Fits 0 (record (s.policy) { busy = sub64 s.policy.busy 1 }) (before ++ after)
        (length s.replies) =
      unfold discard in discard-Fits 0 s.policy before after c (length s.replies) f in
    (
      refl,
      refl,
      room-acquire now (record (s.policy) { busy = sub64 s.policy.busy 1 }) left.within
          (omega (arith, exact, one, f.within.total)),
    )
