-- ===== src/Pool/History.antt =====
-- What holds of the connections in every state that the pool of src/http/upstream_pool.cpp reaches.
use pulsegate.Base.{
  ℕ, zero, suc, ◌+◌, ◌≤◌, ◌<◌, ◌≡◌, ◌≢◌, refl, ◌∙◌, Bool, true, false, not, ◌||◌, Option, none,
  some, List, [], ◌∷◌, ◌++◌, length, leb, ◌==◌, arith, if_keeps, subst, size_mod, ok,
}
use pulsegate.Pool.{
  PoolLimits, UpstreamConnectionRecord, UpstreamPoolPolicy, init, take_idle, acquire_from, acquire,
  release_reusable, discard, prune_idle,
}
use pulsegate.Pool.Owners.{
  Fits, FitsAfter, acquire-Fits, discard-Fits, release-Fits, prune-Fits, more-Fits,
}
use pulsegate.Pool.Limits.{owners}
use pulsegate.Pool.Waiters.{IsTracked, Reach-IsTracked_last, schedule_cleanup_flag}
use pulsegate.Pool.Stop.{front_not_done}
use pulsegate.Pool.Strand.{
  Reply, granted, operation_aborted, no_buffer_space, timed_out, UpstreamPool, count, erase,
  attach_transport, reply, complete_waiter, satisfy_with, satisfy_front, satisfy_one_waiter,
  acquired, run_acquire, run_release, run_discard, run_timeout, abort_front, abort_waiters,
  run_stop, run_cleanup, new_pool, Step, asks, releases, releases_none, discards, expires, stops,
  cleans, Reach, here, next,
}

-- The answers only grow in number, and the limits stay.
abbrev pub Keeps : UpstreamPool → UpstreamPool → Type 0
Keeps s u = (length s.replies ≤ length u.replies) × (u.policy.limits ≡ s.policy.limits)

pub limits-acquire : (now : ℕ) (p : UpstreamPoolPolicy) → (acquire now p).1.limits ≡ p.limits
unfolding acquire
limits-acquire now p = go (take_idle p.limits now p.idle)
  where
    go :
        (found : Option UpstreamConnectionRecord × List UpstreamConnectionRecord)
        → (acquire_from now p found).1.limits ≡ p.limits
    go (some c, left) = unfold acquire_from in refl
    go (none, left) = unfold acquire_from in ground arith

pub limits-release_reusable :
    (now : ℕ) (c : UpstreamConnectionRecord) (p : UpstreamPoolPolicy)
    → (release_reusable now (some c) p).limits ≡ p.limits
unfolding release_reusable
limits-release_reusable now c p = ground arith

complete_waiter-Keeps : (j : ℕ) (a : Reply) (s : UpstreamPool) → Keeps s (complete_waiter j a s)
unfolding complete_waiter reply
complete_waiter-Keeps j (granted c) s = ground arith
complete_waiter-Keeps j operation_aborted s = ground arith
complete_waiter-Keeps j no_buffer_space s = ground arith
complete_waiter-Keeps j timed_out s = ground arith

satisfy_with-Keeps :
    (j : ℕ) (s : UpstreamPool) (found : Option UpstreamConnectionRecord × UpstreamPoolPolicy)
    → found.1.limits ≡ s.policy.limits
    → Keeps s (satisfy_with j s found)
unfolding satisfy_with
satisfy_with-Keeps j s (none, policy) e = (omega arith, e)
satisfy_with-Keeps j s (some c, policy) e =
    let (grown, same) =
      complete_waiter-Keeps j (granted (attach_transport s.has_endpoint c))
        (record s { policy = policy }) in
    (grown, same ∙ e)

satisfy_front-Keeps : (now : ℕ) (s : UpstreamPool) (ws : List ℕ) → Keeps s (satisfy_front now s ws)
unfolding satisfy_front
satisfy_front-Keeps now s [] = (omega arith, refl)
satisfy_front-Keeps now s (j ∷ more) =
    satisfy_with-Keeps j s (acquire now s.policy) (limits-acquire now s.policy)

abort_waiters-Keeps : (fuel : ℕ) (s : UpstreamPool) → Keeps s (abort_waiters fuel s)
unfolding abort_waiters
abort_waiters-Keeps zero s = (omega arith, refl)
abort_waiters-Keeps (suc fuel) s = go s.waiters (abort_waiters-Keeps fuel)
  where
    go :
        (ws : List ℕ)
        → ((u : UpstreamPool) → Keeps u (abort_waiters fuel u))
        → Keeps s (abort_front (abort_waiters fuel) s ws)
    go [] ih = unfold abort_front in (omega arith, refl)
    go (j ∷ more) ih =
        unfold abort_front in
        let u = complete_waiter j operation_aborted s in
        let (first, same) = complete_waiter-Keeps j operation_aborted s in
        let (later, still) = ih u in (omega (arith, first, later), still ∙ same)

acquired-Keeps :
    (j : ℕ) (s : UpstreamPool) (found : Option UpstreamConnectionRecord × UpstreamPoolPolicy)
    → found.1.limits ≡ s.policy.limits
    → Keeps s (acquired j s found)
unfolding acquired reply
acquired-Keeps j s (some c, policy) e = ground (arith, e)
acquired-Keeps j s (none, policy) e = ground (arith, e)

pub Step-Keeps : {s u : UpstreamPool} → Step s u → Keeps s u
unfolding run_acquire run_release release_reusable run_discard run_timeout run_stop run_cleanup
    satisfy_one_waiter prune_idle discard
Step-Keeps {s} (asks j now new e) =
    rw (e, schedule_cleanup_flag (record s { asked = j ∷ s.asked }))
      (if_keeps (Keeps s) s.stopping _ _ (unfold reply in (omega arith, refl)) (
        acquired-Keeps j
          (record s {
            asked = j ∷ s.asked;
            cleanup_scheduled = s.cleanup_scheduled || not s.stopping;
          })
          (acquire now s.policy) (limits-acquire now s.policy)))
Step-Keeps {s} (releases before after c now split e) =
    let (grown, same) =
      satisfy_front-Keeps now
        (record s { held = before ++ after; policy = release_reusable now (some c) s.policy })
        s.waiters in
    rw e (grown, same ∙ limits-release_reusable now c s.policy)
Step-Keeps {s} (releases_none now e) = rw e (satisfy_front-Keeps now s s.waiters)
Step-Keeps {s} (discards before after c split e) = rw e (omega arith, refl)
Step-Keeps {s} (expires j timer e) = rw e (complete_waiter-Keeps j timed_out s)
Step-Keeps {s} (stops e) = rw e (
    if_keeps (Keeps s) s.stopping _ _ (omega arith, refl)
      (abort_waiters-Keeps (length s.waiters) (record s { stopping = true })))
Step-Keeps {s} (cleans now scheduled e) =
    rw
      (
        e,
        schedule_cleanup_flag
            (record s { cleanup_scheduled = false; policy = prune_idle now s.policy }),
      )
      (omega arith, refl)

pub limits-Reach :
    {p : UpstreamPoolPolicy} {b : Bool} {s : UpstreamPool}
    → Reach (new_pool p b) s
    → s.policy.limits ≡ p.limits
limits-Reach here = refl
limits-Reach (next path st) = (Step-Keeps st).1 ∙ limits-Reach path

module _ (i : ℕ) where
  abbrev pub IsSound : UpstreamPool → Type 0
  IsSound s = Fits i s.policy s.held (length s.replies)

  -- The transport does not change the id.
  attach-Fits :
      (b : Bool) (c : UpstreamConnectionRecord) (p : UpstreamPoolPolicy)
      (held : List UpstreamConnectionRecord) (n : ℕ)
      → Fits i p (c ∷ held) n
      → Fits i p (attach_transport b c ∷ held) n
  unfolding attach_transport
  attach-Fits b c p held n f =
      if_keeps (λ (d : UpstreamConnectionRecord). Fits i p (d ∷ held) n) (not b || c.has_transport)
        _ _ f
        (record {
          within = f.within;
          counted = f.counted;
          few = f.few;
          once = unfold owners in f.once;
          fresh = λ h. unfold owners in f.fresh h;
        })

  -- An answer without a lease.
  refused-IsSound :
      (j : ℕ) (a : Reply) (s : UpstreamPool)
      → ((c : UpstreamConnectionRecord) → a ≢ granted c)
      → IsSound s
      → IsSound (reply j a s)
  unfolding reply
  refused-IsSound j (granted c) s n f = absurd (n c refl)
  refused-IsSound j operation_aborted s n f =
      more-Fits i s.policy s.held (length s.replies) _ (omega arith) f
  refused-IsSound j no_buffer_space s n f =
      more-Fits i s.policy s.held (length s.replies) _ (omega arith) f
  refused-IsSound j timed_out s n f =
      more-Fits i s.policy s.held (length s.replies) _ (omega arith) f

  granted-IsSound :
      (j : ℕ) (c : UpstreamConnectionRecord) (s : UpstreamPool)
      → Fits i s.policy (c ∷ s.held) (length s.replies + 1)
      → IsSound (reply j (granted (attach_transport s.has_endpoint c)) s)
  unfolding reply
  granted-IsSound j c s f =
      attach-Fits s.has_endpoint c s.policy s.held _
        (more-Fits i s.policy (c ∷ s.held) (length s.replies + 1) _ (omega arith) f)

  complete_waiter-IsSound :
      (j : ℕ) (a : Reply) (s : UpstreamPool)
      → ((c : UpstreamConnectionRecord) → a ≢ granted c)
      → IsSound s
      → IsSound (complete_waiter j a s)
  unfolding complete_waiter
  complete_waiter-IsSound j a s n f =
      if_keeps IsSound (not (count j s.done == 0)) _ _ f
        (refused-IsSound j a (record s { done = j ∷ s.done; waiters = erase j s.waiters }) n f)

  satisfy_with-IsSound :
      (j : ℕ) (s : UpstreamPool) (found : Option UpstreamConnectionRecord × UpstreamPoolPolicy)
      → count j s.done ≡ 0
      → FitsAfter i s.held (length s.replies) found
      → IsSound (satisfy_with j s found)
  unfolding satisfy_with complete_waiter
  satisfy_with-IsSound j s (none, policy) open_ f = f
  satisfy_with-IsSound j s (some c, policy) open_ f = rw open_ (
      granted-IsSound j c
        (record s { policy = policy; done = j ∷ s.done; waiters = erase j s.waiters }) f)

  satisfy_front-IsSound :
      (now : ℕ) (s : UpstreamPool) (ws : List ℕ)
      → s.waiters ≡ ws
      → ((r : ℕ) → IsTracked r s)
      → length s.replies + 2 < size_mod
      → IsSound s
      → IsSound (satisfy_front now s ws)
  unfolding satisfy_front
  satisfy_front-IsSound now s [] e t small f = f
  satisfy_front-IsSound now s (j ∷ more) e t small f =
      satisfy_with-IsSound j s (acquire now s.policy) (front_not_done s t j more e)
        (acquire-Fits i now s.policy s.held (length s.replies) small f)

  acquired-IsSound :
      (j : ℕ) (s : UpstreamPool) (found : Option UpstreamConnectionRecord × UpstreamPoolPolicy)
      → FitsAfter i s.held (length s.replies) found
      → IsSound (acquired j s found)
  unfolding acquired
  acquired-IsSound j s (some c, policy) f = granted-IsSound j c (record s { policy = policy }) f
  acquired-IsSound j s (none, policy) f =
      if_keeps IsSound (leb policy.limits.max_waiters (length s.waiters)) _ _
        (refused-IsSound j no_buffer_space (record s { policy = policy }) (λ c. cc) f) f

  abort_waiters-IsSound : (fuel : ℕ) (s : UpstreamPool) → IsSound s → IsSound (abort_waiters fuel s)
  unfolding abort_waiters
  abort_waiters-IsSound zero s f = f
  abort_waiters-IsSound (suc fuel) s f = go s.waiters (abort_waiters-IsSound fuel)
    where
      go :
          (ws : List ℕ)
          → ((u : UpstreamPool) → IsSound u → IsSound (abort_waiters fuel u))
          → IsSound (abort_front (abort_waiters fuel) s ws)
      go [] ih = unfold abort_front in f
      go (j ∷ more) ih =
          unfold abort_front in
          ih (complete_waiter j operation_aborted s)
            (complete_waiter-IsSound j operation_aborted s (λ c. cc) f)

  Step-IsSound :
      {s u : UpstreamPool}
      → Step s u
      → ((r : ℕ) → IsTracked r s)
      → length s.replies + 2 < size_mod
      → IsSound s
      → IsSound u
  unfolding run_acquire run_release release_reusable run_discard run_timeout run_stop run_cleanup
      satisfy_one_waiter
  Step-IsSound {s} (asks j now new e) t small f =
      let scheduled : UpstreamPool = record s {
        asked = j ∷ s.asked;
        cleanup_scheduled = s.cleanup_scheduled || not s.stopping;
      } in
      rw (e, schedule_cleanup_flag (record s { asked = j ∷ s.asked }))
        (if_keeps IsSound s.stopping _ _ (refused-IsSound j operation_aborted scheduled (λ c. cc) f)
          (acquired-IsSound j scheduled (acquire now s.policy)
            (acquire-Fits i now s.policy s.held (length s.replies) small f)))
  Step-IsSound {s} (releases before after c now split e) t small f =
      let released : UpstreamPool = record s {
        held = before ++ after;
        policy = release_reusable now (some c) s.policy;
      } in
      let back : IsSound released =
        release-Fits i s.policy before after c (length s.replies)
          (subst (λ h. Fits i s.policy h (length s.replies)) split f) now in
      rw e (
        satisfy_front-IsSound now released s.waiters refl
          (λ r. record {
            once = (t r).once;
            accounted = (t r).accounted;
            settled = (t r).settled;
            waiting = (t r).waiting;
            timed = (t r).timed;
          })
          small back)
  Step-IsSound {s} (releases_none now e) t small f =
      rw e (satisfy_front-IsSound now s s.waiters refl t small f)
  Step-IsSound {s} (discards before after c split e) t small f = rw e (
      discard-Fits i s.policy before after c (length s.replies)
        (subst (λ h. Fits i s.policy h (length s.replies)) split f))
  Step-IsSound {s} (expires j timer e) t small f =
      rw e (complete_waiter-IsSound j timed_out s (λ c. cc) f)
  Step-IsSound {s} (stops e) t small f = rw e (
      if_keeps IsSound s.stopping _ _ f
        (abort_waiters-IsSound (length s.waiters) (record s { stopping = true }) f))
  Step-IsSound {s} (cleans now scheduled e) t small f =
      rw
        (
          e,
          schedule_cleanup_flag
              (record s { cleanup_scheduled = false; policy = prune_idle now s.policy }),
        )
        (prune-Fits i now s.policy s.held (length s.replies) f)

  pub Reach-IsSound :
      {policy : UpstreamPoolPolicy} {b : Bool} {s : UpstreamPool}
      → IsSound (new_pool policy b)
      → Reach (new_pool policy b) s
      → length s.replies + 2 < size_mod
      → IsSound s
  Reach-IsSound start here small = start
  Reach-IsSound start (next path st) small =
      Step-IsSound st (λ r. Reach-IsTracked_last r path) (omega (arith, small, (Step-Keeps st).0))
        (Reach-IsSound start path (omega (arith, small, (Step-Keeps st).0)))

pub init-Fits :
    (i : ℕ) (l : PoolLimits) (p : UpstreamPoolPolicy)
    → l.max_connections < size_mod
    → init l ≡ ok p
    → Fits i p [] 0 × (p.limits ≡ l)
unfolding init owners
init-Fits i l p big e = (ground (arith, e, big), ground (arith, e))

-- In every state that a new pool reaches within 2 ^ 64 - 3 answers, the connections that are idle and
-- those that are leased are together at most `max_connections`, the policy counts exactly the leases that
-- have not come back, the idle ones keep to their limit, and no connection has two owners: its id stands
-- once at most among the idle connections and the leases.
pub Reach-Limits :
    (l : PoolLimits) (p : UpstreamPoolPolicy) (b : Bool) (s : UpstreamPool) (i : ℕ)
    → l.max_connections < size_mod
    → init l ≡ ok p
    → Reach (new_pool p b) s
    → length s.replies + 2 < size_mod
    → (length s.policy.idle + length s.held ≤ l.max_connections)
      × (s.policy.busy ≡ length s.held)
      × (length s.policy.idle ≤ l.max_idle_connections)
      × (owners i s.policy.idle + owners i s.held ≤ 1)
Reach-Limits l p b s i big made path small =
    let (start, given) = init-Fits i l p big made in
    let f = Reach-IsSound i start path small in
    let same : s.policy.limits ≡ l = limits-Reach path ∙ given in
    (
      subst (λ (m : PoolLimits). length s.policy.idle + length s.held ≤ m.max_connections) same
          (omega (arith, f.within.total, f.counted)),
      f.counted,
      subst (λ (m : PoolLimits). length s.policy.idle ≤ m.max_idle_connections) same
          f.within.idle_room,
      f.once,
    )
