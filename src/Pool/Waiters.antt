-- ===== src/Pool/Waiters.antt =====
-- The requests to the pool of src/http/upstream_pool.cpp: each one waits or has been answered, and is
-- answered once.
use pulsegate.Base.{
  ℕ, zero, suc, ◌+◌, ◌≤◌, ◌<◌, ◌≡◌, refl, ap, Bool, true, false, not, ◌||◌, Option, none, some,
  List, [], ◌∷◌, ◌++◌, length, ◌==◌, if◌then◌else◌, arith, subst, if_keeps,
}
use pulsegate.Pool.{
  UpstreamConnectionRecord, UpstreamPoolPolicy, acquire, prune_idle, release_reusable,
}
use pulsegate.Pool.Strand.{
  Reply, granted, operation_aborted, no_buffer_space, timed_out, UpstreamPool, count, erase,
  attach_transport, reply, complete_waiter, satisfy_with, satisfy_front, satisfy_one_waiter,
  schedule_cleanup, acquired, run_acquire, run_release, run_discard, run_timeout, abort_front,
  abort_waiters, run_stop, run_cleanup, new_pool, Step, asks, releases, releases_none, discards,
  expires, stops, cleans, Reach, here, next,
}

-- How often the handler of a request has been called.
unfoldable pub answers : ℕ → List (ℕ × Reply) → ℕ
answers r [] = 0
answers r ((x, a) ∷ xs) = (if x == r then 1 else 0) + answers r xs

-- The bookkeeping of one request.
pub record IsTracked (r : ℕ) (s : UpstreamPool) : Type 0 where
  pub once : count r s.asked ≤ 1
  pub accounted : count r s.waiters + answers r s.replies ≡ count r s.asked
  pub settled : count r s.done ≤ answers r s.replies
  pub waiting : 0 < count r s.waiters → count r s.done ≡ 0
  pub timed : count r s.timers ≤ count r s.done + count r s.waiters

pub count-erase :
    (r j : ℕ) (xs : List ℕ) → count r (erase j xs) ≡ (if j == r then 0 else count r xs)
unfolding count erase
count-erase r j [] = ground arith
count-erase r j (x ∷ xs) = ground (arith, count-erase r j xs)

pub count-snoc :
    (r j : ℕ) (xs : List ℕ) → count r (xs ++ j ∷ []) ≡ (if j == r then 1 else 0) + count r xs
unfolding count
count-snoc r j [] = ground arith
count-snoc r j (x ∷ xs) = ground (arith, count-snoc r j xs)

module _ (r : ℕ) where
  complete_waiter-IsTracked :
      (j : ℕ) (a : Reply) (s : UpstreamPool)
      → IsTracked r s
      → (j ≡ r → count r s.done ≡ 0 → count r s.waiters ≡ 1)
      → IsTracked r (complete_waiter j a s)
  unfolding complete_waiter reply answers count
  complete_waiter-IsTracked j (granted c) s t w = ground (arith, t, w, count-erase r j s.waiters)
  complete_waiter-IsTracked j operation_aborted s t w =
      ground (arith, t, w, count-erase r j s.waiters)
  complete_waiter-IsTracked j no_buffer_space s t w =
      ground (arith, t, w, count-erase r j s.waiters)
  complete_waiter-IsTracked j timed_out s t w = ground (arith, t, w, count-erase r j s.waiters)

  -- The first waiter, which stands in the list.
  pub first-IsTracked :
      (j : ℕ) (more : List ℕ) (a : Reply) (s : UpstreamPool)
      → s.waiters ≡ j ∷ more
      → IsTracked r s
      → IsTracked r (complete_waiter j a s)
  first-IsTracked j more a s e t = complete_waiter-IsTracked j a s t (λ same none. there same)
    where
      there : j ≡ r → count r s.waiters ≡ 1
      there same =
          let shown : count r s.waiters ≡ count r (j ∷ more) = ap (count r) e in
          unfold count in ground (arith, shown, same, t)

  satisfy_with-IsTracked :
      (j : ℕ) (more : List ℕ) (s : UpstreamPool)
      (found : Option UpstreamConnectionRecord × UpstreamPoolPolicy)
      → s.waiters ≡ j ∷ more
      → IsTracked r s
      → IsTracked r (satisfy_with j s found)
  unfolding satisfy_with
  satisfy_with-IsTracked j more s (none, policy) e t = record {
    once = t.once;
    accounted = t.accounted;
    settled = t.settled;
    waiting = t.waiting;
    timed = t.timed;
  }
  satisfy_with-IsTracked j more s (some c, policy) e t =
      first-IsTracked j more (granted (attach_transport s.has_endpoint c))
        (record s { policy = policy }) e
        (record {
          once = t.once;
          accounted = t.accounted;
          settled = t.settled;
          waiting = t.waiting;
          timed = t.timed;
        })

  satisfy_front-IsTracked :
      (now : ℕ) (s : UpstreamPool) (ws : List ℕ)
      → s.waiters ≡ ws
      → IsTracked r s
      → IsTracked r (satisfy_front now s ws)
  unfolding satisfy_front
  satisfy_front-IsTracked now s [] e t = t
  satisfy_front-IsTracked now s (j ∷ more) e t =
      satisfy_with-IsTracked j more s (acquire now s.policy) e t

  acquired-IsTracked :
      (j : ℕ) (s : UpstreamPool) (found : Option UpstreamConnectionRecord × UpstreamPoolPolicy)
      → (count j s.asked ≡ 0)
      → IsTracked r s
      → IsTracked r (acquired j (record s { asked = j ∷ s.asked }) found)
  unfolding acquired reply answers count
  acquired-IsTracked j s (some c, policy) new t = ground (arith, t, new)
  acquired-IsTracked j s (none, policy) new t = ground (arith, t, new, count-snoc r j s.waiters)

  abort_front-IsTracked :
      (rest : UpstreamPool → UpstreamPool) (s : UpstreamPool) (ws : List ℕ)
      → s.waiters ≡ ws
      → IsTracked r s
      → ((u : UpstreamPool) → IsTracked r u → IsTracked r (rest u))
      → IsTracked r (abort_front rest s ws)
  unfolding abort_front
  abort_front-IsTracked rest s [] e t ih = t
  abort_front-IsTracked rest s (j ∷ more) e t ih =
      ih (complete_waiter j operation_aborted s) (first-IsTracked j more operation_aborted s e t)

  abort_waiters-IsTracked :
      (fuel : ℕ) (s : UpstreamPool) → IsTracked r s → IsTracked r (abort_waiters fuel s)
  unfolding abort_waiters
  abort_waiters-IsTracked zero s t = t
  abort_waiters-IsTracked (suc fuel) s t =
      abort_front-IsTracked (abort_waiters fuel) s s.waiters refl t (abort_waiters-IsTracked fuel)

  -- The lists of the requests decide: the policy, the flags and the leases do not matter.
  same-IsTracked :
      (s u : UpstreamPool)
      → IsTracked r s
      → u.asked ≡ s.asked
      → u.waiters ≡ s.waiters
      → u.done ≡ s.done
      → u.timers ≡ s.timers
      → u.replies ≡ s.replies
      → IsTracked r u
  same-IsTracked s u t a w d m p = record {
    once = rw a t.once;
    accounted = rw (a, w, p) t.accounted;
    settled = rw (d, p) t.settled;
    waiting = rw (d, w) t.waiting;
    timed = rw (d, m, w) t.timed;
  }

pub schedule_cleanup_flag :
    (s : UpstreamPool)
    → schedule_cleanup s ≡ record s { cleanup_scheduled = s.cleanup_scheduled || not s.stopping }
unfolding schedule_cleanup
schedule_cleanup_flag s = ground arith

module _ (r : ℕ) where
  run_acquire-IsTracked :
      (j now : ℕ) (s : UpstreamPool)
      → count j s.asked ≡ 0
      → IsTracked r s
      → IsTracked r (run_acquire j now s)
  unfolding run_acquire
  run_acquire-IsTracked j now s new t =
      rw (schedule_cleanup_flag (record s { asked = j ∷ s.asked })) (
        if_keeps (IsTracked r) s.stopping _ _ refused (
          acquired-IsTracked r j
            (record s { cleanup_scheduled = s.cleanup_scheduled || not s.stopping })
            (acquire now s.policy) new (same-IsTracked r s _ t refl refl refl refl refl)))
    where
      refused : IsTracked r (
          reply j operation_aborted (record s {
            asked = j ∷ s.asked;
            cleanup_scheduled = s.cleanup_scheduled || not s.stopping;
          }))
      refused = unfold reply in unfold answers in unfold count in ground (arith, t, new)

  pub Step-IsTracked : {s u : UpstreamPool} → Step s u → IsTracked r s → IsTracked r u
  unfolding run_release release_reusable run_discard run_timeout run_stop run_cleanup
      satisfy_one_waiter
  Step-IsTracked {s} (asks j now new e) t = rw e (run_acquire-IsTracked j now s new t)
  Step-IsTracked {s} (releases before after c now split e) t = rw e (
      satisfy_front-IsTracked r now
        (record s { held = before ++ after; policy = release_reusable now (some c) s.policy })
        s.waiters refl (same-IsTracked r s _ t refl refl refl refl refl))
  Step-IsTracked {s} (releases_none now e) t =
      rw e (satisfy_front-IsTracked r now s s.waiters refl t)
  Step-IsTracked {s} (discards before after c split e) t =
      rw e (same-IsTracked r s _ t refl refl refl refl refl)
  Step-IsTracked {s} (expires j timer e) t = rw e (
      complete_waiter-IsTracked r j timed_out s t
        (λ same none. omega (arith, t, none, subst (λ x. count x s.timers ≡ 1) same timer)))
  Step-IsTracked {s} (stops e) t = rw e (
      if_keeps (IsTracked r) s.stopping _ _ t (
        abort_waiters-IsTracked r (length s.waiters) (record s { stopping = true })
          (same-IsTracked r s _ t refl refl refl refl refl)))
  Step-IsTracked {s} (cleans now scheduled e) t =
      rw
        (
          e,
          schedule_cleanup_flag
              (record s { cleanup_scheduled = false; policy = prune_idle now s.policy }),
        )
        (same-IsTracked r s _ t refl refl refl refl refl)

pub Reach-IsTracked_last :
    {policy : UpstreamPoolPolicy} {has_endpoint : Bool} (r : ℕ) {s : UpstreamPool}
    → Reach (new_pool policy has_endpoint) s
    → IsTracked r s
unfolding answers count
Reach-IsTracked_last r here = omega arith
Reach-IsTracked_last r (next path st) = Step-IsTracked r st (Reach-IsTracked_last r path)

-- In every state that a new pool reaches, each request whose task has run either waits, once, or has been
-- answered, once: its handler has been called exactly when it does not wait, and never twice. A request
-- that has not run has no answer.
pub Reach-IsTracked :
    (policy : UpstreamPoolPolicy) (has_endpoint : Bool) (r : ℕ) (s : UpstreamPool)
    → Reach (new_pool policy has_endpoint) s
    → (count r s.asked ≤ 1) × (count r s.waiters + answers r s.replies ≡ count r s.asked)
Reach-IsTracked policy has_endpoint r s reached =
    ((Reach-IsTracked_last r reached).once, (Reach-IsTracked_last r reached).accounted)
