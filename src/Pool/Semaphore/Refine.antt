-- ===== src/Pool/Semaphore/Refine.antt =====
-- The pool of src/http/upstream_pool.cpp refines the semaphore.
use pulsegate.Base.{
  ℕ, ◌+◌, ◌-◌, ◌<◌, ◌≡◌, refl, ap, ◌∙◌, Bool, true, false, not, ◌||◌, Option, some, List, [], ◌∷◌,
  ◌++◌, length, arith, if_cases, subst, size_mod, length-append, ok,
}
use pulsegate.Pool.{
  PoolLimits, UpstreamConnectionRecord, UpstreamPoolPolicy, init, acquire, release_reusable,
  prune_idle,
}
use pulsegate.Pool.Owners.{Fits, release-Fits}
use pulsegate.Pool.Waiters.{IsTracked, Reach-IsTracked_last, schedule_cleanup_flag}
use pulsegate.Pool.Strand.{
  granted, UpstreamPool, count, reply, attach_transport, complete_waiter, satisfy_with,
  satisfy_front, satisfy_one_waiter, acquired, run_acquire, run_release, run_discard, run_timeout,
  run_stop, run_cleanup, new_pool, Step, asks, releases, releases_none, discards, expires, stops,
  cleans, Reach, here, next,
}
use pulsegate.Pool.History.{
  IsSound, Reach-IsSound, init-Fits, limits-Reach, Step-Keeps, limits-release_reusable,
}
use pulsegate.Pool.Semaphore.{
  ask, serve_next, lapse, close, happen, after_events, event, events, outcome, outcomes, view,
}
use pulsegate.Pool.Semaphore.Answers.{
  Decides, grants, denies, acquire-Decides, answer_front, same-IsTracked, abort_waiters-refines,
}

module _ (l : PoolLimits) where
  acquired-refines :
      (j : ℕ) (s : UpstreamPool) (found : Option UpstreamConnectionRecord × UpstreamPoolPolicy)
      → s.stopping ≡ false
      → Decides l (length s.held) found
      → view (acquired j s found) ≡ ask l j (view s)
  unfolding ask view outcomes outcome
  acquired-refines j s found off (grants c q e room) =
      rw (e, off) (unfold acquired reply in ground (arith, room))
  acquired-refines j s found off (denies q e full m) =
      rw (e, off) (unfold acquired reply in rw m (ground (arith, full)))

  ask-refines :
      (j now : ℕ) (s : UpstreamPool)
      → s.policy.limits ≡ l
      → IsSound 0 s
      → view (run_acquire j now s) ≡ ask l j (view s)
  unfolding run_acquire ask view
  ask-refines j now s m f = rw (schedule_cleanup_flag (record s { asked = j ∷ s.asked })) (
      if_cases (λ u. view u ≡ ask l j (view s)) s.stopping _ _
        (λ on. unfold reply in unfold outcomes in unfold outcome in rw on refl)
        (λ off.
          acquired-refines j
            (record s {
              cleanup_scheduled = s.cleanup_scheduled || not s.stopping;
              asked = j ∷ s.asked;
            })
            (acquire now s.policy) off
            (subst (λ k. Decides k (length s.held) (acquire now s.policy)) m
              (acquire-Decides now s.policy s.held (length s.replies) f))))

  satisfy-refines :
      (now : ℕ) (s : UpstreamPool) (ws : List ℕ)
      → s.waiters ≡ ws
      → ((r : ℕ) → IsTracked r s)
      → Decides l (length s.held) (acquire now s.policy)
      → view (satisfy_front now s ws) ≡ serve_next l ws (view s)
  unfolding satisfy_front serve_next view outcomes outcome
  satisfy-refines now s [] e t d = refl
  satisfy-refines now s (j ∷ more) e t (denies q found full m) =
      rw (found, satisfy_with) (ground (arith, full))
  satisfy-refines now s (j ∷ more) e t (grants c q found room) =
      rw
        (
          found,
          satisfy_with,
          answer_front j more (granted (attach_transport s.has_endpoint c))
              (record s { policy = q }) e (λ r. same-IsTracked s s.held q s.stopping r (t r)),
        )
        (unfold reply in ground (arith, room))

  lapse-refines :
      (j : ℕ) (s : UpstreamPool)
      → IsTracked j s
      → count j s.timers ≡ 1
      → view (run_timeout j s) ≡ lapse j (view s)
  unfolding run_timeout complete_waiter reply lapse view outcomes outcome
  lapse-refines j s t timer = ground (arith, t, timer)

  close-refines :
      (s : UpstreamPool) → ((r : ℕ) → IsTracked r s) → view (run_stop s) ≡ close (view s)
  unfolding run_stop close view
  close-refines s t =
      if_cases (λ u. view u ≡ close (view s)) s.stopping _ _ (λ on. rw on refl)
        (λ off.
          abort_waiters-refines (length s.waiters) (record s { stopping = true })
            (λ r. same-IsTracked s s.held s.policy true r (t r)) (omega arith)
          ∙ (rw off refl))

  nudge-refines :
      (now : ℕ) (s : UpstreamPool)
      → ((r : ℕ) → IsTracked r s)
      → s.policy.limits ≡ l
      → Fits 0 s.policy s.held (length s.replies)
      → view (satisfy_one_waiter now s) ≡ serve_next l s.waiters (view s)
  unfolding satisfy_one_waiter
  nudge-refines now s t m f = satisfy-refines now s s.waiters refl t (
      subst (λ k. Decides k (length s.held) (acquire now s.policy)) m
        (acquire-Decides now s.policy s.held (length s.replies) f))

  return-refines :
      (before after : List UpstreamConnectionRecord) (c : UpstreamConnectionRecord) (now : ℕ)
      (s : UpstreamPool)
      → s.held ≡ before ++ c ∷ after
      → ((r : ℕ) → IsTracked r s)
      → s.policy.limits ≡ l
      → IsSound 0 s
      → view (run_release now (some c) (record s { held = before ++ after }))
        ≡ serve_next l s.waiters (record (view s) { used = length s.held - 1 })
  unfolding run_release view
  return-refines before after c now s split t m f =
      let policy = release_reusable now (some c) s.policy in
      let shorter : length (before ++ after) ≡ length s.held - 1 =
        omega
          (arith, ap length split, length-append before (c ∷ after), length-append before after) in
      nudge-refines now (record s { held = before ++ after; policy = policy })
        (λ r. same-IsTracked s (before ++ after) policy s.stopping r (t r))
        (limits-release_reusable now c s.policy ∙ m)
        (release-Fits 0 s.policy before after c (length s.replies)
          (subst (λ h. Fits 0 s.policy h (length s.replies)) split f) now)
      ∙ ap (λ n. serve_next l s.waiters (record (view s) { used = n })) shorter

  drop-refines :
      (before after : List UpstreamConnectionRecord) (c : UpstreamConnectionRecord)
      (s : UpstreamPool)
      → s.held ≡ before ++ c ∷ after
      → view (run_discard c (record s { held = before ++ after }))
        ≡ record (view s) { used = length s.held - 1 }
  unfolding run_discard view
  drop-refines before after c s split =
      ap (λ n. record (view s) { used = n })
        (omega
          (arith, ap length split, length-append before (c ∷ after), length-append before after))

  Step-refines :
      {s u : UpstreamPool} (st : Step s u)
      → ((r : ℕ) → IsTracked r s)
      → s.policy.limits ≡ l
      → IsSound 0 s
      → view u ≡ happen l (event st) (view s)
  unfolding happen event view run_cleanup
  Step-refines {s} (asks j now new e) t m f = ap view e ∙ ask-refines j now s m f
  Step-refines {s} (releases before after c now split e) t m f =
      ap view e ∙ return-refines before after c now s split t m f
  Step-refines {s} (releases_none now e) t m f =
      ap view e ∙ (unfold run_release release_reusable in nudge-refines now s t m f)
  Step-refines {s} (discards before after c split e) t m f =
      ap view e ∙ drop-refines before after c s split
  Step-refines {s} (expires j timer e) t m f = ap view e ∙ lapse-refines j s (t j) timer
  Step-refines {s} (stops e) t m f = ap view e ∙ close-refines s t
  Step-refines {s} (cleans now scheduled e) t m f =
      ap view e
      ∙ ap view (
          schedule_cleanup_flag
            (record s { cleanup_scheduled = false; policy = prune_idle now s.policy }))

-- The pool implements the semaphore, of `max_connections` permits and with a queue of `max_waiters` places.
-- After any tasks of the strand that give at most 2 ^ 64 - 3 answers, the number of leases that are out, the
-- waiting requests in their order, whether the pool is stopped, and the answers in their order, each
-- with its kind, are those of the semaphore after the same events: a request has a connection at once
-- where one is left, else it waits, and is turned away where the queue is full or the pool is stopped; a
-- lease that is released goes to the waiter that came first; one that is discarded only frees its
-- permit; a waiter whose time is up leaves the queue; `stop` aborts all waiters, the first one first.
pub Reach-refines :
    (l : PoolLimits) (policy : UpstreamPoolPolicy) (b : Bool) (s : UpstreamPool)
    → l.max_connections < size_mod
    → init l ≡ ok policy
    → (path : Reach (new_pool policy b) s) → length s.replies + 2 < size_mod
    → view s ≡ after_events l (events path)
Reach-refines l policy b s big made path small =
    let (start, given) = init-Fits 0 l policy big made in go start given path small
  where
    go :
        Fits 0 policy [] 0
        → policy.limits ≡ l
        → {u : UpstreamPool} (path : Reach (new_pool policy b) u) → length u.replies + 2 < size_mod
        → view u ≡ after_events l (events path)
    go start given here small = unfold view events after_events outcomes in refl
    go start given (next before st) small =
        let enough : _ = omega (arith, small, (Step-Keeps st).0) in
        Step-refines l st (λ r. Reach-IsTracked_last r before) (limits-Reach before ∙ given)
          (Reach-IsSound 0 start before enough)
        ∙ ap (happen l (event st)) (go start given before enough)
        ∙ (unfold events after_events in refl)
