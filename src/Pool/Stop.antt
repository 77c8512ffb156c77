-- ===== src/Pool/Stop.antt =====
-- What `stop` of src/http/upstream_pool.cpp leaves: no waiter, then and later.
use pulsegate.Base.{
  ℕ, zero, suc, ◌≤◌, ◌≡◌, refl, ap, sym, ◌∙◌, Bool, true, false, ◌||◌, Option, none, some, List, [],
  ◌∷◌, ◌++◌, length, arith, Bool-cases, inl, inr, if_keeps, eq-nil_of_length,
}
use pulsegate.Pool.{
  UpstreamConnectionRecord, UpstreamPoolPolicy, acquire, prune_idle, release_reusable,
}
use pulsegate.Pool.Strand.{
  Reply, granted, operation_aborted, no_buffer_space, timed_out, UpstreamPool, count, erase,
  attach_transport, reply, complete_waiter, satisfy_with, satisfy_front, satisfy_one_waiter,
  acquired, run_acquire, run_release, run_discard, run_timeout, abort_front, abort_waiters,
  run_stop, run_cleanup, new_pool, Step, asks, releases, releases_none, discards, expires, stops,
  cleans, Reach, here, next,
}
use pulsegate.Pool.Waiters.{
  answers, IsTracked, first-IsTracked, Reach-IsTracked_last, schedule_cleanup_flag,
}

-- The first waiter of a tracked pool has not been answered.
module _ (s : UpstreamPool) (tracked : (r : ℕ) → IsTracked r s) where
  pub front_not_done : (j : ℕ) (more : List ℕ) → s.waiters ≡ j ∷ more → count j s.done ≡ 0
  front_not_done j more e =
      let shown : count j s.waiters ≡ count j (j ∷ more) = ap (count j) e in
      (tracked j).waiting (unfold count in ground (arith, shown))

  complete_front :
      (j : ℕ) (more : List ℕ)
      → s.waiters ≡ j ∷ more
      → (complete_waiter j operation_aborted s).waiters ≡ erase j more
  unfolding complete_waiter reply erase
  complete_front j more e = ground (arith, front_not_done j more e, ap (erase j) e)

length-erase : (j : ℕ) (xs : List ℕ) → length (erase j xs) ≤ length xs
unfolding erase
length-erase j [] = omega arith
length-erase j (x ∷ xs) = ground (arith, length-erase j xs)

abort_waiters-empty :
    (fuel : ℕ) (s : UpstreamPool)
    → ((r : ℕ) → IsTracked r s)
    → length s.waiters ≤ fuel
    → (abort_waiters fuel s).waiters ≡ []
unfolding abort_waiters
abort_waiters-empty zero s t h = eq-nil_of_length s.waiters (omega (arith, h))
abort_waiters-empty (suc fuel) s t h = go s.waiters refl (abort_waiters-empty fuel)
  where
    go :
        (ws : List ℕ)
        → s.waiters ≡ ws
        → ((u : UpstreamPool)
            → ((r : ℕ) → IsTracked r u)
            → length u.waiters ≤ fuel
            → (abort_waiters fuel u).waiters ≡ [])
        → (abort_front (abort_waiters fuel) s ws).waiters ≡ []
    go [] e ih = unfold abort_front in e
    go (j ∷ more) e ih =
        unfold abort_front in
        ih (complete_waiter j operation_aborted s)
          (λ r. first-IsTracked r j more operation_aborted s e (t r))
          (omega
            (arith, h, ap length e, ap length (complete_front s t j more e), length-erase j more))

abbrev IsQuiet : UpstreamPool → Type 0
IsQuiet s = s.stopping ≡ true → s.waiters ≡ []

-- An operation that leaves the flag alone, and a queue that is empty.
abbrev Leaves : UpstreamPool → UpstreamPool → Type 0
Leaves s u = (u.stopping ≡ s.stopping) × (s.waiters ≡ [] → u.waiters ≡ [])

Leaves-IsQuiet : (s u : UpstreamPool) → Leaves s u → IsQuiet s → IsQuiet u
Leaves-IsQuiet s u (flag, queue) q h = queue (q (sym flag ∙ h))

complete_waiter-Leaves : (j : ℕ) (a : Reply) (s : UpstreamPool) → Leaves s (complete_waiter j a s)
unfolding complete_waiter reply erase
complete_waiter-Leaves j (granted c) s = (ground arith, λ h. ground (arith, ap (erase j) h))
complete_waiter-Leaves j operation_aborted s = (ground arith, λ h. ground (arith, ap (erase j) h))
complete_waiter-Leaves j no_buffer_space s = (ground arith, λ h. ground (arith, ap (erase j) h))
complete_waiter-Leaves j timed_out s = (ground arith, λ h. ground (arith, ap (erase j) h))

satisfy_front-Leaves :
    (now : ℕ) (s : UpstreamPool) (ws : List ℕ) → Leaves s (satisfy_front now s ws)
unfolding satisfy_front
satisfy_front-Leaves now s [] = (refl, λ h. h)
satisfy_front-Leaves now s (j ∷ more) = go (acquire now s.policy)
  where
    go :
        (found : Option UpstreamConnectionRecord × UpstreamPoolPolicy)
        → Leaves s (satisfy_with j s found)
    go (none, policy) = unfold satisfy_with in (refl, λ h. h)
    go (some c, policy) =
        unfold satisfy_with in
        complete_waiter-Leaves j (granted (attach_transport s.has_endpoint c))
          (record s { policy = policy })

acquired_flag :
    (j : ℕ) (s : UpstreamPool) (found : Option UpstreamConnectionRecord × UpstreamPoolPolicy)
    → (acquired j s found).stopping ≡ s.stopping
unfolding acquired reply
acquired_flag j s (some c, policy) = refl
acquired_flag j s (none, policy) = ground arith

run_acquire-IsQuiet : (j now : ℕ) (s : UpstreamPool) → IsQuiet s → IsQuiet (run_acquire j now s)
unfolding run_acquire
run_acquire-IsQuiet j now s q =
    rw (schedule_cleanup_flag (record s { asked = j ∷ s.asked })) (elim (Bool-cases s.stopping) [
      | inl on ↦ rw on (λ h. unfold reply in q on)
      | inr off ↦ rw off (λ h. cc (
        h,
        acquired_flag j
            (record s {
              asked = j ∷ s.asked;
              stopping = false;
              cleanup_scheduled = s.cleanup_scheduled || true;
            })
            (acquire now s.policy),
      ))
    ])

Step-IsQuiet : {s u : UpstreamPool} → Step s u → ((r : ℕ) → IsTracked r s) → IsQuiet s → IsQuiet u
unfolding run_release release_reusable run_discard run_timeout run_stop run_cleanup
    satisfy_one_waiter
Step-IsQuiet {s} (asks j now new e) t q = rw e (run_acquire-IsQuiet j now s q)
Step-IsQuiet {s} (releases before after c now split e) t q =
    let released : UpstreamPool = record s {
      held = before ++ after;
      policy = release_reusable now (some c) s.policy;
    } in
    rw e (
      Leaves-IsQuiet released (satisfy_front now released s.waiters)
        (satisfy_front-Leaves now released s.waiters) q)
Step-IsQuiet {s} (releases_none now e) t q =
    rw e (Leaves-IsQuiet s (satisfy_front now s s.waiters) (satisfy_front-Leaves now s s.waiters) q)
Step-IsQuiet {s} (discards before after c split e) t q = rw e q
Step-IsQuiet {s} (expires j timer e) t q =
    rw e (Leaves-IsQuiet s (complete_waiter j timed_out s) (complete_waiter-Leaves j timed_out s) q)
Step-IsQuiet {s} (stops e) t q = rw e (
    if_keeps IsQuiet s.stopping _ _ q (λ h.
      abort_waiters-empty (length s.waiters) (record s { stopping = true })
        (λ r. record {
          once = (t r).once;
          accounted = (t r).accounted;
          settled = (t r).settled;
          waiting = (t r).waiting;
          timed = (t r).timed;
        })
        (omega arith)))
Step-IsQuiet {s} (cleans now scheduled e) t q =
    rw
      (
        e,
        schedule_cleanup_flag
            (record s { cleanup_scheduled = false; policy = prune_idle now s.policy }),
      )
      q

-- In every state that a new pool reaches, a pool that has been stopped has no waiter, and the handler of
-- each request whose task has run has been called, as often as its task has run: `stop` answers all
-- waiters, in a loop that ends, and a later request is answered at once.
pub Reach-IsQuiet :
    (policy : UpstreamPoolPolicy) (has_endpoint : Bool) (r : ℕ) (s : UpstreamPool)
    → Reach (new_pool policy has_endpoint) s
    → s.stopping ≡ true
    → (s.waiters ≡ []) × (answers r s.replies ≡ count r s.asked)
Reach-IsQuiet policy has_endpoint r s reached h =
    let empty : s.waiters ≡ [] = go reached h in
    let none_waits : count r s.waiters ≡ 0 = ap (count r) empty ∙ (unfold count in refl) in
    (empty, omega (arith, none_waits, (Reach-IsTracked_last r reached).accounted))
  where
    go : {u : UpstreamPool} → Reach (new_pool policy has_endpoint) u → IsQuiet u
    go here h = refl
    go (next path st) h = Step-IsQuiet st (λ r. Reach-IsTracked_last r path) (go path) h
