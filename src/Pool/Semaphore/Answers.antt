-- ===== src/Pool/Semaphore/Answers.antt =====
-- What the pool of src/http/upstream_pool.cpp decides on a request, and the answers that its waiters have in
-- turn.
use pulsegate.Base.{
  ℕ, zero, suc, ◌+◌, ◌≤◌, ◌<◌, ◌≡◌, refl, ap, ◌∙◌, Bool, Option, none, some, List, [], ◌∷◌, length,
  arith, subst, eq-nil_of_length,
}
use pulsegate.Pool.{PoolLimits, UpstreamConnectionRecord, UpstreamPoolPolicy, acquire}
use pulsegate.Pool.Limits.{refuses, reuses, opens, acquire-Acquires}
use pulsegate.Pool.Owners.{Fits}
use pulsegate.Pool.Waiters.{IsTracked, first-IsTracked}
use pulsegate.Pool.Stop.{front_not_done}
use pulsegate.Pool.Strand.{
  Reply, operation_aborted, UpstreamPool, count, erase, reply, complete_waiter, abort_front,
  abort_waiters,
}
use pulsegate.Pool.Semaphore.{refuse_all, outcome, outcomes, view}

-- What the policy decides, where `n` leases are out.
pub data Decides (l : PoolLimits) (n : ℕ)
    (found : Option UpstreamConnectionRecord × UpstreamPoolPolicy) : Type 0 where
  grants :
      (c : UpstreamConnectionRecord) (q : UpstreamPoolPolicy)
      → found ≡ (some c, q)
      → n < l.max_connections
      → Decides l n found
  denies :
      (q : UpstreamPoolPolicy)
      → found ≡ (none, q)
      → l.max_connections ≤ n
      → q.limits ≡ l
      → Decides l n found

pub acquire-Decides :
    (now : ℕ) (p : UpstreamPoolPolicy) (held : List UpstreamConnectionRecord) (n : ℕ)
    → Fits 0 p held n
    → Decides p.limits (length held) (acquire now p)
acquire-Decides now p held n f = elim (acquire-Acquires now p f.within) [
  | refuses idle e shorter owned full ↦
      denies (record p { idle = idle }) e (omega (arith, full, f.counted)) refl
  | reuses c idle e shorter owned ↦ grants c _ e (omega (arith, shorter, f.within.total, f.counted))
  | opens c e named room ↦ grants c _ e (omega (arith, room, f.counted))
]

erase_missing : (j : ℕ) (xs : List ℕ) → count j xs ≡ 0 → erase j xs ≡ xs
unfolding count erase
erase_missing j [] h = refl
erase_missing j (x ∷ xs) h = ground (arith, h, erase_missing j xs)

-- An answer to the first waiter takes it off the queue, and no other.
pub answer_front :
    (j : ℕ) (more : List ℕ) (a : Reply) (s : UpstreamPool)
    → s.waiters ≡ j ∷ more
    → ((r : ℕ) → IsTracked r s)
    → complete_waiter j a s ≡ reply j a (record s { done = j ∷ s.done; waiters = more })
unfolding complete_waiter
answer_front j more a s e t = rw (front_not_done s t j more e, rest) refl
  where
    shown : count j s.waiters ≡ count j (j ∷ more)
    shown = ap (count j) e

    rest : erase j s.waiters ≡ more
    rest =
        ap (erase j) e
        ∙ (unfold erase in ground arith)
        ∙ erase_missing j more (unfold count in ground (arith, shown, t j))

-- The number of leases with one more.
one_more : {A : Type 0} (xs : List A) → length xs + 1 ≡ suc (length xs)
one_more xs = omega arith

pub same-IsTracked :
    (s : UpstreamPool) (held : List UpstreamConnectionRecord) (policy : UpstreamPoolPolicy)
    (stopping : Bool) (r : ℕ)
    → IsTracked r s
    → IsTracked r (record s { held = held; policy = policy; stopping = stopping })
same-IsTracked s held policy stopping r t = record {
  once = t.once;
  accounted = t.accounted;
  settled = t.settled;
  waiting = t.waiting;
  timed = t.timed;
}

pub abort_waiters-refines :
    (fuel : ℕ) (s : UpstreamPool)
    → ((r : ℕ) → IsTracked r s)
    → length s.waiters ≤ fuel
    → view (abort_waiters fuel s)
      ≡ record (view s) { queue = []; answered = refuse_all s.waiters (outcomes s.replies) }
unfolding abort_waiters refuse_all view
abort_waiters-refines zero s t h =
    let empty : s.waiters ≡ [] = eq-nil_of_length s.waiters (omega (arith, h)) in rw empty refl
abort_waiters-refines (suc fuel) s t h = go s.waiters refl (abort_waiters-refines fuel)
  where
    go :
        (ws : List ℕ)
        → s.waiters ≡ ws
        → ((u : UpstreamPool)
            → ((r : ℕ) → IsTracked r u)
            → length u.waiters ≤ fuel
            → view (abort_waiters fuel u) ≡ record (view u) {
              queue = [];
              answered = refuse_all u.waiters (outcomes u.replies);
            })
        → view (abort_front (abort_waiters fuel) s ws)
          ≡ record (view s) { queue = []; answered = refuse_all ws (outcomes s.replies) }
    go [] e ih = unfold abort_front in rw e refl
    go (j ∷ more) e ih =
        let first = answer_front j more operation_aborted s e t in
        let u : UpstreamPool =
          reply j operation_aborted (record s { done = j ∷ s.done; waiters = more }) in
        unfold abort_front in
        rw first (
          unfold reply outcomes outcome in
          ih u
            (λ r. subst (IsTracked r) first (first-IsTracked r j more operation_aborted s e (t r)))
            (omega (arith, h, ap length e)))
