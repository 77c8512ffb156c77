-- ===== src/Pool/Strand.antt =====
-- The pool of src/http/upstream_pool.cpp and `asyncAcquire` of include/pulsegate/http/upstream_pool.h:
-- what runs on the strand, one task after the other. A request is a number, the identity of its handler
-- and, where it has to wait, of its waiter. `held` stands for all leases that have been given out and not
-- come back to the policy: in handlers, with clients, and in tasks that wait for the strand.
use pulsegate.Base.{
  ℕ, zero, suc, ◌+◌, ◌≡◌, Bool, true, false, not, ◌||◌, Option, none, some, List, [], ◌∷◌, ◌++◌,
  length, leb, ◌==◌, if◌then◌else◌,
}
use pulsegate.Pool.{
  UpstreamConnectionRecord, UpstreamPoolPolicy, acquire, release_reusable, discard, prune_idle,
}

-- The arguments of a completion handler: a lease, or the error code beside an empty lease.
pub data Reply : Type 0 where
  granted : UpstreamConnectionRecord → Reply
  operation_aborted no_buffer_space timed_out : Reply

-- `done` holds the waiters whose flag of that name is set, `timers` those that have a timer, `asked` the
-- requests whose task has run, and `replies` the calls of their handlers.
pub record UpstreamPool : Type 0 where
  pub policy : UpstreamPoolPolicy
  pub has_endpoint : Bool
  pub waiters : List ℕ
  pub stopping : Bool
  pub cleanup_scheduled : Bool
  pub done : List ℕ
  pub timers : List ℕ
  pub asked : List ℕ
  pub replies : List (ℕ × Reply)
  pub held : List UpstreamConnectionRecord

-- How often a number stands in a list.
unfoldable pub count : ℕ → List ℕ → ℕ
count r [] = 0
count r (x ∷ xs) = (if x == r then 1 else 0) + count r xs

-- `std::erase`
unfoldable pub erase : ℕ → List ℕ → List ℕ
erase r [] = []
erase r (x ∷ xs) = let rest = erase r xs in if x == r then rest else x ∷ rest

unfoldable pub attach_transport : Bool → UpstreamConnectionRecord → UpstreamConnectionRecord
attach_transport has_endpoint c =
    if not has_endpoint || c.has_transport then c else record c { has_transport = true }

-- The call of a handler; a lease that it is given is held from then on.
unfoldable pub reply : ℕ → Reply → UpstreamPool → UpstreamPool
reply r (granted c) s = record s { replies = (r, granted c) ∷ s.replies; held = c ∷ s.held }
reply r error s = record s { replies = (r, error) ∷ s.replies }

unfoldable pub complete_waiter : ℕ → Reply → UpstreamPool → UpstreamPool
unfolding count erase
complete_waiter r answer s =
    if not (count r s.done == 0)
    then s
    else reply r answer (record s { done = r ∷ s.done; waiters = erase r s.waiters })

-- The first waiter, with what `acquire` returned.
unfoldable pub satisfy_with :
    ℕ → UpstreamPool → Option UpstreamConnectionRecord × UpstreamPoolPolicy → UpstreamPool
unfolding complete_waiter attach_transport
satisfy_with waiter s (none, policy) = record s { policy = policy }
satisfy_with waiter s (some c, policy) =
    complete_waiter waiter (granted (attach_transport s.has_endpoint c))
      (record s { policy = policy })

-- `satisfyOneWaiter`, by the waiters in the queue: its loop returns in the first round.
unfoldable pub satisfy_front : ℕ → UpstreamPool → List ℕ → UpstreamPool
unfolding satisfy_with
satisfy_front now s [] = s
satisfy_front now s (waiter ∷ more) = satisfy_with waiter s (acquire now s.policy)

unfoldable pub satisfy_one_waiter : ℕ → UpstreamPool → UpstreamPool
unfolding satisfy_front
satisfy_one_waiter now s = satisfy_front now s s.waiters

unfoldable pub schedule_cleanup : UpstreamPool → UpstreamPool
schedule_cleanup s =
    if s.stopping || s.cleanup_scheduled then s else record s { cleanup_scheduled = true }

-- What the task of `asyncAcquire` does with what `acquire` returned.
unfoldable pub acquired :
    ℕ → UpstreamPool → Option UpstreamConnectionRecord × UpstreamPoolPolicy → UpstreamPool
unfolding reply attach_transport
acquired r s (some c, policy) =
    reply r (granted (attach_transport s.has_endpoint c)) (record s { policy = policy })
acquired r s (none, policy) =
    if leb policy.limits.max_waiters (length s.waiters)
    then reply r no_buffer_space (record s { policy = policy })
    else record s { policy = policy; waiters = s.waiters ++ r ∷ []; timers = r ∷ s.timers }

-- The task that `asyncAcquire` posts.
unfoldable pub run_acquire : ℕ → ℕ → UpstreamPool → UpstreamPool
unfolding schedule_cleanup acquired reply
run_acquire r now s =
    let t = schedule_cleanup (record s { asked = r ∷ s.asked }) in
    if t.stopping then reply r operation_aborted t else acquired r t (acquire now t.policy)

-- The task of `releaseReusable`, whose lease may be one that is not valid.
unfoldable pub run_release : ℕ → Option UpstreamConnectionRecord → UpstreamPool → UpstreamPool
unfolding satisfy_one_waiter
run_release now lease s =
    satisfy_one_waiter now (record s { policy = release_reusable now lease s.policy })

-- The tasks of `discard` and of `discardAbandoned`, which also close the socket.
unfoldable pub run_discard : UpstreamConnectionRecord → UpstreamPool → UpstreamPool
run_discard c s = record s { policy = discard (some c) s.policy }

-- The timer of a waiter.
unfoldable pub run_timeout : ℕ → UpstreamPool → UpstreamPool
unfolding complete_waiter
run_timeout r s = complete_waiter r timed_out s

-- One round of `while (!waiters_.empty())`, and the rounds after it.
unfoldable pub abort_front : (UpstreamPool → UpstreamPool) → UpstreamPool → List ℕ → UpstreamPool
unfolding complete_waiter
abort_front rest s [] = s
abort_front rest s (waiter ∷ more) = rest (complete_waiter waiter operation_aborted s)

-- The loop, with one unit of fuel for each waiter.
unfoldable pub abort_waiters : ℕ → UpstreamPool → UpstreamPool
unfolding abort_front
abort_waiters zero s = s
abort_waiters (suc fuel) s = abort_front (abort_waiters fuel) s s.waiters

-- The task of `stop`.
unfoldable pub run_stop : UpstreamPool → UpstreamPool
unfolding abort_waiters
run_stop s =
    if s.stopping then s else abort_waiters (length s.waiters) (record s { stopping = true })

-- The cleanup timer, where it was not cancelled.
unfoldable pub run_cleanup : ℕ → UpstreamPool → UpstreamPool
unfolding schedule_cleanup
run_cleanup now s =
    schedule_cleanup (record s { cleanup_scheduled = false; policy = prune_idle now s.policy })

abbrev pub new_pool : UpstreamPoolPolicy → Bool → UpstreamPool
new_pool policy has_endpoint = record {
  policy = policy;
  has_endpoint = has_endpoint;
  waiters = [];
  stopping = false;
  cleanup_scheduled = false;
  done = [];
  timers = [];
  asked = [];
  replies = [];
  held = [];
}

-- A task runs on the strand. A request is asked once; a lease comes back at most once; a timer belongs to
-- a waiter. A lease that is not valid can be released at any time; to discard it changes nothing. The
-- environment chooses which task runs, and what the clock shows.
pub data Step (s u : UpstreamPool) : Type 0 where
  asks : (r now : ℕ) → count r s.asked ≡ 0 → u ≡ run_acquire r now s → Step s u
  releases :
      (before after : List UpstreamConnectionRecord) (c : UpstreamConnectionRecord) (now : ℕ)
      → s.held ≡ before ++ c ∷ after
      → u ≡ run_release now (some c) (record s { held = before ++ after })
      → Step s u
  releases_none : (now : ℕ) → u ≡ run_release now none s → Step s u
  discards :
      (before after : List UpstreamConnectionRecord) (c : UpstreamConnectionRecord)
      → s.held ≡ before ++ c ∷ after
      → u ≡ run_discard c (record s { held = before ++ after })
      → Step s u
  expires : (r : ℕ) → count r s.timers ≡ 1 → u ≡ run_timeout r s → Step s u
  stops : u ≡ run_stop s → Step s u
  cleans : (now : ℕ) → s.cleanup_scheduled ≡ true → u ≡ run_cleanup now s → Step s u

pub data Reach (s : UpstreamPool) : UpstreamPool → Type 0 where
  here : Reach s s
  next : {t u : UpstreamPool} → Reach s t → Step t u → Reach s u
