-- ===== src/Pool/Semaphore.antt =====
-- What the pool of src/http/upstream_pool.cpp promises to those who ask it for a connection: a semaphore
-- with a bounded queue. Which connections there are and how they are used again does not show.
pub mod Answers
pub mod Refine
use pulsegate.Base.{
  ℕ, zero, suc, ◌+◌, ◌-◌, Bool, true, false, List, [], ◌∷◌, ◌++◌, length, ltb, leb, ◌==◌,
  if◌then◌else◌,
}
use pulsegate.Pool.{PoolLimits, UpstreamConnectionRecord}
use pulsegate.Pool.Strand.{
  Reply, granted, operation_aborted, no_buffer_space, timed_out, UpstreamPool, count, erase, Step,
  asks, releases, releases_none, discards, expires, stops, cleans, Reach, here, next,
}

-- What a request is told: it has a permit, the semaphore is closed, the queue is full, or its time is up.
pub data Answer : Type 0 where
  permit closed_down queue_full too_late : Answer

-- The permits that are out, the requests that wait, the first one in front, and the answers, the last one
-- in front.
pub record Semaphore : Type 0 where
  pub used : ℕ
  pub queue : List ℕ
  pub closed : Bool
  pub answered : List (ℕ × Answer)

pub data Signal : Type 0 where
  asked : ℕ → Signal
  returned nudged dropped : Signal
  lapsed : ℕ → Signal
  closing silent : Signal

abbrev pub tell : ℕ → Answer → Semaphore → Semaphore
tell r o a = record a { answered = (r, o) ∷ a.answered }

-- A request has a permit at once where one is left. Else it joins the queue at its end, where the queue has
-- room.
unfoldable pub ask : PoolLimits → ℕ → Semaphore → Semaphore
ask l r a =
    if a.closed
    then tell r closed_down a
    else if ltb a.used l.max_connections
    then tell r permit (record a { used = a.used + 1 })
    else if leb l.max_waiters (length a.queue)
    then tell r queue_full a
    else record a { queue = a.queue ++ r ∷ [] }

-- The first request in the queue has a permit, where one is left.
unfoldable pub serve_next : PoolLimits → List ℕ → Semaphore → Semaphore
serve_next l [] a = a
serve_next l (r ∷ more) a =
    if ltb a.used l.max_connections
    then tell r permit (record a { used = a.used + 1; queue = more })
    else a

-- A request whose time is up leaves the queue, where it still waits.
unfoldable pub lapse : ℕ → Semaphore → Semaphore
lapse r a =
    if count r a.queue == 0 then a else tell r too_late (record a { queue = erase r a.queue })

-- All requests of the queue, the first one first.
unfoldable pub refuse_all : List ℕ → List (ℕ × Answer) → List (ℕ × Answer)
refuse_all [] answered = answered
refuse_all (r ∷ more) answered = refuse_all more ((r, closed_down) ∷ answered)

unfoldable pub close : Semaphore → Semaphore
close a =
    if a.closed
    then a
    else record a { queue = []; closed = true; answered = refuse_all a.queue a.answered }

unfoldable pub happen : PoolLimits → Signal → Semaphore → Semaphore
happen l (asked r) a = ask l r a
happen l returned a = serve_next l a.queue (record a { used = a.used - 1 })
happen l nudged a = serve_next l a.queue a
happen l dropped a = record a { used = a.used - 1 }
happen l (lapsed r) a = lapse r a
happen l closing a = close a
happen l silent a = a

-- The state after events, of which the last one stands in front.
unfoldable pub after_events : PoolLimits → List Signal → Semaphore
after_events l [] = record { used = 0; queue = []; closed = false; answered = [] }
after_events l (e ∷ es) = happen l e (after_events l es)

-- The event that a task of the strand is.
unfoldable pub event : {s u : UpstreamPool} → Step s u → Signal
event (asks r now new e) = asked r
event (releases before after c now split e) = returned
event (releases_none now e) = nudged
event (discards before after c split e) = dropped
event (expires r timer e) = lapsed r
event (stops e) = closing
event (cleans now scheduled e) = silent

unfoldable pub events : {s u : UpstreamPool} → Reach s u → List Signal
events here = []
events (next path st) = event st ∷ events path

unfoldable pub outcome : Reply → Answer
outcome (granted c) = permit
outcome operation_aborted = closed_down
outcome no_buffer_space = queue_full
outcome timed_out = too_late

unfoldable pub outcomes : List (ℕ × Reply) → List (ℕ × Answer)
outcomes [] = []
outcomes ((r, a) ∷ replies) = (r, outcome a) ∷ outcomes replies

-- What a state of the pool shows of the semaphore.
unfoldable pub view : UpstreamPool → Semaphore
view s = record {
  used = length s.held;
  queue = s.waiters;
  closed = s.stopping;
  answered = outcomes s.replies;
}
