-- ===== src/Pool/Tests.antt =====
-- The theorems on the pool at a concrete history: a pool of one connection, with one request that has the
-- connection and one that waits.
use pulsegate.Base.{◌+◌, ◌≤◌, ◌≡◌, refl, true, false, some, [], ◌∷◌, length, add64, arith, ok}
use pulsegate.Pool.{
  PoolLimits, UpstreamConnectionRecord, UpstreamPoolPolicy, init, acquire, acquire_from, take_idle,
  new_connection,
}
use pulsegate.Pool.Strand.{
  UpstreamPool, Reach, here, next, asks, stops, new_pool, run_acquire, run_discard, run_stop,
  acquired, attach_transport, reply, schedule_cleanup, count, abort_waiters, abort_front,
  complete_waiter,
}
use pulsegate.Pool.Waiters.{Reach-IsTracked, answers}
use pulsegate.Pool.Stop.{Reach-IsQuiet}
use pulsegate.Pool.Limits.{owners}
use pulsegate.Pool.History.{Reach-Limits}
use pulsegate.Pool.Semaphore.{view, after_events, events}
use pulsegate.Pool.Semaphore.Refine.{Reach-refines}
use pulsegate.Pool.Stalls.{run_discard-acquire}

abbrev one_connection : PoolLimits
one_connection = record {
  max_connections = 1;
  max_idle_connections = 1;
  max_reuses = 10;
  max_waiters = 4;
  acquire_timeout = 100;
  idle_timeout = 100;
  max_lifetime = 1000;
}

abbrev empty_policy : UpstreamPoolPolicy
empty_policy = record { limits = one_connection; idle = []; busy = 0; next_id = 1 }

empty_policy-init : init one_connection ≡ ok empty_policy
unfolding init
empty_policy-init = refl

abbrev first_asked : UpstreamPool
first_asked = run_acquire 7 5 (new_pool empty_policy false)

abbrev second_asked : UpstreamPool
second_asked = run_acquire 8 6 first_asked

second_fresh : count 8 first_asked.asked ≡ 0
unfolding run_acquire acquired acquire acquire_from take_idle reply schedule_cleanup count add64
    attach_transport
second_fresh = refl

one_answer : length second_asked.replies ≡ 1
unfolding run_acquire acquired acquire acquire_from take_idle reply schedule_cleanup count add64
    attach_transport
one_answer = refl

one_lease : second_asked.held ≡ new_connection 1 5 ∷ []
unfolding run_acquire acquired acquire acquire_from take_idle reply schedule_cleanup count add64
    attach_transport
one_lease = refl

is_stopped : (run_stop second_asked).stopping ≡ true
unfolding run_stop abort_waiters abort_front complete_waiter reply run_acquire acquired acquire
    acquire_from take_idle schedule_cleanup count add64 attach_transport
is_stopped = refl

to_second : Reach (new_pool empty_policy false) second_asked
to_second = next (next here (asks 7 5 (unfold count in refl) refl)) (asks 8 6 second_fresh refl)

Reach-IsTracked_example :
    (count 8 second_asked.asked ≤ 1)
    × (count 8 second_asked.waiters + answers 8 second_asked.replies ≡ count 8 second_asked.asked)
Reach-IsTracked_example = Reach-IsTracked empty_policy false 8 second_asked to_second

Reach-IsQuiet_example :
    ((run_stop second_asked).waiters ≡ [])
    × (answers 8 (run_stop second_asked).replies ≡ count 8 (run_stop second_asked).asked)
Reach-IsQuiet_example =
    Reach-IsQuiet empty_policy false 8 (run_stop second_asked) (next to_second (stops refl))
      is_stopped

Reach-Limits_example :
    (length second_asked.policy.idle + length second_asked.held ≤ 1)
    × (second_asked.policy.busy ≡ length second_asked.held)
    × (length second_asked.policy.idle ≤ 1)
    × (owners 1 second_asked.policy.idle + owners 1 second_asked.held ≤ 1)
Reach-Limits_example =
    Reach-Limits one_connection empty_policy false second_asked 1 (omega arith) empty_policy-init
      to_second (omega (arith, one_answer))

Reach-refines_example : view second_asked ≡ after_events one_connection (events to_second)
Reach-refines_example =
    Reach-refines one_connection empty_policy false second_asked (omega arith) empty_policy-init
      to_second (omega (arith, one_answer))

run_discard-acquire_example :
    ((run_discard (new_connection 1 5) (record second_asked { held = [] })).waiters
      ≡ second_asked.waiters)
    × ((run_discard (new_connection 1 5) (record second_asked { held = [] })).replies
        ≡ second_asked.replies)
    × ((d : UpstreamConnectionRecord) × ((acquire 9
            (run_discard (new_connection 1 5) (record second_asked { held = [] })).policy).0
          ≡ some d))
run_discard-acquire_example =
    run_discard-acquire one_connection empty_policy false second_asked 9 [] [] (new_connection 1 5)
      (omega arith) empty_policy-init to_second (omega (arith, one_answer)) one_lease
