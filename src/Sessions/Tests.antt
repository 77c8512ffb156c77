-- ===== src/Sessions/Tests.antt =====
-- The theorems on the session registry at concrete inputs.
use pulsegate.Base.{◌≡◌, ◌≤◌, ◌++◌, length, refl, true, false, List, [], ◌∷◌, ok}
use pulsegate.Sessions.{StopReason, SessionRegistry, init, try_add, prune}
use pulsegate.Sessions.Registry.{
  Distinct, Call, adds, drains, removes, run, run-init-Bounds, run-refused,
}

abbrev new_registry : SessionRegistry
new_registry = record {
  maximum_sessions = 1;
  sessions = [];
  closed_counts = λ _. 0;
  draining = false;
}

abbrev calls : List Call
calls = adds (λ _. true) 7 1 ∷ adds (λ _. true) 8 2 ∷ removes 7 StopReason.peer_closed ∷ []

new_registry-init : init 1 ≡ ok new_registry
unfolding init
new_registry-init = refl

run-init-Bounds_example :
    (length (run calls new_registry).sessions ≤ 1) × Distinct (run calls new_registry).sessions
run-init-Bounds_example = run-init-Bounds 1 new_registry calls new_registry-init

run-refused_example :
    try_add (λ _. true) 9 3 (run (calls ++ drains (λ _. true) ∷ calls) new_registry) ≡ (
      false,
      record (run (calls ++ drains (λ _. true) ∷ calls) new_registry) {
        sessions =
            prune (λ _. true) (run (calls ++ drains (λ _. true) ∷ calls) new_registry).sessions;
      },
    )
run-refused_example = run-refused calls calls (λ _. true) (λ _. true) 9 3 new_registry
