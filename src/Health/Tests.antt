-- ===== src/Health/Tests.antt =====
-- The theorems on the health store at concrete inputs.
use pulsegate.Base.{
  ◌≡◌, refl, true, false, some, [], ◌∷◌, codes, bytes_eq, lookup, arith, if◌then◌else◌,
}
use pulsegate.Health.{EndpointHealth, HealthThresholds, HealthSnapshot, after_outcome, record_loop}
use pulsegate.Health.Hysteresis.{
  ThresholdsOk, IsValid, outcomes, outcomes_keep, outcomes_change, lookup-record_loop,
}
use mathlib.Core.Option

abbrev two_and_three : HealthThresholds
two_and_three = record { healthy_threshold = 2; unhealthy_threshold = 3 }

two_and_three-ThresholdsOk : ThresholdsOk two_and_three
two_and_three-ThresholdsOk = omega arith

abbrev up_once : EndpointHealth
up_once = record {
  healthy = true;
  consecutive_successes = 0;
  consecutive_failures = 1;
  changed_at = 4;
}

up_once-IsValid : IsValid two_and_three up_once
up_once-IsValid = record { stays_up = λ h. omega arith; stays_down = λ h. omega arith }

outcomes_keep_example :
    (outcomes two_and_three ((false, 5) ∷ (true, 6) ∷ (false, 7) ∷ []) up_once).healthy ≡ true
outcomes_keep_example =
    outcomes_keep two_and_three true ((false, 5) ∷ (true, 6) ∷ (false, 7) ∷ []) up_once
      two_and_three-ThresholdsOk refl (omega arith, (omega arith, tt))

outcomes_change_example :
    (outcomes two_and_three ((false, 5) ∷ (false, 6) ∷ (false, 7) ∷ []) up_once).healthy ≡ false
outcomes_change_example =
    outcomes_change two_and_three false ((false, 5) ∷ (false, 6) ∷ (false, 7) ∷ []) up_once
      two_and_three-ThresholdsOk up_once-IsValid (refl, (refl, (refl, tt))) (omega arith)

abbrev first_read : HealthSnapshot
first_read = (codes "a", up_once) ∷ (codes "b", up_once) ∷ []

abbrev second_read : HealthSnapshot
second_read = (codes "a", up_once) ∷ (codes "b", record up_once { changed_at = 9 }) ∷ []

known : (s : HealthSnapshot) → lookup (codes "a") ((codes "a", up_once) ∷ s) ≡ some up_once
unfolding lookup bytes_eq
known s = refl

lookup-record_loop_example :
    lookup
      (codes "b")
      (record_loop two_and_three (codes "a") false 10 first_read (second_read ∷ []))
    ≡ (if bytes_eq (codes "a") (codes "b")
        then Option.map (after_outcome two_and_three false 10) (lookup (codes "b") second_read)
        else lookup (codes "b") second_read)
lookup-record_loop_example =
    lookup-record_loop two_and_three (codes "a") (codes "b") false 10 first_read (second_read ∷ [])
      (
        (up_once, known ((codes "b", up_once) ∷ [])),
        (up_once, known ((codes "b", record up_once { changed_at = 9 }) ∷ [])),
      )
