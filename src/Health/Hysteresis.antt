-- ===== src/Health/Hysteresis.antt =====
-- When an endpoint of src/http/upstream_health.cpp changes between healthy and unhealthy.
use pulsegate.Base.{
  ℕ, ◌+◌, ◌≤◌, ◌<◌, ◌^◌, ◌≡◌, ◌≢◌, refl, ◌∙◌, inl, inr, Bool, true, false, some, List, [], ◌∷◌,
  Bytes, lookup, lookup-put, bytes_eq, bytes_eq_iff, arith, length, if◌then◌else◌, ltb, Bool-cases,
  ltb→lt, not,
}
use mathlib.Core.Option
use pulsegate.Health.{EndpointHealth, HealthSnapshot, HealthThresholds, after_outcome, record_loop}

abbrev pub ThresholdsOk : HealthThresholds → Type 0
ThresholdsOk t =
    (0 < t.healthy_threshold)
    × (t.healthy_threshold < 2 ^ 32)
    × (0 < t.unhealthy_threshold)
    × (t.unhealthy_threshold < 2 ^ 32)

-- The counter that works against the state is below its threshold, and one counter is zero.
pub record IsValid (t : HealthThresholds) (e : EndpointHealth) : Type 0 where
  pub stays_up : e.healthy ≡ true → e.consecutive_failures < t.unhealthy_threshold
  pub stays_down : e.healthy ≡ false → e.consecutive_successes < t.healthy_threshold

after_outcome-IsValid :
    (t : HealthThresholds) (success : Bool) (now : ℕ) (e : EndpointHealth)
    → ThresholdsOk t
    → IsValid t e
    → IsValid t (after_outcome t success now e)
unfolding after_outcome
after_outcome-IsValid t true now e k v = record {
  stays_up = ground (arith, k, v.stays_up, v.stays_down);
  stays_down = ground (arith, k, v.stays_up, v.stays_down);
}
after_outcome-IsValid t false now e k v = record {
  stays_up = ground (arith, k, v.stays_up, v.stays_down);
  stays_down = ground (arith, k, v.stays_up, v.stays_down);
}

-- The outcomes of an endpoint, oldest first, each with its time.
unfoldable pub outcomes : HealthThresholds → List (Bool × ℕ) → EndpointHealth → EndpointHealth
outcomes t [] e = e
outcomes t ((success, now) ∷ more) e = outcomes t more (after_outcome t success now e)

-- No `k` outcomes in a row other than `wanted`, where `n` of them stand before the list.
abbrev pub NoRun : Bool → ℕ → ℕ → List (Bool × ℕ) → Type 0
NoRun wanted k n [] = Unit {0}
NoRun true k n ((true, now) ∷ more) = NoRun true k 0 more
NoRun true k n ((false, now) ∷ more) = (n + 1 < k) × NoRun true k (n + 1) more
NoRun false k n ((false, now) ∷ more) = NoRun false k 0 more
NoRun false k n ((true, now) ∷ more) = (n + 1 < k) × NoRun false k (n + 1) more

-- Every outcome in the list is the one that is wanted.
abbrev pub Only : Bool → List (Bool × ℕ) → Type 0
Only wanted [] = Unit {0}
Only wanted ((b, now) ∷ more) = (b ≡ wanted) × Only wanted more

-- The counter that counts towards the change, from the state that `up` says.
abbrev pub against : Bool → EndpointHealth → ℕ
against true e = e.consecutive_failures
against false e = e.consecutive_successes

abbrev pub threshold : Bool → HealthThresholds → ℕ
threshold true t = t.unhealthy_threshold
threshold false t = t.healthy_threshold

-- The parts of one outcome that the histories need.
same_outcome :
    (t : HealthThresholds) (up : Bool) (now : ℕ) (e : EndpointHealth)
    → e.healthy ≡ up
    → ((after_outcome t up now e).healthy ≡ up) × (against up (after_outcome t up now e) ≡ 0)
unfolding after_outcome
same_outcome t true now e h = ground arith
same_outcome t false now e h = ground arith

other_outcome :
    (t : HealthThresholds) (up other : Bool) (now : ℕ) (e : EndpointHealth)
    → ThresholdsOk t
    → e.healthy ≡ up
    → other ≢ up
    → against up e + 1 < threshold up t
    → ((after_outcome t other now e).healthy ≡ up)
      × (against up (after_outcome t other now e) ≡ against up e + 1)
unfolding after_outcome
other_outcome t true true now e k h o n = absurd (o refl)
other_outcome t true false now e k h o n = ground (arith, k)
other_outcome t false true now e k h o n = ground (arith, k)
other_outcome t false false now e k h o n = absurd (o refl)

-- An endpoint keeps its state, healthy or not, through every history in which the opposite outcome
-- never comes as often in a row as its threshold says, the ones counted before the history included.
pub outcomes_keep :
    (t : HealthThresholds) (up : Bool) (xs : List (Bool × ℕ)) (e : EndpointHealth)
    → ThresholdsOk t
    → e.healthy ≡ up
    → NoRun up (threshold up t) (against up e) xs
    → (outcomes t xs e).healthy ≡ up
unfolding outcomes
outcomes_keep t up [] e k h r = h
outcomes_keep t true ((true, now) ∷ xs) e k h r =
    let (h', z) = same_outcome t true now e h in outcomes_keep t true xs _ k h' (rw z r)
outcomes_keep t true ((false, now) ∷ xs) e k h r =
    let (h', z) = other_outcome t true false now e k h (λ q. cc) r.0 in
    outcomes_keep t true xs _ k h' (rw z r.1)
outcomes_keep t false ((true, now) ∷ xs) e k h r =
    let (h', z) = other_outcome t false true now e k h (λ q. cc) r.0 in
    outcomes_keep t false xs _ k h' (rw z r.1)
outcomes_keep t false ((false, now) ∷ xs) e k h r =
    let (h', z) = same_outcome t false now e h in outcomes_keep t false xs _ k h' (rw z r)

-- `wanted` outcomes bring a state that is `wanted` already no change.
Only-keep :
    (t : HealthThresholds) (up : Bool) (xs : List (Bool × ℕ)) (e : EndpointHealth)
    → e.healthy ≡ up
    → Only up xs
    → (outcomes t xs e).healthy ≡ up
unfolding outcomes
Only-keep t up [] e h o = h
Only-keep t up ((b, now) ∷ xs) e h o =
    rw (o.0) (Only-keep t up xs _ (same_outcome t up now e h).0 o.1)

last_outcome :
    (t : HealthThresholds) (up other : Bool) (now : ℕ) (e : EndpointHealth)
    → ThresholdsOk t
    → IsValid t e
    → e.healthy ≡ up
    → other ≢ up
    → threshold up t ≤ against up e + 1
    → (after_outcome t other now e).healthy ≡ other
unfolding after_outcome
last_outcome t true true now e k v h o n = absurd (o refl)
last_outcome t true false now e k v h o n = ground (arith, k, v.stays_up)
last_outcome t false true now e k v h o n = ground (arith, k, v.stays_down)
last_outcome t false false now e k v h o n = absurd (o refl)

below_threshold :
    (t : HealthThresholds) (up : Bool) (e : EndpointHealth)
    → IsValid t e
    → e.healthy ≡ up
    → against up e < threshold up t
below_threshold t true e v h = v.stays_up h
below_threshold t false e v h = v.stays_down h

change_from :
    (t : HealthThresholds) (up other : Bool) (xs : List (Bool × ℕ)) (e : EndpointHealth)
    → ThresholdsOk t
    → IsValid t e
    → e.healthy ≡ up
    → other ≢ up
    → Only other xs
    → threshold up t ≤ against up e + length xs
    → (outcomes t xs e).healthy ≡ other
unfolding outcomes
change_from t up other [] e k v h d o n = absurd (omega (arith, below_threshold t up e v h))
change_from t up other ((b, now) ∷ xs) e k v h d o n =
    elim (Bool-cases (ltb (against up e + 1) (threshold up t))) [
      | inl early ↦
          let (h', z) = other_outcome t up other now e k h d (ltb→lt _ _ early) in
          rw (o.0) (
            change_from t up other xs (after_outcome t other now e) k
              (after_outcome-IsValid t other now e k v) h' d o.1 (omega (arith, n, z)))
      | inr late ↦ rw (o.0) (
          Only-keep t other xs (after_outcome t other now e)
            (last_outcome t up other now e k v h d (ground arith)) o.1)
    ]

-- As many equal outcomes in a row as the threshold of the change says, or more, leave a valid endpoint
-- in the state that they stand for, whatever its state was: healthy after successes, unhealthy after
-- failures.
pub outcomes_change :
    (t : HealthThresholds) (wanted : Bool) (xs : List (Bool × ℕ)) (e : EndpointHealth)
    → ThresholdsOk t
    → IsValid t e
    → Only wanted xs
    → threshold (not wanted) t ≤ length xs
    → (outcomes t xs e).healthy ≡ wanted
outcomes_change t true xs e k v o n = elim (Bool-cases e.healthy) [
  | inl up ↦ Only-keep t true xs e up o
  | inr down ↦ change_from t false true xs e k v down (λ q. cc) o (omega (arith, n))
]
outcomes_change t false xs e k v o n = elim (Bool-cases e.healthy) [
  | inl up ↦ change_from t true false xs e k v up (λ q. cc) o (omega (arith, n))
  | inr down ↦ Only-keep t false xs e down o
]

-- The snapshot that the last exchange had read.
abbrev pub last_read : HealthSnapshot → List HealthSnapshot → HealthSnapshot
last_read current [] = current
last_read current (read ∷ later) = last_read read later

-- The endpoint is known in each snapshot that an exchange had read.
abbrev pub Known : Bytes → HealthSnapshot → List HealthSnapshot → Type 0
Known id current [] = (e : EndpointHealth) × (lookup id current ≡ some e)
Known id current (read ∷ later) =
    ((e : EndpointHealth) × (lookup id current ≡ some e)) × Known id read later

-- However often other writers come between, the published snapshot is the one that was read last with
-- the outcome applied to its endpoint, once, and with all other endpoints as they were read.
pub lookup-record_loop :
    (t : HealthThresholds) (id j : Bytes) (success : Bool) (now : ℕ) (current : HealthSnapshot)
    (reads : List HealthSnapshot)
    → Known id current reads
    → lookup j (record_loop t id success now current reads) ≡ (
        if bytes_eq id j
        then Option.map (after_outcome t success now) (lookup j (last_read current reads))
        else lookup j (last_read current reads))
unfolding record_loop
lookup-record_loop t id j success now current [] (e, k) =
    rw (k, record_loop)
      (lookup-put j id (after_outcome t success now e) current
        ∙ ground (arith, k, bytes_eq_iff id j))
lookup-record_loop t id j success now current (read ∷ later) ((e, k), known) =
    rw (k, record_loop) (lookup-record_loop t id j success now read later known)
