-- ===== src/Sessions/Registry.antt =====
-- The bound and the drain of the session registry of src/http/http_server.cpp.
use pulsegate.Base.{
  ℕ, ◌≤◌, ◌≡◌, refl, ap, ◌∙◌, Bool, true, false, ◌||◌, List, [], ◌∷◌, ◌++◌, length, any_of, leb,
  ◌==◌, if◌then◌else◌, ok, arith, Bool-cases, if_keeps, if_cases, inl, inr,
}
use pulsegate.Sessions.{
  StopReason, Entry, SessionRegistry, init, prune, has_id, try_add, record_rejected, without,
  remove, live_sessions, begin_drain, force_close_all, size,
}

-- No id stands in the list twice.
abbrev pub Distinct : List Entry → Type 0
Distinct [] = Unit {0}
Distinct (e ∷ es) = (has_id e.id es ≡ false) × Distinct es

pub record IsValid (r : SessionRegistry) : Type 0 where
  pub bounded : length r.sessions ≤ r.maximum_sessions
  pub distinct : Distinct r.sessions

-- A call, with the sessions that are alive when it looks.
pub data Call : Type 0 where
  adds : (ℕ → Bool) → ℕ → ℕ → Call
  rejects : StopReason → Call
  removes : ℕ → StopReason → Call
  drains closes sizes : (ℕ → Bool) → Call

unfoldable pub step : Call → SessionRegistry → SessionRegistry
step (adds alive id session) r = (try_add alive id session r).1
step (rejects reason) r = record_rejected reason r
step (removes id reason) r = remove id reason r
step (drains alive) r = (begin_drain alive r).1
step (closes alive) r = (force_close_all alive r).1
step (sizes alive) r = (size alive r).1

unfoldable pub run : List Call → SessionRegistry → SessionRegistry
run [] r = r
run (c ∷ cs) r = run cs (step c r)

length-prune : (alive : ℕ → Bool) (es : List Entry) → length (prune alive es) ≤ length es
unfolding prune
length-prune alive [] = omega arith
length-prune alive (e ∷ es) = ground (arith, length-prune alive es)

has_id-prune :
    (alive : ℕ → Bool) (id : ℕ) (es : List Entry)
    → has_id id es ≡ false
    → has_id id (prune alive es) ≡ false
unfolding prune has_id any_of
has_id-prune alive id [] h = refl
has_id-prune alive id (e ∷ es) h = ground (arith, has_id-prune alive id es)

Distinct-prune : (alive : ℕ → Bool) (es : List Entry) → Distinct es → Distinct (prune alive es)
unfolding prune
Distinct-prune alive [] d = tt
Distinct-prune alive (e ∷ es) d =
    go (alive e.session) (has_id-prune alive e.id es d.0) (Distinct-prune alive es d.1)
  where
    go :
        (b : Bool)
        → has_id e.id (prune alive es) ≡ false
        → Distinct (prune alive es)
        → Distinct (if b then e ∷ prune alive es else prune alive es)
    go true h k = (h, k)
    go false h k = k

length-without : (id : ℕ) (es : List Entry) → length (without id es) ≤ length es
unfolding without
length-without id [] = omega arith
length-without id (e ∷ es) = ground (arith, length-without id es)

has_id-without :
    (i id : ℕ) (es : List Entry) → has_id i es ≡ false → has_id i (without id es) ≡ false
unfolding without has_id any_of
has_id-without i id [] h = refl
has_id-without i id (e ∷ es) h = ground (arith, has_id-without i id es)

Distinct-without : (id : ℕ) (es : List Entry) → Distinct es → Distinct (without id es)
unfolding without
Distinct-without id [] d = tt
Distinct-without id (e ∷ es) d =
    go (e.id == id) (has_id-without e.id id es d.0) (Distinct-without id es d.1)
  where
    go :
        (b : Bool)
        → has_id e.id (without id es) ≡ false
        → Distinct (without id es)
        → Distinct (if b then es else e ∷ without id es)
    go true h k = d.1
    go false h k = (h, k)

pruned-IsValid :
    (alive : ℕ → Bool) (r : SessionRegistry)
    → IsValid r
    → IsValid (record r { sessions = prune alive r.sessions })
pruned-IsValid alive r v = record {
  bounded = omega (arith, v.bounded, length-prune alive r.sessions);
  distinct = Distinct-prune alive r.sessions v.distinct;
}

try_add-IsValid :
    (alive : ℕ → Bool) (id session : ℕ) (r : SessionRegistry)
    → IsValid r
    → IsValid (try_add alive id session r).1
unfolding try_add
try_add-IsValid alive id session r v =
    let p = pruned-IsValid alive r v in
    elim (Bool-cases (r.draining || leb r.maximum_sessions (length (prune alive r.sessions)))) [
      | inl full ↦ rw full p
      | inr room ↦ elim (Bool-cases (has_id id (prune alive r.sessions))) [
        | inl known ↦ rw (room, known) p
        | inr new ↦
            rw (room, new) (record { bounded = ground (arith, room); distinct = (new, p.distinct) })
      ]
    ]

step-IsValid : (c : Call) (r : SessionRegistry) → IsValid r → IsValid (step c r)
unfolding step record_rejected remove begin_drain force_close_all live_sessions size
step-IsValid (adds alive id session) r v = try_add-IsValid alive id session r v
step-IsValid (rejects reason) r v = record { bounded = v.bounded; distinct = v.distinct }
step-IsValid (removes id reason) r v =
    if_keeps IsValid (has_id id r.sessions) _ r
      (record {
        bounded = omega (arith, v.bounded, length-without id r.sessions);
        distinct = Distinct-without id r.sessions v.distinct;
      })
      v
step-IsValid (drains alive) r v =
    pruned-IsValid alive (record r { draining = true })
      (record { bounded = v.bounded; distinct = v.distinct })
step-IsValid (closes alive) r v = pruned-IsValid alive r v
step-IsValid (sizes alive) r v = pruned-IsValid alive r v

run-IsValid : (cs : List Call) (r : SessionRegistry) → IsValid r → IsValid (run cs r)
unfolding run
run-IsValid [] r v = v
run-IsValid (c ∷ cs) r v = run-IsValid cs (step c r) (step-IsValid c r v)

maximum_sessions-step :
    (c : Call) (r : SessionRegistry) → (step c r).maximum_sessions ≡ r.maximum_sessions
unfolding step record_rejected remove begin_drain force_close_all live_sessions size try_add
maximum_sessions-step (adds alive id session) r = ground arith
maximum_sessions-step (rejects reason) r = refl
maximum_sessions-step (removes id reason) r = ground arith
maximum_sessions-step (drains alive) r = refl
maximum_sessions-step (closes alive) r = refl
maximum_sessions-step (sizes alive) r = refl

maximum_sessions-run :
    (cs : List Call) (r : SessionRegistry) → (run cs r).maximum_sessions ≡ r.maximum_sessions
unfolding run
maximum_sessions-run [] r = refl
maximum_sessions-run (c ∷ cs) r = maximum_sessions-run cs (step c r) ∙ maximum_sessions-step c r

-- After any calls on a new registry, whatever sessions end meanwhile, there are no more entries than the
-- limit given to the constructor, and no id stands in two of them.
pub run-init-Bounds :
    (maximum : ℕ) (r : SessionRegistry) (cs : List Call)
    → init maximum ≡ ok r
    → (length (run cs r).sessions ≤ maximum) × Distinct (run cs r).sessions
run-init-Bounds maximum r cs made =
    let valid = run-IsValid cs r (start made) in
    (omega (arith, valid.bounded, maximum_sessions-run cs r, given made), valid.distinct)
  where
    given : init maximum ≡ ok r → r.maximum_sessions ≡ maximum
    given e = unfold init in ground arith

    start : init maximum ≡ ok r → IsValid r
    start e = unfold init in ground arith

draining-step : (c : Call) (r : SessionRegistry) → r.draining ≡ true → (step c r).draining ≡ true
unfolding step record_rejected remove begin_drain force_close_all live_sessions size try_add
draining-step (adds alive id session) r d = ground (arith, d)
draining-step (rejects reason) r d = d
draining-step (removes id reason) r d = ground (arith, d)
draining-step (drains alive) r d = refl
draining-step (closes alive) r d = d
draining-step (sizes alive) r d = d

draining-run :
    (cs : List Call) (r : SessionRegistry) → r.draining ≡ true → (run cs r).draining ≡ true
unfolding run
draining-run [] r d = d
draining-run (c ∷ cs) r d = draining-run cs (step c r) (draining-step c r d)

run-append : (cs ds : List Call) (r : SessionRegistry) → run (cs ++ ds) r ≡ run ds (run cs r)
unfolding run
run-append [] ds r = refl
run-append (c ∷ cs) ds r = run-append cs ds (step c r)

draining-begin_drain :
    (alive : ℕ → Bool) (r : SessionRegistry) → (begin_drain alive r).1.draining ≡ true
unfolding begin_drain live_sessions
draining-begin_drain alive r = refl

-- A pruned registry that drains takes no session: the entries stay as they are, but for dead ones.
refused :
    (alive : ℕ → Bool) (id session : ℕ) (r : SessionRegistry)
    → r.draining ≡ true
    → try_add alive id session r ≡ (false, record r { sessions = prune alive r.sessions })
unfolding try_add
refused alive id session r d =
    if_cases
      (λ (t : Bool × SessionRegistry). t ≡ (false, record r { sessions = prune alive r.sessions }))
      (r.draining || leb r.maximum_sessions (length (prune alive r.sessions))) _ _ (λ _. refl)
      (λ off. absurd (ground (arith, off, d)))

-- Whatever calls a registry has seen, once `beginDrain` has been called on it, and whatever calls come after
-- that, `tryAdd` returns false, and all that it changes is that entries of dead sessions go.
pub run-refused :
    (before after : List Call) (draining_at alive : ℕ → Bool) (id session : ℕ) (r : SessionRegistry)
    → try_add alive id session (run (before ++ drains draining_at ∷ after) r) ≡ (
      false,
      record (run (before ++ drains draining_at ∷ after) r) {
        sessions = prune alive (run (before ++ drains draining_at ∷ after) r).sessions;
      },
    )
unfolding run step
run-refused before after draining_at alive id session r =
    refused alive id session (run (before ++ drains draining_at ∷ after) r) (
      ap (λ (t : SessionRegistry). t.draining) (run-append before (drains draining_at ∷ after) r)
      ∙ draining-run after (begin_drain draining_at (run before r)).1
          (draining-begin_drain draining_at (run before r)))
