-- ===== src/Buffer/Steps.antt =====
-- Every history of calls on a buffer of src/net/buffer.cpp.
use pulsegate.Base.{
  take, drop, and_then, ℕ, ◌<◌, ◌≡◌, refl, inl, inr, false, List, [], ◌∷◌, Bytes, length, arith,
  ltb, leb, ◌==◌, if◌then◌else◌, Result, ok, err, Bool-cases, sub64_exact, add64_exact, size_mod,
}
use pulsegate.Buffer.{
  Buffer, init, readable_bytes, prepare, commit, clear, consume, append, append_loop, append_round,
  take_string, write_at,
}
use pulsegate.Buffer.Storage.{length-write_at, length-resize}
use pulsegate.Buffer.Inv.{IsValid, compact_or_grow-Compacts}
use pulsegate.Buffer.Stream.{consume-Shows, consume_refused}
use pulsegate.Buffer.Append.{append-Appends}

-- What the owner of a buffer can do; `receives` is its write into the region of `prepare`.
pub data Call : Type 0 where
  prepares commits consumes takes : ℕ → Call
  receives appends : Bytes → Call
  clears : Call

-- The owner writes inside the region only.
pub receive : Bytes → Buffer → Buffer
receive bytes b =
    if leb (length bytes) b.prepared_bytes
    then record b { storage = write_at b.write_index bytes b.storage }
    else b

pub step : Call → Buffer → Buffer
unfolding receive
step (prepares n) b = (prepare n b).1
step (commits n) b = (commit n b).1
step (consumes n) b = (consume n b).1
step (takes n) b = (take_string n b).1
step (receives bytes) b = receive bytes b
step (appends bytes) b = (append bytes b).1
step clears b = clear b

pub run : List Call → Buffer → Buffer
run [] b = b
run (c ∷ cs) b = run cs (step c b)

pub init-IsValid : (n m : ℕ) (b : Buffer) → m < size_mod → init n m ≡ ok b → IsValid b
unfolding init
init-IsValid n m b fits h = ground (arith, length-resize n [])

prepare-IsValid : (n : ℕ) (b : Buffer) → IsValid b → IsValid (prepare n b).1
prepare-IsValid n b v = elim (Bool-cases (b.prepared_bytes == 0)) [
  | inr open_already ↦ unfold prepare in rw open_already v
  | inl closed ↦ elim (Bool-cases (n == 0)) [
    | inl nothing ↦ unfold prepare in rw (closed, nothing) v
    | inr some_room ↦ elim (compact_or_grow-Compacts n b v (ground arith)) [
      | inr (_, e) ↦ unfold prepare in rw (closed, some_room, e) v
      | inl (_, b', e, room) ↦
          unfold prepare in
          rw (closed, some_room, e)
            (record {
              ordered = room.valid.ordered;
              inside = omega (
                arith,
                room.room,
                room.valid.bounded,
                room.valid.is_size,
                sub64_exact (length b'.storage) b'.write_index (omega (arith, room.room))
                    (omega (arith, room.valid.bounded, room.valid.is_size)),
              );
              bounded = room.valid.bounded;
              is_size = room.valid.is_size;
            })
    ]
  ]
]

commit-IsValid : (n : ℕ) (b : Buffer) → IsValid b → IsValid (commit n b).1
unfolding commit
commit-IsValid n b v = ground (arith, add64_exact b.write_index n)

consume-IsValid : (n : ℕ) (b : Buffer) → IsValid b → IsValid (consume n b).1
consume-IsValid n b v = elim (Bool-cases (b.prepared_bytes == 0)) [
  | inr open_already ↦ unfold consume in rw open_already v
  | inl closed ↦
      let p : b.prepared_bytes ≡ 0 = ground arith in
      elim (Bool-cases (leb n (readable_bytes b))) [
        | inl fits ↦ let (b', e, s) = consume-Shows b v p n (ground arith) in rw e s.valid
        | inr long ↦ rw (consume_refused b v p n (ground arith)) v
      ]
]

and_then-keeps {ℓ κ} :
    {A : Type ℓ} {B : Type κ} (x : B) (r : Result A × Buffer)
    → (and_then r λ _ b'. (ok x, b')).1 ≡ r.1
and_then-keeps x (ok a, b) = refl
and_then-keeps x (err e, b) = refl

take_string-IsValid : (n : ℕ) (b : Buffer) → IsValid b → IsValid (take_string n b).1
unfolding take_string
take_string-IsValid n b v = elim (Bool-cases (ltb (readable_bytes b) n)) [
  | inl long ↦ rw long v
  | inr fits ↦
      rw (fits, and_then-keeps (take n (drop b.read_index b.storage)) (consume n b))
        (consume-IsValid n b v)
]

-- `append` writes nothing while a `prepare` is open.
append_open :
    (bytes : Bytes) (b : Buffer) → (b.prepared_bytes == 0) ≡ false → (append bytes b).1 ≡ b
unfolding append append_loop append_round prepare
append_open [] b h = refl
append_open (x ∷ bytes) b h = rw h refl

append-IsValid : (bytes : Bytes) (b : Buffer) → IsValid b → IsValid (append bytes b).1
append-IsValid bytes b v = elim (Bool-cases (b.prepared_bytes == 0)) [
  | inl closed ↦ elim (append-Appends bytes b v (ground arith)) [
    | inl (_, _, s) ↦ s.valid
    | inr (_, _, s) ↦ s.valid
  ]
  | inr already ↦ rw (append_open bytes b already) v
]

receive-IsValid : (bytes : Bytes) (b : Buffer) → IsValid b → IsValid (receive bytes b)
unfolding receive
receive-IsValid bytes b v = elim (Bool-cases (leb (length bytes) b.prepared_bytes)) [
  | inl fits ↦ rw fits (record {
    ordered = v.ordered;
    inside = ground (arith, v.inside, length-write_at b.write_index bytes b.storage);
    bounded = ground (arith, v.inside, v.bounded, length-write_at b.write_index bytes b.storage);
    is_size = v.is_size;
  })
  | inr long ↦ rw long v
]

step-IsValid : (c : Call) (b : Buffer) → IsValid b → IsValid (step c b)
unfolding step clear
step-IsValid (prepares n) b v = prepare-IsValid n b v
step-IsValid (commits n) b v = commit-IsValid n b v
step-IsValid (consumes n) b v = consume-IsValid n b v
step-IsValid (takes n) b v = take_string-IsValid n b v
step-IsValid (receives bytes) b v = receive-IsValid bytes b v
step-IsValid (appends bytes) b v = append-IsValid bytes b v
step-IsValid clears b v = record {
  ordered = omega arith;
  inside = omega arith;
  bounded = v.bounded;
  is_size = v.is_size;
}

run-IsValid : (cs : List Call) (b : Buffer) → IsValid b → IsValid (run cs b)
unfolding run
run-IsValid [] b v = v
run-IsValid (c ∷ cs) b v = run-IsValid cs (step c b) (step-IsValid c b v)

-- A buffer that the constructor accepts, with a maximum that is a `std::size_t`, keeps its invariant
-- through every sequence of calls, those that throw included: the read index is at most the write
-- index, the reserved region lies inside the storage, and the storage is at most the maximum size.
pub run-init-IsValid :
    (n m : ℕ) (b : Buffer) (cs : List Call) → m < size_mod → init n m ≡ ok b → IsValid (run cs b)
run-init-IsValid n m b cs fits h = run-IsValid cs b (init-IsValid n m b fits h)
