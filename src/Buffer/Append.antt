-- ===== src/Buffer/Append.antt =====
-- `append` of src/net/buffer.cpp: all the bytes, or what the maximum size leaves room for.
use pulsegate.Base.{
  ℕ, zero, suc, ◌+◌, ◌-◌, ◌≤◌, ◌<◌, min, ◌≡◌, refl, ap, sym, ◌∙◌, ◌⊎◌, inl, inr, false, [], ◌∷◌,
  ◌++◌, Bytes, length, take, drop, arith, ltb, add64, sub64, add64_exact, sub64_exact, Result, ok,
  err, length_error, append_assoc, append-nil, take-append-drop, length-take, length-drop,
  length-append, take-add,
}
use pulsegate.Buffer.{
  Buffer, readable_bytes, readable_view, compact_or_grow, prepare, commit, append_round,
  append_loop, append, write_at,
}
use pulsegate.Buffer.Storage.{window, length-write_at, window-write_at}
use pulsegate.Buffer.Stream.{Shows}
use pulsegate.Buffer.Inv.{
  IsValid, HasRoom, readable_bytes_exact, readable_view-window, length-readable_view,
  compact_or_grow-Compacts,
}

-- One round of `append` writes a positive number of bytes where the maximum leaves room for one.
abbrev pub Rounds : Bytes → Buffer → Type 0
Rounds bytes b =
    ((readable_bytes b < b.maximum_size)
      × (n : ℕ) × (0 < n)
      × (n ≤ length bytes)
      × (n ≤ b.maximum_size - readable_bytes b)
      × (b' : Buffer) × (append_round bytes b ≡ (ok (drop n bytes), b'))
      × Shows b (readable_view b ++ take n bytes) b')
    ⊎ ((b.maximum_size ≤ readable_bytes b) × (append_round bytes b ≡ (err length_error, b)))

module _ (bytes : Bytes) (some_bytes : 0 < length bytes) (b : Buffer) (v : IsValid b)
    (p : b.prepared_bytes ≡ 0) where
  round_after :
      (b₁ : Buffer)
      → readable_bytes b < b.maximum_size
      → compact_or_grow 1 b ≡ (ok tt, b₁)
      → HasRoom 1 b b₁
      → Rounds bytes b
  unfolding append_round prepare commit
  round_after b₁ fits e room = inl (
    fits,
    n,
    omega (arith, region_exact, room.room),
    omega arith,
    omega (arith, region_exact, room.valid.bounded, room.maximum, same, shown_bytes),
    b',
    simp (p, e, accepted),
    record {
      valid = valid';
      unprepared = refl;
      view = readable_view-window _ valid' ∙ rw (written, moved) longer;
      maximum = room.maximum;
    },
  )
    where
      region : ℕ
      region = sub64 (length b₁.storage) b₁.write_index

      region_exact : region ≡ length b₁.storage - b₁.write_index
      region_exact =
          sub64_exact (length b₁.storage) b₁.write_index (omega (arith, room.room))
            (omega (arith, room.valid.bounded, room.valid.is_size))

      n : ℕ
      n = min region (length bytes)

      b' : Buffer
      b' = record b₁ {
        storage = write_at b₁.write_index (take n bytes) b₁.storage;
        write_index = add64 b₁.write_index n;
        prepared_bytes = 0;
      }

      accepted : ltb region n ≡ false
      accepted = ground arith

      same : readable_bytes b₁ ≡ readable_bytes b
      same =
          sym (length-readable_view b₁ room.valid) ∙ ap length room.view ∙ length-readable_view b v

      shown_bytes : readable_bytes b₁ ≤ b₁.write_index
      shown_bytes = omega (arith, readable_bytes_exact b₁ room.valid)

      written : add64 b₁.write_index n ≡ b₁.write_index + length (take n bytes)
      written = omega (
        arith,
        add64_exact b₁.write_index n
            (omega (arith, region_exact, room.room, room.valid.bounded, room.valid.is_size)),
        length-take n bytes,
      )

      copied : b₁.write_index + length (take n bytes) ≤ length b₁.storage
      copied = omega (arith, region_exact, room.room, length-take n bytes)

      valid' : IsValid b'
      valid' = record {
        ordered = omega (arith, written, room.valid.ordered);
        inside = omega (
          arith,
          written,
          copied,
          length-write_at b₁.write_index (take n bytes) b₁.storage copied,
        );
        bounded = omega (
          arith,
          room.valid.bounded,
          length-write_at b₁.write_index (take n bytes) b₁.storage copied,
        );
        is_size = room.valid.is_size;
      }

      moved : readable_view b ≡ window b₁.read_index b₁.write_index b₁.storage
      moved = sym room.view ∙ readable_view-window b₁ room.valid

      longer :
          window b₁.read_index
            (b₁.write_index + length (take n bytes))
            (write_at b₁.write_index (take n bytes) b₁.storage)
          ≡ window b₁.read_index b₁.write_index b₁.storage ++ take n bytes
      longer =
          window-write_at b₁.write_index (take n bytes) b₁.storage copied b₁.read_index
            room.valid.ordered

  append_round-Rounds : Rounds bytes b
  append_round-Rounds = elim (compact_or_grow-Compacts 1 b v p) [
    | inl (fits, b₁, e, room) ↦ round_after b₁ (omega (arith, fits)) e room
    | inr (full, e) ↦ inr (omega (arith, full), unfold append_round prepare in simp (p, e))
  ]

-- `append` either writes all the bytes, or as many as the maximum leaves room for before it throws.
abbrev pub Appends : Bytes → Buffer → Result (Unit {0}) × Buffer → Type 0
Appends bytes b r =
    ((readable_bytes b + length bytes ≤ b.maximum_size)
      × (r.0 ≡ ok tt)
      × Shows b (readable_view b ++ bytes) r.1)
    ⊎ ((b.maximum_size < readable_bytes b + length bytes)
        × (r.0 ≡ err length_error)
        × Shows b (readable_view b ++ take (b.maximum_size - readable_bytes b) bytes) r.1)

module _ (bytes : Bytes) (b b' : Buffer) (n : ℕ) (r : Result (Unit {0}) × Buffer) where
  -- A round, followed by the rounds for the bytes that are left.
  Appends-round :
      IsValid b
      → readable_bytes b ≤ b.maximum_size
      → n ≤ length bytes
      → n ≤ b.maximum_size - readable_bytes b
      → Shows b (readable_view b ++ take n bytes) b'
      → Appends (drop n bytes) b' r
      → Appends bytes b r
  Appends-round v h le lm shown rest = elim rest [
    | inl (fits, done, s) ↦ inl (
      omega (arith, fits, longer, shown.maximum, length-drop n bytes),
      done,
      record {
        valid = s.valid;
        unprepared = s.unprepared;
        view =
            s.view
            ∙ rw (
              shown.view,
              append_assoc (readable_view b) (take n bytes) (drop n bytes),
              take-append-drop n bytes,
            );
        maximum = s.maximum ∙ shown.maximum;
      },
    )
    | inr (full, failed, s) ↦ inr (
      omega (arith, full, longer, shown.maximum, length-drop n bytes),
      failed,
      record {
        valid = s.valid;
        unprepared = s.unprepared;
        view =
            s.view
            ∙ rw (
              shown.view,
              append_assoc (readable_view b) (take n bytes),
              ← take-add n (b'.maximum_size - readable_bytes b') bytes,
              split,
            );
        maximum = s.maximum ∙ shown.maximum;
      },
    )
  ]
    where
      longer : readable_bytes b' ≡ readable_bytes b + n
      longer = omega (
        arith,
        length-readable_view b' shown.valid,
        ap length shown.view,
        length-append (readable_view b) (take n bytes),
        length-readable_view b v,
        length-take n bytes,
      )

      split : n + (b'.maximum_size - readable_bytes b') ≡ b.maximum_size - readable_bytes b
      split = omega (arith, longer, shown.maximum)

pub readable_bytes-le : (b : Buffer) → IsValid b → readable_bytes b ≤ b.maximum_size
readable_bytes-le b v = omega (arith, readable_bytes_exact b v, v.inside, v.bounded)

append_loop-Appends :
    (fuel : ℕ) (bytes : Bytes) (b : Buffer)
    → IsValid b
    → b.prepared_bytes ≡ 0
    → length bytes ≤ fuel
    → Appends bytes b (append_loop fuel bytes b)
unfolding append_loop
append_loop-Appends fuel [] b v p f = inl (
  omega (arith, readable_bytes-le b v),
  refl,
  record { valid = v; unprepared = p; view = sym (append-nil (readable_view b)); maximum = refl },
)
append_loop-Appends zero (x ∷ bytes) b v p f = absurd (omega arith)
append_loop-Appends (suc fuel) (x ∷ bytes) b v p f =
    elim (append_round-Rounds (x ∷ bytes) (omega arith) b v p) [
      | inl (room, n, pos, le, lm, b', e, shown) ↦ rw e (
          Appends-round (x ∷ bytes) b b' n _ v (readable_bytes-le b v) le lm shown (
            append_loop-Appends fuel (drop n (x ∷ bytes)) b' shown.valid shown.unprepared
              (omega (arith, length-drop n (x ∷ bytes)))))
      | inr (full, e) ↦ rw e (
          inr (
            omega (arith, full),
            refl,
            record {
              valid = v;
              unprepared = p;
              view =
                  let none_left : b.maximum_size - readable_bytes b ≡ 0 = omega (arith, full) in
                  rw none_left (sym (append-nil (readable_view b)));
              maximum = refl;
            },
          ))
    ]

-- From a valid buffer with no open `prepare`, `append` succeeds exactly when the readable bytes and
-- the new ones fit the maximum size, and then the new bytes stand behind the readable ones. Otherwise
-- it throws `length_error`, and the part of the new bytes that fits has been written. In both cases
-- the buffer stays valid, with no open `prepare` and with its maximum size.
pub append-Appends :
    (bytes : Bytes) (b : Buffer)
    → IsValid b
    → b.prepared_bytes ≡ 0
    → Appends bytes b (append bytes b)
unfolding append
append-Appends bytes b v p = append_loop-Appends (length bytes) bytes b v p (omega arith)
