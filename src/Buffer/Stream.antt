-- ===== src/Buffer/Stream.antt =====
-- src/net/buffer.cpp as a byte stream: what `consume` and `takeString` do to the readable
-- bytes, whatever the indices and the storage are.
use pulsegate.Base.{
  ℕ, ◌+◌, ◌-◌, ◌≤◌, ◌<◌, ◌≡◌, refl, ap, sym, ◌∙◌, inl, inr, false, Bytes, take, drop, arith, ltb,
  ◌==◌, add64, add64_exact, ok, err, Bool-cases, drop-take, drop-drop, out_of_range, take-take_le,
}
use pulsegate.Buffer.{Buffer, readable_bytes, readable_view, clear, consume, take_string}
use pulsegate.Buffer.Inv.{IsValid, readable_bytes_exact, readable_view-window}

-- `b'` is a buffer with no open `prepare` that shows `bytes`, with the maximum of `b`.
pub record Shows (b : Buffer) (bytes : Bytes) (b' : Buffer) : Type 0 where
  pub valid : IsValid b'
  pub unprepared : b'.prepared_bytes ≡ 0
  pub view : readable_view b' ≡ bytes
  pub maximum : b'.maximum_size ≡ b.maximum_size

module _ (b : Buffer) (v : IsValid b) (p : b.prepared_bytes ≡ 0) where
  -- On a valid buffer with no open `prepare`, `consume` of at most the readable bytes succeeds and takes
  -- them from the front of the readable bytes; the rest, the invariant and the maximum size stay.
  pub consume-Shows :
      (count : ℕ)
      → count ≤ readable_bytes b
      → (b' : Buffer) × (consume count b ≡ (ok tt, b')) × Shows b (drop count (readable_view b)) b'
  unfolding consume clear
  consume-Shows count fits = elim (Bool-cases (b.read_index + count == b.write_index)) [
    | inl e ↦ (
      record b { read_index = 0; write_index = 0; prepared_bytes = 0 },
      simp (p, exact, small, e),
      record {
        valid = empty;
        unprepared = refl;
        view =
            readable_view-window _ empty
            ∙ sym
                (left ∙ (let z : b.write_index - b.read_index - count ≡ 0 = ground arith in rw z));
        maximum = refl;
      },
    )
    | inr e ↦ (
      record b { read_index = b.read_index + count },
      simp (p, exact, small, e),
      record {
        valid = moved;
        unprepared = p;
        view =
            readable_view-window _ moved
            ∙ sym (left ∙ ap (λ k. take k (drop (b.read_index + count) b.storage)) (omega arith));
        maximum = refl;
      },
    )
  ]
    where
      left :
          drop count (readable_view b)
          ≡ take (b.write_index - b.read_index - count) (drop (b.read_index + count) b.storage)
      left =
          rw
            (
              readable_view-window b v,
              drop-take count (b.write_index - b.read_index) (drop b.read_index b.storage),
            )
            (ap (take (b.write_index - b.read_index - count))
              (drop-drop b.read_index count b.storage))

      empty : IsValid (record b { read_index = 0; write_index = 0; prepared_bytes = 0 })
      empty = record {
        ordered = omega arith;
        inside = omega arith;
        bounded = v.bounded;
        is_size = v.is_size;
      }

      moved : IsValid (record b { read_index = b.read_index + count })
      moved = record {
        ordered = omega (arith, readable_bytes_exact b v, v.ordered);
        inside = v.inside;
        bounded = v.bounded;
        is_size = v.is_size;
      }

      exact : add64 b.read_index count ≡ b.read_index + count
      exact =
          add64_exact b.read_index count
            (omega (arith, v.inside, v.bounded, v.is_size, readable_bytes_exact b v))

      small : ltb (readable_bytes b) count ≡ false
      small = ground arith

  pub consume_refused :
      (count : ℕ) → readable_bytes b < count → consume count b ≡ (err out_of_range, b)
  unfolding consume
  consume_refused count h = ground arith

  -- On a valid buffer with no open `prepare`, `takeString` of at most the readable bytes returns them
  -- from the front of the readable bytes and takes them away; the rest, the invariant and the maximum
  -- size stay.
  pub take_string-Shows :
      (count : ℕ)
      → count ≤ readable_bytes b
      → (b' : Buffer) × (take_string count b ≡ (ok (take count (readable_view b)), b'))
        × Shows b (drop count (readable_view b)) b'
  unfolding take_string readable_view
  take_string-Shows count fits =
      let (b', e, shown) = consume-Shows count fits in
      (
        b',
        (let t : take count (take (readable_bytes b) (drop b.read_index b.storage))
                ≡ take count (drop b.read_index b.storage) =
              take-take_le count (readable_bytes b) (drop b.read_index b.storage) fits in
            let n : ltb (readable_bytes b) count ≡ false = ground arith in simp (n, e, t)),
        shown,
      )
