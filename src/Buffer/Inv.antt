-- ===== src/Buffer/Inv.antt =====
-- The invariant of src/net/buffer.cpp, and how each method of it keeps the invariant.
use pulsegate.Base.{
  ℕ, ◌+◌, ◌-◌, ◌≤◌, ◌<◌, ◌≡◌, refl, ap, sym, ◌∙◌, ◌⊎◌, inl, inr, Bytes, length, take, drop, arith,
  ltb, leb, ◌==◌, sub64, size_mod, add64_exact, sub64_exact, mul64_exact, ok, err, length_error,
  Bool-cases,
}
use pulsegate.Buffer.{
  Buffer, readable_bytes, readable_view, new_size, grow, move_front, resize, compact_or_grow,
}
use pulsegate.Buffer.Storage.{
  window, length-window, length-resize, window-resize, length-move_front, window-move_front,
}

pub record IsValid (b : Buffer) : Type 0 where
  pub ordered : b.read_index ≤ b.write_index
  pub inside : b.write_index + b.prepared_bytes ≤ length b.storage
  pub bounded : length b.storage ≤ b.maximum_size
  pub is_size : b.maximum_size < size_mod

module _ (b : Buffer) (v : IsValid b) where
  pub readable_bytes_exact : readable_bytes b ≡ b.write_index - b.read_index
  unfolding readable_bytes
  readable_bytes_exact = sub64_exact b.write_index b.read_index v.ordered (omega arith)

  pub readable_view-window : readable_view b ≡ window b.read_index b.write_index b.storage
  unfolding readable_view
  readable_view-window = rw readable_bytes_exact

  pub length-readable_view : length (readable_view b) ≡ readable_bytes b
  length-readable_view =
      rw (readable_view-window, readable_bytes_exact)
        (length-window b.read_index b.write_index b.storage (omega arith))

-- `b'` shows the bytes of `b`, and has room for `minimum` more.
pub record HasRoom (minimum : ℕ) (b b' : Buffer) : Type 0 where
  pub valid : IsValid b'
  pub view : readable_view b' ≡ readable_view b
  pub unprepared : b'.prepared_bytes ≡ 0
  pub room : b'.write_index + minimum ≤ length b'.storage
  pub maximum : b'.maximum_size ≡ b.maximum_size

module _ (minimum : ℕ) (b : Buffer) (v : IsValid b) (open_end : b.prepared_bytes ≡ 0) where
  -- The bytes are moved to the front of a storage `s` that shows them.
  moved-HasRoom :
      (s : Bytes)
      → window b.read_index b.write_index s ≡ readable_view b
      → b.write_index ≤ length s
      → readable_bytes b + minimum ≤ length s
      → length s ≤ b.maximum_size
      → HasRoom minimum b (record b {
        storage = move_front b.read_index (readable_bytes b) s;
        read_index = 0;
        write_index = readable_bytes b;
      })
  moved-HasRoom s shown inside room bounded = record {
    valid = v';
    view =
        readable_view-window _ v'
        ∙ window-move_front b.read_index (readable_bytes b) s fits
        ∙ ap (λ k. take k (drop b.read_index s)) (readable_bytes_exact b v)
        ∙ shown;
    unprepared = open_end;
    room = omega (arith, length-move_front b.read_index (readable_bytes b) s fits);
    maximum = refl;
  }
    where
      fits : b.read_index + readable_bytes b ≤ length s
      fits = omega (arith, readable_bytes_exact b v, v.ordered)

      v' : IsValid (record b {
        storage = move_front b.read_index (readable_bytes b) s;
        read_index = 0;
        write_index = readable_bytes b;
      })
      v' = record {
        ordered = omega arith;
        inside = omega (arith, length-move_front b.read_index (readable_bytes b) s fits);
        bounded = omega (arith, length-move_front b.read_index (readable_bytes b) s fits);
        is_size = v.is_size;
      }

  -- The new size holds what is asked for, and stays within the maximum.
  new_size_bounds :
      readable_bytes b + minimum ≤ b.maximum_size
      → length b.storage < readable_bytes b + minimum
      → (readable_bytes b + minimum ≤ new_size minimum (readable_bytes b) b)
        × (new_size minimum (readable_bytes b) b ≤ b.maximum_size)
        × (length b.storage ≤ new_size minimum (readable_bytes b) b)
  unfolding new_size
  new_size_bounds fits tight = ground (
    arith,
    v.is_size,
    v.bounded,
    add64_exact (readable_bytes b) minimum,
    mul64_exact (length b.storage) 2,
  )

  grow-HasRoom :
      readable_bytes b + minimum ≤ b.maximum_size
      → length b.storage < readable_bytes b + minimum
      → HasRoom minimum b (grow minimum (readable_bytes b) b)
  unfolding grow
  grow-HasRoom fits tight = elim (Bool-cases (b.read_index == 0)) [
    | inl e ↦ rw e (record {
      valid = v';
      view = readable_view-window _ v' ∙ shown ∙ sym (readable_view-window b v);
      unprepared = open_end;
      room = ground (arith, sizes.0, size, readable_bytes_exact b v);
      maximum = refl;
    })
    | inr e ↦ rw e (
        moved-HasRoom s (shown ∙ sym (readable_view-window b v))
          (omega (arith, v.inside, sizes.2, size)) (omega (arith, sizes.0, size))
          (omega (arith, sizes.1, size)))
  ]
    where
      n : ℕ
      n = new_size minimum (readable_bytes b) b

      s : Bytes
      s = resize n b.storage

      sizes : (readable_bytes b + minimum ≤ n) × (n ≤ b.maximum_size) × (length b.storage ≤ n)
      sizes = new_size_bounds fits tight

      size : length s ≡ n
      size = length-resize n b.storage

      shown : window b.read_index b.write_index s ≡ window b.read_index b.write_index b.storage
      shown =
          window-resize b.read_index b.write_index n b.storage v.ordered (omega (arith, v.inside))
            sizes.2

      v' : IsValid (record b { storage = s })
      v' = record {
        ordered = v.ordered;
        inside = omega (arith, v.inside, sizes.2, size);
        bounded = omega (arith, sizes.1, size);
        is_size = v.is_size;
      }

  -- `compactOrGrow` makes room exactly when the readable bytes and the request fit the maximum.
  pub compact_or_grow_cases :
      ((readable_bytes b + minimum ≤ b.maximum_size)
        × ((compact_or_grow minimum b).0 ≡ ok tt)
        × HasRoom minimum b (compact_or_grow minimum b).1)
      ⊎ ((b.maximum_size < readable_bytes b + minimum)
          × (compact_or_grow minimum b ≡ (err length_error, b)))
  unfolding compact_or_grow
  compact_or_grow_cases = elim (Bool-cases (ltb b.maximum_size minimum)) [
    | inl e ↦ rw e (inr (ground arith, refl))
    | inr e ↦ rw e (elim (Bool-cases (leb minimum (sub64 (length b.storage) b.write_index))) [
      | inl f ↦ rw f (
          inl (
            ground (arith, tail, readable_bytes_exact b v),
            refl,
            record {
              valid = v;
              view = refl;
              unprepared = open_end;
              room = ground (arith, tail, v.inside);
              maximum = refl;
            },
          ))
      | inr f ↦
          rw f (elim (Bool-cases (leb minimum (sub64 (length b.storage) (readable_bytes b)))) [
            | inl g ↦ rw g (
                inl (
                  ground (arith, whole, v.bounded),
                  refl,
                  moved-HasRoom b.storage (sym (readable_view-window b v)) (omega (arith, v.inside))
                      (ground (arith, whole, v.bounded)) v.bounded,
                ))
            | inr g ↦
                rw g (elim (Bool-cases (ltb (sub64 b.maximum_size minimum) (readable_bytes b))) [
                  | inl k ↦ rw k (inr (ground (arith, limit), refl))
                  | inr k ↦ rw k (
                      inl (
                        ground (arith, limit),
                        refl,
                        grow-HasRoom (ground (arith, limit)) (ground (arith, whole)),
                      ))
                ])
          ])
    ])
  ]
    where
      tail : sub64 (length b.storage) b.write_index ≡ length b.storage - b.write_index
      tail =
          sub64_exact (length b.storage) b.write_index (omega (arith, v.inside))
            (omega (arith, v.bounded, v.is_size))

      within : readable_bytes b ≤ length b.storage
      within = omega (arith, readable_bytes_exact b v, v.inside)

      whole : sub64 (length b.storage) (readable_bytes b) + readable_bytes b ≡ length b.storage
      whole = omega (
        arith,
        within,
        sub64_exact (length b.storage) (readable_bytes b) within
            (omega (arith, v.bounded, v.is_size)),
      )

      limit : minimum ≤ b.maximum_size → sub64 b.maximum_size minimum ≡ b.maximum_size - minimum
      limit h = sub64_exact b.maximum_size minimum h v.is_size

-- What `compactOrGrow` returns, as one equation.
abbrev pub Compacts : ℕ → Buffer → Type 0
Compacts minimum b =
    ((readable_bytes b + minimum ≤ b.maximum_size)
      × (b' : Buffer) × (compact_or_grow minimum b ≡ (ok tt, b'))
      × HasRoom minimum b b')
    ⊎ ((b.maximum_size < readable_bytes b + minimum)
        × (compact_or_grow minimum b ≡ (err length_error, b)))

pub compact_or_grow-Compacts :
    (minimum : ℕ) (b : Buffer) → IsValid b → b.prepared_bytes ≡ 0 → Compacts minimum b
compact_or_grow-Compacts minimum b v p = elim (compact_or_grow_cases minimum b v p) [
  | inl (fits, e, room) ↦
      inl
        (fits, (compact_or_grow minimum b).1, ap (λ r. (r, (compact_or_grow minimum b).1)) e, room)
  | inr (full, e) ↦ inr (full, e)
]
