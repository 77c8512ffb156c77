-- ===== src/Buffer/Storage.antt =====
-- The storage of src/net/buffer.cpp as a list: what a move, a resize and a copy leave in a window.
use pulsegate.Base.{
  ℕ, ◌+◌, ◌-◌, ◌≤◌, ◌≡◌, ◌++◌, Bytes, length, take, drop, replicate, arith, length-append,
  length-take, length-drop, length-replicate, take-append_le, drop-append_le, take-append_length,
  take_all, drop-take, append_assoc,
}
use pulsegate.Buffer.{resize, move_front, write_at}

-- The bytes from index `r` up to `w`.
abbrev pub window : ℕ → ℕ → Bytes → Bytes
window r w s = take (w - r) (drop r s)

pub length-window : (r w : ℕ) (s : Bytes) → w ≤ length s → length (window r w s) ≡ w - r
length-window r w s h = omega (arith, length-take (w - r) (drop r s), length-drop r s)

pub length-resize : (n : ℕ) (s : Bytes) → length (resize n s) ≡ n
unfolding resize
length-resize n s = omega (
  arith,
  length-append (take n s) (replicate (n - length s) 0),
  length-take n s,
  length-replicate {0} {A = ℕ} (n - length s) 0,
)

pub window-resize :
    (r w n : ℕ) (s : Bytes)
    → r ≤ w
    → w ≤ length s
    → length s ≤ n
    → window r w (resize n s) ≡ window r w s
unfolding resize
window-resize r w n s o h k =
    let zeros : Bytes = replicate (n - length s) 0 in
    rw (take_all n s k, drop-append_le r s zeros (omega arith))
      (take-append_le (w - r) (drop r s) zeros (omega (arith, length-drop r s)))

pub length-move_front :
    (from count : ℕ) (s : Bytes)
    → from + count ≤ length s
    → length (move_front from count s) ≡ length s
unfolding move_front
length-move_front from count s h = omega (
  arith,
  length-append (take count (drop from s)) (drop count s),
  length-take count (drop from s),
  length-drop from s,
  length-drop count s,
)

pub window-move_front :
    (from count : ℕ) (s : Bytes)
    → from + count ≤ length s
    → window 0 count (move_front from count s) ≡ take count (drop from s)
unfolding move_front
window-move_front from count s h =
    take-append_length (count - 0) (take count (drop from s)) (drop count s)
      (omega (arith, length-take count (drop from s), length-drop from s))

module _ (at : ℕ) (bytes s : Bytes) (fits : at + length bytes ≤ length s) where
  pub length-write_at : length (write_at at bytes s) ≡ length s
  unfolding write_at
  length-write_at = omega (
    arith,
    length-append (take at s) (bytes ++ drop (at + length bytes) s),
    length-append bytes (drop (at + length bytes) s),
    length-take at s,
    length-drop (at + length bytes) s,
  )

  -- A copy behind the window makes the window longer by the bytes.
  pub window-write_at :
      (r : ℕ) → r ≤ at → window r (at + length bytes) (write_at at bytes s) ≡ window r at s ++ bytes
  unfolding write_at
  window-write_at r h =
      let rest : Bytes = drop (at + length bytes) s in
      let kept : Bytes = take (at - r) (drop r s) in
      rw
        (
          drop-append_le r (take at s) (bytes ++ rest) (omega (arith, length-take at s)),
          drop-take r at s,
          ← append_assoc kept bytes rest,
        )
        (take-append_length (at + length bytes - r) (kept ++ bytes) rest (
          omega
            (arith, length-append kept bytes, length-take (at - r) (drop r s), length-drop r s)))
