-- ===== src/Buffer.antt =====
-- include/pulsegate/net/buffer.h and src/net/buffer.cpp: indexed byte storage for stream protocols.
-- A method that can throw returns its result beside the buffer that it leaves.
mod Tests
pub mod Storage
pub mod Inv
pub mod Stream
pub mod Append
pub mod Search
pub mod Steps
use pulsegate.Base.{
  ℕ, zero, suc, ◌+◌, ◌-◌, ◌/◌, ◌≤◌, ◌<◌, min, max, Bool, true, false, ◌&&◌, ◌||◌, Option, none,
  some, List, [], ◌∷◌, ◌++◌, Bytes, length, take, drop, replicate, ltb, leb, ◌==◌, if◌then◌else◌,
  add64, sub64, mul64, Fault, Result, and_then, ok, err, invalid_argument, logic_error,
  out_of_range, length_error,
}
use mathlib.Core.Option

pub record Buffer : Type 0 where
  pub storage : Bytes
  pub read_index : ℕ
  pub write_index : ℕ
  pub prepared_bytes : ℕ
  pub maximum_size : ℕ

-- `std::vector::resize`: new elements are zero.
unfoldable pub resize : ℕ → Bytes → Bytes
resize n s = take n s ++ replicate (n - length s) 0

-- `std::memmove` of `count` bytes from `from` to the start of the storage.
unfoldable pub move_front : ℕ → ℕ → Bytes → Bytes
move_front from count s = take count (drop from s) ++ drop count s

-- `std::memcpy` of `bytes` to the storage at `at`.
unfoldable pub write_at : ℕ → Bytes → Bytes → Bytes
write_at at bytes s = take at s ++ (bytes ++ drop (at + length bytes) s)

unfoldable pub init : ℕ → ℕ → Result Buffer
init initial_size maximum_size =
    if initial_size == 0 || (maximum_size == 0 || ltb maximum_size initial_size)
    then err invalid_argument
    else ok (record {
      storage = resize initial_size [];
      read_index = 0;
      write_index = 0;
      prepared_bytes = 0;
      maximum_size = maximum_size;
    })

unfoldable pub readable_bytes : Buffer → ℕ
readable_bytes b = sub64 b.write_index b.read_index

unfoldable pub readable_view : Buffer → Bytes
readable_view b = take (readable_bytes b) (drop b.read_index b.storage)

-- The size that `compactOrGrow` gives the storage when it has to grow.
unfoldable pub new_size : ℕ → ℕ → Buffer → ℕ
new_size minimum readable b =
    let size = length b.storage in
    let required = add64 readable minimum in
    let doubled = if ltb (b.maximum_size / 2) size then b.maximum_size else mul64 size 2 in
    max required doubled

-- The last part of `compactOrGrow`, which enlarges the storage.
unfoldable pub grow : ℕ → ℕ → Buffer → Buffer
grow minimum readable b =
    let storage = resize (new_size minimum readable b) b.storage in
    if b.read_index == 0 then record b { storage = storage } else record b {
      storage = move_front b.read_index readable storage;
      read_index = 0;
      write_index = readable;
    }

unfoldable pub compact_or_grow : ℕ → Buffer → Result (Unit {0}) × Buffer
compact_or_grow minimum b =
    let readable = readable_bytes b in
    if ltb b.maximum_size minimum
    then (err length_error, b)
    else if leb minimum (sub64 (length b.storage) b.write_index)
    then (ok tt, b)
    else if leb minimum (sub64 (length b.storage) readable)
    then (
      ok tt,
      record b {
        storage = move_front b.read_index readable b.storage;
        read_index = 0;
        write_index = readable;
      },
    )
    else if ltb (sub64 b.maximum_size minimum) readable
    then (err length_error, b)
    else (ok tt, grow minimum readable b)

-- The result is the size of the writable region, which starts at the write index.
unfoldable pub prepare : ℕ → Buffer → Result ℕ × Buffer
prepare minimum b =
    if b.prepared_bytes == 0
    then (if minimum == 0
        then (ok 0, b)
        else and_then (compact_or_grow minimum b) λ _ b'.
          let region = sub64 (length b'.storage) b'.write_index in
          (ok region, record b' { prepared_bytes = region }))
    else (err logic_error, b)

unfoldable pub commit : ℕ → Buffer → Result (Unit {0}) × Buffer
commit count b =
    if ltb b.prepared_bytes count
    then (err out_of_range, b)
    else (ok tt, record b { write_index = add64 b.write_index count; prepared_bytes = 0 })

unfoldable pub clear : Buffer → Buffer
clear b = record b { read_index = 0; write_index = 0; prepared_bytes = 0 }

unfoldable pub consume : ℕ → Buffer → Result (Unit {0}) × Buffer
consume count b =
    let read = add64 b.read_index count in
    if b.prepared_bytes == 0
    then (if ltb (readable_bytes b) count
        then (err out_of_range, b)
        else if read == b.write_index
        then (ok tt, clear (record b { read_index = read }))
        else (ok tt, record b { read_index = read }))
    else (err logic_error, b)

-- One round of `append`; the result is the bytes that are left.
unfoldable pub append_round : Bytes → Buffer → Result Bytes × Buffer
append_round bytes b = and_then (prepare 1 b) λ region b₁.
    let count = min region (length bytes) in
    let b₂ = record b₁ { storage = write_at b₁.write_index (take count bytes) b₁.storage } in
    and_then (commit count b₂) λ _ b₃. (ok (drop count bytes), b₃)

-- `while (!bytes.empty())`; a round writes at least one byte, so that `length bytes` rounds do.
unfoldable pub append_loop : ℕ → Bytes → Buffer → Result (Unit {0}) × Buffer
append_loop fuel [] b = (ok tt, b)
append_loop zero (x ∷ bytes) b = (ok tt, b)
append_loop (suc fuel) (x ∷ bytes) b =
    and_then (append_round (x ∷ bytes) b) λ rest b'. append_loop fuel rest b'

unfoldable pub append : Bytes → Buffer → Result (Unit {0}) × Buffer
append bytes b = append_loop (length bytes) bytes b

-- `std::search` for "\r\n"
unfoldable pub search_crlf : Bytes → Option ℕ
search_crlf [] = none
search_crlf (x ∷ []) = none
search_crlf (x ∷ (y ∷ rest)) =
    if x == 13 && y == 10 then some 0 else Option.map suc (search_crlf (y ∷ rest))

-- The index into the storage of the byte that the returned pointer points at.
unfoldable pub find_crlf : Buffer → Option ℕ
find_crlf b = Option.map (λ i. b.read_index + i) (search_crlf (readable_view b))

unfoldable pub take_string : ℕ → Buffer → Result Bytes × Buffer
take_string count b =
    if ltb (readable_bytes b) count
    then (err out_of_range, b)
    else let result = take count (drop b.read_index b.storage) in
      and_then (consume count b) λ _ b'. (ok result, b')
