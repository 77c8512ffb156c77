-- ===== src/Buffer/Tests.antt =====
-- The theorems on the buffer at concrete inputs.
use pulsegate.Base.{
  ℕ, ◌+◌, ◌≡◌, ◌≢◌, ◌⊎◌, refl, List, [], ◌∷◌, ◌++◌, Bytes, codes, none, some, ok, arith, drop,
  sub64,
}
use pulsegate.Buffer.{
  Buffer, init, resize, readable_view, readable_bytes, append, find_crlf, consume,
}
use pulsegate.Buffer.Inv.{IsValid}
use pulsegate.Buffer.Stream.{Shows, consume-Shows}
use pulsegate.Buffer.Append.{Appends, append-Appends}
use pulsegate.Buffer.Search.{find_crlf_lem, FirstCrlf}
use pulsegate.Buffer.Steps.{
  Call, prepares, receives, commits, appends, consumes, run, run-init-IsValid,
}

-- Eight bytes of storage of which three are read and two are free.
abbrev partly_read : Buffer
partly_read = record {
  storage = 65 ∷ 66 ∷ 67 ∷ 68 ∷ 13 ∷ 10 ∷ 0 ∷ 0 ∷ [];
  read_index = 3;
  write_index = 6;
  prepared_bytes = 0;
  maximum_size = 8;
}

partly_read-IsValid : IsValid partly_read
partly_read-IsValid = omega arith

-- The fourth byte does not fit behind the write index: the readable bytes move to the front.
append-Appends_example : Appends (codes "wxyz") partly_read (append (codes "wxyz") partly_read)
append-Appends_example = append-Appends (codes "wxyz") partly_read partly_read-IsValid refl

three_readable : 3 ≡ readable_bytes partly_read
unfolding readable_bytes sub64
three_readable = refl

find_crlf_lem_example :
    ((i : ℕ) × (find_crlf partly_read ≡ some (3 + i)) × FirstCrlf i (readable_view partly_read))
    ⊎ ((find_crlf partly_read ≡ none)
        × ((l r : Bytes) → readable_view partly_read ≢ l ++ 13 ∷ 10 ∷ r))
find_crlf_lem_example = find_crlf_lem partly_read

consume-Shows_example :
    (b' : Buffer) × (consume 2 partly_read ≡ (ok tt, b'))
    × Shows partly_read (drop 2 (readable_view partly_read)) b'
consume-Shows_example =
    consume-Shows partly_read partly_read-IsValid refl 2 (omega (arith, three_readable))

abbrev new_buffer : Buffer
new_buffer = record {
  storage = 0 ∷ 0 ∷ 0 ∷ 0 ∷ [];
  read_index = 0;
  write_index = 0;
  prepared_bytes = 0;
  maximum_size = 8;
}

abbrev calls : List Call
calls =
    prepares 3 ∷ receives (codes "ab") ∷ commits 2 ∷ consumes 1 ∷ appends (codes "cdefghijkl") ∷ []

new_buffer-init : init 4 8 ≡ ok new_buffer
unfolding init resize
new_buffer-init = refl

run-init-IsValid_example : IsValid (run calls new_buffer)
run-init-IsValid_example = run-init-IsValid 4 8 new_buffer calls (omega arith) new_buffer-init
