-- ===== src/Base/Numbers.antt =====
-- `std::to_string` and `std::from_chars`, and `int` values that may be negative.
use Prim.Native.Nat.{ℕ, zero, suc, ◌+◌, ◌-◌, ◌*◌, ◌/◌, ◌%◌}
use mathlib.Core.Bool.{true, false, ◌&&◌}
use mathlib.Core.List.{[], ◌∷◌}
use mathlib.Core.Option.{Option, none, some}
use pulsegate.Base.Tests.{ltb, leb, if◌then◌else◌}
use pulsegate.Base.Texts.{Bytes}

-- `negsuc n` is -(n + 1).
pub data ℤ : Type 0 where
  pos : ℕ → ℤ
  negsuc : ℕ → ℤ

-- The digits of `n`, with `fuel` above the number of them.
unfoldable pub decimal_digits : ℕ → ℕ → Bytes → Bytes
decimal_digits zero n later = later
decimal_digits (suc fuel) n later = elim (ltb n 10) [
  | true ↦ (48 + n) ∷ later
  | false ↦ decimal_digits fuel (n / 10) ((48 + n % 10) ∷ later)
]

-- `std::to_string` of an unsigned number
unfoldable pub to_string : ℕ → Bytes
to_string n = decimal_digits (suc n) n []

unfoldable pub digit_value : ℕ → ℕ → Option ℕ
digit_value base c =
    if leb 48 c && leb c 57
    then (if ltb (c - 48) base then some (c - 48) else none)
    else if leb 97 c && leb c 122
    then (if ltb (c - 87) base then some (c - 87) else none)
    else if leb 65 c && leb c 90
    then (if ltb (c - 55) base then some (c - 55) else none)
    else none

-- The longest run of digits: its value, and what follows.
unfoldable pub scan_digits : ℕ → ℕ → Bytes → ℕ × Bytes
scan_digits base value [] = (value, [])
scan_digits base value (c ∷ cs) = elim (digit_value base c) [
  | none ↦ (value, c ∷ cs)
  | some d ↦ scan_digits base (value * base + d) cs
]

-- `std::from_chars` into an unsigned type of `limit` values: none where it reports an error.
unfoldable pub from_chars : ℕ → ℕ → Bytes → Option (ℕ × Bytes)
from_chars limit base [] = none
from_chars limit base (c ∷ cs) = elim (digit_value base c) [
  | none ↦ none
  | some d ↦
      let (value, rest) = scan_digits base d cs in
      if ltb value limit then some (value, rest) else none
]

-- `from_chars` that must read all the text, as its callers check.
unfoldable pub parse_number : ℕ → ℕ → Bytes → Option ℕ
parse_number limit base text = elim (from_chars limit base text) [
  | none ↦ none
  | some (value, []) ↦ some value
  | some (value, c ∷ rest) ↦ none
]
