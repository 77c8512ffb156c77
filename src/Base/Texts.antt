-- ===== src/Base/Texts.antt =====
-- Byte strings: a `char` is its unsigned value, a number below 256.
use Prim.Native.Nat.{ℕ, suc, ◌+◌}
use Prim.Native.Char.{code}
use Prim.Native.String.{String}
use mathlib.Core.Path.{◌≡◌, refl}
use mathlib.Core.Bool.{Bool, true, false, ◌&&◌, ◌||◌}
use mathlib.Core.List.{List, [], ◌∷◌, reverse}
use pulsegate.Base.Lists.{drop, take}
use mathlib.Core.Option.{Option, none, some}
use mathlib.Core.Option
use mathlib.Core.Logic.{◌↔◌}
use native.Mathlib.Omega.{arith}
use pulsegate.Base.Tests.{◌==◌, leb, if◌then◌else◌}

abbrev pub Bytes : Type 0
Bytes = List ℕ

-- The code points of a literal: its bytes, since the literals of the source are ASCII.
abbrev pub codes : String → Bytes
codes String.[] = []
codes (String.◌∷◌ c s) = code c ∷ codes s

-- `==` on strings
unfoldable pub bytes_eq : Bytes → Bytes → Bool
bytes_eq [] [] = true
bytes_eq [] (y ∷ ys) = false
bytes_eq (x ∷ xs) [] = false
bytes_eq (x ∷ xs) (y ∷ ys) = x == y && bytes_eq xs ys

pub bytes_eq_refl : (xs : Bytes) → bytes_eq xs xs ≡ true
unfolding bytes_eq
bytes_eq_refl [] = refl
bytes_eq_refl (x ∷ xs) = ground (arith, bytes_eq_refl xs)

pub bytes_eq→eq : (xs ys : Bytes) → bytes_eq xs ys ≡ true → xs ≡ ys
unfolding bytes_eq
bytes_eq→eq [] [] h = refl
bytes_eq→eq [] (y ∷ ys) h = cc
bytes_eq→eq (x ∷ xs) [] h = cc
bytes_eq→eq (x ∷ xs) (y ∷ ys) h = ground (arith, bytes_eq→eq xs ys)

pub bytes_eq_iff : (xs ys : Bytes) → (bytes_eq xs ys ≡ true) ↔ (xs ≡ ys)
bytes_eq_iff xs ys = (bytes_eq→eq xs ys, λ e. rw e (bytes_eq_refl ys))

-- `std::string_view::find(char)`
unfoldable pub find_byte : ℕ → Bytes → Option ℕ
find_byte c [] = none
find_byte c (x ∷ xs) = if x == c then some 0 else Option.map suc (find_byte c xs)

-- `std::string_view::find(char, pos)`
unfoldable pub find_from : ℕ → ℕ → Bytes → Option ℕ
find_from c pos xs = Option.map (λ i. pos + i) (find_byte c (drop pos xs))

-- `substr(0, find(c))`: the whole text where `c` is missing.
unfoldable pub up_to : ℕ → Bytes → Bytes
up_to c value = elim (find_byte c value) [ none ↦ value | some i ↦ take i value ]

-- `std::tolower` of the C locale
unfoldable pub to_lower : ℕ → ℕ
to_lower c = if leb 65 c && leb c 90 then c + 32 else c

abbrev pub is_blank : ℕ → Bool
is_blank c = c == 32 || c == 9

-- `while (!value.empty() && (value.front() == ' ' || value.front() == '\t')) value.remove_prefix(1)`
unfoldable pub trim_front : Bytes → Bytes
trim_front [] = []
trim_front (x ∷ xs) = if is_blank x then trim_front xs else x ∷ xs

-- The same loop at the other end.
unfoldable pub trim_back : Bytes → Bytes
trim_back value = reverse (trim_front (reverse value))

-- Both loops, as four functions of the source write them.
unfoldable pub trim : Bytes → Bytes
trim value = trim_back (trim_front value)
