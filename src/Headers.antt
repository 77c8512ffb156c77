-- ===== src/Headers.antt =====
-- include/pulsegate/http/headers.h and src/http/headers.cpp: the header list of a message.
pub mod Lookup
pub mod Tokens
mod Tests
use pulsegate.Base.{
  ℕ, zero, suc, ◌+◌, ◌≤◌, ◌<◌, Bool, true, false, not, ◌&&◌, ◌||◌, Option, none, some, List, [],
  ◌∷◌, ◌++◌, map, Bytes, codes, length, take, drop, all_of, any_of, bytes_eq, find_byte, to_lower,
  trim, ltb, leb, ◌==◌, if◌then◌else◌,
}

pub record Header : Type 0 where
  pub name : Bytes
  pub value : Bytes

abbrev pub Headers : Type 0
Headers = List Header

unfoldable pub equal_lower : Bytes → Bytes → Bool
equal_lower [] right = true
equal_lower (x ∷ xs) [] = true
equal_lower (x ∷ xs) (y ∷ ys) = to_lower x == to_lower y && equal_lower xs ys

-- `std::equal` runs over the left string, once the sizes agree.
unfoldable pub equals_ignore_case : Bytes → Bytes → Bool
equals_ignore_case left right = length left == length right && equal_lower left right

abbrev pub token_punctuation : Bytes
token_punctuation = codes "!#$%&'*+-.^_`|~"

-- `std::isalnum` of the C locale
abbrev pub is_alnum : ℕ → Bool
is_alnum c = (leb 48 c && leb c 57) || ((leb 65 c && leb c 90) || (leb 97 c && leb c 122))

unfoldable pub is_token_character : ℕ → Bool
is_token_character c = is_alnum c || any_of (λ p. p == c) token_punctuation

unfoldable pub normalize_header_name : Bytes → Bytes
normalize_header_name name = map to_lower name

unfoldable pub is_valid_header_name : Bytes → Bool
is_valid_header_name [] = false
is_valid_header_name (x ∷ xs) = all_of is_token_character (x ∷ xs)

unfoldable pub is_valid_header_value : Bytes → Bool
is_valid_header_value value = not (any_of (λ c. c == 13 || (c == 10 || c == 0)) value)

unfoldable pub add : Bytes → Bytes → Headers → Headers
add name value entries = entries ++ record { name = normalize_header_name name; value = value } ∷ []

-- `std::erase_if`
unfoldable pub erase_named : Bytes → Headers → Headers
erase_named normalized [] = []
erase_named normalized (h ∷ hs) =
    let rest = erase_named normalized hs in if bytes_eq h.name normalized then rest else h ∷ rest

unfoldable pub erase : Bytes → Headers → Headers
unfolding erase_named
erase name entries = erase_named (normalize_header_name name) entries

unfoldable pub set : Bytes → Bytes → Headers → Headers
set name value entries = add name value (erase name entries)

-- `std::find_if`
unfoldable pub find_named : Bytes → Headers → Option Bytes
find_named normalized [] = none
find_named normalized (h ∷ hs) =
    if bytes_eq h.name normalized then some h.value else find_named normalized hs

unfoldable pub get : Bytes → Headers → Option Bytes
unfolding find_named
get name entries = find_named (normalize_header_name name) entries

unfoldable pub contains : Bytes → Headers → Bool
contains name entries = elim (get name entries) [ none ↦ false | some _ ↦ true ]

unfoldable pub values_named : Bytes → Headers → List Bytes
values_named normalized [] = []
values_named normalized (h ∷ hs) =
    let rest = values_named normalized hs in
    if bytes_eq h.name normalized then h.value ∷ rest else rest

unfoldable pub values : Bytes → Headers → List Bytes
unfolding values_named
values name entries = values_named (normalize_header_name name) entries

-- `while (!value.empty())`; a round removes at least the comma, so that `length value` rounds do.
unfoldable pub contains_token_loop : ℕ → Bytes → Bytes → Bool
contains_token_loop fuel [] token = false
contains_token_loop zero (x ∷ xs) token = false
contains_token_loop (suc fuel) (x ∷ xs) token = elim (find_byte 44 (x ∷ xs)) [
  | none ↦ equals_ignore_case (trim (x ∷ xs)) token
  | some comma ↦
      let later = contains_token_loop fuel (drop (comma + 1) (x ∷ xs)) token in
      if equals_ignore_case (trim (take comma (x ∷ xs))) token then true else later
]

unfoldable pub contains_token : Bytes → Bytes → Bool
contains_token value token = contains_token_loop (length value) value token
