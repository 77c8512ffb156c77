-- ===== src/Headers/Lookup.antt =====
-- The header list of src/http/headers.cpp as a map from normalized names to values.
use pulsegate.Base.{
  ℕ, ◌≡◌, refl, ◌∙◌, Bool, Option, none, some, List, [], ◌∷◌, ◌++◌, Bytes, arith, bytes_eq,
  bytes_eq_iff, to_lower, if◌then◌else◌, append-nil,
}
use pulsegate.Headers.{
  Headers, normalize_header_name, add, erase_named, erase, set, find_named, get, values_named,
  values,
}

abbrev pub same_name : Bytes → Bytes → Bool
same_name a b = bytes_eq (normalize_header_name a) (normalize_header_name b)

abbrev pub first : List Bytes → Option Bytes
first [] = none
first (v ∷ vs) = some v

to_lower_twice : (c : ℕ) → to_lower (to_lower c) ≡ to_lower c
unfolding to_lower
to_lower_twice c = ground arith

pub normalize_header_name_twice :
    (name : Bytes) → normalize_header_name (normalize_header_name name) ≡ normalize_header_name name
unfolding normalize_header_name
normalize_header_name_twice [] = refl
normalize_header_name_twice (c ∷ cs) = rw (to_lower_twice c, normalize_header_name_twice cs)

values_named-append :
    (n : Bytes) (hs hs' : Headers)
    → values_named n (hs ++ hs') ≡ values_named n hs ++ values_named n hs'
unfolding values_named
values_named-append n [] hs' = refl
values_named-append n (h ∷ hs) hs' = ground (arith, values_named-append n hs hs')

values_named-erase_named :
    (n m : Bytes) (hs : Headers)
    → values_named n (erase_named m hs) ≡ (if bytes_eq m n then [] else values_named n hs)
unfolding values_named erase_named
values_named-erase_named n m [] = ground arith
values_named-erase_named n m (h ∷ hs) = ground (
  arith,
  values_named-erase_named n m hs,
  bytes_eq_iff h.name m,
  bytes_eq_iff h.name n,
  bytes_eq_iff m n,
)

find_named-first : (n : Bytes) (hs : Headers) → find_named n hs ≡ first (values_named n hs)
unfolding find_named values_named
find_named-first n [] = refl
find_named-first n (h ∷ hs) = ground (arith, find_named-first n hs)

module _ (name : Bytes) (entries : Headers) where
  pub get-first : get name entries ≡ first (values name entries)
  unfolding get values
  get-first = find_named-first (normalize_header_name name) entries

  pub values-add :
      (added value : Bytes)
      → values name (add added value entries)
        ≡ values name entries ++ (if same_name added name then value ∷ [] else [])
  unfolding values add
  values-add added value =
      values_named-append (normalize_header_name name) entries _ ∙ (unfold values_named in refl)

  pub values-erase :
      (erased : Bytes)
      → values name (erase erased entries)
        ≡ (if same_name erased name then [] else values name entries)
  unfolding values erase
  values-erase erased =
      values_named-erase_named (normalize_header_name name) (normalize_header_name erased) entries

-- After `set` the header has the one value that was set, under every spelling of its name in upper
-- and lower case, and the values of all other headers are what they were, in their order.
pub values-set :
    (name changed value : Bytes) (entries : Headers)
    → values name (set changed value entries)
      ≡ (if same_name changed name then value ∷ [] else values name entries)
unfolding set
values-set name changed value entries =
    rw (values-add name (erase changed entries) changed value, values-erase name entries changed)
      (ground (arith, append-nil (values name entries)))
