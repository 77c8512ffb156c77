-- ===== src/Headers/Tokens.antt =====
-- `containsToken` of src/http/headers.cpp against the comma separated parts of a value.
use pulsegate.Base.{
  ℕ, zero, suc, ◌+◌, ◌≤◌, ◌≡◌, refl, Bool, Option, none, some, [], ◌∷◌, Bytes, length, drop, any_of,
  find_byte, trim, arith, segments, Cuts, find_byte-Cuts, length-drop,
}
use pulsegate.Headers.{equals_ignore_case, contains_token_loop, contains_token}

abbrev pub is_token : Bytes → Bytes → Bool
is_token token part = equals_ignore_case (trim part) token

contains_token_loop-segments :
    (fuel : ℕ) (value token : Bytes)
    → length value ≤ fuel
    → contains_token_loop fuel value token ≡ any_of (is_token token) (segments 44 value)
unfolding contains_token_loop any_of segments
contains_token_loop-segments fuel [] token h = refl
contains_token_loop-segments zero (x ∷ xs) token h = absurd (omega arith)
contains_token_loop-segments (suc fuel) (x ∷ xs) token h =
    go (find_byte 44 (x ∷ xs)) refl (find_byte-Cuts 44 (x ∷ xs) (omega arith))
      (λ i. contains_token_loop-segments fuel (drop (i + 1) (x ∷ xs)) token)
  where
    go :
        (o : Option ℕ)
        → find_byte 44 (x ∷ xs) ≡ o
        → Cuts 44 (x ∷ xs) o
        → ((i : ℕ)
            → length (drop (i + 1) (x ∷ xs)) ≤ fuel
            → contains_token_loop fuel (drop (i + 1) (x ∷ xs)) token
              ≡ any_of (is_token token) (segments 44 (drop (i + 1) (x ∷ xs))))
        → contains_token_loop (suc fuel) (x ∷ xs) token
          ≡ any_of (is_token token) (segments 44 (x ∷ xs))
    go none e cut ih = rw (e, contains_token_loop, cut) (ground arith)
    go (some i) e cut ih =
        rw (e, contains_token_loop, cut.1)
          (ground (arith, ih i (omega (arith, length-drop (i + 1) (x ∷ xs)))))

-- `containsToken` says whether one of the comma separated parts, with the blanks around it taken off,
-- is the token in upper or lower case.
pub contains_token-segments :
    (value token : Bytes)
    → contains_token value token
      ≡ any_of (λ part. equals_ignore_case (trim part) token) (segments 44 value)
unfolding contains_token
contains_token-segments value token =
    contains_token_loop-segments (length value) value token (omega arith)
