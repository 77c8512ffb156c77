-- ===== src/Config/Endpoint.antt =====
-- `endpointFromText` of src/http/config.cpp.
use pulsegate.Base.{
  ℕ, ◌+◌, ◌-◌, not, ◌||◌, Option, none, some, [], ◌∷◌, Bytes, length, take, drop, get_or, find_byte,
  leb, ◌==◌, if◌then◌else◌, Result, ok, err, invalid_argument,
}
use pulsegate.Config.{UpstreamEndpoint}
use pulsegate.Config.Validate.{is_empty}

-- `rfind`, of one character.
unfoldable pub rfind_byte : ℕ → Bytes → Option ℕ
rfind_byte c [] = none
rfind_byte c (x ∷ xs) = elim (rfind_byte c xs) [
  | some i ↦ some (i + 1)
  | none ↦ if x == c then some 0 else none
]

unfoldable pub complete : Bytes → Bytes → Result UpstreamEndpoint
complete host service =
    if is_empty host || is_empty service
    then err invalid_argument
    else ok (record { host = host; service = service })

-- The text begins with a bracket, and `closing` is where the first `]` is.
unfoldable pub bracketed : Bytes → Option ℕ → Result UpstreamEndpoint
unfolding complete
bracketed value none = err invalid_argument
bracketed value (some closing) =
    if leb (length value) (closing + 1) || not (get_or value (closing + 1) 0 == 58)
    then err invalid_argument
    else complete (take (closing - 1) (drop 1 value)) (drop (closing + 2) value)

unfoldable pub plain : Bytes → Option ℕ → Result UpstreamEndpoint
unfolding complete
plain value none = err invalid_argument
plain value (some separator) = complete (take separator value) (drop (separator + 1) value)

unfoldable pub endpoint_from_text : Bytes → Result UpstreamEndpoint
unfolding bracketed plain
endpoint_from_text [] = plain [] (rfind_byte 58 [])
endpoint_from_text (x ∷ xs) =
    if x == 91
    then bracketed (x ∷ xs) (find_byte 93 (x ∷ xs))
    else plain (x ∷ xs) (rfind_byte 58 (x ∷ xs))
