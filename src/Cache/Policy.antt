-- ===== src/Cache/Policy.antt =====
-- The tests of src/http/response_cache.cpp on what may be cached.
use pulsegate.Base.{
  ℕ, zero, suc, ◌+◌, Bool, true, false, not, ◌&&◌, ◌||◌, none, some, List, [], ◌∷◌, map, Bytes,
  codes, bytes_eq, length, take, drop, any_of, find_byte, up_to, to_lower, trim, ltb, ◌==◌,
  if◌then◌else◌, ℤ, pos, negsuc,
}
use pulsegate.Headers.{Headers, contains, values, normalize_header_name, is_valid_header_name}
use pulsegate.Request.{HttpMethod, HttpRequest}
use pulsegate.Response.{HttpResponse}

pub record ResponseCacheConfig : Type 0 where
  pub ttl : ℕ
  pub max_entry_bytes : ℕ
  pub max_bytes : ℕ
  pub shard_count : ℕ
  pub vary_headers : List Bytes

unfoldable pub lower : Bytes → Bytes
lower value = map to_lower value

-- The name of a directive: what stands before its `=`.
unfoldable pub directive_name : Bytes → Bytes
directive_name item = lower (trim (up_to 61 (trim item)))

-- `while (!value.empty())`; a round removes at least the comma.
unfoldable pub contains_directive_loop : ℕ → Bytes → Bytes → Bool
contains_directive_loop fuel [] directive = false
contains_directive_loop zero (x ∷ xs) directive = false
contains_directive_loop (suc fuel) (x ∷ xs) directive = elim (find_byte 44 (x ∷ xs)) [
  | none ↦ bytes_eq (directive_name (x ∷ xs)) directive
  | some comma ↦
      let later = contains_directive_loop fuel (drop (comma + 1) (x ∷ xs)) directive in
      if bytes_eq (directive_name (take comma (x ∷ xs))) directive then true else later
]

unfoldable pub contains_directive : Bytes → Bytes → Bool
contains_directive value directive = contains_directive_loop (length value) value directive

unfoldable pub has_sensitive_response_headers : Headers → Bool
has_sensitive_response_headers headers =
    contains (codes "set-cookie") headers
    || any_of
        (λ value.
          contains_directive value (codes "no-store") || contains_directive value (codes "private"))
        (values (codes "cache-control") headers)

-- The test of one name of a `Vary` header.
unfoldable pub is_covered : List Bytes → Bytes → Bool
is_covered vary_headers item =
    let name = normalize_header_name (trim item) in
    is_valid_header_name name
    && (not (bytes_eq name (codes "*"))
        && any_of (λ header. bytes_eq (normalize_header_name header) name) vary_headers)

unfoldable pub vary_loop : ℕ → List Bytes → Bytes → Bool
vary_loop fuel vary_headers [] = true
vary_loop zero vary_headers (x ∷ xs) = true
vary_loop (suc fuel) vary_headers (x ∷ xs) = elim (find_byte 44 (x ∷ xs)) [
  | none ↦ is_covered vary_headers (x ∷ xs)
  | some comma ↦
      let later = vary_loop fuel vary_headers (drop (comma + 1) (x ∷ xs)) in
      if is_covered vary_headers (take comma (x ∷ xs)) then later else false
]

unfoldable pub all_covered : List Bytes → List Bytes → Bool
all_covered vary_headers [] = true
all_covered vary_headers (value ∷ more) =
    vary_loop (length value) vary_headers value && all_covered vary_headers more

unfoldable pub vary_is_covered : Headers → ResponseCacheConfig → Bool
unfolding all_covered
vary_is_covered headers config = all_covered config.vary_headers (values (codes "vary") headers)

abbrev is_get_or_head : HttpMethod → Bool
is_get_or_head HttpMethod.get = true
is_get_or_head HttpMethod.head = true
is_get_or_head _ = false

unfoldable pub cacheable_request : HttpRequest → Bool
cacheable_request request =
    is_get_or_head request.method
    && (not (contains (codes "authorization") request.headers)
        && not (contains (codes "cookie") request.headers))

abbrev is_status_200 : ℤ → Bool
is_status_200 (pos n) = n == 200
is_status_200 (negsuc n) = false

unfoldable pub cacheable_response : HttpResponse → ResponseCacheConfig → Bool
cacheable_response response config =
    is_status_200 response.status_code
    && (not response.already_written
        && (ltb (length response.body) config.max_entry_bytes
            && (not (has_sensitive_response_headers response.headers)
                && vary_is_covered response.headers config)))
