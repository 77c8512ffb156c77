-- ===== src/Cache/Key.antt =====
-- The cache key of src/http/response_cache.cpp, and what two requests with one key have in common.
use pulsegate.Base.{
  ℕ, ◌+◌, ◌≡◌, ◌≢◌, refl, ap, sym, ◌∙◌, none, some, List, [], ◌∷◌, ◌++◌, Bytes, codes, length, take,
  drop, to_string, scan_digits, digit_value, scan-to_string, append_assoc, take-append_length,
  drop-append_length, find_byte, up_to,
}
use pulsegate.Headers.{get, values}
use pulsegate.Request.{HttpRequest}
use pulsegate.Cache.Policy.{ResponseCacheConfig, lower}

-- `appendField`, of the text that is appended.
unfoldable pub field : Bytes → Bytes
field value = to_string (length value) ++ 58 ∷ (value ++ 124 ∷ [])

unfoldable pub append_fields : List Bytes → Bytes
unfolding field
append_fields [] = []
append_fields (value ∷ more) = field value ++ append_fields more

-- The fields of one `Vary` header: its name, its values, and an empty field.
unfoldable pub vary_fields : HttpRequest → List Bytes → List Bytes
vary_fields request [] = []
vary_fields request (header ∷ more) =
    header ∷ (values header request.headers ++ ([] ∷ vary_fields request more))

unfoldable pub path_of : Bytes → Bytes
unfolding up_to
path_of target = let path = up_to 63 target in elim path [ [] ↦ 47 ∷ [] | x ∷ xs ↦ x ∷ xs ]

unfoldable pub query_of : Bytes → Bytes
query_of target = elim (find_byte 63 target) [ none ↦ [] | some i ↦ drop (i + 1) target ]

unfoldable pub host_of : HttpRequest → Bytes
host_of request = elim (get (codes "host") request.headers) [ none ↦ [] | some host ↦ host ]

unfoldable pub key_fields : HttpRequest → ResponseCacheConfig → List Bytes
unfolding vary_fields path_of query_of host_of
key_fields request config =
    codes "http"
    ∷ (lower (host_of request)
        ∷ (path_of request.target
            ∷ (query_of request.target ∷ vary_fields request config.vary_headers)))

unfoldable pub make_key : HttpRequest → ResponseCacheConfig → Bytes
unfolding append_fields key_fields
make_key request config = append_fields (key_fields request config)

scan_stops : (n : ℕ) (rest : Bytes) → scan_digits 10 n (58 ∷ rest) ≡ (n, 58 ∷ rest)
unfolding scan_digits digit_value
scan_stops n rest = refl

cons_tail : Bytes → Bytes
cons_tail [] = []
cons_tail (x ∷ xs) = xs

-- What can be read off a text that begins with a field.
scan-field :
    (v rest : Bytes) → scan_digits 10 0 (field v ++ rest) ≡ (length v, 58 ∷ (v ++ 124 ∷ rest))
unfolding field
scan-field v rest =
    ap (scan_digits 10 0) (
      append_assoc (to_string (length v)) (58 ∷ (v ++ 124 ∷ [])) rest
      ∙ ap (λ t. to_string (length v) ++ 58 ∷ t) (append_assoc v (124 ∷ []) rest))
    ∙ scan-to_string (length v) (58 ∷ (v ++ 124 ∷ rest))
    ∙ scan_stops (length v) (v ++ 124 ∷ rest)

-- A field is never the beginning of another: from the text the value and what follows are known.
field_unique : (v w r s : Bytes) → field v ++ r ≡ field w ++ s → (v ≡ w) × (r ≡ s)
unfolding cons_tail
field_unique v w r s h =
    let both : (length v, 58 ∷ (v ++ 124 ∷ r)) ≡ (length w, 58 ∷ (w ++ 124 ∷ s)) =
      sym (scan-field v r) ∙ ap (scan_digits 10 0) h ∙ scan-field w s in
    let len : length v ≡ length w = ap (λ (t : ℕ × Bytes). t.0) both in
    let text : v ++ 124 ∷ r ≡ w ++ 124 ∷ s = ap (λ (t : ℕ × Bytes). cons_tail t.1) both in
    (
      sym (take-append_length (length v) v (124 ∷ r) refl)
          ∙ ap (take (length v)) text
          ∙ take-append_length (length v) w (124 ∷ s) len,
      ap cons_tail (
          sym (drop-append_length (length v) v (124 ∷ r) refl)
          ∙ ap (drop (length v)) text
          ∙ drop-append_length (length v) w (124 ∷ s) len),
    )

scan_nothing : (scan_digits 10 0 []).1 ≡ []
unfolding scan_digits
scan_nothing = refl

field_not_empty : (v r : Bytes) → field v ++ r ≢ []
field_not_empty v r h = cc (
    sym (ap (λ (t : ℕ × Bytes). t.1) (scan-field v r))
    ∙ ap (λ t. (scan_digits 10 0 t).1) h
    ∙ scan_nothing)

append_fields_unique : (vs ws : List Bytes) → append_fields vs ≡ append_fields ws → vs ≡ ws
append_fields_unique [] [] h = refl
append_fields_unique [] (w ∷ ws) h =
    absurd (field_not_empty w (append_fields ws) (unfold append_fields in sym h))
append_fields_unique (v ∷ vs) [] h =
    absurd (field_not_empty v (append_fields vs) (unfold append_fields in h))
append_fields_unique (v ∷ vs) (w ∷ ws) h =
    let (head, tail) = field_unique v w (append_fields vs) (append_fields ws) (split h) in
    ap (λ t. t ∷ vs) head ∙ ap (λ t. w ∷ t) (append_fields_unique vs ws tail)
  where
    split :
        append_fields (v ∷ vs) ≡ append_fields (w ∷ ws)
        → field v ++ append_fields vs ≡ field w ++ append_fields ws
    split e = unfold append_fields in e

-- No value of the list is empty.
abbrev pub NoneEmpty : List Bytes → Type 0
NoneEmpty [] = Unit {0}
NoneEmpty (v ∷ vs) = (v ≢ []) × NoneEmpty vs

abbrev pub NoEmptyValue : HttpRequest → List Bytes → Type 0
NoEmptyValue r [] = Unit {0}
NoEmptyValue r (header ∷ more) = NoneEmpty (values header r.headers) × NoEmptyValue r more

abbrev pub SameValues : HttpRequest → HttpRequest → List Bytes → Type 0
SameValues r q [] = Unit {0}
SameValues r q (header ∷ more) =
    (values header r.headers ≡ values header q.headers) × SameValues r q more

-- Where no value is empty, the empty field ends the values.
values_unique :
    (vs ws r s : List Bytes)
    → NoneEmpty vs
    → NoneEmpty ws
    → vs ++ ([] ∷ r) ≡ ws ++ ([] ∷ s)
    → (vs ≡ ws) × (r ≡ s)
values_unique [] [] r s a b h = (refl, cc h)
values_unique [] (w ∷ ws) r s a b h = absurd (b.0 (cc h))
values_unique (v ∷ vs) [] r s a b h = absurd (a.0 (cc h))
values_unique (v ∷ vs) (w ∷ ws) r s a b h =
    let tails : vs ++ ([] ∷ r) ≡ ws ++ ([] ∷ s) = cc h in
    let heads : v ≡ w = cc h in
    let (same, rest) = values_unique vs ws r s a.1 b.1 tails in
    (ap (λ t. t ∷ vs) heads ∙ ap (λ t. w ∷ t) same, rest)

vary_fields_unique :
    (r q : HttpRequest) (headers : List Bytes)
    → NoEmptyValue r headers
    → NoEmptyValue q headers
    → vary_fields r headers ≡ vary_fields q headers
    → SameValues r q headers
unfolding vary_fields
vary_fields_unique r q [] a b h = tt
vary_fields_unique r q (header ∷ more) a b h =
    let (same, rest) =
      values_unique (values header r.headers) (values header q.headers) (vary_fields r more)
        (vary_fields q more) a.0 b.0 (cc h) in
    (same, vary_fields_unique r q more a.1 b.1 rest)

-- Two requests with the same cache key, neither of which has an empty value in a configured `Vary`
-- header, have the same host up to case, the same path, the same query, and the same values in each of
-- these headers, in the same order.
pub make_key_unique :
    (r q : HttpRequest) (config : ResponseCacheConfig)
    → NoEmptyValue r config.vary_headers
    → NoEmptyValue q config.vary_headers
    → make_key r config ≡ make_key q config
    → (lower (host_of r) ≡ lower (host_of q))
      × (path_of r.target ≡ path_of q.target)
      × (query_of r.target ≡ query_of q.target)
      × SameValues r q config.vary_headers
unfolding make_key key_fields
make_key_unique r q config a b h =
    let same : key_fields r config ≡ key_fields q config =
      append_fields_unique (key_fields r config) (key_fields q config) h in
    (cc same, cc same, cc same, vary_fields_unique r q config.vary_headers a b (cc same))

-- With two `Vary` headers the key does not tell apart a request that has an empty value and then the
-- second header's name as values of the first header, and none of the second, from one that has these
-- two values in the second header and none in the first, where host and target are the same.
pub make_key_collides :
    (r q : HttpRequest) (config : ResponseCacheConfig) (a b : Bytes)
    → config.vary_headers ≡ a ∷ b ∷ []
    → r.target ≡ q.target
    → host_of r ≡ host_of q
    → values a r.headers ≡ [] ∷ b ∷ []
    → values b r.headers ≡ []
    → values a q.headers ≡ []
    → values b q.headers ≡ [] ∷ b ∷ []
    → (make_key r config ≡ make_key q config) × ¬ SameValues r q config.vary_headers
unfolding make_key key_fields vary_fields
make_key_collides r q config a b two target host ra rb qa qb =
    (rw (two, target, host, ra, rb, qa, qb) refl, rw two (λ same. cc (ra, qa, same.0)))
