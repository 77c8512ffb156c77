-- ===== src/ResponseParser/Limits.antt =====
-- The limits of src/http/http_response_parser.cpp: the size of a body, and the size of a chunk.
use pulsegate.Base.{
  ℕ, zero, suc, ◌+◌, ◌-◌, ◌≤◌, ◌<◌, ◌≡◌, refl, ap, sym, ◌∙◌, min, Bool, true, false, Option, none,
  some, List, [], ◌∷◌, Bytes, length, take, get_elem?, ltb, ◌==◌, add64, sub64, size_mod,
  sub64_exact, Result, ok, err, undefined_behaviour, arith, length-append, codes, up_to, find_byte,
  parse_number, from_chars, scan_digits, digit_value, if_keeps,
}
use pulsegate.Headers.{values}
use pulsegate.Buffer.{Buffer, readable_bytes, readable_view, find_crlf, consume}
use pulsegate.Buffer.Inv.{IsValid, length-readable_view, readable_bytes_exact}
use pulsegate.ResponseParser.{
  HttpResponseParser, ResponseParseState, ResponseParseResult, Verdict, fail, append_body,
  take_line, parse_status_line, parse_header, finish_headers, declared_body, after_status_line,
  after_headers, after_header, take_chunk_size, take_trailer, take_counted,
}
use pulsegate.ResponseParser.Rounds.{
  then_consumed, then_appended, line_case, fixed_verdict, fixed_round, chunk_case, chunk_round,
  eof_round, round, after_round, parse_loop, parse, is_chunk_end,
}

-- The body is within the limit.
pub record IsBounded (p : HttpResponseParser) : Type 0 where
  pub body : length p.response.body ≤ p.limits.max_body_bytes
  pub is_size : p.limits.max_body_bytes < size_mod

append_body-IsBounded :
    (bytes : Bytes) (p : HttpResponseParser) → IsBounded p → IsBounded (append_body bytes p).1
unfolding append_body
append_body-IsBounded bytes p v = ground (
  arith,
  v.body,
  v.is_size,
  length-append p.response.body bytes,
  sub64_exact p.limits.max_body_bytes (length p.response.body) v.body v.is_size,
)

parse_status_line-IsBounded :
    (line : Bytes) (p : HttpResponseParser) → IsBounded p → IsBounded (parse_status_line line p).1
unfolding parse_status_line
parse_status_line-IsBounded line p v = ground (arith, v.body, v.is_size)

parse_header-IsBounded :
    (line : Bytes) (p : HttpResponseParser) → IsBounded p → IsBounded (parse_header line p).1
unfolding parse_header
parse_header-IsBounded line p v = ground (arith, v.body, v.is_size)

declared_body-IsBounded :
    (vs : List Bytes) (p : HttpResponseParser) → IsBounded p → IsBounded (declared_body vs p).1
unfolding declared_body
declared_body-IsBounded [] p v = record { body = v.body; is_size = v.is_size }
declared_body-IsBounded (x ∷ []) p v = ground (arith, v.body, v.is_size)
declared_body-IsBounded (x ∷ (y ∷ more)) p v = v

finish_headers-IsBounded : (p : HttpResponseParser) → IsBounded p → IsBounded (finish_headers p).1
unfolding finish_headers
finish_headers-IsBounded p v = ground (
  arith,
  v.body,
  v.is_size,
  declared_body-IsBounded (values (codes "content-length") p.response.headers) p v,
)

fail-IsBounded :
    (result : ResponseParseResult) (p : HttpResponseParser)
    → IsBounded p
    → IsBounded (fail result p)
unfolding fail
fail-IsBounded result p v = record { body = v.body; is_size = v.is_size }

after_status_line-IsBounded :
    (n : ℕ) (r : ResponseParseResult × HttpResponseParser)
    → IsBounded r.1
    → IsBounded (after_status_line n r).1
unfolding after_status_line fail
after_status_line-IsBounded n (r, p) v = ground (arith, v.body, v.is_size)

after_headers-IsBounded :
    (r : ResponseParseResult × HttpResponseParser) → IsBounded r.1 → IsBounded (after_headers r).1
unfolding after_headers fail
after_headers-IsBounded (r, p) v = ground (arith, v.body, v.is_size)

after_header-IsBounded :
    (r : ResponseParseResult × HttpResponseParser) → IsBounded r.1 → IsBounded (after_header r).1
unfolding after_header fail
after_header-IsBounded (r, p) v = ground (arith, v.body, v.is_size)

take_chunk_size-IsBounded :
    (line : Bytes) (p : HttpResponseParser) → IsBounded p → IsBounded (take_chunk_size line p).1
unfolding take_chunk_size fail
take_chunk_size-IsBounded line p v = ground (arith, v.body, v.is_size)

take_trailer-IsBounded :
    (line : Bytes) (p : HttpResponseParser) → IsBounded p → IsBounded (take_trailer line p).1
unfolding take_trailer fail
take_trailer-IsBounded line p v = ground (arith, v.body, v.is_size)

take_counted-IsBounded :
    (line : Bytes) (p : HttpResponseParser) → IsBounded p → IsBounded (take_counted line p).1
unfolding take_counted
take_counted-IsBounded line p v = ground (
  arith,
  fail-IsBounded ResponseParseResult.header_too_large p v,
  take_trailer-IsBounded line p v,
  after_headers-IsBounded (finish_headers p) (finish_headers-IsBounded p v),
  after_header-IsBounded (parse_header line p) (parse_header-IsBounded line p v),
)

take_line-IsBounded :
    (line : Bytes) (p : HttpResponseParser) → IsBounded p → IsBounded (take_line line p).1
unfolding take_line
take_line-IsBounded line p v = ground (
  arith,
  fail-IsBounded ResponseParseResult.header_too_large p v,
  take_chunk_size-IsBounded line p v,
  take_counted-IsBounded line
      (record p { header_bytes = add64 p.header_bytes (add64 (length line) 2) })
      (record { body = v.body; is_size = v.is_size }),
  after_status_line-IsBounded (add64 (length line) 2) (parse_status_line line p)
      (parse_status_line-IsBounded line p v),
)

then_consumed-IsBounded :
    (next : HttpResponseParser → Verdict × HttpResponseParser) (p : HttpResponseParser)
    (r : Result (Unit {0}) × Buffer)
    → IsBounded p
    → IsBounded (next p).1
    → IsBounded (then_consumed next p r).1
unfolding then_consumed
then_consumed-IsBounded next p (ok _, input) v n = n
then_consumed-IsBounded next p (err e, input) v n = v

then_appended-IsBounded :
    (next : HttpResponseParser → Verdict × HttpResponseParser) (count : ℕ) (input : Buffer)
    (r : ResponseParseResult × HttpResponseParser)
    → IsBounded r.1
    → IsBounded (next r.1).1
    → IsBounded (then_appended next count input r).1
unfolding then_appended
then_appended-IsBounded next count input (ResponseParseResult.complete, p) v n =
    then_consumed-IsBounded next p (consume count input) v n
then_appended-IsBounded next count input (ResponseParseResult.need_more, p) v n =
    fail-IsBounded _ p v
then_appended-IsBounded next count input (ResponseParseResult.bad_response, p) v n =
    fail-IsBounded _ p v
then_appended-IsBounded next count input (ResponseParseResult.header_too_large, p) v n =
    fail-IsBounded _ p v
then_appended-IsBounded next count input (ResponseParseResult.body_too_large, p) v n =
    fail-IsBounded _ p v
then_appended-IsBounded next count input (ResponseParseResult.unsupported_transfer_encoding, p) v
      n =
    fail-IsBounded _ p v
then_appended-IsBounded next count input (ResponseParseResult.premature_eof, p) v n =
    fail-IsBounded _ p v

line_case-IsBounded :
    (p : HttpResponseParser) (input : Buffer) (found : Option ℕ)
    → IsBounded p
    → IsBounded (line_case p input found).1
unfolding line_case
line_case-IsBounded p input none v =
    ground (arith, v, fail-IsBounded ResponseParseResult.header_too_large p v)
line_case-IsBounded p input (some crlf) v =
    let size = sub64 crlf input.read_index in
    let line = take size (readable_view input) in
    then_consumed-IsBounded (take_line line) p (consume (add64 size 2) input) v
      (take_line-IsBounded line p v)

fixed_verdict-IsBounded : (p : HttpResponseParser) → IsBounded p → IsBounded (fixed_verdict p).1
unfolding fixed_verdict
fixed_verdict-IsBounded p v = ground (arith, v.body, v.is_size)

chunk_case-IsBounded :
    (p : HttpResponseParser) (input : Buffer) (found : Option Bool)
    → IsBounded p
    → IsBounded (chunk_case p input found).1
unfolding chunk_case
chunk_case-IsBounded p input none v = v
chunk_case-IsBounded p input (some false) v = fail-IsBounded ResponseParseResult.bad_response p v
chunk_case-IsBounded p input (some true) v =
    let w = append_body-IsBounded (take p.chunk_bytes (readable_view input)) p v in
    then_appended-IsBounded _ _ input _ w (record { body = w.body; is_size = w.is_size })

fixed_round-IsBounded :
    (p : HttpResponseParser) (input : Buffer) → IsBounded p → IsBounded (fixed_round p input).1
unfolding fixed_round
fixed_round-IsBounded p input v =
    let count = min (sub64 p.expected_body_bytes (length p.response.body)) (readable_bytes input) in
    let w = append_body-IsBounded (take count (readable_view input)) p v in
    if_keeps (λ (r : Result Verdict × HttpResponseParser × Buffer). IsBounded r.1) (count == 0) _ _
      (fixed_verdict-IsBounded p v)
      (then_appended-IsBounded fixed_verdict count input _ w (fixed_verdict-IsBounded _ w))

eof_round-IsBounded :
    (p : HttpResponseParser) (input : Buffer) → IsBounded p → IsBounded (eof_round p input).1
unfolding eof_round
eof_round-IsBounded p input v =
    let w = append_body-IsBounded (readable_view input) p v in
    if_keeps (λ (r : Result Verdict × HttpResponseParser × Buffer). IsBounded r.1)
      (readable_bytes input == 0) _ _ v
      (then_appended-IsBounded _ (readable_bytes input) input _ w w)

round-IsBounded :
    (p : HttpResponseParser) (input : Buffer) → IsBounded p → IsBounded (round p input).1
unfolding round chunk_round
round-IsBounded p input v = ground (
  arith,
  v,
  fixed_round-IsBounded p input v,
  eof_round-IsBounded p input v,
  line_case-IsBounded p input (find_crlf input) v,
  chunk_case-IsBounded p input (is_chunk_end p.chunk_bytes (readable_view input)) v,
)

parse_loop-IsBounded :
    (fuel : ℕ) (p : HttpResponseParser) (input : Buffer)
    → IsBounded p
    → IsBounded (parse_loop fuel p input).1
unfolding parse_loop after_round
parse_loop-IsBounded zero p input v = v
parse_loop-IsBounded (suc fuel) p input v =
    go (round p input) (round-IsBounded p input v) (parse_loop-IsBounded fuel)
  where
    go :
        (r : Result Verdict × HttpResponseParser × Buffer)
        → IsBounded r.1
        → ((q : HttpResponseParser) (b : Buffer) → IsBounded q → IsBounded (parse_loop fuel q b).1)
        → IsBounded (after_round (parse_loop fuel) r).1
    go (ok (some result), q, b) w ih = w
    go (ok none, q, b) w ih = ih q b w
    go (err e, q, b) w ih = w

get_elem?-beyond : (bytes : Bytes) (i : ℕ) → length bytes ≤ i → get_elem? bytes i ≡ none
get_elem?-beyond [] i h = refl
get_elem?-beyond (x ∷ xs) zero h = absurd (omega (arith, h))
get_elem?-beyond (x ∷ xs) (suc i) h = get_elem?-beyond xs i (omega (arith, h))

-- The size of the chunk that the line `fffffffffffffffe` announces, where adding 2 wraps to 0.
take_chunk_size-largest :
    (p : HttpResponseParser)
    → take_chunk_size (codes "fffffffffffffffe") p
      ≡ (none, record p { chunk_bytes = size_mod - 2; state = ResponseParseState.chunk_body })
unfolding take_chunk_size up_to find_byte parse_number from_chars scan_digits digit_value
take_chunk_size-largest p = refl

chunk_round-undefined :
    (p : HttpResponseParser) (b : Buffer)
    → IsValid b
    → b.maximum_size + 2 < size_mod
    → p.chunk_bytes ≡ size_mod - 2
    → chunk_round p b ≡ (err undefined_behaviour, p, b)
unfolding chunk_round chunk_case is_chunk_end
chunk_round-undefined p b v m h =
    let out : get_elem? (readable_view b) p.chunk_bytes ≡ none =
      get_elem?-beyond (readable_view b) p.chunk_bytes (
        omega (
          arith,
          h,
          m,
          length-readable_view b v,
          readable_bytes_exact b v,
          v.ordered,
          v.inside,
          v.bounded,
          v.is_size,
        )) in
    let none_at : is_chunk_end p.chunk_bytes (readable_view b) ≡ none =
      rw (is_chunk_end, out) refl in
    let fits : ltb (readable_bytes b) (add64 p.chunk_bytes 2) ≡ false =
      unfold add64 in ground (arith, h) in
    rw (fits, none_at) refl

-- After the chunk size line `fffffffffffffffe` the parser adds 2 to the size, which wraps to 0, and then
-- reads its buffer far outside the readable bytes: undefined behaviour, whatever valid buffer of a
-- maximum size that leaves room for the two bytes it is called with.
pub parse-undefined :
    (p q : HttpResponseParser) (b : Buffer)
    → IsValid b
    → b.maximum_size + 2 < size_mod
    → take_chunk_size (codes "fffffffffffffffe") p ≡ (none, q)
    → parse q b ≡ (err undefined_behaviour, q, b)
unfolding parse parse_loop round
parse-undefined p q b v m h =
    let made : record p { chunk_bytes = size_mod - 2; state = ResponseParseState.chunk_body } ≡ q =
      ap (λ (r : Verdict × HttpResponseParser). r.1) (sym (take_chunk_size-largest p) ∙ h) in
    rw
      (
        ← made,
        parse_loop,
        round,
        chunk_round-undefined
            (record p { chunk_bytes = size_mod - 2; state = ResponseParseState.chunk_body }) b v m
            refl,
        after_round,
      )
      refl

-- Whatever the buffer holds, `parse` of a parser whose body is within the limit, a `std::size_t`, leaves
-- a body within the limit: of a fixed, a chunked and an EOF-delimited body, and where it fails.
pub parse-IsBounded : (p : HttpResponseParser) (b : Buffer) → IsBounded p → IsBounded (parse p b).1
unfolding parse
parse-IsBounded p b v = ground (arith, v, parse_loop-IsBounded (suc (readable_bytes b)) p b v)
