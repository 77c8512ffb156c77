-- ===== src/Parser.antt =====
-- include/pulsegate/http/http_parser.h and src/http/http_parser.cpp: the incremental request parser.
pub mod View
pub mod Loop
pub mod Incremental
pub mod Safety
mod Tests
use pulsegate.Base.{
  ℕ, zero, suc, ◌+◌, ◌-◌, ◌*◌, ◌≤◌, ◌<◌, Bool, true, false, not, ◌&&◌, ◌||◌, Option, none, some,
  List, [], ◌∷◌, ◌++◌, Bytes, codes, length, take, drop, any_of, bytes_eq, find_byte, find_from,
  trim, get_or, ltb, leb, ◌==◌, if◌then◌else◌, add64, sub64, size_mod, parse_number, Result, ok,
  err, invalid_argument, logic_error, and_then,
}
use pulsegate.Buffer.{Buffer, readable_bytes, find_crlf, consume, take_string}
use pulsegate.Headers.{add, contains, values, is_valid_header_name, is_valid_header_value}
use pulsegate.Request.{HttpRequest, empty_request, parse_http_method}

pub record HttpParserLimits : Type 0 where
  pub max_request_line_bytes : ℕ
  pub max_header_bytes : ℕ
  pub max_header_count : ℕ
  pub max_header_line_bytes : ℕ
  pub max_body_bytes : ℕ

pub data ParseState : Type 0 where
  request_line headers body complete error : ParseState

pub data ParseResult : Type 0 where
  need_more complete bad_request header_too_large body_too_large : ParseResult
  unsupported_transfer_encoding : ParseResult

pub record HttpParser : Type 0 where
  pub limits : HttpParserLimits
  pub state : ParseState
  pub request : HttpRequest
  pub expected_body_bytes : ℕ
  pub header_bytes : ℕ
  pub header_count : ℕ
  pub error_result : ParseResult

abbrev pub absolute_request_line_limit : ℕ
absolute_request_line_limit = 16 * 1024

abbrev pub absolute_header_limit : ℕ
absolute_header_limit = 64 * 1024

abbrev pub absolute_header_count_limit : ℕ
absolute_header_count_limit = 256

abbrev pub absolute_body_limit : ℕ
absolute_body_limit = 16 * 1024 * 1024

unfoldable pub is_request_target_valid : Bytes → Bool
is_request_target_valid [] = false
is_request_target_valid (x ∷ xs) = not (any_of (λ value. leb value 32 || value == 127) (x ∷ xs))

unfoldable pub is_method_token_valid : Bytes → Bool
is_method_token_valid method = is_valid_header_name method

-- A parser that has read nothing.
abbrev pub fresh : HttpParserLimits → HttpParser
fresh limits = record {
  limits = limits;
  state = ParseState.request_line;
  request = empty_request;
  expected_body_bytes = 0;
  header_bytes = 0;
  header_count = 0;
  error_result = ParseResult.bad_request;
}

unfoldable pub init : HttpParserLimits → Result HttpParser
init limits =
    let unset =
      limits.max_request_line_bytes == 0
      || (limits.max_header_bytes == 0
          || (limits.max_header_count == 0
              || (limits.max_header_line_bytes == 0 || limits.max_body_bytes == 0))) in
    let unsafe =
      ltb absolute_request_line_limit limits.max_request_line_bytes
      || (ltb absolute_header_limit limits.max_header_bytes
          || (ltb absolute_header_count_limit limits.max_header_count
              || ltb absolute_body_limit limits.max_body_bytes)) in
    if unset || unsafe then err invalid_argument else ok (fresh limits)

unfoldable pub reset : HttpParser → HttpParser
reset p = fresh p.limits

-- The moved-from request is empty: the source only guarantees that it is valid, and `reset` clears it.
unfoldable pub take_request : HttpParser → Result HttpRequest
take_request p = elim p.state [ ParseState.complete ↦ ok p.request | _ ↦ err logic_error ]

-- The parts of a request line that has exactly two blanks.
unfoldable pub split_request_line : Bytes → Option (Bytes × Bytes × Bytes)
split_request_line line = elim (find_byte 32 line) [
  | none ↦ none
  | some first ↦ elim (find_from 32 (first + 1) line) [
    | none ↦ none
    | some second ↦ elim (find_from 32 (second + 1) line) [
      | none ↦ some (
        take first line,
        take (second - first - 1) (drop (first + 1) line),
        drop (second + 1) line,
      )
      | some _ ↦ none
    ]
  ]
]

-- `version.back() - '0'`, of a version that is one of the two accepted ones.
unfoldable pub minor_of : Bytes → ℕ
minor_of version = get_or version 7 48 - 48

unfoldable pub is_known_version : Bytes → Bool
is_known_version version =
    bytes_eq version (codes "HTTP/1.1") || bytes_eq version (codes "HTTP/1.0")

-- Each part of the parser returns its result and the parser that it leaves.
unfoldable pub parse_request_line : Bytes → HttpParser → ParseResult × HttpParser
parse_request_line line p = elim (split_request_line line) [
  | none ↦ (ParseResult.bad_request, p)
  | some (method, target, version) ↦
      if not (is_method_token_valid method) || not (is_request_target_valid target)
      then (ParseResult.bad_request, p)
      else if not (is_known_version version)
      then (ParseResult.bad_request, p)
      else (
        ParseResult.complete,
        record p {
          request = record (p.request) {
            method = parse_http_method method;
            target = target;
            version_major = 1;
            version_minor = minor_of version;
          };
        },
      )
]

unfoldable pub parse_header : Bytes → HttpParser → ParseResult × HttpParser
parse_header line p =
    let counted = record p { header_count = add64 p.header_count 1 } in
    if ltb p.limits.max_header_count (add64 p.header_count 1)
    then (ParseResult.header_too_large, counted)
    else elim (find_byte 58 line) [
      | none ↦ (ParseResult.bad_request, counted)
      | some colon ↦
          let name = take colon line in
          let value = trim (drop (colon + 1) line) in
          if not (is_valid_header_name name) || not (is_valid_header_value value)
          then (ParseResult.bad_request, counted)
          else (
            ParseResult.complete,
            record counted {
              request = record (p.request) { headers = add name value p.request.headers };
            },
          )
    ]

-- The declared length of the body, once the other checks have passed.
unfoldable pub content_length : List Bytes → HttpParser → ParseResult × HttpParser
content_length [] p = (ParseResult.complete, record p { expected_body_bytes = 0 })
content_length (value ∷ []) p = elim (parse_number size_mod 10 value) [
  | none ↦ (ParseResult.bad_request, p)
  | some parsed ↦
      if ltb p.limits.max_body_bytes parsed
      then (ParseResult.body_too_large, p)
      else (ParseResult.complete, record p { expected_body_bytes = parsed })
]
content_length (value ∷ (value' ∷ more)) p = (ParseResult.bad_request, p)

unfoldable pub finish_headers : HttpParser → ParseResult × HttpParser
finish_headers p =
    let headers = p.request.headers in
    if (p.request.version_major == 1 && p.request.version_minor == 1)
      && not (contains (codes "host") headers)
    then (ParseResult.bad_request, p)
    else if contains (codes "transfer-encoding") headers
    then (ParseResult.unsupported_transfer_encoding, p)
    else content_length (values (codes "content-length") headers) p

-- `fail` records the result that every later call returns.
unfoldable pub fail : ParseResult → HttpParser → HttpParser
fail result p = record p { state = ParseState.error; error_result = result }

abbrev pub is_request_line : ParseState → Bool
is_request_line ParseState.request_line = true
is_request_line _ = false

abbrev pub is_headers : ParseState → Bool
is_headers ParseState.headers = true
is_headers _ = false

-- What one round of the loop decides: to return a result, or to go on.
abbrev pub Verdict : Type 0
Verdict = Option ParseResult

-- The test on the bytes that wait for a line end.
unfoldable pub pending_too_large : ℕ → HttpParser → Bool
pending_too_large pending p =
    (is_request_line p.state && ltb p.limits.max_request_line_bytes pending)
    || (is_headers p.state && ltb p.limits.max_header_bytes (add64 p.header_bytes pending))

-- The tests on a line of `line_bytes` bytes before it is taken.
unfoldable pub line_too_large : ℕ → HttpParser → Bool
line_too_large line_bytes p =
    let with_terminator = add64 line_bytes 2 in
    (is_request_line p.state
      && (ltb p.limits.max_request_line_bytes line_bytes
          || ltb p.limits.max_header_bytes with_terminator))
    || (is_headers p.state
        && (ltb p.limits.max_header_line_bytes line_bytes
            || (ltb p.limits.max_header_bytes with_terminator
                || ltb (sub64 p.limits.max_header_bytes with_terminator) p.header_bytes)))

-- The end of the headers.
unfoldable pub after_headers : ParseResult × HttpParser → Verdict × HttpParser
after_headers (ParseResult.complete, p) =
    if p.expected_body_bytes == 0
    then (some ParseResult.complete, record p { state = ParseState.complete })
    else (none, record p { state = ParseState.body })
after_headers (result, p) = (some result, fail result p)

-- A request line that was parsed.
unfoldable pub after_request_line : ℕ → ParseResult × HttpParser → Verdict × HttpParser
after_request_line with_terminator (ParseResult.complete, p) =
    (none, record p { state = ParseState.headers; header_bytes = with_terminator })
after_request_line with_terminator (result, p) = (some result, fail result p)

-- A header line that was parsed.
unfoldable pub after_header : ParseResult × HttpParser → Verdict × HttpParser
after_header (ParseResult.complete, p) = (none, p)
after_header (result, p) = (some result, fail result p)

-- What the loop does with a line that it has taken.
unfoldable pub take_line : Bytes → HttpParser → Verdict × HttpParser
take_line line p =
    let with_terminator = add64 (length line) 2 in
    let counted = record p { header_bytes = add64 p.header_bytes with_terminator } in
    if is_request_line p.state
    then after_request_line with_terminator (parse_request_line line p)
    else if length line == 0
    then after_headers (finish_headers counted)
    else after_header (parse_header line counted)

-- The line, once the buffer has given it up.
unfoldable pub line_taken :
    Bytes → HttpParser → Result (Unit {0}) × Buffer → Result Verdict × HttpParser × Buffer
line_taken line p (ok _, input) = let (verdict, p') = take_line line p in (ok verdict, p', input)
line_taken line p (err e, input) = (err e, p, input)

-- A round that looks for a line, by what `findCrlf` returned.
unfoldable pub line_case : HttpParser → Buffer → Option ℕ → Result Verdict × HttpParser × Buffer
unfolding line_taken
line_case p input none =
    if pending_too_large (readable_bytes input) p
    then (ok (some ParseResult.header_too_large), fail ParseResult.header_too_large p, input)
    else (ok (some ParseResult.need_more), p, input)
line_case p input (some crlf) =
    let line_bytes = sub64 crlf input.read_index in
    let line = take line_bytes (drop input.read_index input.storage) in
    if line_too_large line_bytes p
    then (ok (some ParseResult.header_too_large), fail ParseResult.header_too_large p, input)
    else line_taken line p (consume (add64 line_bytes 2) input)

unfoldable pub line_round : HttpParser → Buffer → Result Verdict × HttpParser × Buffer
unfolding line_case
line_round p input = line_case p input (find_crlf input)

-- The body, once the buffer has given it up.
unfoldable pub body_taken :
    HttpParser → Result Bytes × Buffer → Result Verdict × HttpParser × Buffer
body_taken p (ok content, input) = (
  ok (some ParseResult.complete),
  record p { request = record (p.request) { body = content }; state = ParseState.complete },
  input,
)
body_taken p (err e, input) = (err e, p, input)

unfoldable pub body_round : HttpParser → Buffer → Result Verdict × HttpParser × Buffer
unfolding body_taken
body_round p input =
    if ltb (readable_bytes input) p.expected_body_bytes
    then (ok (some ParseResult.need_more), p, input)
    else body_taken p (take_string p.expected_body_bytes input)

-- One round of `for (;;)`.
unfoldable pub round : HttpParser → Buffer → Result Verdict × HttpParser × Buffer
round p input = elim p.state [ ParseState.body ↦ body_round p input | _ ↦ line_round p input ]

-- What follows a round: `return`, the next round, or the exception.
unfoldable pub after_round :
    (HttpParser → Buffer → Result ParseResult × HttpParser × Buffer)
    → Result Verdict × HttpParser × Buffer
    → Result ParseResult × HttpParser × Buffer
after_round next (ok (some result), p, input) = (ok result, p, input)
after_round next (ok none, p, input) = next p input
after_round next (err e, p, input) = (err e, p, input)

-- The loop. A round that goes on has taken at least two bytes.
unfoldable pub parse_loop : ℕ → HttpParser → Buffer → Result ParseResult × HttpParser × Buffer
unfolding after_round
parse_loop zero p input = (err logic_error, p, input)
parse_loop (suc fuel) p input = after_round (parse_loop fuel) (round p input)

unfoldable pub parse : HttpParser → Buffer → Result ParseResult × HttpParser × Buffer
parse p input = elim p.state [
  | ParseState.complete ↦ (ok ParseResult.complete, p, input)
  | ParseState.error ↦ (ok p.error_result, p, input)
  | _ ↦ parse_loop (suc (readable_bytes input)) p input
]
