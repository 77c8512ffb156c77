-- ===== src/ResponseParser.antt =====
-- include/pulsegate/http/http_response_parser.h and src/http/http_response_parser.cpp: the incremental
-- parser of upstream responses. An index outside a `string_view` is undefined behaviour, which is a
-- fault of its own here.
pub mod Rounds
pub mod Limits
mod Tests
use pulsegate.Base.{
  ℕ, zero, suc, ◌+◌, ◌*◌, ◌/◌, ◌^◌, min, Bool, true, false, not, ◌&&◌, ◌||◌, Option, none, some,
  List, [], ◌∷◌, ◌++◌, Bytes, codes, length, take, drop, get_elem?, get_or, bytes_eq, find_byte,
  up_to, trim, ltb, ◌==◌, if◌then◌else◌, add64, sub64, size_mod, parse_number, ℤ, pos, negsuc,
  Result, ok, err, invalid_argument, logic_error, undefined_behaviour,
}
use pulsegate.Buffer.{Buffer, readable_bytes, readable_view, find_crlf, consume}
use pulsegate.Headers.{add, values, contains_token, is_valid_header_name, is_valid_header_value}
use pulsegate.Response.{HttpResponse, empty_response}

pub record HttpResponseParserLimits : Type 0 where
  pub max_status_line_bytes : ℕ
  pub max_header_bytes : ℕ
  pub max_header_count : ℕ
  pub max_body_bytes : ℕ

pub data ResponseParseState : Type 0 where
  status_line headers fixed_body chunk_size chunk_body : ResponseParseState
  trailers eof_body complete error : ResponseParseState

pub data ResponseParseResult : Type 0 where
  need_more complete bad_response header_too_large body_too_large : ResponseParseResult
  unsupported_transfer_encoding premature_eof : ResponseParseResult

pub record HttpResponseParser : Type 0 where
  pub limits : HttpResponseParserLimits
  pub state : ResponseParseState
  pub response : HttpResponse
  pub expected_body_bytes : ℕ
  pub chunk_bytes : ℕ
  pub header_bytes : ℕ
  pub header_count : ℕ
  pub head_request : Bool
  pub is_chunked : Bool
  pub eof_delimited : Bool
  pub error_result : ResponseParseResult

-- A parser that has read nothing.
abbrev pub fresh : HttpResponseParserLimits → Bool → HttpResponseParser
fresh limits head_request = record {
  limits = limits;
  state = ResponseParseState.status_line;
  response = empty_response;
  expected_body_bytes = 0;
  chunk_bytes = 0;
  header_bytes = 0;
  header_count = 0;
  head_request = head_request;
  is_chunked = false;
  eof_delimited = false;
  error_result = ResponseParseResult.bad_response;
}

unfoldable pub init : HttpResponseParserLimits → Bool → Result HttpResponseParser
init l head_request =
    if (l.max_status_line_bytes == 0
        || (l.max_header_bytes == 0 || (l.max_header_count == 0 || l.max_body_bytes == 0)))
      || (ltb (64 * 1024) l.max_header_bytes || ltb (16 * 1024 * 1024) l.max_body_bytes)
    then err invalid_argument
    else ok (fresh l head_request)

unfoldable pub reset : Bool → HttpResponseParser → HttpResponseParser
reset head_request p = fresh p.limits head_request

-- `status / 100 == 1`: the division truncates, and no negative status satisfies this.
unfoldable pub is_informational : ℤ → Bool
is_informational (pos n) = n / 100 == 1
is_informational (negsuc n) = false

unfoldable pub is_status : ℕ → ℤ → Bool
is_status n (pos m) = m == n
is_status n (negsuc m) = false

unfoldable pub no_body_status : ℤ → Bool
no_body_status status = is_informational status || (is_status 204 status || is_status 304 status)

-- `std::from_chars` into an `int`, of the whole text: a minus sign may stand in front.
unfoldable pub parse_int : Bytes → Option ℤ
parse_int [] = none
parse_int (c ∷ cs) =
    if c == 45
    then elim (parse_number (2 ^ 31 + 1) 10 cs) [
      | none ↦ none
      | some zero ↦ some (pos 0)
      | some (suc n) ↦ some (negsuc n)
    ]
    else elim (parse_number (2 ^ 31) 10 (c ∷ cs)) [ none ↦ none | some n ↦ some (pos n) ]

-- The status and the reason, where the line has the form that the parser asks for.
unfoldable pub split_status_line : Bytes → Option (ℤ × Bytes)
split_status_line line =
    if not (bytes_eq (take 7 line) (codes "HTTP/1.")) then none else elim (find_byte 32 line) [
      | none ↦ none
      | some first ↦
          if ltb (length line) (first + 5)
          then none
          else elim (parse_int (take 3 (drop (first + 1) line))) [
            | none ↦ none
            | some status ↦
                if get_or line (first + 4) 0 == 32
                then some (status, drop (first + 5) line)
                else none
          ]
    ]

unfoldable pub parse_status_line :
    Bytes → HttpResponseParser → ResponseParseResult × HttpResponseParser
parse_status_line line p = elim (split_status_line line) [
  | none ↦ (ResponseParseResult.bad_response, p)
  | some (status, reason) ↦ (
    (if length reason == 0 || not (is_valid_header_value reason)
        then ResponseParseResult.bad_response
        else ResponseParseResult.complete),
    record p { response = record (p.response) { status_code = status; reason = reason } },
  )
]

unfoldable pub parse_header : Bytes → HttpResponseParser → ResponseParseResult × HttpResponseParser
parse_header line p =
    let counted = record p { header_count = add64 p.header_count 1 } in
    if ltb p.limits.max_header_count (add64 p.header_count 1)
    then (ResponseParseResult.header_too_large, counted)
    else elim (find_byte 58 line) [
      | none ↦ (ResponseParseResult.bad_response, counted)
      | some colon ↦
          let name = take colon line in
          let value = trim (drop (colon + 1) line) in
          if not (is_valid_header_name name) || not (is_valid_header_value value)
          then (ResponseParseResult.bad_response, counted)
          else (
            ResponseParseResult.complete,
            record counted {
              response = record (p.response) { headers = add name value p.response.headers };
            },
          )
    ]

-- More than one transfer coding header, or one without `chunked`.
unfoldable pub unsupported_transfers : List Bytes → Bool
unsupported_transfers [] = false
unsupported_transfers (t ∷ []) = not (contains_token t (codes "chunked"))
unsupported_transfers (t ∷ (u ∷ more)) = true

-- The body of a response that has no transfer coding and may have a body.
unfoldable pub declared_body :
    List Bytes → HttpResponseParser → ResponseParseResult × HttpResponseParser
declared_body [] p = (
  ResponseParseResult.complete,
  record p {
    eof_delimited = true;
    response = record (p.response) { close_connection = true };
    state = ResponseParseState.eof_body;
  },
)
declared_body (value ∷ []) p = elim (parse_number size_mod 10 value) [
  | none ↦ (ResponseParseResult.bad_response, p)
  | some n ↦ if ltb p.limits.max_body_bytes n then (ResponseParseResult.body_too_large, p) else (
    ResponseParseResult.complete,
    record p {
      expected_body_bytes = n;
      state = if n == 0 then ResponseParseState.complete else ResponseParseState.fixed_body;
    },
  )
]
declared_body (value ∷ (other ∷ more)) p = (ResponseParseResult.bad_response, p)

unfoldable pub finish_headers : HttpResponseParser → ResponseParseResult × HttpResponseParser
finish_headers p =
    let transfers = values (codes "transfer-encoding") p.response.headers in
    let lengths = values (codes "content-length") p.response.headers in
    let status = p.response.status_code in
    if not (length transfers == 0) && not (length lengths == 0)
    then (ResponseParseResult.bad_response, p)
    else if unsupported_transfers transfers
    then (ResponseParseResult.unsupported_transfer_encoding, p)
    else if is_informational status && not (is_status 101 status)
    then (
      ResponseParseResult.complete,
      record p {
        response = empty_response;
        expected_body_bytes = 0;
        header_count = 0;
        header_bytes = 0;
        state = ResponseParseState.status_line;
      },
    )
    else if is_status 101 status
    then (ResponseParseResult.unsupported_transfer_encoding, p)
    else if p.head_request || no_body_status status
    then (ResponseParseResult.complete, record p { state = ResponseParseState.complete })
    else if not (length transfers == 0)
    then (
      ResponseParseResult.complete,
      record p { is_chunked = true; state = ResponseParseState.chunk_size },
    )
    else declared_body lengths p

unfoldable pub append_body : Bytes → HttpResponseParser → ResponseParseResult × HttpResponseParser
append_body bytes p =
    if ltb (sub64 p.limits.max_body_bytes (length p.response.body)) (length bytes)
    then (ResponseParseResult.body_too_large, p)
    else (
      ResponseParseResult.complete,
      record p { response = record (p.response) { body = p.response.body ++ bytes } },
    )

unfoldable pub fail : ResponseParseResult → HttpResponseParser → HttpResponseParser
fail result p = record p { state = ResponseParseState.error; error_result = result }

-- What one round of the loop decides: to return a result, or to go on.
abbrev pub Verdict : Type 0
Verdict = Option ResponseParseResult

abbrev pub failed : ResponseParseResult → HttpResponseParser → Verdict × HttpResponseParser
failed result p = (some result, fail result p)

-- A status line that was parsed.
unfoldable pub after_status_line :
    ℕ → ResponseParseResult × HttpResponseParser → Verdict × HttpResponseParser
after_status_line with_terminator (ResponseParseResult.complete, p) =
    (none, record p { state = ResponseParseState.headers; header_bytes = with_terminator })
after_status_line with_terminator (result, p) = failed result p

-- The end of the headers.
unfoldable pub after_headers :
    ResponseParseResult × HttpResponseParser → Verdict × HttpResponseParser
after_headers (ResponseParseResult.complete, p) = elim p.state [
  | ResponseParseState.complete ↦ (some ResponseParseResult.complete, p)
  | _ ↦ (none, p)
]
after_headers (result, p) = failed result p

-- A header line that was parsed.
unfoldable pub after_header :
    ResponseParseResult × HttpResponseParser → Verdict × HttpResponseParser
after_header (ResponseParseResult.complete, p) = (none, p)
after_header (result, p) = failed result p

unfoldable pub take_chunk_size : Bytes → HttpResponseParser → Verdict × HttpResponseParser
take_chunk_size line p =
    let value = up_to 59 line in
    if length value == 0 || ltb 16 (length value)
    then failed ResponseParseResult.bad_response p
    else elim (parse_number size_mod 16 value) [
      | none ↦ failed ResponseParseResult.bad_response p
      | some parsed ↦ (
        none,
        record p {
          chunk_bytes = parsed;
          state =
              if parsed == 0 then ResponseParseState.trailers else ResponseParseState.chunk_body;
        },
      )
    ]

unfoldable pub take_trailer : Bytes → HttpResponseParser → Verdict × HttpResponseParser
take_trailer line p =
    if length line == 0
    then (some ResponseParseResult.complete, record p { state = ResponseParseState.complete })
    else if not (is_valid_header_name (up_to 58 line))
    then failed ResponseParseResult.bad_response p
    else (none, p)

-- A line of the headers or of the trailers, once it has been counted.
unfoldable pub take_counted : Bytes → HttpResponseParser → Verdict × HttpResponseParser
take_counted line p =
    if ltb p.limits.max_header_bytes p.header_bytes
    then failed ResponseParseResult.header_too_large p
    else elim p.state [
      | ResponseParseState.trailers ↦ take_trailer line p
      | _ ↦
          if length line == 0
          then after_headers (finish_headers p)
          else after_header (parse_header line p)
    ]

-- What the loop does with a line that it has taken.
unfoldable pub take_line : Bytes → HttpResponseParser → Verdict × HttpResponseParser
take_line line p = elim p.state [
  | ResponseParseState.status_line ↦
      if ltb p.limits.max_status_line_bytes (length line)
      then failed ResponseParseResult.header_too_large p
      else after_status_line (add64 (length line) 2) (parse_status_line line p)
  | ResponseParseState.chunk_size ↦ take_chunk_size line p
  | _ ↦ take_counted line (record p { header_bytes = add64 p.header_bytes (add64 (length line) 2) })
]

-- The test on the bytes that wait for a line end.
unfoldable pub pending_too_large : ℕ → HttpResponseParser → Bool
pending_too_large pending p = elim p.state [
  | ResponseParseState.status_line ↦ ltb p.limits.max_status_line_bytes pending
  | ResponseParseState.headers ↦ ltb p.limits.max_header_bytes (add64 p.header_bytes pending)
  | ResponseParseState.trailers ↦ ltb p.limits.max_header_bytes (add64 p.header_bytes pending)
  | _ ↦ false
]
