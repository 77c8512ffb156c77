-- ===== src/ResponseParser/Rounds.antt =====
-- The loop of src/http/http_response_parser.cpp over the buffer, and what its callers ask afterwards.
use pulsegate.Base.{
  ℕ, zero, suc, min, Bool, true, false, not, ◌&&◌, Option, none, some, Bytes, length, take,
  get_elem?, ltb, ◌==◌, if◌then◌else◌, add64, sub64, Result, ok, err, logic_error,
  undefined_behaviour,
}
use pulsegate.Buffer.{Buffer, readable_bytes, readable_view, find_crlf, consume}
use pulsegate.Response.{HttpResponse}
use pulsegate.ResponseParser.{
  HttpResponseParser, ResponseParseState, ResponseParseResult, Verdict, fail, append_body,
  take_line, pending_too_large,
}

-- What the code does once the buffer has given up bytes, or could not.
unfoldable pub then_consumed :
    (HttpResponseParser → Verdict × HttpResponseParser)
    → HttpResponseParser
    → Result (Unit {0}) × Buffer
    → Result Verdict × HttpResponseParser × Buffer
then_consumed next p (ok _, input) = let (verdict, p') = next p in (ok verdict, p', input)
then_consumed next p (err e, input) = (err e, p, input)

-- What the code does after `appendBody`: it consumes `count` bytes, or fails.
unfoldable pub then_appended :
    (HttpResponseParser → Verdict × HttpResponseParser)
    → ℕ
    → Buffer
    → ResponseParseResult × HttpResponseParser
    → Result Verdict × HttpResponseParser × Buffer
unfolding then_consumed
then_appended next count input (ResponseParseResult.complete, p) =
    then_consumed next p (consume count input)
then_appended next count input (result, p) = (ok (some result), fail result p, input)

-- A round that looks for a line, by what `findCrlf` returned. The line is consumed before it is read.
unfoldable pub line_case :
    HttpResponseParser → Buffer → Option ℕ → Result Verdict × HttpResponseParser × Buffer
unfolding then_consumed
line_case p input none =
    if pending_too_large (readable_bytes input) p
    then (
      ok (some ResponseParseResult.header_too_large),
      fail ResponseParseResult.header_too_large p,
      input,
    )
    else (ok (some ResponseParseResult.need_more), p, input)
line_case p input (some crlf) =
    let line_size = sub64 crlf input.read_index in
    then_consumed (take_line (take line_size (readable_view input))) p
      (consume (add64 line_size 2) input)

-- Whether a fixed body has come to its end.
unfoldable pub fixed_verdict : HttpResponseParser → Verdict × HttpResponseParser
fixed_verdict p =
    if length p.response.body == p.expected_body_bytes
    then (some ResponseParseResult.complete, record p { state = ResponseParseState.complete })
    else (some ResponseParseResult.need_more, p)

unfoldable pub fixed_round :
    HttpResponseParser → Buffer → Result Verdict × HttpResponseParser × Buffer
unfolding then_appended
fixed_round p input =
    let count = min (sub64 p.expected_body_bytes (length p.response.body)) (readable_bytes input) in
    if count == 0
    then (ok (fixed_verdict p).0, (fixed_verdict p).1, input)
    else then_appended fixed_verdict count input (append_body (take count (readable_view input)) p)

-- Whether the two bytes behind the chunk are a line end: none where the code reads outside the view.
unfoldable pub is_chunk_end : ℕ → Bytes → Option Bool
is_chunk_end n bytes = elim (get_elem? bytes n) [
  | none ↦ none
  | some c ↦
      if not (c == 13)
      then some false
      else elim (get_elem? bytes (add64 n 1)) [ none ↦ none | some d ↦ some (d == 10) ]
]

unfoldable pub chunk_case :
    HttpResponseParser → Buffer → Option Bool → Result Verdict × HttpResponseParser × Buffer
unfolding then_appended
chunk_case p input none = (err undefined_behaviour, p, input)
chunk_case p input (some false) =
    (ok (some ResponseParseResult.bad_response), fail ResponseParseResult.bad_response p, input)
chunk_case p input (some true) =
    then_appended (λ q. (none, record q { state = ResponseParseState.chunk_size }))
      (add64 p.chunk_bytes 2) input (append_body (take p.chunk_bytes (readable_view input)) p)

unfoldable pub chunk_round :
    HttpResponseParser → Buffer → Result Verdict × HttpResponseParser × Buffer
unfolding chunk_case
chunk_round p input =
    if ltb (readable_bytes input) (add64 p.chunk_bytes 2)
    then (ok (some ResponseParseResult.need_more), p, input)
    else chunk_case p input (is_chunk_end p.chunk_bytes (readable_view input))

unfoldable pub eof_round :
    HttpResponseParser → Buffer → Result Verdict × HttpResponseParser × Buffer
unfolding then_appended
eof_round p input =
    if readable_bytes input == 0
    then (ok (some ResponseParseResult.need_more), p, input)
    else then_appended (λ q. (some ResponseParseResult.need_more, q)) (readable_bytes input) input
        (append_body (readable_view input) p)

-- One round of `for (;;)`.
unfoldable pub round : HttpResponseParser → Buffer → Result Verdict × HttpResponseParser × Buffer
unfolding fixed_round chunk_round eof_round line_case
round p input = elim p.state [
  | ResponseParseState.fixed_body ↦ fixed_round p input
  | ResponseParseState.chunk_body ↦ chunk_round p input
  | ResponseParseState.eof_body ↦ eof_round p input
  | _ ↦ line_case p input (find_crlf input)
]

-- What follows a round: `return`, the next round, or the exception.
unfoldable pub after_round :
    (HttpResponseParser → Buffer → Result ResponseParseResult × HttpResponseParser × Buffer)
    → Result Verdict × HttpResponseParser × Buffer
    → Result ResponseParseResult × HttpResponseParser × Buffer
after_round next (ok (some result), p, input) = (ok result, p, input)
after_round next (ok none, p, input) = next p input
after_round next (err e, p, input) = (err e, p, input)

-- The loop. A round that goes on has taken at least two bytes.
unfoldable pub parse_loop :
    ℕ → HttpResponseParser → Buffer → Result ResponseParseResult × HttpResponseParser × Buffer
unfolding after_round
parse_loop zero p input = (err logic_error, p, input)
parse_loop (suc fuel) p input = after_round (parse_loop fuel) (round p input)

unfoldable pub parse :
    HttpResponseParser → Buffer → Result ResponseParseResult × HttpResponseParser × Buffer
parse p input = elim p.state [
  | ResponseParseState.complete ↦ (ok ResponseParseResult.complete, p, input)
  | ResponseParseState.error ↦ (ok p.error_result, p, input)
  | _ ↦ parse_loop (suc (readable_bytes input)) p input
]

unfoldable pub finish_on_eof : HttpResponseParser → ResponseParseResult × HttpResponseParser
finish_on_eof p = elim p.state [
  | ResponseParseState.eof_body ↦
      (ResponseParseResult.complete, record p { state = ResponseParseState.complete })
  | ResponseParseState.complete ↦ (ResponseParseResult.complete, p)
  | _ ↦ (ResponseParseResult.premature_eof, fail ResponseParseResult.premature_eof p)
]

unfoldable pub header_complete : HttpResponseParser → Bool
header_complete p = elim p.state [
  | ResponseParseState.status_line ↦ false
  | ResponseParseState.headers ↦ false
  | ResponseParseState.error ↦ false
  | _ ↦ true
]

unfoldable pub message_complete : HttpResponseParser → Bool
message_complete p = elim p.state [ ResponseParseState.complete ↦ true | _ ↦ false ]

unfoldable pub reusable : HttpResponseParser → Bool
unfolding message_complete
reusable p = (message_complete p && not p.eof_delimited) && not p.response.close_connection

-- The source leaves a moved-from response behind, which `reset` replaces.
unfoldable pub take_response : HttpResponseParser → Result HttpResponse
unfolding message_complete
take_response p = if message_complete p then ok p.response else err logic_error
