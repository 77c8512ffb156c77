-- ===== src/ResponseParser/Tests.antt =====
-- The theorems on the response parser at concrete inputs.
use pulsegate.Base.{
  ◌-◌, ◌≤◌, ◌≡◌, refl, true, false, none, Bytes, codes, length, find_byte, up_to, parse_number,
  from_chars, scan_digits, digit_value, size_mod, err, undefined_behaviour, arith,
}
use pulsegate.Buffer.{Buffer}
use pulsegate.Buffer.Inv.{IsValid}
use pulsegate.ResponseParser.{
  HttpResponseParser, HttpResponseParserLimits, ResponseParseState, fresh, take_chunk_size,
}
use pulsegate.ResponseParser.Rounds.{parse}
use pulsegate.ResponseParser.Limits.{IsBounded, parse-IsBounded, parse-undefined}

abbrev small_limits : HttpResponseParserLimits
small_limits = record {
  max_status_line_bytes = 64;
  max_header_bytes = 256;
  max_header_count = 4;
  max_body_bytes = 8;
}

abbrev reply : Bytes
reply = codes "HTTP/1.1 200 OK\r\nContent-Length: 2\r\n\r\nhi"

abbrev filled : Bytes → Buffer
filled bytes = record {
  storage = bytes;
  read_index = 0;
  write_index = length bytes;
  prepared_bytes = 0;
  maximum_size = 1024;
}

filled-IsValid : (bytes : Bytes) → length bytes ≤ 1024 → IsValid (filled bytes)
filled-IsValid bytes fits = omega (arith, fits)

new_parser-IsBounded : IsBounded (fresh small_limits false)
new_parser-IsBounded = omega arith

parse-IsBounded_example : IsBounded (parse (fresh small_limits false) (filled reply)).1
parse-IsBounded_example =
    parse-IsBounded (fresh small_limits false) (filled reply) new_parser-IsBounded

abbrev before_chunk : HttpResponseParser
before_chunk = record (fresh small_limits false) {
  state = ResponseParseState.chunk_size;
  is_chunked = true;
}

abbrev in_chunk : HttpResponseParser
in_chunk = record before_chunk { state = ResponseParseState.chunk_body; chunk_bytes = size_mod - 2 }

in_chunk-taken : take_chunk_size (codes "fffffffffffffffe") before_chunk ≡ (none, in_chunk)
unfolding take_chunk_size up_to find_byte parse_number from_chars scan_digits digit_value
in_chunk-taken = refl

parse-undefined_example :
    parse in_chunk (filled (codes "abc"))
    ≡ (err undefined_behaviour, in_chunk, filled (codes "abc"))
parse-undefined_example =
    parse-undefined before_chunk in_chunk (filled (codes "abc"))
      (filled-IsValid (codes "abc") (omega arith)) (omega arith) in_chunk-taken
