-- ===== src/Parser/Tests.antt =====
-- The theorems on the parser at concrete inputs.
use pulsegate.Base.{
  ◌≤◌, ◌≡◌, refl, ap, ◌++◌, Bytes, codes, Result, ok, arith, length, sub64, add64, find_byte,
  find_from, all_of, any_of, digit_value, from_chars, parse_number, scan_digits, bytes_eq, to_lower,
  trim, trim_back, trim_front,
}
use pulsegate.Headers.{
  add, is_token_character, is_valid_header_name, is_valid_header_value, normalize_header_name,
}
use pulsegate.Request.{parse_http_method}
use pulsegate.Buffer.{
  Buffer, readable_view, readable_bytes, find_crlf, search_crlf, consume, clear, take_string,
}
use pulsegate.Buffer.Inv.{IsValid}
use pulsegate.Parser
use pulsegate.Parser.{
  HttpParserLimits, HttpParser, ParseState, ParseResult, fresh, parse, parse_loop, after_round,
  line_round, line_case, line_taken, line_too_large, pending_too_large, take_line,
  after_request_line, after_header, parse_request_line, parse_header, split_request_line,
  is_known_version, is_method_token_valid, is_request_target_valid, minor_of, fail,
}
use pulsegate.Parser.View.{parse_view}
use pulsegate.Parser.Loop.{Returns, parse-Returns}
use pulsegate.Parser.Incremental.{parse-resumes}
use pulsegate.Parser.Safety.{IsSound, parse-IsSound}

abbrev small_limits : HttpParserLimits
small_limits = record {
  max_request_line_bytes = 32;
  max_header_bytes = 64;
  max_header_count = 4;
  max_header_line_bytes = 32;
  max_body_bytes = 16;
}

abbrev new_parser : HttpParser
new_parser = fresh small_limits

-- A buffer of 1024 bytes at most that shows these bytes.
abbrev filled : Bytes → Buffer
filled bytes = record {
  storage = bytes;
  read_index = 0;
  write_index = length bytes;
  prepared_bytes = 0;
  maximum_size = 1024;
}

filled-IsValid : (bytes : Bytes) → length bytes ≤ 1024 → IsValid (filled bytes)
filled-IsValid bytes fits = omega (arith, fits)

abbrev first_piece : Bytes
first_piece = codes "GET / HTTP/1.1\r\nHo"

abbrev second_piece : Bytes
second_piece = codes "st: a\r\n\r\n"

parse-Returns_example :
    Returns
      (filled first_piece)
      (parse new_parser (filled first_piece))
      (parse_view new_parser (readable_view (filled first_piece)))
parse-Returns_example =
    parse-Returns new_parser (filled first_piece) (filled-IsValid first_piece (omega arith)) refl

new_parser-IsSound : IsSound new_parser
new_parser-IsSound = (refl, refl, omega arith)

parse-IsSound_example : IsSound (parse new_parser (filled (first_piece ++ second_piece))).1
parse-IsSound_example =
    parse-IsSound new_parser (filled (first_piece ++ second_piece))
      (filled-IsValid (first_piece ++ second_piece) (omega arith)) refl new_parser-IsSound

-- The first piece ends in the middle of a header line.
waits : (parse new_parser (filled first_piece)).0 ≡ ok ParseResult.need_more
unfolding parse readable_view Parser.round parse_http_method sub64 add64 find_byte find_from all_of
    any_of digit_value from_chars parse_number scan_digits bytes_eq to_lower trim trim_back
    trim_front readable_bytes find_crlf search_crlf consume clear take_string parse_loop after_round
    line_round line_case line_taken line_too_large pending_too_large take_line after_request_line
    after_header parse_request_line parse_header split_request_line is_known_version
    is_method_token_valid is_request_target_valid minor_of fail add is_token_character
    is_valid_header_name is_valid_header_value normalize_header_name
waits = refl

abbrev halfway : Result ParseResult × HttpParser × Buffer
halfway = parse new_parser (filled first_piece)

left_over :
    readable_view (filled (codes "Host: a\r\n\r\n")) ≡ readable_view halfway.2 ++ second_piece
unfolding parse readable_view Parser.round parse_http_method sub64 add64 find_byte find_from all_of
    any_of digit_value from_chars parse_number scan_digits bytes_eq to_lower trim trim_back
    trim_front readable_bytes find_crlf search_crlf consume clear take_string parse_loop after_round
    line_round line_case line_taken line_too_large pending_too_large take_line after_request_line
    after_header parse_request_line parse_header split_request_line is_known_version
    is_method_token_valid is_request_target_valid minor_of fail add is_token_character
    is_valid_header_name is_valid_header_value normalize_header_name
left_over = refl

in_one :
    readable_view (filled (first_piece ++ second_piece))
    ≡ readable_view (filled first_piece) ++ second_piece
unfolding readable_view readable_bytes sub64
in_one = refl

parse-resumes_example :
    ((parse halfway.1 (filled (codes "Host: a\r\n\r\n"))).0
      ≡ (parse new_parser (filled (first_piece ++ second_piece))).0)
    × ((parse halfway.1 (filled (codes "Host: a\r\n\r\n"))).1
        ≡ (parse new_parser (filled (first_piece ++ second_piece))).1)
    × (readable_view (parse halfway.1 (filled (codes "Host: a\r\n\r\n"))).2
        ≡ readable_view (parse new_parser (filled (first_piece ++ second_piece))).2)
parse-resumes_example =
    parse-resumes new_parser halfway.1 (filled first_piece) halfway.2
      (filled (codes "Host: a\r\n\r\n")) (filled (first_piece ++ second_piece)) second_piece
      (filled-IsValid first_piece (omega arith)) refl
      (filled-IsValid (codes "Host: a\r\n\r\n") (omega arith)) refl
      (filled-IsValid (first_piece ++ second_piece) (omega arith)) refl
      (ap (λ r. (r, halfway.1, halfway.2)) waits) left_over in_one
