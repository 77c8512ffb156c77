-- ===== src/Response/Tests.antt =====
-- The theorems on the serialised response at a concrete input.
use pulsegate.Base.{
  ◌≡◌, ◌++◌, false, not, ◌&&◌, [], ◌∷◌, codes, all_of, length, ◌==◌, if◌then◌else◌, ok, err,
  invalid_argument,
}
use pulsegate.Headers.{is_valid_header_value}
use pulsegate.Response.{HttpResponse, empty_response, crlf, status_in_range, serialize}
use pulsegate.Response.Framing.{
  join_lines, status_line, header_lines, own_lines, is_safe, serialize-join_lines,
}

abbrev page : HttpResponse
page = record empty_response {
  headers =
      record { name = codes "age"; value = codes "5" }
      ∷ record { name = codes "connection"; value = codes "x" }
      ∷ [];
  body = codes "hi";
}

serialize-join_lines_example : serialize false page ≡ (
    if (status_in_range page.status_code && not (length page.reason == 0))
      && (is_valid_header_value page.reason && all_of is_safe page.headers)
    then ok (
        join_lines (status_line page ∷ (header_lines page.headers ++ own_lines page))
        ++ (crlf ++ page.body))
    else err invalid_argument)
serialize-join_lines_example = serialize-join_lines false page
