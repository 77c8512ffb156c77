-- ===== src/Response/Framing.antt =====
-- What src/http/http_response.cpp serialises: lines that no header can break, and the body.
use pulsegate.Base.{
  ◌≡◌, refl, Bool, not, ◌&&◌, ◌||◌, List, [], ◌∷◌, ◌++◌, Bytes, codes, bytes_eq, length, all_of,
  ◌==◌, if◌then◌else◌, to_string, ok, err, invalid_argument, arith, append_assoc,
}
use pulsegate.Headers.{Header, Headers, is_valid_header_name, is_valid_header_value}
use pulsegate.Response.{
  HttpResponse, crlf, status_in_range, status_digits, serialize_headers, serialize_head, serialize,
}

-- Each line with its end.
unfoldable pub join_lines : List Bytes → Bytes
join_lines [] = []
join_lines (line ∷ more) = line ++ (crlf ++ join_lines more)

-- The server writes these two headers itself.
unfoldable pub is_own : Header → Bool
is_own h = bytes_eq h.name (codes "content-length") || bytes_eq h.name (codes "connection")

-- The lines of the other headers.
unfoldable pub header_lines : Headers → List Bytes
header_lines [] = []
header_lines (h ∷ hs) =
    let rest = header_lines hs in
    if is_own h then rest else (h.name ++ (codes ": " ++ h.value)) ∷ rest

unfoldable pub status_line : HttpResponse → Bytes
status_line r = codes "HTTP/1.1 " ++ (status_digits r.status_code ++ (32 ∷ r.reason))

unfoldable pub own_lines : HttpResponse → List Bytes
own_lines r =
    (codes "Content-Length: " ++ to_string (length r.body))
    ∷ (codes "Connection: " ++ (if r.close_connection then codes "close" else codes "keep-alive"))
    ∷ []

-- A header value holds no line end, and a name no colon, no blank and no line end.
unfoldable pub is_safe : Header → Bool
is_safe h = is_own h || (is_valid_header_name h.name && is_valid_header_value h.value)

join_lines-append : (xs ys : List Bytes) → join_lines (xs ++ ys) ≡ join_lines xs ++ join_lines ys
unfolding join_lines
join_lines-append [] ys = refl
join_lines-append (x ∷ xs) ys =
    rw (join_lines-append xs ys, append_assoc x (13 ∷ 10 ∷ join_lines xs) (join_lines ys)) refl

serialize_headers_lem :
    (hs : Headers)
    → serialize_headers hs
      ≡ (if all_of is_safe hs then ok (join_lines (header_lines hs)) else err invalid_argument)
unfolding serialize_headers all_of header_lines is_safe is_own join_lines
serialize_headers_lem [] = refl
serialize_headers_lem (h ∷ hs) = rw (serialize_headers_lem hs) (
    ground
      (arith, append_assoc h.name (codes ": " ++ h.value) (crlf ++ join_lines (header_lines hs))))

serialize_head-lines :
    (r : HttpResponse) (lines : List Bytes) (body : Bytes)
    → serialize_head r (join_lines lines) ++ body
      ≡ join_lines (status_line r ∷ (lines ++ own_lines r)) ++ (crlf ++ body)
unfolding serialize_head join_lines status_line own_lines
serialize_head-lines r lines body = simp (join_lines-append lines (own_lines r), append_assoc)

-- `serialize` succeeds exactly when the status has three digits, the reason is not empty, and the
-- reason and each header that it writes are valid. What it returns are lines: the status line, a line
-- for each header that is not its own, the length of the body and the connection, then an empty line,
-- then the body, which a response to HEAD leaves out. Otherwise it throws `invalid_argument`.
pub serialize-join_lines :
    (head_request : Bool) (r : HttpResponse)
    → serialize head_request r ≡ (
        if (status_in_range r.status_code && not (length r.reason == 0))
          && (is_valid_header_value r.reason && all_of is_safe r.headers)
        then ok (
            join_lines (status_line r ∷ (header_lines r.headers ++ own_lines r))
            ++ (crlf ++ (if head_request then [] else r.body)))
        else err invalid_argument)
unfolding serialize
serialize-join_lines head_request r = rw (serialize_headers_lem r.headers) (
    ground (
      arith,
      serialize_head-lines r (header_lines r.headers) (if head_request then [] else r.body),
    ))
