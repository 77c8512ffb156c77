-- ===== src/Response.antt =====
-- include/pulsegate/http/http_response.h and src/http/http_response.cpp.
pub mod Framing
mod Tests
use pulsegate.Base.{
  ℕ, ◌+◌, ◌-◌, ◌≤◌, Bool, true, false, not, ◌&&◌, ◌||◌, List, [], ◌∷◌, ◌++◌, Bytes, codes, bytes_eq,
  length, ltb, ◌==◌, if◌then◌else◌, ℤ, pos, negsuc, to_string, Result, ok, err, invalid_argument,
}
use pulsegate.Headers.{Header, Headers, is_valid_header_name, is_valid_header_value}

pub record HttpResponse : Type 0 where
  pub status_code : ℤ
  pub reason : Bytes
  pub headers : Headers
  pub body : Bytes
  pub close_connection : Bool
  pub already_written : Bool

-- A default `HttpResponse`.
abbrev pub empty_response : HttpResponse
empty_response = record {
  status_code = pos 200;
  reason = codes "OK";
  headers = [];
  body = [];
  close_connection = false;
  already_written = false;
}

abbrev pub crlf : Bytes
crlf = 13 ∷ 10 ∷ []

-- The status code as an unsigned number, where it lies in the range that `serialize` accepts.
unfoldable pub status_in_range : ℤ → Bool
status_in_range (pos n) = not (ltb n 100) && not (ltb 999 n)
status_in_range (negsuc n) = false

unfoldable pub status_digits : ℤ → Bytes
status_digits (pos n) = to_string n
status_digits (negsuc n) = 45 ∷ to_string (n + 1)

-- The loop over the entries: the two headers that the server writes itself are left out.
unfoldable pub serialize_headers : Headers → Result Bytes
serialize_headers [] = ok []
serialize_headers (h ∷ hs) =
    let rest = serialize_headers hs in
    if bytes_eq h.name (codes "content-length") || bytes_eq h.name (codes "connection")
    then rest
    else if not (is_valid_header_name h.name) || not (is_valid_header_value h.value)
    then err invalid_argument
    else elim rest [
      | ok text ↦ ok (h.name ++ (codes ": " ++ (h.value ++ (crlf ++ text))))
      | err e ↦ err e
    ]

-- The status line and the headers, without the blank line's body.
unfoldable pub serialize_head : HttpResponse → Bytes → Bytes
serialize_head r fields =
    codes "HTTP/1.1 "
    ++ (status_digits r.status_code
        ++ (32
            ∷ (r.reason
                ++ (crlf
                    ++ (fields
                        ++ (codes "Content-Length: "
                            ++ (to_string (length r.body)
                                ++ (crlf
                                    ++ (codes "Connection: "
                                        ++ ((if r.close_connection
                                              then codes "close"
                                              else codes "keep-alive")
                                            ++ (crlf ++ crlf)))))))))))

unfoldable pub serialize : Bool → HttpResponse → Result Bytes
unfolding serialize_headers serialize_head
serialize head_request r =
    if not (status_in_range r.status_code)
      || (length r.reason == 0 || not (is_valid_header_value r.reason))
    then err invalid_argument
    else elim (serialize_headers r.headers) [
      | ok fields ↦ ok (serialize_head r fields ++ (if head_request then [] else r.body))
      | err e ↦ err e
    ]
