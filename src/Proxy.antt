-- ===== src/Proxy.antt =====
-- src/http/reverse_proxy.cpp: the messages that the proxy writes and the answers to its errors.
pub mod Forwarding
pub mod Choice
pub mod Chosen
mod Tests
use pulsegate.Base.{
  ℕ, zero, suc, ◌+◌, ◌/◌, ◌%◌, Bool, true, false, not, ◌&&◌, ◌||◌, Option, none, some, List, [],
  ◌∷◌, ◌++◌, Bytes, codes, length, any_of, bytes_eq, find_byte, to_string, ltb, ◌==◌, if◌then◌else◌,
  pos,
}
use pulsegate.Headers.{Header, Headers, values, contains_token, contains, get}
use pulsegate.Headers
use pulsegate.Request.{HttpRequest}
use pulsegate.Response.{HttpResponse, empty_response, crlf, status_digits}
use pulsegate.Router.{method_name}
use pulsegate.Router.Handle.{RequestContext, client_key}
use pulsegate.Config.{UpstreamEndpoint}

pub data ProxyError : Type 0 where
  no_error dns_failure connect_failure connect_timeout response_timeout upstream_protocol
        upstream_body_too_large no_healthy_upstream circuit_open overloaded cancelled
        unsupported_request :
      ProxyError

abbrev pub fixed : List Bytes
fixed =
    codes "connection"
    ∷ codes "keep-alive"
    ∷ codes "proxy-authenticate"
    ∷ codes "proxy-authorization"
    ∷ codes "te"
    ∷ codes "trailer"
    ∷ codes "transfer-encoding"
    ∷ codes "upgrade"
    ∷ []

-- The headers that the proxy writes itself.
abbrev pub own_names : List Bytes
own_names =
    codes "host"
    ∷ codes "content-length"
    ∷ codes "x-forwarded-for"
    ∷ codes "x-forwarded-proto"
    ∷ codes "x-request-id"
    ∷ []

-- The test reads the name of its header only.
unfoldable pub hop_by_hop : Bytes → Headers → Bool
hop_by_hop name all =
    any_of (λ other. bytes_eq other name) fixed
    || (any_of (λ value. contains_token value name) (values (codes "connection") all)
        || any_of (λ other. bytes_eq other name) own_names)

unfoldable pub authority : UpstreamEndpoint → Bytes
authority upstream = elim (find_byte 58 upstream.host) [
  | none ↦ upstream.host ++ (58 ∷ upstream.service)
  | some i ↦ 91 ∷ (upstream.host ++ (codes "]:" ++ upstream.service))
]

-- The loop over the entries, which adds those that stay.
unfoldable pub sanitize_headers : Headers → Headers → Headers → Headers
unfolding hop_by_hop
sanitize_headers all [] result = result
sanitize_headers all (h ∷ hs) result =
    let dropped = sanitize_headers all hs result in
    let kept = sanitize_headers all hs (Headers.add h.name h.value result) in
    if hop_by_hop h.name all then dropped else kept

unfoldable pub sanitize_upstream_response : HttpResponse → HttpResponse
unfolding sanitize_headers
sanitize_upstream_response response = record empty_response {
  status_code = response.status_code;
  reason = response.reason;
  body = response.body;
  close_connection = response.close_connection;
  headers = sanitize_headers response.headers response.headers [];
}

-- The text of one entry.
unfoldable pub header_line : Bytes → Bytes → Bytes
header_line name value = name ++ (codes ": " ++ (value ++ crlf))

abbrev pub is_framing : Bytes → Bool
is_framing name =
    bytes_eq name (codes "content-length")
    || (bytes_eq name (codes "connection") || bytes_eq name (codes "transfer-encoding"))

unfoldable pub streaming_lines : Headers → Bytes
unfolding header_line
streaming_lines [] = []
streaming_lines (h ∷ hs) =
    let rest = streaming_lines hs in
    if is_framing h.name then rest else header_line h.name h.value ++ rest

unfoldable pub serialize_streaming_head : HttpResponse → Bytes → Bytes
unfolding streaming_lines
serialize_streaming_head response request_id =
    codes "HTTP/1.1 "
    ++ (status_digits response.status_code
        ++ (32
            ∷ (response.reason
                ++ (crlf
                    ++ (streaming_lines response.headers
                        ++ (codes "X-Request-Id: "
                            ++ (request_id
                                ++ (crlf
                                    ++ (codes "Transfer-Encoding: chunked"
                                        ++ (crlf
                                            ++ (codes "Connection: keep-alive"
                                                ++ (crlf ++ crlf))))))))))))

abbrev pub hex_digit : ℕ → ℕ
hex_digit n = if ltb n 10 then 48 + n else 87 + n

-- `std::hex`, with fuel above the number of digits.
unfoldable pub hex_digits : ℕ → ℕ → Bytes → Bytes
hex_digits zero n later = later
hex_digits (suc fuel) n later = elim (ltb n 16) [
  | true ↦ hex_digit n ∷ later
  | false ↦ hex_digits fuel (n / 16) (hex_digit (n % 16) ∷ later)
]

unfoldable pub chunk_frame : Bytes → Bytes
unfolding hex_digits
chunk_frame bytes = hex_digits (suc (length bytes)) (length bytes) [] ++ (crlf ++ (bytes ++ crlf))

-- The loop over the entries of the request.
unfoldable pub forwarded_lines : Headers → Headers → Bytes
unfolding hop_by_hop header_line
forwarded_lines all [] = []
forwarded_lines all (h ∷ hs) =
    let rest = forwarded_lines all hs in
    if hop_by_hop h.name all then rest else header_line h.name h.value ++ rest

abbrev pub target_of : Bytes → Bytes
target_of [] = codes "/"
target_of (c ∷ target) = c ∷ target

unfoldable pub serialize_upstream_request : HttpRequest → UpstreamEndpoint → RequestContext → Bytes
unfolding forwarded_lines authority
serialize_upstream_request request upstream context =
    method_name request.method
    ++ (32
        ∷ (target_of request.target
            ++ (codes " HTTP/1.1"
                ++ (crlf
                    ++ (forwarded_lines request.headers request.headers
                        ++ (codes "Host: "
                            ++ (authority upstream
                                ++ (crlf
                                    ++ (codes "X-Forwarded-For: "
                                        ++ (client_key context
                                            ++ (crlf
                                                ++ (codes "X-Forwarded-Proto: http"
                                                    ++ (crlf
                                                        ++ (codes "X-Request-Id: "
                                                            ++ (context.request_id
                                                            ++ (crlf
                                                            ++ (codes "Content-Length: "
                                                            ++ (to_string (length request.body)
                                                            ++ (crlf
                                                            ++ (codes "Connection: keep-alive"
                                                            ++ (crlf
                                                            ++ (crlf
                                                            ++ request.body))))))))))))))))))))))

abbrev pub text_error : ℕ → Bytes → Bytes → HttpResponse
text_error status_code reason body = record empty_response {
  status_code = pos status_code;
  reason = reason;
  body = body;
  headers = Headers.add (codes "Content-Type") (codes "text/plain") [];
}

unfoldable pub make_proxy_error_response : ProxyError → HttpResponse
make_proxy_error_response no_error = empty_response
make_proxy_error_response dns_failure = text_error 502 (codes "Bad Gateway") (codes "bad gateway\n")
make_proxy_error_response connect_failure =
    text_error 502 (codes "Bad Gateway") (codes "bad gateway\n")
make_proxy_error_response upstream_protocol =
    text_error 502 (codes "Bad Gateway") (codes "bad gateway\n")
make_proxy_error_response upstream_body_too_large =
    text_error 502 (codes "Bad Gateway") (codes "bad gateway\n")
make_proxy_error_response connect_timeout =
    text_error 504 (codes "Gateway Timeout") (codes "gateway timeout\n")
make_proxy_error_response response_timeout =
    text_error 504 (codes "Gateway Timeout") (codes "gateway timeout\n")
make_proxy_error_response cancelled =
    text_error 503 (codes "Service Unavailable") (codes "upstream transaction cancelled\n")
make_proxy_error_response no_healthy_upstream =
    text_error 503 (codes "Service Unavailable") (codes "no healthy upstream\n")
make_proxy_error_response circuit_open =
    text_error 503 (codes "Service Unavailable") (codes "upstream circuit is open\n")
make_proxy_error_response overloaded =
    text_error 503 (codes "Service Unavailable") (codes "gateway is overloaded\n")
make_proxy_error_response unsupported_request =
    text_error 501 (codes "Not Implemented") (codes "upstream upgrade is not supported\n")

-- The test of `execute` and `forward` on the request, before anything is sent.
unfoldable pub asks_upgrade : HttpRequest → Bool
asks_upgrade request =
    contains (codes "upgrade") request.headers || elim (get (codes "connection") request.headers) [
      | none ↦ false
      | some value ↦ contains_token value (codes "upgrade")
    ]
