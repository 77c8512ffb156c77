-- ===== src/Request.antt =====
-- include/pulsegate/http/http_request.h and src/http/http_request.cpp.
use pulsegate.Base.{
  ℕ, Bool, true, false, ◌&&◌, [], Bytes, codes, bytes_eq, any_of, ◌==◌, if◌then◌else◌,
}
use pulsegate.Headers.{Headers, values, contains_token}

pub data HttpMethod : Type 0 where
  get head post put delete options unknown : HttpMethod

pub record HttpRequest : Type 0 where
  pub method : HttpMethod
  pub target : Bytes
  pub version_major : ℕ
  pub version_minor : ℕ
  pub headers : Headers
  pub body : Bytes

-- A default `HttpRequest`.
abbrev pub empty_request : HttpRequest
empty_request = record {
  method = HttpMethod.unknown;
  target = [];
  version_major = 1;
  version_minor = 1;
  headers = [];
  body = [];
}

unfoldable pub parse_http_method : Bytes → HttpMethod
parse_http_method method =
    if bytes_eq method (codes "GET")
    then HttpMethod.get
    else if bytes_eq method (codes "HEAD")
    then HttpMethod.head
    else if bytes_eq method (codes "POST")
    then HttpMethod.post
    else if bytes_eq method (codes "PUT")
    then HttpMethod.put
    else if bytes_eq method (codes "DELETE")
    then HttpMethod.delete
    else if bytes_eq method (codes "OPTIONS")
    then HttpMethod.options
    else HttpMethod.unknown

unfoldable pub keep_alive : HttpRequest → Bool
keep_alive request =
    let connection = values (codes "connection") request.headers in
    if any_of (λ value. contains_token value (codes "close")) connection
    then false
    else if request.version_major == 1 && request.version_minor == 0
    then any_of (λ value. contains_token value (codes "keep-alive")) connection
    else true
