-- ===== src/Proxy/Forwarding.antt =====
-- The request that src/http/reverse_proxy.cpp writes to an upstream: which headers go on.
use pulsegate.Base.{
  ◌≡◌, refl, sym, ◌∙◌, ap, Bool, ◌||◌, List, [], ◌∷◌, ◌++◌, Bytes, codes, length, bytes_eq,
  bytes_eq_iff, to_string, if◌then◌else◌, any_of, append_assoc, arith,
}
use pulsegate.Headers.{Headers, values, values_named, contains_token}
use pulsegate.Request.{HttpRequest}
use pulsegate.Response.{crlf}
use pulsegate.Router.{method_name}
use pulsegate.Router.Handle.{RequestContext, client_key}
use pulsegate.Config.{UpstreamEndpoint}
use pulsegate.Proxy.{
  fixed, own_names, hop_by_hop, authority, header_line, forwarded_lines, target_of,
  serialize_upstream_request,
}

-- The headers that go on.
unfoldable pub forwarded : Headers → Headers → Headers
forwarded all [] = []
forwarded all (h ∷ hs) =
    let rest = forwarded all hs in if hop_by_hop h.name all then rest else h ∷ rest

-- The headers that the proxy writes.
unfoldable pub own_headers : HttpRequest → UpstreamEndpoint → RequestContext → Headers
own_headers request upstream context =
    record { name = codes "Host"; value = authority upstream }
    ∷ record { name = codes "X-Forwarded-For"; value = client_key context }
    ∷ record { name = codes "X-Forwarded-Proto"; value = codes "http" }
    ∷ record { name = codes "X-Request-Id"; value = context.request_id }
    ∷ record { name = codes "Content-Length"; value = to_string (length request.body) }
    ∷ record { name = codes "Connection"; value = codes "keep-alive" }
    ∷ []

unfoldable pub lines : Headers → Bytes
lines [] = []
lines (h ∷ hs) = header_line h.name h.value ++ lines hs

unfoldable pub request_line : HttpRequest → Bytes
request_line request =
    method_name request.method ++ (32 ∷ (target_of request.target ++ (codes " HTTP/1.1" ++ crlf)))

lines-append : (hs hs' : Headers) → lines (hs ++ hs') ≡ lines hs ++ lines hs'
unfolding lines
lines-append [] hs' = refl
lines-append (h ∷ hs) hs' =
    ap (λ t. header_line h.name h.value ++ t) (lines-append hs hs')
    ∙ sym (append_assoc (header_line h.name h.value) (lines hs) (lines hs'))

forwarded_lines-lines : (all hs : Headers) → forwarded_lines all hs ≡ lines (forwarded all hs)
unfolding forwarded_lines lines forwarded
forwarded_lines-lines all [] = refl
forwarded_lines-lines all (h ∷ hs) = rw (forwarded_lines-lines all hs) (ground arith)

values_named-forwarded :
    (name : Bytes) (all hs : Headers)
    → values_named name (forwarded all hs)
      ≡ (if hop_by_hop name all then [] else values_named name hs)
unfolding values_named forwarded
values_named-forwarded name all [] = ground arith
values_named-forwarded name all (h ∷ hs) =
    ground (arith, values_named-forwarded name all hs, bytes_eq_iff h.name name)

serialize_upstream_request-lines :
    (request : HttpRequest) (upstream : UpstreamEndpoint) (context : RequestContext)
    → serialize_upstream_request request upstream context
      ≡ request_line request
        ++ (lines
              (forwarded request.headers request.headers ++ own_headers request upstream context)
            ++ (crlf ++ request.body))
unfolding serialize_upstream_request request_line lines own_headers header_line
serialize_upstream_request-lines request upstream context =
    simp (forwarded_lines-lines, lines-append, append_assoc)

-- The names that never go on: the ones that concern one connection, the ones that the proxy writes, and
-- those that the request's Connection headers list.
unfoldable pub stays_here : Bytes → Headers → Bool
stays_here name all =
    any_of (λ other. bytes_eq other name) (fixed ++ own_names)
    || any_of (λ value. contains_token value name) (values (codes "connection") all)

any_of-append {ℓ} :
    {A : Type ℓ} (p : A → Bool) (xs ys : List A)
    → any_of p (xs ++ ys) ≡ (any_of p xs || any_of p ys)
unfolding any_of
any_of-append p [] ys = refl
any_of-append p (x ∷ xs) ys = rw (any_of-append p xs ys) (ground arith)

swap_or : (a b c : Bool) → (a || (b || c)) ≡ ((a || c) || b)
swap_or a b c = ground arith

hop_by_hop_lem : (name : Bytes) (all : Headers) → hop_by_hop name all ≡ stays_here name all
unfolding hop_by_hop stays_here
hop_by_hop_lem name all =
    rw (any_of-append (λ other. bytes_eq other name) fixed own_names)
      (swap_or (any_of (λ other. bytes_eq other name) fixed) _ _)

-- For every request, upstream and context: what the proxy writes is the request line with the method and the
-- target of the request, or a slash for an empty one, the headers that go on, the six headers of the proxy,
-- an empty line and the body. Under a name that concerns one connection, that the proxy writes itself, or
-- that a Connection header of the request lists, no header goes on; under every other name the same values
-- go on in the same order.
pub serialize_upstream_request-forwarded :
    (request : HttpRequest) (upstream : UpstreamEndpoint) (context : RequestContext) (name : Bytes)
    → (serialize_upstream_request request upstream context
        ≡ request_line request
          ++ (lines
                (forwarded request.headers request.headers ++ own_headers request upstream context)
              ++ (crlf ++ request.body)))
      × (values_named name (forwarded request.headers request.headers)
          ≡ (if stays_here name request.headers then [] else values_named name request.headers))
serialize_upstream_request-forwarded request upstream context name = (
  serialize_upstream_request-lines request upstream context,
  values_named-forwarded name request.headers request.headers
      ∙ ap (λ b. if b then [] else values_named name request.headers)
          (hop_by_hop_lem name request.headers),
)
