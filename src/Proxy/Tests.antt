-- ===== src/Proxy/Tests.antt =====
-- The theorems on the proxy at a concrete request, with a header that its Connection header lists, and at
-- two upstreams, of which one is not healthy.
use pulsegate.Base.{◌≡◌, Bool, true, [], ◌∷◌, ◌++◌, none, codes, if◌then◌else◌, false}
use pulsegate.Headers.{values_named}
use pulsegate.Request.{HttpMethod, HttpRequest, empty_request}
use pulsegate.Response.{crlf}
use pulsegate.Router.Handle.{RequestContext}
use pulsegate.Config.{UpstreamEndpoint}
use pulsegate.Health.{EndpointHealth}
use pulsegate.Breaker.{CircuitBreaker, CircuitState}
use pulsegate.Proxy.Choice.{State, choose, endpoint_id}
use pulsegate.Proxy.Chosen.{IsUsed, choose-IsUsed}
use pulsegate.Proxy.{serialize_upstream_request}
use pulsegate.Proxy.Forwarding.{
  forwarded, own_headers, lines, request_line, stays_here, serialize_upstream_request-forwarded,
}

abbrev listed : HttpRequest
listed = record empty_request {
  method = HttpMethod.post;
  target = codes "/a";
  headers =
      record { name = codes "connection"; value = codes "close, x-key" }
      ∷ record { name = codes "x-key"; value = codes "1" }
      ∷ record { name = codes "content-length"; value = codes "2" }
      ∷ record { name = codes "accept"; value = codes "*/*" }
      ∷ [];
  body = codes "hi";
}

abbrev local : UpstreamEndpoint
local = record { host = codes "::1"; service = codes "80" }

abbrev context : RequestContext
context = record {
  request_id = codes "7";
  peer = none;
  buffer_response_for_cache = false;
  route_name = codes "page";
  cache_status = codes "BYPASS";
}

serialize_upstream_request-forwarded_example :
    (serialize_upstream_request listed local context
      ≡ request_line listed
        ++ (lines (forwarded listed.headers listed.headers ++ own_headers listed local context)
            ++ (crlf ++ listed.body)))
    × (values_named (codes "x-key") (forwarded listed.headers listed.headers) ≡ (
        if stays_here (codes "x-key") listed.headers
        then []
        else values_named (codes "x-key") listed.headers))
serialize_upstream_request-forwarded_example =
    serialize_upstream_request-forwarded listed local context (codes "x-key")

abbrev health_of : Bool → EndpointHealth
health_of healthy = record {
  healthy = healthy;
  consecutive_successes = 0;
  consecutive_failures = 0;
  changed_at = 1;
}

abbrev breaker : CircuitBreaker
breaker = record {
  limits = record { failure_threshold = 3; cooldown = 10; half_open_max_probes = 1 };
  state = CircuitState.open_;
  consecutive_failures = 0;
  probes_in_flight = 0;
  retry_at = 20;
}

abbrev remote : UpstreamEndpoint
remote = record { host = codes "a"; service = codes "81" }

abbrev two_upstreams : State
two_upstreams = record {
  upstreams = local ∷ remote ∷ [];
  health = record {
    thresholds = record { healthy_threshold = 2; unhealthy_threshold = 3 };
    snapshot = (endpoint_id local, health_of false) ∷ (endpoint_id remote, health_of true) ∷ [];
  };
  circuits = breaker ∷ breaker ∷ [];
  next = 0;
  in_flight = 0;
  max_in_flight_requests = 8;
  overload_retry_after = 1;
  count_5xx_as_health_failure = true;
}

choose-IsUsed_example :
    IsUsed (choose (λ left. 30) two_upstreams).1 (choose (λ left. 30) two_upstreams).0.index
    × ((choose (λ left. 30) two_upstreams).1.upstreams ≡ two_upstreams.upstreams)
    × ((choose (λ left. 30) two_upstreams).1.health ≡ two_upstreams.health)
choose-IsUsed_example = choose-IsUsed (λ left. 30) two_upstreams
