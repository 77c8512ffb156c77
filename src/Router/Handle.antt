-- ===== src/Router/Handle.antt =====
-- `handle` of src/http/router.cpp, over the limiters and the caches. It suspends while the handler runs:
-- `begin_handle` is the part before the handler's call, which may answer at once, and `finish_handle` the
-- part after it. A handler's result is an argument, as is the state that other requests leave by then.
-- Of an `Observability` the events that `handle` reports are kept.
use pulsegate.Base.{
  ℕ, ◌+◌, ◌%◌, ◌^◌, Bool, true, false, Option, none, some, List, [], ◌∷◌, ◌++◌, Bytes, codes,
  lookup, put, if◌then◌else◌, Result, ok, err, to_string,
}
use pulsegate.Headers
use pulsegate.Request.{HttpMethod, HttpRequest}
use pulsegate.Response.{HttpResponse}
use pulsegate.RateLimiter.{Double}
use pulsegate.RateLimiter.Clients.{RateLimitDecision, Limiter, check}
use pulsegate.Cache.Policy.{cacheable_request}
use pulsegate.Cache.Key.{make_key}
use pulsegate.Cache.Build.{ResponseCache, get_cached}
use pulsegate.Router.{
  Route, find_route, path_part, unmatched_response, make_error, make_rate_limited, same_method,
}
use pulsegate.Router

-- What the router reports: a refusal with the name of its scope, and what a cache did.
pub data Event : Type 0 where
  rate_limit_rejection cache_result : Bytes → Event

-- The members that `handle` reads or writes. A peer is the text of its address, none where it is
-- unspecified.
pub record RequestContext : Type 0 where
  pub request_id : Bytes
  pub peer : Option Bytes
  pub buffer_response_for_cache : Bool
  pub route_name : Bytes
  pub cache_status : Bytes

pub record Gateway (H W : Type 0) : Type 0 where
  pub router : Router.Router H (Limiter W) ResponseCache
  pub global_limiter : Option (Limiter W)
  pub observability : Option (List Event)
  pub next_request_id : ℕ

-- The locals of `handle` that live across the handler's call. A key is there where the request is cacheable.
pub record Pending (H : Type 0) : Type 0 where
  pub route : Route H
  pub cache_configured : Bool
  pub can_store_response : Bool
  pub cache_key : Option Bytes

pub data Outcome (H : Type 0) : Type 0 where
  answered : HttpResponse → Outcome H
  calls : Pending H → Outcome H

-- The clock at each of the three places that read it before the handler's call.
pub record Times : Type 0 where
  pub at_global : ℕ
  pub at_route : ℕ
  pub at_cache : ℕ

unfoldable pub set_header : Bytes → Bytes → HttpResponse → HttpResponse
set_header name value response = record response {
  headers = Headers.set name value response.headers;
}

unfoldable pub with_request_id : RequestContext → HttpResponse → HttpResponse
unfolding set_header
with_request_id context response = set_header (codes "X-Request-Id") context.request_id response

unfoldable pub client_key : RequestContext → Bytes
client_key context = elim context.peer [ none ↦ codes "unknown" | some address ↦ address ]

abbrev pub report_event : Event → Option (List Event) → Option (List Event)
report_event e none = none
report_event e (some events) = some (events ++ e ∷ [])

abbrev pub is_get : HttpMethod → Bool
is_get method = same_method method HttpMethod.get

module _ {H W : Type 0} where
  unfoldable pub report : Event → Gateway H W → Gateway H W
  report e g = record g { observability = report_event e g.observability }

  unfoldable pub set_cache : Bytes → ResponseCache → Gateway H W → Gateway H W
  set_cache name cache g = record g {
    router = record g.router { route_caches = put name cache g.router.route_caches };
  }

  unfoldable pub set_limiter : Bytes → Limiter W → Gateway H W → Gateway H W
  set_limiter name limiter g = record g {
    router = record g.router { route_limiters = put name limiter g.router.route_limiters };
  }

  -- A refusal by a limiter, with the name that the event has.
  unfoldable pub refuse :
      Bytes
      → RateLimitDecision
      → RequestContext × Gateway H W
      → Result (Outcome H) × (RequestContext × Gateway H W)
  unfolding with_request_id report
  refuse scope decision (context, g) = (
    ok (answered (with_request_id context (make_rate_limited decision.retry_after))),
    (context, report (rate_limit_rejection scope) g),
  )

  -- What `get` found.
  unfoldable pub after_get :
      Pending H
      → RequestContext
      → Option HttpResponse
      → Gateway H W
      → Result (Outcome H) × (RequestContext × Gateway H W)
  unfolding set_header with_request_id report
  after_get pending context (some cached) g = (
    ok (answered (with_request_id context (set_header (codes "X-Cache") (codes "HIT") cached))),
    (record context { cache_status = codes "HIT" }, report (cache_result (codes "hit")) g),
  )
  after_get pending context none g =
      (ok (calls pending), (record context { buffer_response_for_cache = true }, g))

  module _ (hash : Bytes → ℕ) where
    -- The route's cache, where it has one, is asked where the request is cacheable.
    unfoldable pub ask_cache :
        Route H
        → HttpRequest
        → ℕ
        → Option ResponseCache
        → RequestContext × Gateway H W
        → Result (Outcome H) × (RequestContext × Gateway H W)
    unfolding after_get set_cache
    ask_cache route request now none (context, g) = (
      ok (
          calls (record {
            route = route;
            cache_configured = false;
            can_store_response = is_get request.method;
            cache_key = none;
          })),
      (context, g),
    )
    ask_cache route request now (some cache) (context, g) =
        let key = make_key request cache.config in
        let (cached, cache') = get_cached hash key now cache in
        let pending : Option Bytes → Pending H = λ k. record {
          route = route;
          cache_configured = true;
          can_store_response = is_get request.method;
          cache_key = k;
        } in
        if cacheable_request request
        then after_get (pending (some key)) context cached (set_cache route.name cache' g)
        else (ok (calls (pending none)), (context, g))

    -- The decision of the route's limiter, where it has one, with the limiter after it.
    unfoldable pub after_route :
        Route H
        → HttpRequest
        → ℕ
        → Result RateLimitDecision × Limiter W
        → RequestContext × Gateway H W
        → Result (Outcome H) × (RequestContext × Gateway H W)
    unfolding refuse ask_cache set_limiter
    after_route route request now (err e, limiter) (context, g) =
        (err e, (context, set_limiter route.name limiter g))
    after_route route request now (ok decision, limiter) (context, g) =
        let g' = set_limiter route.name limiter g in
        if decision.allowed
        then ask_cache route request now (lookup route.name g'.router.route_caches) (context, g')
        else refuse route.name decision (context, g')

    module _ ⦃d : Double W⦄ where
      unfoldable pub ask_route :
          Route H
          → HttpRequest
          → Times
          → Option (Limiter W)
          → RequestContext × Gateway H W
          → Result (Outcome H) × (RequestContext × Gateway H W)
      unfolding after_route
      ask_route route request times none (context, g) =
          ask_cache route request times.at_cache (lookup route.name g.router.route_caches)
            (context, g)
      ask_route route request times (some limiter) (context, g) =
          after_route route request times.at_cache
            (check hash (client_key context) times.at_route limiter) (context, g)

      unfoldable pub run_route :
          HttpRequest
          → Times
          → Option (Route H)
          → RequestContext × Gateway H W
          → Result (Outcome H) × (RequestContext × Gateway H W)
      unfolding with_request_id ask_route
      run_route request times none (context, g) = (
        ok (
            answered (
              with_request_id context
                (unmatched_response (path_part request.target) g.router.routes))),
        (context, g),
      )
      run_route request times (some route) (context, g) =
          ask_route route request times (lookup route.name g.router.route_limiters)
            (record context { route_name = route.name }, g)

      unfoldable pub after_global :
          HttpRequest
          → Times
          → Result RateLimitDecision × Limiter W
          → RequestContext × Gateway H W
          → Result (Outcome H) × (RequestContext × Gateway H W)
      unfolding refuse run_route
      after_global request times (err e, limiter) (context, g) =
          (err e, (context, record g { global_limiter = some limiter }))
      after_global request times (ok decision, limiter) (context, g) =
          let g' = record g { global_limiter = some limiter } in
          if decision.allowed
          then run_route request times
              (find_route request.method (path_part request.target) g'.router.routes) (context, g')
          else refuse (codes "global") decision (record context { route_name = codes "global" }, g')

      unfoldable pub ask_global :
          HttpRequest
          → Times
          → Option (Limiter W)
          → RequestContext × Gateway H W
          → Result (Outcome H) × (RequestContext × Gateway H W)
      unfolding after_global
      ask_global request times none (context, g) =
          run_route request times
            (find_route request.method (path_part request.target) g.router.routes) (context, g)
      ask_global request times (some limiter) (context, g) =
          after_global request times (check hash (client_key context) times.at_global limiter)
            (context, g)

      unfoldable pub begin_handle :
          HttpRequest
          → Times
          → RequestContext × Gateway H W
          → Result (Outcome H) × (RequestContext × Gateway H W)
      unfolding ask_global
      begin_handle request times (context, g) =
          ask_global request times g.global_limiter (context, g)

  -- `fetch_add` on a 64-bit counter
  unfoldable pub next_id : Gateway H W → Bytes × Gateway H W
  next_id g =
      (to_string g.next_request_id, record g { next_request_id = (g.next_request_id + 1) % 2 ^ 64 })
