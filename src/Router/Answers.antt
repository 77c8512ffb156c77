-- ===== src/Router/Answers.antt =====
-- `handle` of src/http/router.cpp: every answer names its request.
use pulsegate.Base.{
  ℕ, Bool, false, ◌&&◌, ◌≡◌, refl, Option, none, some, [], ◌∷◌, Bytes, codes, lookup, if_keeps,
  Result, ok, err, bytes_eq, to_lower,
}
use pulsegate.Headers.{values, normalize_header_name}
use pulsegate.Headers.Lookup.{values-set}
use pulsegate.Request.{HttpRequest}
use pulsegate.Response.{HttpResponse}
use pulsegate.RateLimiter.{Double}
use pulsegate.RateLimiter.Clients.{RateLimitDecision, Limiter}
use pulsegate.Cache.Policy.{cacheable_request, cacheable_response}
use pulsegate.Cache.Build.{ResponseCache, put_cached}
use pulsegate.Router.{Route}
use pulsegate.Router.Handle.{
  RequestContext, Gateway, Pending, Outcome, answered, calls, Times, set_header, with_request_id,
  refuse, after_get, ask_cache, after_route, ask_route, run_route, after_global, ask_global,
  begin_handle, set_cache, set_limiter,
}
use pulsegate.Router.Finish.{cached_as, after_put, store_response, finish_handle, handled}

-- The one value of the header, whatever the handler or the cache had set.
unfoldable pub Names : Bytes → HttpResponse → Type 0
Names id response = values (codes "X-Request-Id") response.headers ≡ id ∷ []

with_request_id-Names :
    (context : RequestContext) (response : HttpResponse)
    → Names context.request_id (with_request_id context response)
unfolding with_request_id set_header Names bytes_eq normalize_header_name to_lower
with_request_id-Names context response =
    values-set (codes "X-Request-Id") (codes "X-Request-Id") context.request_id response.headers

module _ {H W : Type 0} where
  -- An answer before the handler names the request, and the request keeps its name in any case.
  unfoldable pub Begun : Bytes → Result (Outcome H) × (RequestContext × Gateway H W) → Type 0
  Begun id (ok (answered response), (context, g)) = Names id response × (context.request_id ≡ id)
  Begun id (ok (calls pending), (context, g)) = context.request_id ≡ id
  Begun id (err e, (context, g)) = context.request_id ≡ id

  refuse-Begun :
      (scope : Bytes) (decision : RateLimitDecision) (context : RequestContext) (g : Gateway H W)
      → Begun context.request_id (refuse scope decision (context, g))
  unfolding refuse Begun
  refuse-Begun scope decision context g = (with_request_id-Names context _, refl)

  after_get-Begun :
      (pending : Pending H) (context : RequestContext) (cached : Option HttpResponse)
      (g : Gateway H W)
      → Begun context.request_id (after_get pending context cached g)
  unfolding after_get Begun
  after_get-Begun pending context (some cached) g = (with_request_id-Names context _, refl)
  after_get-Begun pending context none g = refl

  module _ (hash : Bytes → ℕ) (request : HttpRequest) where
    ask_cache-Begun :
        (route : Route H) (now : ℕ) (cache : Option ResponseCache) (context : RequestContext)
        (g : Gateway H W)
        → Begun context.request_id (ask_cache hash route request now cache (context, g))
    unfolding ask_cache Begun
    ask_cache-Begun route now none context g = refl
    ask_cache-Begun route now (some cache) context g =
        if_keeps (Begun context.request_id) (cacheable_request request) _ _
          (after_get-Begun _ context _ _) refl

    after_route-Begun :
        (route : Route H) (now : ℕ) (r : Result RateLimitDecision × Limiter W)
        (context : RequestContext) (g : Gateway H W)
        → Begun context.request_id (after_route hash route request now r (context, g))
    unfolding after_route Begun
    after_route-Begun route now (err e, limiter) context g = refl
    after_route-Begun route now (ok decision, limiter) context g =
        if_keeps (Begun context.request_id) decision.allowed _ _
          (ask_cache-Begun route now _ context (set_limiter route.name limiter g))
          (refuse-Begun route.name decision context (set_limiter route.name limiter g))

    module _ ⦃d : Double W⦄ (times : Times) where
      ask_route-Begun :
          (route : Route H) (limiter : Option (Limiter W)) (context : RequestContext)
          (g : Gateway H W)
          → Begun context.request_id (ask_route hash route request times limiter (context, g))
      unfolding ask_route
      ask_route-Begun route none context g = ask_cache-Begun route times.at_cache _ context g
      ask_route-Begun route (some limiter) context g =
          after_route-Begun route times.at_cache _ context g

      run_route-Begun :
          (route : Option (Route H)) (context : RequestContext) (g : Gateway H W)
          → Begun context.request_id (run_route hash request times route (context, g))
      unfolding run_route Begun
      run_route-Begun none context g = (with_request_id-Names context _, refl)
      run_route-Begun (some route) context g = ask_route-Begun route _ _ g

      after_global-Begun :
          (r : Result RateLimitDecision × Limiter W) (context : RequestContext) (g : Gateway H W)
          → Begun context.request_id (after_global hash request times r (context, g))
      unfolding after_global Begun
      after_global-Begun (err e, limiter) context g = refl
      after_global-Begun (ok decision, limiter) context g =
          if_keeps (Begun context.request_id) decision.allowed _ _
            (run_route-Begun _ context (record g { global_limiter = some limiter }))
            (refuse-Begun (codes "global") decision (record context { route_name = codes "global" })
              (record g { global_limiter = some limiter }))

      ask_global-Begun :
          (limiter : Option (Limiter W)) (context : RequestContext) (g : Gateway H W)
          → Begun context.request_id (ask_global hash request times limiter (context, g))
      unfolding ask_global
      ask_global-Begun none context g = run_route-Begun _ context g
      ask_global-Begun (some limiter) context g = after_global-Begun _ context g

  cached_as-Names :
      (status outcome : Bytes) (response : HttpResponse) (context : RequestContext)
      (g : Gateway H W)
      → Names context.request_id ((cached_as status outcome response (context, g)).0)
  unfolding cached_as
  cached_as-Names status outcome response context g = with_request_id-Names context _

  Named : Bytes → HttpResponse × (RequestContext × Gateway H W) → Type 0
  Named id r = Names id (r.0)

  module _ (hash : Bytes → ℕ) (context : RequestContext) (g : Gateway H W) where
    after_put-Names :
        (name : Bytes) (response : HttpResponse) (r : Bool × ResponseCache)
        → Names context.request_id ((after_put name response r (context, g)).0)
    unfolding after_put Named
    after_put-Names name response (done, cache) =
        if_keeps (Named context.request_id) done _ _
          (cached_as-Names (codes "MISS") (codes "miss") response context (set_cache name cache g))
          (cached_as-Names (codes "BYPASS") (codes "bypass") response context
            (set_cache name cache g))

    bypass-Names :
        (response : HttpResponse)
        → Names context.request_id
            ((cached_as (codes "BYPASS") (codes "bypass") response (context, g)).0)
    bypass-Names response = cached_as-Names (codes "BYPASS") (codes "bypass") response context g

    store_response-Names :
        (pending : Pending H) (response : HttpResponse) (now : ℕ) (key : Option Bytes)
        (cache : Option ResponseCache)
        → Names context.request_id
            ((store_response hash pending response now key cache (context, g)).0)
    unfolding store_response Named
    store_response-Names pending response now (some key) (some cache) =
        if_keeps (Named context.request_id)
          (pending.can_store_response && cacheable_response response cache.config) _ _
          (after_put-Names pending.route.name response (put_cached hash key response now cache))
          (bypass-Names response)
    store_response-Names pending response now (some key) none = bypass-Names response
    store_response-Names pending response now none cache =
        if_keeps (Named context.request_id) pending.cache_configured _ _ (bypass-Names response)
          (with_request_id-Names context response)

  module _ (hash : Bytes → ℕ) (context : RequestContext) (g : Gateway H W) where
    finish_handle-Names :
        (pending : Pending H) (result : Option HttpResponse) (now : ℕ)
        → Names context.request_id ((finish_handle hash pending result now (context, g)).0)
    unfolding finish_handle
    finish_handle-Names pending result now =
        store_response-Names hash (record context { buffer_response_for_cache = false }) g pending
          (handled result) now pending.cache_key (lookup pending.route.name g.router.route_caches)

    -- For every request, route table, set of limiters and caches, hash and clock, and whatever the handler
    -- does: a response that `handle` returns before the handler's call, and the one that it returns after
    -- it, has exactly one value of X-Request-Id, the id of the request.
    pub handle-Names :
        ⦃d : Double W⦄ (request : HttpRequest) (times : Times) (pending : Pending H)
        (result : Option HttpResponse) (now : ℕ)
        → Begun context.request_id (begin_handle hash request times (context, g))
          × Names context.request_id ((finish_handle hash pending result now (context, g)).0)
    unfolding begin_handle
    handle-Names request times pending result now = (
      ask_global-Begun hash request times g.global_limiter context g,
      finish_handle-Names pending result now,
    )
