-- ===== src/Router/Caching.antt =====
-- `handle` of src/http/router.cpp with a cache: a response that one request stores, another one gets.
use pulsegate.Base.{
  ℕ, ◌+◌, ◌<◌, ◌≡◌, refl, sym, ap, subst, ◌∙◌, Bool, true, false, ◌&&◌, Option, none, some, Bytes,
  codes, length, lookup, lookup-put, bytes_eq_refl, get_elem?, leb, if_cases, if_keeps, Result, ok,
  arith,
}
use pulsegate.Request.{HttpRequest}
use pulsegate.Response.{HttpResponse}
use pulsegate.RateLimiter.{Double}
use pulsegate.Cache.{Shard}
use pulsegate.Cache.Shards.{IsValid}
use pulsegate.Cache.Policy.{cacheable_request, cacheable_response}
use pulsegate.Cache.Key.{make_key}
use pulsegate.Cache.Build.{ResponseCache, shard_for, get_cached, put_cached}
use pulsegate.Cache.Whole.{config-put_cached, get_cached-put_cached}
use pulsegate.Router.{Route, find_route, path_part}
use pulsegate.Router.Handle.{
  RequestContext, Gateway, Pending, Outcome, answered, Times, set_header, with_request_id,
  after_get, ask_cache, ask_route, run_route, ask_global, begin_handle, set_cache,
}
use pulsegate.Router.Finish.{cached_as, after_put, store_response, finish_handle}

module _ {H W : Type 0} where
  -- A response that is reported as a miss was stored: the cache of the route is the given one.
  IsMiss : Bytes → Bool → ResponseCache → HttpResponse × (RequestContext × Gateway H W) → Type 0
  IsMiss name done cache r =
      r.1.0.cache_status ≡ codes "MISS"
      → (done ≡ true) × (lookup name r.1.1.router.route_caches ≡ some cache)

  lookup-set_cache :
      (name : Bytes) (cache : ResponseCache) (g : Gateway H W)
      → lookup name (set_cache name cache g).router.route_caches ≡ some cache
  unfolding set_cache
  lookup-set_cache name cache g =
      lookup-put name name cache g.router.route_caches ∙ rw (bytes_eq_refl name) refl

  bypass-IsMiss :
      (name : Bytes) (done : Bool) (cache : ResponseCache) (response : HttpResponse)
      (s : RequestContext × Gateway H W)
      → IsMiss name done cache (cached_as (codes "BYPASS") (codes "bypass") response s)
  unfolding cached_as IsMiss
  bypass-IsMiss name done cache response (context, g) h = absurd (omega (arith, ap length h))

  after_put-IsMiss :
      (name : Bytes) (response : HttpResponse) (r : Bool × ResponseCache)
      (s : RequestContext × Gateway H W)
      → IsMiss name r.0 r.1 (after_put name response r s)
  unfolding after_put cached_as IsMiss
  after_put-IsMiss name response (true, cache) (context, g) h =
      (refl, lookup-set_cache name cache g)
  after_put-IsMiss name response (false, cache) (context, g) h = absurd (omega (arith, ap length h))

  module _ (hash : Bytes → ℕ) (pending : Pending H) (response : HttpResponse) (now : ℕ)
      (key : Bytes) (cache : ResponseCache) where
    finish_handle-IsMiss :
        (context : RequestContext) (g : Gateway H W)
        → pending.cache_key ≡ some key
        → lookup pending.route.name g.router.route_caches ≡ some cache
        → IsMiss pending.route.name
            (put_cached hash key response now cache).0
            (put_cached hash key response now cache).1
            (finish_handle hash pending (some response) now (context, g))
    unfolding finish_handle store_response
    finish_handle-IsMiss context g has_key has_cache =
        let P =
          IsMiss pending.route.name (put_cached hash key response now cache).0
            (put_cached hash key response now cache).1 in
        let s : RequestContext × Gateway H W =
          (record context { buffer_response_for_cache = false }, g) in
        let given : P (store_response hash pending response now (some key) (some cache) s) =
          if_keeps P (pending.can_store_response && cacheable_response response cache.config)
            (after_put pending.route.name response (put_cached hash key response now cache) s)
            (cached_as (codes "BYPASS") (codes "bypass") response s)
            (after_put-IsMiss pending.route.name response (put_cached hash key response now cache)
              s)
            (bypass-IsMiss pending.route.name (put_cached hash key response now cache).0
              (put_cached hash key response now cache).1 response s) in
        subst
          (λ k. P (
            store_response hash pending response now k
              (lookup pending.route.name g.router.route_caches) s))
          (sym has_key)
          (subst (λ c. P (store_response hash pending response now (some key) c s)) (sym has_cache)
            given)

  -- The answer of a cache that has the response.
  after_get-hit :
      (pending : Pending H) (response : HttpResponse) (cached : Option HttpResponse)
      (context : RequestContext) (g : Gateway H W)
      → cached ≡ some response
      → (after_get pending context cached g).0
        ≡ ok (
            answered
              (with_request_id context (set_header (codes "X-Cache") (codes "HIT") response)))
  unfolding after_get
  after_get-hit pending response none context g hit = absurd (cc hit)
  after_get-hit pending response (some cached) context g hit =
      ap
        (λ r.
          ok (answered (with_request_id context (set_header (codes "X-Cache") (codes "HIT") r))))
        (ground (arith, hit))

  ask_cache-hit :
      (hash : Bytes → ℕ) (route : Route H) (request : HttpRequest) (now : ℕ) (cache : ResponseCache)
      (response : HttpResponse) (context : RequestContext) (g : Gateway H W)
      → cacheable_request request ≡ true
      → (get_cached hash (make_key request cache.config) now cache).0 ≡ some response
      → (ask_cache hash route request now (some cache) (context, g)).0
        ≡ ok (
            answered
              (with_request_id context (set_header (codes "X-Cache") (codes "HIT") response)))
  unfolding ask_cache
  ask_cache-hit hash route request now cache response context g cacheable hit =
      if_cases
        (λ (r : Result (Outcome H) × (RequestContext × Gateway H W)).
          r.0
          ≡ ok (
              answered
                (with_request_id context (set_header (codes "X-Cache") (codes "HIT") response))))
        (cacheable_request request) _ _ (λ _. after_get-hit _ response _ context _ hit)
        (λ h. absurd (cc (h, cacheable)))

  module _ (hash : Bytes → ℕ) (request : HttpRequest) (times : Times) (route : Route H)
      (response : HttpResponse) (cache : ResponseCache) (context : RequestContext)
      (g : Gateway H W) where
    Hit : Result (Outcome H) × (RequestContext × Gateway H W) → Type 0
    Hit r =
        r.0
        ≡ ok (
            answered
              (with_request_id context (set_header (codes "X-Cache") (codes "HIT") response)))

    -- No limiter stands before the route, and its cache has the response.
    begin_handle-Hit :
        ⦃d : Double W⦄
        → g.global_limiter ≡ none
        → find_route request.method (path_part request.target) g.router.routes ≡ some route
        → lookup route.name g.router.route_limiters ≡ none
        → lookup route.name g.router.route_caches ≡ some cache
        → cacheable_request request ≡ true
        → (get_cached hash (make_key request cache.config) times.at_cache cache).0 ≡ some response
        → Hit (begin_handle hash request times (context, g))
    unfolding begin_handle ask_global run_route ask_route Hit with_request_id
    begin_handle-Hit unlimited found free has_cache cacheable hit =
        let context' : RequestContext = record context { route_name = route.name } in
        subst (λ l. Hit (ask_global hash request times l (context, g))) (sym unlimited)
          (subst (λ r. Hit (run_route hash request times r (context, g))) (sym found)
            (subst (λ l. Hit (ask_route hash route request times l (context', g))) (sym free)
              (subst (λ c. Hit (ask_cache hash route request times.at_cache c (context', g)))
                (sym has_cache)
                (ask_cache-hit hash route request times.at_cache cache response context' g cacheable
                  hit))))

  -- Where the first request ends with the status MISS and its cache has a valid shard for the key, another
  -- request for a route of the same name, with no limiter before it, cacheable and with the same key, that
  -- reads the cache before the time to live has passed, with nothing in between, is answered without its
  -- handler: with the response of the first one, X-Cache set to HIT and its own request id.
  pub begin_handle-finish_handle :
      ⦃d : Double W⦄ (hash : Bytes → ℕ) (pending : Pending H) (response : HttpResponse) (now : ℕ)
      (key : Bytes) (cache : ResponseCache) (shard : Shard) (first second : RequestContext)
      (g : Gateway H W) (request : HttpRequest) (times : Times) (route : Route H)
      → pending.cache_key ≡ some key
      → lookup pending.route.name g.router.route_caches ≡ some cache
      → get_elem? cache.shards (shard_for hash key cache) ≡ some shard
      → IsValid shard
      → (finish_handle hash pending (some response) now (first, g)).1.0.cache_status ≡ codes "MISS"
      → (finish_handle hash pending (some response) now (first, g)).1.1.global_limiter ≡ none
      → find_route request.method
          (path_part request.target)
          (finish_handle hash pending (some response) now (first, g)).1.1.router.routes
        ≡ some route
      → route.name ≡ pending.route.name
      → lookup route.name
          (finish_handle hash pending (some response) now (first, g)).1.1.router.route_limiters
        ≡ none
      → cacheable_request request ≡ true
      → make_key request cache.config ≡ key
      → times.at_cache < now + cache.config.ttl
      → (begin_handle hash request times
          (second, (finish_handle hash pending (some response) now (first, g)).1.1)).0
        ≡ ok (
            answered (with_request_id second (set_header (codes "X-Cache") (codes "HIT") response)))
  unfolding IsMiss Hit
  begin_handle-finish_handle hash pending response now key cache shard first second g request times
        route has_key has_cache has_shard valid miss unlimited found same_name free cacheable
        same_key fresh =
      let (done, kept) =
        finish_handle-IsMiss hash pending response now key cache first g has_key has_cache miss in
      let after = (put_cached hash key response now cache).1 in
      let not_expired : leb (now + cache.config.ttl) times.at_cache ≡ false =
        ground (arith, fresh) in
      let hit : (get_cached hash (make_key request after.config) times.at_cache after).0
          ≡ some response =
        ap (λ k. (get_cached hash k times.at_cache after).0)
          (ap (make_key request) (config-put_cached hash key response now cache shard has_shard)
            ∙ same_key)
        ∙ get_cached-put_cached hash key response now times.at_cache cache shard has_shard valid
            done
        ∙ rw not_expired refl in
      begin_handle-Hit hash request times route response after second _ unlimited found free
        (rw same_name kept) cacheable hit
