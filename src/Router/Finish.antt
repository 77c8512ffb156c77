-- ===== src/Router/Finish.antt =====
-- The part of `handle` of src/http/router.cpp that follows the handler's call.
use pulsegate.Base.{ℕ, ◌&&◌, Bool, false, Option, none, some, Bytes, codes, lookup, if◌then◌else◌}
use pulsegate.Response.{HttpResponse}
use pulsegate.Cache.Policy.{cacheable_response}
use pulsegate.Cache.Build.{ResponseCache, put_cached}
use pulsegate.Router.{make_error}
use pulsegate.Router.Handle.{
  RequestContext, Gateway, Pending, cache_result, set_header, with_request_id, report, set_cache,
}

-- `none` is an exception of the handler.
abbrev pub handled : Option HttpResponse → HttpResponse
handled (some response) = response
handled none = make_error 500 (codes "Internal Server Error") (codes "internal server error\n")

module _ {H W : Type 0} where
  -- The end of `handle`: what the cache did is in the response, in the context and in an event.
  unfoldable pub cached_as :
      Bytes
      → Bytes
      → HttpResponse
      → RequestContext × Gateway H W
      → HttpResponse × (RequestContext × Gateway H W)
  unfolding set_header with_request_id report
  cached_as status outcome response (context, g) = (
    with_request_id context (set_header (codes "X-Cache") status response),
    (record context { cache_status = status }, report (cache_result outcome) g),
  )

  -- What `put` returned.
  unfoldable pub after_put :
      Bytes
      → HttpResponse
      → Bool × ResponseCache
      → RequestContext × Gateway H W
      → HttpResponse × (RequestContext × Gateway H W)
  unfolding cached_as set_cache
  after_put name response (done, cache) (context, g) =
      if done
      then cached_as (codes "MISS") (codes "miss") response (context, set_cache name cache g)
      else cached_as (codes "BYPASS") (codes "bypass") response (context, set_cache name cache g)

  module _ (hash : Bytes → ℕ) where
    -- The store, where the key, the request and the response allow it.
    unfoldable pub store_response :
        Pending H
        → HttpResponse
        → ℕ
        → Option Bytes
        → Option ResponseCache
        → RequestContext × Gateway H W
        → HttpResponse × (RequestContext × Gateway H W)
    unfolding after_put with_request_id
    store_response pending response now (some key) (some cache) (context, g) =
        if pending.can_store_response && cacheable_response response cache.config
        then after_put pending.route.name response (put_cached hash key response now cache)
            (context, g)
        else cached_as (codes "BYPASS") (codes "bypass") response (context, g)
    store_response pending response now (some key) none (context, g) =
        cached_as (codes "BYPASS") (codes "bypass") response (context, g)
    store_response pending response now none cache (context, g) =
        if pending.cache_configured
        then cached_as (codes "BYPASS") (codes "bypass") response (context, g)
        else (with_request_id context response, (context, g))

    -- The caches are the ones that the first part saw: no route is added while requests are served.
    unfoldable pub finish_handle :
        Pending H
        → Option HttpResponse
        → ℕ
        → RequestContext × Gateway H W
        → HttpResponse × (RequestContext × Gateway H W)
    unfolding store_response
    finish_handle pending result now (context, g) =
        store_response pending (handled result) now pending.cache_key
          (lookup pending.route.name g.router.route_caches)
          (record context { buffer_response_for_cache = false }, g)
