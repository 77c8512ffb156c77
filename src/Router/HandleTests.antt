-- ===== src/Router/HandleTests.antt =====
-- The theorems on `handle` at concrete requests: two requests for one page, through a cache.
use pulsegate.Base.{
  ℕ, ◌%◌, ◌≡◌, ◌<◌, refl, ap, ◌∙◌, Bool, true, false, Option, none, some, List, [], ◌∷◌, Bytes,
  codes, Dict, length, get_elem?, ltb, lookup, ok, arith,
}
use pulsegate.Request.{HttpMethod, HttpRequest, empty_request}
use pulsegate.Response.{HttpResponse, empty_response}
use pulsegate.RateLimiter.Naturals.{whole}
use pulsegate.Cache.{Shard}
use pulsegate.Cache.Shards.{IsValid, sum}
use pulsegate.Cache.Policy.{ResponseCacheConfig, cacheable_request}
use pulsegate.Cache.Key.{make_key}
use pulsegate.Cache.Build.{ResponseCache, shard_for}
use pulsegate.Router.{Route, find_route, path_part, same_method}
use pulsegate.Router
use pulsegate.Router.Handle.{
  RequestContext, Gateway, Pending, Times, answered, set_header, with_request_id, begin_handle,
  Outcome,
}
use pulsegate.Router.Finish.{finish_handle}
use pulsegate.Router.Answers.{Begun, Names, handle-Names}
use pulsegate.Router.Caching.{begin_handle-finish_handle}

abbrev page : Route ℕ
page = record {
  method = HttpMethod.get;
  pattern = codes "/a";
  name = codes "page";
  prefix_match = false;
  handler = some 0;
}

abbrev cache_config : ResponseCacheConfig
cache_config = record {
  ttl = 10;
  max_entry_bytes = 500;
  max_bytes = 500;
  shard_count = 1;
  vary_headers = [];
}

abbrev empty_shard : Shard
empty_shard = record { lru = []; current_bytes = 0; max_bytes = 500 }

abbrev cache : ResponseCache
cache = record {
  config = cache_config;
  shards = empty_shard ∷ [];
  stats = record { hits = 0; misses = 0; stores = 0; evictions = 0; expired = 0 };
}

abbrev gateway : Gateway ℕ ℕ
gateway = record {
  router = record {
    routes = page ∷ [];
    route_limiters = [];
    route_caches = (codes "page", cache) ∷ [];
  };
  global_limiter = none;
  observability = some [];
  next_request_id = 3;
}

abbrev context : Bytes → RequestContext
context id = record {
  request_id = id;
  peer = none;
  buffer_response_for_cache = false;
  route_name = codes "unmatched";
  cache_status = codes "BYPASS";
}

abbrev request : HttpRequest
request = record empty_request { method = HttpMethod.get; target = codes "/a" }

abbrev response : HttpResponse
response = record empty_response { body = codes "hello" }

abbrev key : Bytes
key = make_key request cache_config

abbrev pending : Pending ℕ
pending = record {
  route = page;
  cache_configured = true;
  can_store_response = true;
  cache_key = some key;
}

abbrev times : Times
times = record { at_global = 5; at_route = 5; at_cache = 6 }

handle-Names_example :
    Begun (codes "1") (begin_handle length request times (context (codes "1"), gateway))
    × Names
        (codes "1")
        (finish_handle length pending (some response) 2 (context (codes "1"), gateway)).0
handle-Names_example =
    handle-Names length (context (codes "1")) gateway request times pending (some response) 2

empty_shard-IsValid : IsValid empty_shard
empty_shard-IsValid = record {
  total = unfold sum in refl;
  fits = omega arith;
  is_size = omega arith;
  distinct = tt;
}

after_first : HttpResponse × (RequestContext × Gateway ℕ ℕ)
after_first = finish_handle length pending (some response) 2 (context (codes "1"), gateway)

after_first_state :
    (after_first.1.0.cache_status ≡ codes "MISS")
    × (after_first.1.1.global_limiter ≡ none)
    × (after_first.1.1.router.routes ≡ page ∷ [])
    × (lookup (codes "page") after_first.1.1.router.route_limiters ≡ none)
unfolding after_first finish_handle lookup pulsegate.Base.bytes_eq
    pulsegate.Cache.Policy.cacheable_response pulsegate.Cache.Policy.has_sensitive_response_headers
    Router.Headers.contains Router.Headers.get pulsegate.Base.any_of Router.Headers.values
    pulsegate.Cache.Policy.vary_is_covered pulsegate.Cache.Build.put_cached make_key
    pulsegate.Base.to_string pulsegate.Base.decimal_digits pulsegate.Cache.Policy.lower
    pulsegate.Base.find_byte pulsegate.Cache.put pulsegate.Cache.charge pulsegate.Base.put
    pulsegate.Base.set_at pulsegate.Base.to_lower pulsegate.Base.up_to pulsegate.Base.add64
    pulsegate.Base.sub64 pulsegate.Cache.Build.shard_for pulsegate.Cache.Key.append_fields
    pulsegate.Cache.Key.field pulsegate.Cache.Key.host_of pulsegate.Cache.Key.key_fields
    pulsegate.Cache.Key.path_of pulsegate.Cache.Key.query_of pulsegate.Cache.Key.vary_fields
    pulsegate.Cache.Policy.all_covered pulsegate.Cache.charge_headers pulsegate.Cache.evict
    pulsegate.Cache.find_node pulsegate.Cache.replace pulsegate.Cache.store
    Router.Headers.find_named Router.Headers.normalize_header_name Router.Headers.values_named
    pulsegate.Router.Finish.after_put pulsegate.Router.Finish.cached_as
    pulsegate.Router.Finish.store_response pulsegate.Router.Handle.report
    pulsegate.Router.Handle.set_cache
after_first_state = (refl, refl, refl, refl)

finds_page : find_route HttpMethod.get (path_part (codes "/a")) (page ∷ []) ≡ some page
unfolding find_route path_part pulsegate.Base.up_to pulsegate.Base.bytes_eq same_method
    pulsegate.Base.find_byte
finds_page = refl

has_cache : lookup (codes "page") gateway.router.route_caches ≡ some cache
unfolding lookup pulsegate.Base.bytes_eq
has_cache = refl

has_shard : get_elem? cache.shards (shard_for length key cache) ≡ some empty_shard
unfolding shard_for
has_shard = let first : length key % 1 ≡ 0 = omega arith in ap (get_elem? (empty_shard ∷ [])) first

is_cacheable : cacheable_request request ≡ true
unfolding cacheable_request Router.Headers.contains Router.Headers.get
is_cacheable = refl

begin_handle-finish_handle_example :
    (begin_handle length request times (context (codes "2"), after_first.1.1)).0
    ≡ ok (
        answered (
          with_request_id
            (context (codes "2"))
            (set_header (codes "X-Cache") (codes "HIT") response)))
unfolding after_first
begin_handle-finish_handle_example =
    begin_handle-finish_handle length pending response 2 key cache empty_shard (context (codes "1"))
      (context (codes "2")) gateway request times page refl has_cache has_shard empty_shard-IsValid
      after_first_state.0 after_first_state.1
      (ap (find_route HttpMethod.get (path_part (codes "/a"))) after_first_state.2 ∙ finds_page)
      refl after_first_state.3 is_cacheable refl (omega arith)
