-- ===== src/Config/Changes.antt =====
-- `ConfigManager::staticChanges` of src/http/config.cpp: what two configurations differ in.
use pulsegate.Base.{
  ℕ, ◌+◌, Bool, true, false, not, ◌&&◌, ◌||◌, Option, none, some, List, [], ◌∷◌, ◌++◌, Bytes, codes,
  length, bytes_eq, ◌==◌, if◌then◌else◌,
}
use pulsegate.RateLimiter.{Double}
use pulsegate.RateLimiter.Clients.{RateLimitConfig}
use pulsegate.Cache.Policy.{ResponseCacheConfig}
use pulsegate.Config.{ServerConfig, UpstreamEndpoint, UpstreamConfig, RouteConfig, Config, element}

-- An `if` that reports the name of what differs.
abbrev pub changed : Bool → Bytes → List Bytes
changed differs name = if differs then name ∷ [] else []

-- `==` on flags, and on vectors of strings.
abbrev pub same_flag : Bool → Bool → Bool
same_flag true b = b
same_flag false b = not b

unfoldable pub same_texts : List Bytes → List Bytes → Bool
same_texts [] [] = true
same_texts [] (y ∷ ys) = false
same_texts (x ∷ xs) [] = false
same_texts (x ∷ xs) (y ∷ ys) = bytes_eq x y && same_texts xs ys

unfoldable pub same_limits : ServerConfig → ServerConfig → Bool
same_limits a b =
    a.idle_timeout == b.idle_timeout
    && (a.header_timeout == b.header_timeout
        && (a.body_timeout == b.body_timeout
            && (a.graceful_shutdown == b.graceful_shutdown
                && (a.max_header_bytes == b.max_header_bytes
                    && (a.max_body_bytes == b.max_body_bytes
                        && (a.output_high_water_bytes == b.output_high_water_bytes
                            && a.output_low_water_bytes == b.output_low_water_bytes))))))

unfoldable pub server_changes : ServerConfig → ServerConfig → List Bytes
unfolding same_limits
server_changes a b =
    changed (not (bytes_eq a.listen_host b.listen_host)) (codes "server.listen_host")
    ++ (changed (not (a.listen_port == b.listen_port)) (codes "server.listen_port")
        ++ (changed (not (a.io_threads == b.io_threads)) (codes "server.io_threads")
            ++ (changed (not (a.max_connections == b.max_connections))
                  (codes "server.max_connections")
                ++ changed (not (same_limits a b)) (codes "server.limits"))))

unfoldable pub equal_cache : Option ResponseCacheConfig → Option ResponseCacheConfig → Bool
unfolding same_texts
equal_cache none none = true
equal_cache none (some b) = false
equal_cache (some a) none = false
equal_cache (some a) (some b) =
    a.ttl == b.ttl
    && (a.max_entry_bytes == b.max_entry_bytes
        && (a.max_bytes == b.max_bytes
            && (a.shard_count == b.shard_count && same_texts a.vary_headers b.vary_headers)))

-- `std::equal` over endpoints, of vectors that have one length.
unfoldable pub equal_endpoints : List UpstreamEndpoint → List UpstreamEndpoint → Bool
equal_endpoints [] ys = true
equal_endpoints (x ∷ xs) [] = true
equal_endpoints (x ∷ xs) (y ∷ ys) =
    (bytes_eq x.host y.host && bytes_eq x.service y.service) && equal_endpoints xs ys

unfoldable pub equal_upstream : UpstreamConfig → UpstreamConfig → Bool
unfolding equal_endpoints
equal_upstream a b =
    if not (bytes_eq a.name b.name)
      || (not (a.pool_shards == b.pool_shards) || not (length a.endpoints == length b.endpoints))
    then false
    else if not (a.proxy_limits.connect_timeout == b.proxy_limits.connect_timeout)
        || (not (a.proxy_limits.response_timeout == b.proxy_limits.response_timeout)
            || not (
                a.proxy_limits.pool_limits.max_connections
                == b.proxy_limits.pool_limits.max_connections))
    then false
    else equal_endpoints a.endpoints b.endpoints

-- The loop over two vectors of one length, from an index on.
unfoldable pub element_changes {ℓ} :
    {A : Type ℓ} → (A → A → Bool) → Bytes → ℕ → List A → List A → List Bytes
element_changes same name index [] ys = []
element_changes same name index (x ∷ xs) [] = []
element_changes same name index (x ∷ xs) (y ∷ ys) =
    changed (not (same x y)) (element name index) ++ element_changes same name (index + 1) xs ys

-- A difference of the lengths is reported in place of the elements.
unfoldable pub vector_changes {ℓ} :
    {A : Type ℓ} → (A → A → Bool) → Bytes → List A → List A → List Bytes
unfolding element_changes
vector_changes same name xs ys =
    if not (length xs == length ys) then name ∷ [] else element_changes same name 0 xs ys

module _ {W : Type 0} ⦃d : Double W⦄ where
  unfoldable pub equal_rate : Option (RateLimitConfig W) → Option (RateLimitConfig W) → Bool
  equal_rate none none = true
  equal_rate none (some b) = false
  equal_rate (some a) none = false
  equal_rate (some a) (some b) =
      d.equal a.requests_per_second b.requests_per_second
      && (d.equal a.burst b.burst
          && (same_flag a.per_client b.per_client
              && (a.shard_count == b.shard_count
                  && (a.max_keys == b.max_keys && a.idle_ttl == b.idle_ttl))))

  unfoldable pub equal_route : RouteConfig W → RouteConfig W → Bool
  unfolding equal_rate equal_cache
  equal_route a b =
      bytes_eq a.path_prefix b.path_prefix
      && (bytes_eq a.upstream b.upstream
          && (equal_rate a.rate_limit b.rate_limit && equal_cache a.cache b.cache))

  unfoldable pub static_changes : Config W → Config W → List Bytes
  unfolding server_changes equal_upstream equal_route vector_changes
  static_changes before after =
      server_changes before.server after.server
      ++ (vector_changes equal_route (codes "routes") before.routes after.routes
          ++ vector_changes equal_upstream (codes "upstreams") before.upstreams after.upstreams)
