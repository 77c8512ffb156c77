-- ===== src/Config/Validate.antt =====
-- `ConfigLoader::validate` of src/http/config.cpp. The errors of each check, in the order of the code.
use pulsegate.Base.{
  ℕ, ◌+◌, ◌*◌, ◌/◌, Bool, true, not, ◌&&◌, ◌||◌, Option, none, some, List, [], ◌∷◌, ◌++◌, map,
  Bytes, codes, length, bytes_eq, any_of, ltb, leb, ◌==◌, if◌then◌else◌,
}
use pulsegate.RateLimiter.{Double}
use pulsegate.RateLimiter.Clients.{RateLimitConfig}
use pulsegate.Cache.Policy.{ResponseCacheConfig}
use pulsegate.Router.{is_absolute}
use pulsegate.Config.{
  ConfigError, ServerConfig, UpstreamEndpoint, UpstreamConfig, RouteConfig, LoggingConfig, Config,
  has_member, element, check,
}

abbrev pub is_empty : Bytes → Bool
is_empty text = length text == 0

abbrev positive : Bytes → ℕ → List ConfigError
positive path value = check (value == 0) path (codes "must be positive")

unfoldable pub server_errors : ServerConfig → List ConfigError
server_errors s =
    check (is_empty s.listen_host) (codes "server.listen_host") (codes "must not be empty")
    ++ (check (s.listen_port == 0 || ltb 65535 s.listen_port) (codes "server.listen_port")
          (codes "must be between 1 and 65535")
        ++ (positive (codes "server.io_threads") s.io_threads
            ++ (positive (codes "server.max_connections") s.max_connections
                ++ (positive (codes "server.max_header_bytes") s.max_header_bytes
                    ++ (positive (codes "server.max_body_bytes") s.max_body_bytes
                        ++ (check (ltb (64 * 1024 * 1024) s.max_body_bytes)
                              (codes "server.max_body_bytes") (codes "must not exceed 67108864")
                            ++ (check
                                  (s.idle_timeout == 0
                                    || (s.header_timeout == 0
                                        || (s.body_timeout == 0 || s.graceful_shutdown == 0)))
                                  (codes "server") (codes "timeout values must be positive")
                                ++ check (leb s.output_high_water_bytes s.output_low_water_bytes)
                                    (codes "server.output_low_water_bytes")
                                    (codes "must be lower than high water"))))))))

abbrev pub levels : List Bytes
levels =
    codes "trace"
    ∷ codes "debug"
    ∷ codes "info"
    ∷ codes "warn"
    ∷ codes "warning"
    ∷ codes "error"
    ∷ codes "critical"
    ∷ []

unfoldable pub logging_errors : LoggingConfig → List ConfigError
logging_errors l =
    check (not (any_of (λ level. bytes_eq l.level level) levels)) (codes "logging.level")
      (codes "must be trace, debug, info, warn, error, or critical")
    ++ check (not (bytes_eq l.format (codes "json")) && not (bytes_eq l.format (codes "text")))
        (codes "logging.format") (codes "must be json or text")

-- The string that stands for an endpoint in the set.
unfoldable pub endpoint_text : UpstreamEndpoint → Bytes
endpoint_text e = e.host ++ (codes ":" ++ e.service)

-- The loop over the endpoints from an index on, with the set of those before it.
unfoldable pub endpoint_errors : Bytes → ℕ → List Bytes → List UpstreamEndpoint → List ConfigError
unfolding endpoint_text
endpoint_errors prefix index seen [] = []
endpoint_errors prefix index seen (e ∷ es) =
    check (is_empty e.host || is_empty e.service) (element (prefix ++ codes ".endpoints") index)
      (codes "host and port must not be empty")
    ++ (check (has_member (endpoint_text e) seen) (element (prefix ++ codes ".endpoints") index)
          (codes "must not duplicate an endpoint")
        ++ endpoint_errors prefix (index + 1) (endpoint_text e ∷ seen) es)

-- The loop over the upstreams from an index on, with the set of the names before it.
unfoldable pub upstream_errors : ℕ → List Bytes → List UpstreamConfig → List ConfigError
unfolding endpoint_errors
upstream_errors index names [] = []
upstream_errors index names (u ∷ us) =
    let prefix = element (codes "upstreams") index in
    check (is_empty u.name) (prefix ++ codes ".name") (codes "must not be empty")
    ++ (check (has_member u.name names) (prefix ++ codes ".name") (codes "must be unique")
        ++ (check (length u.endpoints == 0) (prefix ++ codes ".endpoints")
              (codes "must not be empty")
            ++ (positive (prefix ++ codes ".pool_shards") u.pool_shards
                ++ (endpoint_errors prefix 0 [] u.endpoints
                    ++ upstream_errors (index + 1) (u.name ∷ names) us))))

unfoldable pub cache_errors : Bytes → Option ResponseCacheConfig → List ConfigError
cache_errors prefix none = []
cache_errors prefix (some c) =
    if c.ttl == 0 || (c.max_entry_bytes == 0 || (c.max_bytes == 0 || c.shard_count == 0))
    then check true (prefix ++ codes ".cache") (codes "ttl, sizes, and shards must be positive")
    else check (ltb (c.max_bytes / c.shard_count) c.max_entry_bytes)
        (prefix ++ codes ".cache.max_object_bytes") (codes "must fit within one cache shard")

module _ {W : Type 0} ⦃d : Double W⦄ where
  unfoldable pub rate_errors : Bytes → Option (RateLimitConfig W) → List ConfigError
  rate_errors prefix none = []
  rate_errors prefix (some c) =
      check (d.less_equal c.requests_per_second d.zero_value || d.less_equal c.burst d.zero_value)
        (prefix ++ codes ".rate_limit") (codes "requests_per_second and burst must be positive")

  unfoldable pub route_errors : ℕ → List Bytes → List (RouteConfig W) → List ConfigError
  unfolding rate_errors cache_errors
  route_errors index names [] = []
  route_errors index names (r ∷ rs) =
      let prefix = element (codes "routes") index in
      check (not (is_absolute r.path_prefix)) (prefix ++ codes ".path_prefix")
        (codes "must be an absolute path prefix")
      ++ (check (not (has_member r.upstream names)) (prefix ++ codes ".upstream")
            (codes "unknown upstream \"" ++ (r.upstream ++ codes "\""))
          ++ (rate_errors prefix r.rate_limit
              ++ (cache_errors prefix r.cache ++ route_errors (index + 1) names rs)))

  unfoldable pub validate : Config W → List ConfigError
  unfolding server_errors logging_errors upstream_errors route_errors
  validate c =
      server_errors c.server
      ++ (logging_errors c.logging
          ++ (upstream_errors 0 [] c.upstreams
              ++ route_errors 0 (map (λ u. u.name) c.upstreams) c.routes))
