-- ===== src/Config.antt =====
-- include/pulsegate/http/config.h, and the parts of src/http/config.cpp that do not read YAML: the data
-- of a configuration. Durations are whole numbers of milliseconds, never negative as the loader makes
-- them. Of the limits of a proxy the ones that the configuration sets or compares are kept.
pub mod Validate
pub mod Endpoint
pub mod Changes
pub mod Reload
pub mod Accepted
pub mod Reloads
mod Tests
use pulsegate.Base.{
  ℕ, Bool, true, false, Option, List, [], ◌∷◌, ◌++◌, Bytes, codes, any_of, bytes_eq, to_string,
  if◌then◌else◌,
}
use pulsegate.RateLimiter.Clients.{RateLimitConfig}
use pulsegate.Cache.Policy.{ResponseCacheConfig}
use pulsegate.Pool.{PoolLimits}

pub record ConfigError : Type 0 where
  pub path : Bytes
  pub message : Bytes

unfoldable pub format : ConfigError → Bytes
format error = error.path ++ (codes ": " ++ error.message)

unfoldable pub join_errors : List ConfigError → Bytes
unfolding format
join_errors [] = []
join_errors (error ∷ more) = format error ++ (10 ∷ join_errors more)

pub record ServerConfig : Type 0 where
  pub listen_host : Bytes
  pub listen_port : ℕ
  pub io_threads : ℕ
  pub idle_timeout : ℕ
  pub header_timeout : ℕ
  pub body_timeout : ℕ
  pub graceful_shutdown : ℕ
  pub max_connections : ℕ
  pub max_header_bytes : ℕ
  pub max_body_bytes : ℕ
  pub output_high_water_bytes : ℕ
  pub output_low_water_bytes : ℕ

pub record UpstreamEndpoint : Type 0 where
  pub host : Bytes
  pub service : Bytes

pub record ProxyLimits : Type 0 where
  pub connect_timeout : ℕ
  pub response_timeout : ℕ
  pub pool_limits : PoolLimits

pub record UpstreamConfig : Type 0 where
  pub name : Bytes
  pub endpoints : List UpstreamEndpoint
  pub proxy_limits : ProxyLimits
  pub pool_shards : ℕ

pub record RouteConfig (W : Type 0) : Type 0 where
  pub path_prefix : Bytes
  pub upstream : Bytes
  pub rate_limit : Option (RateLimitConfig W)
  pub cache : Option ResponseCacheConfig

pub record LoggingConfig : Type 0 where
  pub level : Bytes
  pub format : Bytes

pub record Config (W : Type 0) : Type 0 where
  pub server : ServerConfig
  pub routes : List (RouteConfig W)
  pub upstreams : List UpstreamConfig
  pub logging : LoggingConfig

-- `contains`, of a `std::set` of strings.
unfoldable pub has_member : Bytes → List Bytes → Bool
has_member name names = any_of (λ other. bytes_eq other name) names

-- The path of an element, such as `routes[3]`.
unfoldable pub element : Bytes → ℕ → Bytes
element name index = name ++ (codes "[" ++ (to_string index ++ codes "]"))

-- An `if` that reports an error.
abbrev pub check : Bool → Bytes → Bytes → List ConfigError
check failed path message = if failed then record { path = path; message = message } ∷ [] else []
