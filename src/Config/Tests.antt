-- ===== src/Config/Tests.antt =====
-- The theorems on the configuration at a concrete one: two upstreams, and a route with a cache.
use pulsegate.Base.{
  ℕ, ◌≡◌, refl, Bool, true, false, Option, none, some, List, [], ◌∷◌, Bytes, codes, map,
}
use pulsegate.RateLimiter.Naturals.{whole}
use pulsegate.Cache.Policy.{ResponseCacheConfig}
use pulsegate.Config.{Config, ServerConfig, UpstreamConfig, UpstreamEndpoint, RouteConfig}
use pulsegate.Config.Validate.{validate}
use pulsegate.Config.Accepted.{AllNew, AllUsable, AllLead}
use pulsegate.Config.Reload.{ConfigManager}
use pulsegate.Config.Reloads.{Task, asks, reads, fails, run, run-accepts}

abbrev upstream_of : Bytes → UpstreamConfig
upstream_of name = record {
  name = name;
  endpoints =
      record { host = codes "::1"; service = codes "80" }
      ∷ record { host = codes "a"; service = codes "81" }
      ∷ [];
  proxy_limits = record {
    connect_timeout = 2000;
    response_timeout = 5000;
    pool_limits = record {
      max_connections = 16;
      max_idle_connections = 8;
      max_reuses = 100;
      max_waiters = 64;
      acquire_timeout = 1000;
      idle_timeout = 60000;
      max_lifetime = 300000;
    };
  };
  pool_shards = 1;
}

abbrev page_cache : ResponseCacheConfig
page_cache = record {
  ttl = 10;
  max_entry_bytes = 500;
  max_bytes = 1000;
  shard_count = 2;
  vary_headers = codes "accept" ∷ [];
}

abbrev config : Config ℕ
config = record {
  server = record {
    listen_host = codes "127.0.0.1";
    listen_port = 8080;
    io_threads = 1;
    idle_timeout = 15000;
    header_timeout = 10000;
    body_timeout = 30000;
    graceful_shutdown = 15000;
    max_connections = 1024;
    max_header_bytes = 16384;
    max_body_bytes = 1048576;
    output_high_water_bytes = 4194304;
    output_low_water_bytes = 2097152;
  };
  routes =
      record {
        path_prefix = codes "/";
        upstream = codes "b";
        rate_limit = none;
        cache = some page_cache;
      }
      ∷ [];
  upstreams = upstream_of (codes "a") ∷ upstream_of (codes "b") ∷ [];
  logging = record { level = codes "info"; format = codes "text" };
}

config-validate : validate config ≡ []
unfolding validate pulsegate.Base.any_of pulsegate.Base.bytes_eq pulsegate.Config.has_member
    pulsegate.Router.is_absolute
config-validate = refl

abbrev manager : ConfigManager ℕ
manager = record {
  snapshot = record { value = config; source_path = codes "a.yaml"; loaded_at = 1 };
  reload_in_progress = false;
}

abbrev quiet : Config ℕ
quiet = record config { logging = record { level = codes "error"; format = codes "json" } }

abbrev tasks : List (Task ℕ)
tasks =
    asks
    ∷ asks
    ∷ reads [] (record { value = quiet; source_path = codes "a.yaml"; loaded_at = 9 })
    ∷ asks
    ∷ reads [] (record {
      value = record quiet { server = record quiet.server { listen_port = 0 } };
      source_path = codes "a.yaml";
      loaded_at = 12;
    })
    ∷ asks
    ∷ fails []
    ∷ []

run-accepts_example :
    ((run tasks manager).snapshot.value.server ≡ config.server)
    × AllNew [] (map (λ u. u.name) (run tasks manager).snapshot.value.upstreams)
    × AllUsable (run tasks manager).snapshot.value.upstreams
    × AllLead
        (map (λ u. u.name) (run tasks manager).snapshot.value.upstreams)
        (run tasks manager).snapshot.value.routes
run-accepts_example = run-accepts tasks manager config-validate
