-- ===== src/Config/Reloads.antt =====
-- `ConfigManager` of src/http/config.cpp over any sequence of reloads.
use pulsegate.Base.{
  ◌≡◌, refl, sym, ◌∙◌, Bool, true, false, not, ◌&&◌, Option, List, [], ◌∷◌, ◌++◌, map, Bytes, codes,
  length, bytes_eq_iff, ==_iff, ◌==◌, if_cases, eq-nil_of_length, append-nil, bytes_eq,
}
use pulsegate.RateLimiter.{Double}
use pulsegate.Config.{ConfigError, ServerConfig}
use pulsegate.Config.Validate.{validate}
use pulsegate.Config.Accepted.{AllNew, AllUsable, AllLead, validate-accepts, nil-append}
use pulsegate.Config.Changes.{changed, same_limits, server_changes, static_changes}
use pulsegate.Config.Reload.{
  ConfigSnapshot, ConfigManager, ConfigReloadResult, Loaded, read_snapshot, read_failed,
  finish_load, request_reload, publish, finish_reload,
}

nil-changed :
    (same : Bool) (name : Bytes) (rest : List Bytes)
    → changed (not same) name ++ rest ≡ []
    → (same ≡ true) × (rest ≡ [])
nil-changed true name rest h = (refl, h)
nil-changed false name rest h = absurd (cc h)

both : (a b : Bool) → (a && b) ≡ true → (a ≡ true) × (b ≡ true)
both true b h = (refl, h)
both false b h = absurd (cc h)

server_changes_complete : (a b : ServerConfig) → server_changes a b ≡ [] → a ≡ b
unfolding server_changes same_limits
server_changes_complete a b h =
    let (host, h₁) = nil-changed (bytes_eq a.listen_host b.listen_host) _ _ h in
    let (port, h₂) =
      nil-changed (a.listen_port == b.listen_port) (codes "server.listen_port") _ h₁ in
    let (threads, h₃) =
      nil-changed (a.io_threads == b.io_threads) (codes "server.io_threads") _ h₂ in
    let (connections, h₄) =
      nil-changed (a.max_connections == b.max_connections) (codes "server.max_connections") _ h₃ in
    let (limits, _) =
      nil-changed (same_limits a b) (codes "server.limits") [] (append-nil _ ∙ h₄) in
    let (idle, l₁) = both _ _ limits in
    let (header, l₂) = both _ _ l₁ in
    let (body, l₃) = both _ _ l₂ in
    let (shutdown, l₄) = both _ _ l₃ in
    let (header_bytes, l₅) = both _ _ l₄ in
    let (body_bytes, l₆) = both _ _ l₅ in
    let (high, low) = both _ _ l₆ in
    let same_host : a.listen_host ≡ b.listen_host =
      (bytes_eq_iff a.listen_host b.listen_host).0 host in
    λ i. record {
      listen_host = same_host i;
      listen_port = (==_iff a.listen_port b.listen_port).0 port i;
      io_threads = (==_iff a.io_threads b.io_threads).0 threads i;
      idle_timeout = (==_iff a.idle_timeout b.idle_timeout).0 idle i;
      header_timeout = (==_iff a.header_timeout b.header_timeout).0 header i;
      body_timeout = (==_iff a.body_timeout b.body_timeout).0 body i;
      graceful_shutdown = (==_iff a.graceful_shutdown b.graceful_shutdown).0 shutdown i;
      max_connections = (==_iff a.max_connections b.max_connections).0 connections i;
      max_header_bytes = (==_iff a.max_header_bytes b.max_header_bytes).0 header_bytes i;
      max_body_bytes = (==_iff a.max_body_bytes b.max_body_bytes).0 body_bytes i;
      output_high_water_bytes =
          (==_iff a.output_high_water_bytes b.output_high_water_bytes).0 high i;
      output_low_water_bytes = (==_iff a.output_low_water_bytes b.output_low_water_bytes).0 low i;
    }

-- What happens on the strand: a request, and the result of a worker that read a document, with the errors
-- on the way, or that failed.
pub data Task (W : Type 0) : Type 0 where
  asks : Task W
  reads : List ConfigError → ConfigSnapshot W → Task W
  fails : List ConfigError → Task W

module _ {W : Type 0} ⦃d : Double W⦄ where
  unfoldable pub step : Task W → ConfigManager W → ConfigManager W
  step asks m = (request_reload m).1
  step (reads errors next) m = (finish_reload (finish_load errors next) m).1
  step (fails errors) m = (finish_reload (read_failed errors) m).1

  unfoldable pub run : List (Task W) → ConfigManager W → ConfigManager W
  unfolding step
  run [] m = m
  run (t ∷ ts) m = run ts (step t m)

  -- The configuration in use has no errors, and the given server part.
  IsServing : ServerConfig → ConfigManager W → Type 0
  IsServing server m = (validate m.snapshot.value ≡ []) × (m.snapshot.value.server ≡ server)

  publish-IsServing :
      (server : ServerConfig) (next : ConfigSnapshot W) (m : ConfigManager W)
      → validate next.value ≡ []
      → IsServing server m
      → IsServing server ((publish next (static_changes m.snapshot.value next.value) m).1)
  unfolding publish IsServing static_changes
  publish-IsServing server next m valid h =
      if_cases (λ (r : ConfigReloadResult × ConfigManager W). IsServing server (r.1))
        (length (static_changes m.snapshot.value next.value) == 0) _ _
        (λ none_changed.
          let unchanged =
            eq-nil_of_length (static_changes m.snapshot.value next.value)
              ((==_iff (length (static_changes m.snapshot.value next.value)) 0).0 none_changed) in
          let (same_server, _) = nil-append _ _ unchanged in
          (valid, sym (server_changes_complete _ _ same_server) ∙ h.1))
        (λ _. h)

  finish_load-valid :
      (errors : List ConfigError) (next : ConfigSnapshot W) (P : Loaded W → Type 0)
      → (validate next.value ≡ [] → P (read_snapshot next))
      → ((all : List ConfigError) → P (read_failed all))
      → P (finish_load errors next)
  unfolding finish_load
  finish_load-valid errors next P good bad =
      if_cases P (length (errors ++ validate next.value) == 0) _ _
        (λ no_errors. good (
          (nil-append errors (validate next.value) (
            eq-nil_of_length (errors ++ validate next.value)
              ((==_iff (length (errors ++ validate next.value)) 0).0 no_errors))).1))
        (λ _. bad _)

  step-IsServing :
      (server : ServerConfig) (t : Task W) (m : ConfigManager W)
      → IsServing server m
      → IsServing server (step t m)
  unfolding step request_reload finish_reload IsServing
  step-IsServing server asks m h =
      if_cases (λ (r : Option ConfigReloadResult × ConfigManager W). IsServing server (r.1))
        m.reload_in_progress _ _ (λ _. h) (λ _. h)
  step-IsServing server (reads errors next) m h =
      finish_load-valid errors next (λ loaded. IsServing server ((finish_reload loaded m).1))
        (λ valid. publish-IsServing server next (record m { reload_in_progress = false }) valid h)
        (λ _. h)
  step-IsServing server (fails errors) m h = h

  run-IsServing :
      (server : ServerConfig) (ts : List (Task W)) (m : ConfigManager W)
      → IsServing server m
      → IsServing server (run ts m)
  unfolding run
  run-IsServing server [] m h = h
  run-IsServing server (t ∷ ts) m h =
      run-IsServing server ts (step t m) (step-IsServing server t m h)

  -- From a manager whose configuration `validate` accepts, after every sequence of requests for a reload and of
  -- results of the worker, whatever was read: the server part of the configuration in use is the one of the
  -- start; the names of its upstreams differ; each upstream has at least one endpoint, endpoints that
  -- differ, and one shard of its pool at least; each route has an absolute prefix and the name of an upstream
  -- of the configuration; and the constructor of the response cache accepts the values of each route that
  -- has one, where the names of its vary headers are valid.
  pub run-accepts :
      (ts : List (Task W)) (m : ConfigManager W)
      → validate m.snapshot.value ≡ []
      → ((run ts m).snapshot.value.server ≡ m.snapshot.value.server)
        × AllNew [] (map (λ u. u.name) (run ts m).snapshot.value.upstreams)
        × AllUsable (run ts m).snapshot.value.upstreams
        × AllLead
            (map (λ u. u.name) (run ts m).snapshot.value.upstreams)
            (run ts m).snapshot.value.routes
  unfolding IsServing
  run-accepts ts m valid =
      let (still_valid, same_server) = run-IsServing m.snapshot.value.server ts m (valid, refl) in
      let (names, usable, lead) = validate-accepts (run ts m).snapshot.value still_valid in
      (same_server, names, usable, lead)
