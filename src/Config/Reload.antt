-- ===== src/Config/Reload.antt =====
-- `ConfigManager` of src/http/config.cpp: the two tasks on its strand, the one that asks for a reload and the
-- one that has its result. What the worker reads is an argument, and a callback's argument is a result.
use pulsegate.Base.{
  ℕ, Bool, true, false, Option, none, some, List, [], ◌∷◌, ◌++◌, Bytes, codes, length, ◌==◌,
  if◌then◌else◌, Result, ok, err, invalid_argument,
}
use pulsegate.RateLimiter.{Double}
use pulsegate.Config.{Config, ConfigError}
use pulsegate.Config.Validate.{validate}
use pulsegate.Config.Changes.{static_changes}

pub record ConfigSnapshot (W : Type 0) : Type 0 where
  pub value : Config W
  pub source_path : Bytes
  pub loaded_at : ℕ

pub record ConfigReloadResult : Type 0 where
  pub published : Bool
  pub errors : List ConfigError
  pub restart_required : List Bytes

pub record ConfigManager (W : Type 0) : Type 0 where
  pub snapshot : ConfigSnapshot W
  pub reload_in_progress : Bool

-- What the worker has read: a snapshot, or the errors of an exception.
pub data Loaded (W : Type 0) : Type 0 where
  read_snapshot : ConfigSnapshot W → Loaded W
  read_failed : List ConfigError → Loaded W

module _ {W : Type 0} where
  -- The end of `loadFromFile`, with the configuration that the document gave and the errors that were found
  -- on the way; any error is an exception, which leaves no configuration.
  unfoldable pub finish_load : ⦃d : Double W⦄ → List ConfigError → ConfigSnapshot W → Loaded W
  finish_load errors next =
      let all = errors ++ validate next.value in
      if length all == 0 then read_snapshot next else read_failed all

  -- A null pointer is no snapshot.
  unfoldable pub init : Option (ConfigSnapshot W) → Result (ConfigManager W)
  init none = err invalid_argument
  init (some snapshot) = ok (record { snapshot = snapshot; reload_in_progress = false })

  -- The first task of `requestReload`: it refuses at once, or sends the worker off.
  unfoldable pub request_reload : ConfigManager W → Option ConfigReloadResult × ConfigManager W
  request_reload m =
      if m.reload_in_progress
      then (
        some (record {
          published = false;
          errors =
              record { path = codes "config"; message = codes "reload already in progress" } ∷ [];
          restart_required = [];
        }),
        m,
      )
      else (none, record m { reload_in_progress = true })

  -- The publication, where nothing needs a restart.
  unfoldable pub publish :
      ConfigSnapshot W → List Bytes → ConfigManager W → ConfigReloadResult × ConfigManager W
  publish next changes m =
      if length changes == 0
      then (
        record { published = true; errors = []; restart_required = changes },
        record m { snapshot = next },
      )
      else (record { published = false; errors = []; restart_required = changes }, m)

  -- The second task, with what the worker has read.
  unfoldable pub finish_reload :
      ⦃d : Double W⦄ → Loaded W → ConfigManager W → ConfigReloadResult × ConfigManager W
  unfolding publish
  finish_reload (read_snapshot next) m =
      publish next (static_changes m.snapshot.value next.value)
        (record m { reload_in_progress = false })
  finish_reload (read_failed errors) m = (
    record { published = false; errors = errors; restart_required = [] },
    record m { reload_in_progress = false },
  )
