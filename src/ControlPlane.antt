-- ===== src/ControlPlane.antt =====
-- `Server` of internal/controlplane/server.go: the configuration's versions behind the admin API. A
-- handler is one step from the state and the request to the state and the response; it is one mutex
-- section, but for the status that `replaceConfig` and `rollbackConfig` write after releasing the
-- lock, which is taken here before any other request.
pub mod Version
pub mod Updates
pub mod Sync
pub mod Rollback
pub mod Conflict
pub mod Draining
pub mod Cluster
pub mod Endpoints
use go_serve.Common.{
  ℕ, Bool, true, false, Option, none, some, Str, Result, ok, err, ℤ, pos, inc_i64, if◌then◌else◌,
}
use go_serve.Config.{Config, Url}
use go_serve.Config.Validate.{ConfigError, validate}
use go_serve.Config.Clone.{clone}
use go_serve.ControlPlane.Version.{VersionError, etag, require_version}

pub data State : Type 0 where
  bootstrap active failed draining : State

-- The activator acts on a state `M` and fails with an `E`.
pub record ControlPlane (E : Type 0) : Type 0 where
  pub config : Config
  pub previous : Option Config
  pub version : ℤ
  pub state : State
  pub last_err : Option E
  pub ready_state : Bool
  pub has_metrics : Bool
  pub reported : Option ℤ  -- the last `SetConfigVersion`

pub data Problem (E : Type 0) : Type 0 where
  malformed no_target : Problem E
  invalid : ConfigError → Problem E
  version_problem : VersionError → Problem E
  activation_failed rollback_failed : E → Problem E

pub data Body (E : Type 0) : Type 0 where
  problem : Problem E → Body E
  status_of : ℤ → State → Bool → Option E → Body E
  config_of : Config → Body E
  valid : Body E
  readiness : Str → Body E
  not_ready : State → Body E
  ready : Body E

pub record Response (E : Type 0) : Type 0 where
  pub code : ℕ
  pub tag : Option Str
  pub body : Body E

-- `NewServer`, with the version gauge of `SetMetrics`
unfoldable pub new_server : {E : Type 0} → Config → Bool → ControlPlane E
new_server cfg metrics = record {
  config = clone cfg;
  previous = none;
  version = pos 0;
  state = bootstrap;
  last_err = none;
  ready_state = true;
  has_metrics = metrics;
  reported = none;
}

unfoldable pub set_draining : {E : Type 0} → ControlPlane E → ControlPlane E
set_draining s = record s { ready_state = false; state = draining }

abbrev pub plain : {E : Type 0} → ℕ → Body E → Response E
plain code body = record { code = code; tag = none; body = body }

-- `check` is what the readiness check answers, where one is set.
unfoldable pub ready_response : {E : Type 0} → ControlPlane E → Option (Bool × Str) → Response E
ready_response s check =
    if s.ready_state
    then (elim check [
      | none ↦ plain 200 ready
      | some (dependency, why) ↦ if dependency then plain 200 ready else plain 503 (readiness why)
    ])
    else plain 503 (not_ready s.state)

abbrev pub status_body : {E : Type 0} → ControlPlane E → Body E
status_body s = status_of s.version s.state s.config.control_plane.ui s.last_err

unfoldable pub config_status : {E : Type 0} → ControlPlane E → Response E
config_status s = plain 200 (status_body s)

-- The body is what `redactConfig` encodes.
unfoldable pub get_config : {E : Type 0} → ControlPlane E → Response E
get_config s = record { code = 200; tag = some (etag s.version); body = config_of (clone s.config) }

-- The end of a successful update: the header and the status.
abbrev pub updated : {E : Type 0} → ControlPlane E → Response E
updated s = record { code = 200; tag = some (etag s.version); body = status_body s }

abbrev pub fail_with : {E : Type 0} → ControlPlane E → E → ControlPlane E
fail_with s e = record s { last_err = some e; state = failed }

-- `version++`, the gauge, and the state of a success.
abbrev pub commit : {E : Type 0} → ControlPlane E → Config → Option Config → ControlPlane E
commit s config previous =
    let version = inc_i64 s.version in
    record s {
      config = config;
      previous = previous;
      version = version;
      reported = if s.has_metrics then some version else s.reported;
      state = active;
      last_err = none;
    }

module _ (url_parse : Str → Option Url) where
  -- `decoded` is the body, `none` where it is not one object of known fields.
  unfoldable pub validate_config : {E : Type 0} → Option Config → Response E
  validate_config none = plain 422 (problem malformed)
  validate_config (some candidate) = elim (validate url_parse candidate) [
    | err e ↦ plain 422 (problem (invalid e))
    | ok u ↦ plain 200 valid
  ]

-- What follows the activation of `config`.
unfoldable pub settle :
    {M E : Type 0}
    → ControlPlane E
    → Config
    → Option Config
    → (E → Problem E)
    → M × Option E
    → ControlPlane E × M × Response E
settle s config previous failure (m, some e) = (fail_with s e, m, plain 422 (problem (failure e)))
settle s config previous failure (m, none) =
    let s' = commit s config previous in (s', m, updated s')

module _ {M E : Type 0} (activate : M → Config → M × Option E) where
  unfoldable pub replace_config :
      (Str → Option Url)
      → ControlPlane E
      → M
      → Option Config
      → Str
      → ControlPlane E × M × Response E
  unfolding settle
  replace_config url_parse s m none if_match = (s, m, plain 422 (problem malformed))
  replace_config url_parse s m (some candidate) if_match = elim (validate url_parse candidate) [
    | err e ↦ (s, m, plain 422 (problem (invalid e)))
    | ok u ↦ elim (require_version s.version if_match) [
      | err e ↦ (s, m, plain 409 (problem (version_problem e)))
      | ok u ↦ settle s (clone candidate) (some s.config) activation_failed (activate m candidate)
    ]
  ]

  unfoldable pub rollback_config : ControlPlane E → M → Str → ControlPlane E × M × Response E
  unfolding settle
  rollback_config s m if_match = elim (require_version s.version if_match) [
    | err e ↦ (s, m, plain 409 (problem (version_problem e)))
    | ok u ↦ elim s.previous [
      | none ↦ (s, m, plain 404 (problem no_target))
      | some previous ↦
          settle s previous (some s.config) rollback_failed (activate m (clone previous))
    ]
  ]
