-- ===== src/Examples/Admin.antt =====
-- The admin API over a manager of a small site.
use go_serve.Common.{
  ℕ, ◌+◌, ◌≡◌, refl, sym, true, Option, none, some, arith, Str, str_eq, bytes, ok, ap, ◌∙◌, trim,
  trim_space, pos, inc_i64,
}
use go_serve.Common.Dict.{lookup, insert}
use go_serve.Config.{Config}
use go_serve.Config.Validate.{
  validate, validate_cluster, validate_auth, validate_routes, validate_limits,
}
use go_serve.Config.Clone.{clone}
use go_serve.Dataplane.Compile
use go_serve.Dataplane.Compile.{
  CompileError, restart_required, RuntimeState, same_listeners, compile, compile_upstreams,
  compile_upstream, compile_routes, parse_endpoints, reconfigure_with_authorizer,
}
use go_serve.Runtime.{Manager, new_manager, activate, finish}
use go_serve.Runtime.Agreement.{
  Agrees, SameListeners, same_listeners_iff, compile-clone, activate_done,
}
use go_serve.Runtime.Activation.{activated, new_manager-Agrees}
use go_serve.ControlPlane
use go_serve.ControlPlane.{
  ControlPlane, plain, problem, version_problem, commit, settle, updated, replace_config,
  rollback_config,
}
use go_serve.ControlPlane.Version.{etag, require_version, version_conflict}
use go_serve.ControlPlane.Version.Decimal.{
  InRange, compared, require_version-etag, require_version-current,
}
use go_serve.ControlPlane.Sync.{IsSynced, commit-IsSynced, new_manager_config}
use go_serve.ControlPlane.Conflict.{replace_config_twice, replace_config_undone}
use go_serve.ControlPlane.Rollback.{new_server-IsSynced, rollback_config_succeeds}
use go_serve.Examples.{url_parse, site}

starts : (m : Manager ℕ) × (new_manager url_parse site none true ≡ ok m)
unfolding new_manager Compile.new_server reconfigure_with_authorizer validate validate_cluster
    validate_auth validate_routes validate_limits bytes str_eq compile compile_upstreams
    compile_upstream compile_routes parse_endpoints lookup insert
starts = (_, refl)

abbrev manager : Manager ℕ
manager = starts.0

agrees : Agrees url_parse none manager
agrees = new_manager-Agrees url_parse site none true manager starts.1

abbrev server : ControlPlane CompileError
server = ControlPlane.new_server site true

abbrev nobody : Option ℕ
nobody = none

require_version-etag_example : require_version (pos 3) (etag (pos 2)) ≡ compared (pos 3) (pos 2)
require_version-etag_example = require_version-etag (pos 3) (pos 2) (omega arith)

-- The control plane in step with the manager, before any update.
synced : IsSynced url_parse none server manager
synced = new_server-IsSynced url_parse site none true true manager starts.1

-- The control plane after an update to the site that it had.
abbrev updated_server : ControlPlane CompileError
updated_server = commit server (clone site) (some server.config)

updated-IsSynced : IsSynced url_parse none updated_server manager
updated-IsSynced =
    commit-IsSynced url_parse none server manager manager site synced agrees (sym same)
      (rw same (refl, refl, refl))
  where
    same : clone site ≡ manager.config
    same = new_manager_config url_parse site none true manager starts.1

first_version : InRange (inc_i64 (pos 0))
unfolding inc_i64
first_version = omega arith

abbrev tag : Str
tag = etag (inc_i64 (pos 0))

current : require_version updated_server.version tag ≡ ok tt
unfolding ControlPlane.new_server
current = require_version-current (inc_i64 (pos 0)) first_version

rollback_config_succeeds_example :
    (m : Manager ℕ) × (rollback_config (activate url_parse) updated_server manager tag ≡ (
      commit updated_server server.config (some updated_server.config),
      m,
      updated (commit updated_server server.config (some updated_server.config)),
    ))
    × IsSynced url_parse none (commit updated_server server.config (some updated_server.config)) m
rollback_config_succeeds_example =
    rollback_config_succeeds url_parse none updated_server manager tag server.config
      updated-IsSynced current refl

-- Activators that always succeed.
abbrev accept : ℕ → Config → ℕ × Option CompileError
accept n c = (n + 1, none)

site_is_valid : validate url_parse site ≡ ok tt
unfolding validate validate_cluster validate_auth validate_routes validate_limits bytes str_eq
site_is_valid = refl

at_zero : InRange server.version
unfolding ControlPlane.new_server
at_zero = omega arith

-- A valid replacement with the current tag succeeds once it is activated.
first_replaced :
    (replace_config accept url_parse server 0 (some site) (etag server.version)).2.code ≡ 200
unfolding replace_config validate validate_cluster validate_auth validate_routes validate_limits
    bytes str_eq ControlPlane.new_server require_version etag trim trim_space
first_replaced = refl

replace_config_twice_example :
    let r = replace_config accept url_parse server 0 (some site) (etag server.version) in
    replace_config accept url_parse r.0 r.1 (some site) (etag server.version) ≡ (
      r.0,
      r.1,
      plain 409
          (problem (version_problem (version_conflict (inc_i64 server.version) server.version))),
    )
replace_config_twice_example =
    replace_config_twice accept url_parse server 0 (some site) site at_zero first_replaced
      site_is_valid

copy_listeners : SameListeners (clone site) site
unfolding clone
copy_listeners = (refl, refl, refl)

holds_copy : clone site ≡ manager.config
holds_copy = new_manager_config url_parse site none true manager starts.1

site_compiled : compile url_parse site none ≡ ok agrees.state
site_compiled =
    sym (compile-clone url_parse site none)
    ∙ ap (λ c. compile url_parse c none) holds_copy
    ∙ agrees.compiled

activates : activate url_parse manager site ≡ (activated manager site agrees.state, none)
unfolding finish
activates =
    let same : same_listeners manager.config site ≡ true =
      (same_listeners_iff manager.config site).1 (rw (← holds_copy) copy_listeners) in
    activate_done url_parse none manager site agrees same agrees.state site_compiled

first_current : require_version (pos 0) (etag (pos 0)) ≡ ok tt
first_current = require_version-current (pos 0) (omega arith)

starts_again :
    (replace_config (activate url_parse) url_parse server manager (some site) (etag (pos 0))).2.code
    ≡ 200
unfolding replace_config ControlPlane.new_server settle
starts_again = rw (site_is_valid, first_current, activates, replace_config) refl

replace_config_undone_example :
    let r =
      replace_config (activate url_parse) url_parse server manager (some site) (etag (pos 0)) in
    let undone = rollback_config (activate url_parse) r.0 r.1 (etag r.0.version) in
    (undone.2.code ≡ 200) × (undone.0.config ≡ server.config)
unfolding ControlPlane.new_server
replace_config_undone_example =
    replace_config_undone url_parse none server manager (some site) (etag (pos 0)) synced
      first_version starts_again
