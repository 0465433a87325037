-- ===== src/ControlPlane/Rollback.antt =====
-- The control plane above the runtime manager, as cmd/server/main.go joins them.
use mathlib.Core.Path.{subst}
use go_serve.Common.{◌≡◌, ◌≢◌, inl, inr, sym, ap, ◌∙◌, Bool, true, Option, some, Str, ok, err}
use go_serve.Config.{Config, Url}
use go_serve.Config.Clone.{clone, clone-clone}
use go_serve.Dataplane.Compile.{CompileError, RuntimeState, same_listeners}
use go_serve.Runtime.{Manager, new_manager, activate}
use go_serve.Runtime.Agreement.{same_listeners_iff, compile-clone}
use go_serve.Runtime.Activation.{activated, activate_lem, new_manager-Agrees}
use go_serve.ControlPlane
use go_serve.ControlPlane.{
  State, ControlPlane, Problem, rollback_failed, activation_failed, Body, Response, updated, commit,
  fail_with, settle, replace_config, rollback_config,
}
use go_serve.ControlPlane.Version.{require_version}
use go_serve.ControlPlane.Sync.{
  IsSynced, commit-IsSynced, failed-IsSynced, new_manager_config, activation_ok, activation_err,
}
use go_serve.ControlPlane.Updates.{replace_config_lem, rollback_config_lem, rollback_target}

module _ (url_parse : Str → Option Url) {A : Type 0} where
  -- A replacement keeps the control plane, the manager and the data plane in step, whether it is
  -- refused, fails or succeeds.
  pub replace_config-IsSynced :
      (a : Option A) (s : ControlPlane CompileError) (m : Manager A) (body : Option Config)
      (tag : Str)
      → IsSynced url_parse a s m
      → let r = replace_config (activate url_parse) url_parse s m body tag in
        IsSynced url_parse a r.0 r.1
  replace_config-IsSynced a s m body tag y =
      elim (replace_config_lem (activate url_parse) url_parse s m body tag) [
        | inl (e, r) ↦ rw r y
        | inr (c, e, inl (e', i, r)) ↦ rw r y
        | inr (c, e, inr (v, inl (e', w, r))) ↦ rw r y
        | inr (c, e, inr (v, inr (w, inl (m', done, r)))) ↦
            let (g, config, same) = activation_ok url_parse a m m' c y.agrees done in
            rw r (commit-IsSynced url_parse a s m m' c y g config same)
        | inr (c, e, inr (v, inr (w, inr (m', e', broken, r)))) ↦
            let (g, config) = activation_err url_parse a m m' c e' y.agrees broken in
            rw r (failed-IsSynced url_parse a s m m' e' y g config)
      ]

  -- What a rollback does in a synced system whose `If-Match` is right and that has a target: it
  -- cannot fail. The target becomes active under the next version, what it compiles to runs, and
  -- the configuration before becomes the target.
  pub rollback_config_succeeds :
      (a : Option A) (s : ControlPlane CompileError) (m : Manager A) (tag : Str) (p : Config)
      → IsSynced url_parse a s m
      → require_version s.version tag ≡ ok tt
      → s.previous ≡ some p
      → (m' : Manager A) × (rollback_config (activate url_parse) s m tag
          ≡ (commit s p (some s.config), m', updated (commit s p (some s.config))))
        × IsSynced url_parse a (commit s p (some s.config)) m'
  unfolding settle
  rollback_config_succeeds a s m tag p y v h =
      let t = y.target p h in
      let same : same_listeners m.config (clone p) ≡ true =
        (same_listeners_iff m.config (clone p)).1 (rw t.copied t.listeners) in
      elim (activate_lem url_parse a m (clone p) y.agrees) [
        | inl (other, r) ↦ absurd (cc)
        | inr (also, inl (e, failed, r)) ↦
            absurd (err_ok e t.state (sym failed ∙ compile-clone url_parse p a ∙ t.compiled))
        | inr (also, inr (state, done, r)) ↦
            let m' = activated m (clone p) state in
            let (g, config, listeners) = activation_ok url_parse a m m' (clone p) y.agrees r in
            let sync = commit-IsSynced url_parse a s m m' (clone p) y g config listeners in
            (
              m',
              rollback_target (activate url_parse) s m tag p v h
                  ∙ ap (settle s p (some s.config) rollback_failed) r,
              subst (λ c. IsSynced url_parse a (commit s c (some s.config)) m')
                  (clone-clone p ∙ t.copied) sync,
            )
      ]
    where
      err_ok : (e : CompileError) (state : RuntimeState A) → err e ≢ ok state
      err_ok e state h = cc

  -- A rollback keeps the control plane, the manager and the data plane in step.
  pub rollback_config-IsSynced :
      (a : Option A) (s : ControlPlane CompileError) (m : Manager A) (tag : Str)
      → IsSynced url_parse a s m
      → let r = rollback_config (activate url_parse) s m tag in IsSynced url_parse a r.0 r.1
  rollback_config-IsSynced a s m tag y = elim (rollback_config_lem (activate url_parse) s m tag) [
    | inl (e, v, r) ↦ rw r y
    | inr (v, inl (nowhere, r)) ↦ rw r y
    | inr (v, inr (p, h, rest)) ↦
        let (m', r, sync) = rollback_config_succeeds a s m tag p y v h in rw r sync
  ]

  -- A control plane and a manager that are created from one configuration are in step.
  pub new_server-IsSynced :
      (c : Config) (a : Option A) (events metrics : Bool) (m : Manager A)
      → new_manager url_parse c a events ≡ ok m
      → IsSynced url_parse a (ControlPlane.new_server c metrics) m
  unfolding ControlPlane.new_server new_manager
  new_server-IsSynced c a events metrics m h = record {
    agrees = new_manager-Agrees url_parse c a events m h;
    config = new_manager_config url_parse c a events m h;
    target = λ p h'. absurd (cc);
  }
