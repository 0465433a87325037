-- ===== src/Entry/Guarded.antt =====
-- What every reachable state of the program keeps.
use go_serve.Common.{◌≡◌, refl, sym, ap, ◌∙◌, inl, inr, true, Option, none, Str, ok, >>=-eq-ok}
use go_serve.Config.{Config, AuthConfig}
use go_serve.Config.Clone.{clone}
use go_serve.Config.Validate.{disabled}
use go_serve.Auth.Creation.{Middleware}
use go_serve.Dataplane.Compile.{CompileError}
use go_serve.Runtime.{Manager, activate}
use go_serve.ControlPlane.{ControlPlane, set_draining}
use go_serve.ControlPlane.Updates.{replace_config_lem, rollback_config_lem}
use go_serve.ControlPlane.Sync.{IsSynced, new_manager_config, activation_ok, activation_err}
use go_serve.ControlPlane.Rollback.{
  new_server-IsSynced, replace_config-IsSynced, rollback_config-IsSynced,
}
use go_serve.Entry.{World, Running, serve_config, load_config, start}
use go_serve.Entry.Built.{serve_config-IsBuilt, no_authentication}
use go_serve.Entry.System.{
  System, Reachable, replace, roll_back, started, replaced, rolled_back, drained,
}

module _ {C : Type 0} (w : World C) where
  -- The control plane, the manager and the data plane are in step, and an authorizer is missing only
  -- in the mode `disabled`.
  pub record IsGuarded (s : System) : Type 0 where
    pub authorizer : Option Middleware
    pub synced : IsSynced w.url_parse authorizer s.control s.manager
    pub off : authorizer ≡ none → s.manager.config.auth.mode ≡ disabled

  -- The manager's settings of authentication are those of the manager before.
  abbrev SameAuth : Manager Middleware → Manager Middleware → Type 0
  SameAuth m m' = m'.config.auth ≡ m.config.auth

  replaced-SameAuth :
      (s : System) (body : Option Config) (tag : Str) (g : IsGuarded s)
      → SameAuth s.manager (replace w body tag s).manager
  replaced-SameAuth s body tag g =
      let agrees = g.synced.agrees in
      elim (replace_config_lem (activate w.url_parse) w.url_parse s.control s.manager body tag) [
        | inl (e, r) ↦ rw r refl
        | inr (c, e, inl (e', i, r)) ↦ rw r refl
        | inr (c, e, inr (v, inl (e', k, r))) ↦ rw r refl
        | inr (c, e, inr (v, inr (k, inl (m', done, r)))) ↦
            let (i, config, same) =
              activation_ok w.url_parse g.authorizer s.manager m' c agrees done in
            rw (r, config) (sym (same.1))
        | inr (c, e, inr (v, inr (k, inr (m', e', broken, r)))) ↦
            let (i, config) =
              activation_err w.url_parse g.authorizer s.manager m' c e' agrees broken in
            rw (r, config) refl
      ]

  rolled_back-SameAuth :
      (s : System) (tag : Str) (g : IsGuarded s) → SameAuth s.manager (roll_back w tag s).manager
  rolled_back-SameAuth s tag g =
      let agrees = g.synced.agrees in
      elim (rollback_config_lem (activate w.url_parse) s.control s.manager tag) [
        | inl (e, v, r) ↦ rw r refl
        | inr (v, inl (nowhere, r)) ↦ rw r refl
        | inr (v, inr (p, h, inl (m', done, r))) ↦
            let (i, config, same) =
              activation_ok w.url_parse g.authorizer s.manager m' (clone p) agrees done in
            rw (r, config) (sym (same.1))
        | inr (v, inr (p, h, inr (m', e', broken, r))) ↦
            let (i, config) =
              activation_err w.url_parse g.authorizer s.manager m' (clone p) e' agrees broken in
            rw (r, config) refl
      ]

  clone_mode : (c : Config) → (clone c).auth.mode ≡ c.auth.mode
  unfolding clone
  clone_mode c = refl

  serve_config-IsGuarded :
      (cfg : Config) (r : Running C)
      → serve_config w cfg ≡ ok r
      → IsGuarded (record { control = r.control; manager = r.manager })
  serve_config-IsGuarded cfg r h =
      let b = serve_config-IsBuilt w cfg r h in
      record {
        authorizer = r.authentication;
        synced =
            rw b.control
              (new_server-IsSynced w.url_parse cfg r.authentication true true r.manager b.manager);
        off = λ n.
            ap (λ (c : Config). c.auth.mode)
              (sym (new_manager_config w.url_parse cfg r.authentication true r.manager b.manager))
            ∙ clone_mode cfg
            ∙ no_authentication w cfg.auth r.authentication b.authentication n;
      }

  drained-IsSynced :
      (a : Option Middleware) (s : ControlPlane CompileError) (m : Manager Middleware)
      → IsSynced w.url_parse a s m
      → IsSynced w.url_parse a (set_draining s) m
  unfolding set_draining
  drained-IsSynced a s m y = record { agrees = y.agrees; config = y.config; target = y.target }

  -- Whatever the admin API is asked for, and however often, the configuration that the control plane
  -- shows is the one that the manager holds and the data plane runs, a rollback has a target that
  -- compiles, and an authorizer is missing only in the mode `disabled`.
  pub Reachable-IsGuarded : (path : Str) (s : System) → Reachable w path s → IsGuarded s
  unfolding start
  Reachable-IsGuarded path _ (started r h) =
      let (cfg, loaded, serves) = >>=-eq-ok (load_config w path) _ h in
      serve_config-IsGuarded cfg r serves
  Reachable-IsGuarded path _ (replaced {s} body tag before) =
      let g = Reachable-IsGuarded path s before in
      record {
        authorizer = g.authorizer;
        synced =
            replace_config-IsSynced w.url_parse g.authorizer s.control s.manager body tag g.synced;
        off = λ n. ap (λ (c : AuthConfig). c.mode) (replaced-SameAuth s body tag g) ∙ g.off n;
      }
  Reachable-IsGuarded path _ (rolled_back {s} tag before) =
      let g = Reachable-IsGuarded path s before in
      record {
        authorizer = g.authorizer;
        synced = rollback_config-IsSynced w.url_parse g.authorizer s.control s.manager tag g.synced;
        off = λ n. ap (λ (c : AuthConfig). c.mode) (rolled_back-SameAuth s tag g) ∙ g.off n;
      }
  Reachable-IsGuarded path _ (drained {s} before) =
      let g = Reachable-IsGuarded path s before in
      record {
        authorizer = g.authorizer;
        synced = drained-IsSynced g.authorizer s.control s.manager g.synced;
        off = g.off;
      }
