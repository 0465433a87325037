-- ===== src/Entry/Built.antt =====
-- What a program that starts was put together from.
use go_serve.Common.{
  Option, ◌≡◌, refl, inl, inr, true, false, not, none, str_eq, str_eq_iff, Result, ok, err,
  >>=-eq-ok, ok_injective, reject_if, if◌then◌else◌, Bool-cases, pos_part,
}
use go_serve.Config.{Config, AuthConfig}
use go_serve.Config.Validate.{validate, disabled}
use go_serve.Auth.Creation.{Middleware, new_auth}
use go_serve.Dataplane.Listener.{limit_listener}
use go_serve.Runtime.{new_manager}
use go_serve.ControlPlane
use go_serve.Entry.{
  World, Running, Stop, or_stop, authentication_of, certificates_of, serve_config,
  invalid_configuration, auth_failed, runtime_failed, cluster_failed, control_listen_failed,
  public_listen_failed,
}

or_stop_ok :
    {E A : Type 0} (why : E → Stop) (x : Result E A) (a : A) → or_stop why x ≡ ok a → x ≡ ok a
or_stop_ok why (ok b) a h = cc
or_stop_ok why (err e) a h = cc

module _ {C : Type 0} (w : World C) where
  -- Every part comes from its constructor on the one configuration.
  pub record IsBuilt (cfg : Config) (r : Running C) : Type 0 where
    pub valid : validate w.url_parse cfg ≡ ok tt
    pub authentication : authentication_of w cfg.auth ≡ ok r.authentication
    pub manager : new_manager w.url_parse cfg r.authentication true ≡ ok r.manager
    pub control : r.control ≡ ControlPlane.new_server cfg true
    pub certificates : certificates_of w cfg.server ≡ ok r.certificates
    pub public_listener : r.public_listener ≡ limit_listener (pos_part cfg.limits.max_connections)

  pub serve_config-IsBuilt :
      (cfg : Config) (r : Running C) → serve_config w cfg ≡ ok r → IsBuilt cfg r
  unfolding serve_config
  serve_config-IsBuilt cfg r h =
      let no_node = if cfg.cluster.enabled then not (w.cluster_starts cfg.cluster) else false in
      let (u, valid, h₁) =
        >>=-eq-ok (or_stop invalid_configuration (validate w.url_parse cfg)) _ h in
      let (a, auth, h₂) = >>=-eq-ok (authentication_of w cfg.auth) _ h₁ in
      let (m, made, h₃) =
        >>=-eq-ok (or_stop runtime_failed (new_manager w.url_parse cfg a true)) _ h₂ in
      let (u₁, node, h₄) = >>=-eq-ok (reject_if no_node cluster_failed) _ h₃ in
      let (u₂, control, h₅) =
        >>=-eq-ok (reject_if (not (w.listens cfg.server.admin_addr)) control_listen_failed) _ h₄ in
      let (u₃, public, h₆) =
        >>=-eq-ok (reject_if (not (w.listens cfg.server.public_addr)) public_listen_failed) _ h₅ in
      let (certificates, tls, h₇) = >>=-eq-ok (certificates_of w cfg.server) _ h₆ in
      rw (← ok_injective h₇) (record {
        valid = or_stop_ok invalid_configuration (validate w.url_parse cfg) tt valid;
        authentication = auth;
        manager = or_stop_ok runtime_failed (new_manager w.url_parse cfg a true) m made;
        control = refl;
        certificates = tls;
        public_listener = refl;
      })

  pub no_authentication :
      (auth : AuthConfig) (a : Option Middleware)
      → authentication_of w auth ≡ ok a
      → a ≡ none
      → auth.mode ≡ disabled
  unfolding authentication_of
  no_authentication auth a h n = elim (Bool-cases (str_eq auth.mode disabled)) [
    | inl off ↦ (str_eq_iff auth.mode disabled).0 off
    | inr on ↦
        let (m, made, same) =
          >>=-eq-ok
            (or_stop auth_failed (new_auth w.discover w.read_file w.random_key w.url_parse auth)) _
            (rw (on, authentication_of) at h) in
        absurd (cc)
  ]
