-- ===== src/Entry.antt =====
-- `main` of cmd/server/main.go: the order in which the program is put together, and what stops it.
-- The files, `toml.Decode`, `url.Parse`, the provider's discovery, the random source, the start of
-- the cluster's node and `net.Listen` are the world that it starts in.
pub mod Built
pub mod System
pub mod Guarded
pub mod Requests
pub mod Shutdown
pub mod Counting
pub mod Control
use go_serve.Common.{
  ℕ, ◌≡◌, Bool, true, false, not, Option, none, some, List, [], Str, str_eq, is_empty, Result, ok,
  err, ◌>>=◌, ◌>>◌, reject_if, if◌then◌else◌, pos_part,
}
use go_serve.Config.{Config, AuthConfig, ServerConfig, ClusterConfig, Url}
use go_serve.Config.Validate.{ConfigError, default, validate, disabled}
use go_serve.Config.Load.{LoadError, load_file}
use go_serve.Auth.Creation.{Middleware, NewError, new_auth}
use go_serve.Dataplane.Compile.{CompileError}
use go_serve.Dataplane.Certificates.{Files, Loader, tls_listener}
use go_serve.Dataplane.Listener.{LimitedListener, limit_listener}
use go_serve.Runtime.{Manager, new_manager}
use go_serve.ControlPlane
use go_serve.ControlPlane.{ControlPlane}

-- `C` is the type of certificates.
pub record World (C : Type 0) : Type 0 where
  pub read_file : Str → Option Str
  pub toml_decode_into : Config → Str → Option (Config × List Str)
  pub url_parse : Str → Option Url
  pub discover : Str → Bool
  pub random_key : Option Str
  pub cluster_starts : ClusterConfig → Bool
  pub listens : Str → Bool
  pub certificate_files : Str → Str → Files C

-- `os.Exit(1)` after a message, but for `nil_listener_closed`: a panic.
pub data Stop : Type 0 where
  load_failed : LoadError → Stop
  invalid_configuration : ConfigError → Stop
  auth_failed : NewError → Stop
  runtime_failed : CompileError → Stop
  cluster_failed control_listen_failed public_listen_failed nil_listener_closed : Stop

-- What serves, once the goroutines start; `authentication` also protects the control plane.
pub record Running (C : Type 0) : Type 0 where
  pub control : ControlPlane CompileError
  pub manager : Manager Middleware
  pub authentication : Option Middleware
  pub in_cluster : Bool
  pub certificates : Option (Loader C)
  pub public_listener : LimitedListener

abbrev pub or_stop {ℓ} : {E : Type 0} {A : Type ℓ} → (E → Stop) → Result E A → Result Stop A
or_stop why (err e) = err (why e)
or_stop why (ok a) = ok a

module _ {C : Type 0} (w : World C) where
  -- The configuration, from the path that the flag gives
  unfoldable pub load_config : Str → Result Stop Config
  load_config path =
      if is_empty path
      then ok default
      else or_stop load_failed (load_file w.read_file w.url_parse w.toml_decode_into path)

  unfoldable pub authentication_of : AuthConfig → Result Stop (Option Middleware)
  authentication_of auth =
      if not (str_eq auth.mode disabled)
      then (or_stop auth_failed (new_auth w.discover w.read_file w.random_key w.url_parse auth)
          >>= (λ m. ok (some m)))
      else ok none

  abbrev pub or_closed : Option (Loader C) → Result Stop (Option (Loader C))
  or_closed none = err nil_listener_closed
  or_closed (some loader) = ok (some loader)

  -- The TLS part: where `TLSListener` fails it returns a nil listener, which is then closed.
  unfoldable pub certificates_of : ServerConfig → Result Stop (Option (Loader C))
  certificates_of server =
      if not (is_empty server.tls_cert_file)
      then or_closed (tls_listener (w.certificate_files server.tls_cert_file server.tls_key_file))
      else ok none

  unfoldable pub serve_config : Config → Result Stop (Running C)
  unfolding authentication_of certificates_of
  serve_config cfg = do
    or_stop invalid_configuration (validate w.url_parse cfg)
    authentication ← authentication_of cfg.auth
    manager ← or_stop runtime_failed (new_manager w.url_parse cfg authentication true)
    reject_if (if cfg.cluster.enabled then not (w.cluster_starts cfg.cluster) else false)
        cluster_failed
    reject_if (not (w.listens cfg.server.admin_addr)) control_listen_failed
    reject_if (not (w.listens cfg.server.public_addr)) public_listen_failed
    certificates ← certificates_of cfg.server
    ok (record {
      control = ControlPlane.new_server cfg true;
      manager = manager;
      authentication = authentication;
      in_cluster = cfg.cluster.enabled;
      certificates = certificates;
      public_listener = limit_listener (pos_part cfg.limits.max_connections);
    })

  unfoldable pub start : Str → Result Stop (Running C)
  unfolding load_config serve_config
  start path = load_config path >>= serve_config
