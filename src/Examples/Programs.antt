-- ===== src/Examples/Programs.antt =====
-- A program that is started on a site whose one route asks for a token.
use go_serve.Common.{
  ℕ, ◌<◌, ◌≡◌, ◌≢◌, ◌⊎◌, refl, true, false, none, some, [], ◌∷◌, Str, bytes, str_eq, Bool, ◌∙◌,
  if◌then◌else◌, has_prefix, trim_suffix, to_upper, is_empty, ok, All,
}
use go_serve.Common.Dict.{str_Eq, lookup, insert, delete, lookup-delete}
use go_serve.Config.{Config, RouteConfig}
use go_serve.Config.Validate.{
  validate, validate_cluster, validate_auth, validate_redirect, validate_routes, validate_limits,
  parse_toml, contains,
}
use go_serve.Config.Load.{load_file}
use go_serve.Auth.{
  Claims, valid_claims, has_scopes, verify_bearer, authenticate, identity_headers, authorize,
}
use go_serve.Auth.Creation.{Middleware, new_auth, session_key}
use go_serve.Dataplane.Paths.{normalize_host, path_matches}
use go_serve.Dataplane.Routing.{CompiledRoute, match, fits, refuses_method}
use go_serve.Dataplane.Headers.{Header, scopes, strip_trusted_headers, apply_route_headers}
use go_serve.Dataplane.Pool.{has_healthy_endpoint}
use go_serve.Dataplane.Compile
use go_serve.Dataplane.Compile.{
  RuntimeState, compile, compile_route, compile_upstreams, compile_upstream, compile_routes,
  parse_endpoints, new_pool, reconfigure_with_authorizer,
}
use go_serve.Dataplane.Compile.Servable.{IsServable}
use go_serve.Dataplane.Handler.{Incoming, unavailable, unconfigured, forwarded, handle}
use go_serve.Runtime.{new_manager}
use go_serve.ControlPlane.{ready_response}
use go_serve.Observability.{new_metrics, add_u64}
use go_serve.Entry.{
  World, Running, start, load_config, serve_config, authentication_of, certificates_of,
}
use go_serve.Entry.System.{System, Reachable, started, replaced, replace}
use go_serve.Entry.Guarded.{IsGuarded, Reachable-IsGuarded}
use go_serve.Entry.Requests.{
  IsRelay, header_get, identify, authorizer, serve_public, serve_public_configured,
  serve_public_identified,
}
use go_serve.Auth.Protect.{Identities}
use go_serve.Entry.Counting.{observe, observe_rejections}
use go_serve.Entry.Shutdown as Shutdown
use go_serve.Entry.Shutdown.{Process, launched, launches, next, drains}
use go_serve.Entry.Shutdown.Ordering.{Reachable-drains}
use go_serve.Entry.Shutdown.Abandoned.{exit_abandons}
use go_serve.Examples.{url_parse, site, api}

abbrev guarded_api : RouteConfig
guarded_api = record api { require_auth = true; scopes = bytes "read" ∷ [] }

abbrev pub guarded : Config
guarded = record site {
  auth = record (site.auth) {
    mode = bytes "bearer";
    issuer_url = bytes "https://issuer";
    client_id = bytes "go-serve";
  };
  routes = guarded_api ∷ [];
}

abbrev pub world : World ℕ
world = record {
  read_file = λ path. some path;
  toml_decode_into = λ c contents. some (guarded, []);
  url_parse = url_parse;
  discover = λ issuer. true;
  random_key = some (bytes "0123456789abcdef");
  cluster_starts = λ c. true;
  listens = λ addr. true;
  certificate_files = λ cert key. record { cert_time = none; key_time = none; pair = none };
}

abbrev pub path : Str
path = bytes "site.toml"

pub runs : (r : Running ℕ) × (start world path ≡ ok r)
unfolding start load_config load_file parse_toml serve_config authentication_of certificates_of
    new_auth session_key new_manager Compile.new_server reconfigure_with_authorizer validate
    validate_cluster validate_auth validate_redirect validate_routes validate_limits bytes str_eq
    compile compile_upstreams compile_upstream compile_routes parse_endpoints lookup insert
runs = (_, refl)

abbrev first : System
first = record { control = runs.0.control; manager = runs.0.manager }

abbrev second : System
second = replace world (some guarded) (bytes "0") first

reached : Reachable world path second
reached = replaced (some guarded) (bytes "0") (started runs.0 runs.1)

Reachable-IsGuarded_example : IsGuarded world second
Reachable-IsGuarded_example = Reachable-IsGuarded world path second reached

abbrev user : Claims
user = record {
  subject = bytes "u";
  email = [];
  scopes = bytes "read" ∷ [];
  expiry = 100;
  nonce = [];
}

abbrev pub identities : Identities
identities = record {
  cookie_of = λ name headers. none;
  open_cookie = λ key value. none;
  verifier = some (λ token. some user);
  join = λ scopes. bytes "read";
}

abbrev canonical : Str → Str
canonical key = key

abbrev request : Incoming
request = record {
  host = [];
  method = bytes "GET";
  path = bytes "/api/users";
  headers = (bytes "Authorization", bytes "Bearer t" ∷ []) ∷ [];
}

serve_public_configured_example :
    ((state : RuntimeState Middleware) × (second.manager.data_plane.runtime ≡ some state)
      × (state.cfg ≡ second.control.config)
      × IsServable state)
    × ((serve_public canonical identities second 5 0 request).answer ≢ unavailable)
    × ((serve_public canonical identities second 5 0 request).answer ≢ unconfigured)
serve_public_configured_example =
    serve_public_configured world path canonical identities second 5 0 request reached

abbrev chosen : CompiledRoute
chosen = compile_route guarded_api

answered :
    (out : Header) × ((serve_public canonical identities first 5 0 request).answer
      ≡ forwarded chosen out)
unfolding serve_public handle match bytes str_eq fits path_matches has_prefix trim_suffix
    refuses_method contains strip_trusted_headers lookup has_healthy_endpoint apply_route_headers
    delete insert authorize authenticate verify_bearer valid_claims has_scopes identity_headers
    compile_route normalize_host runs to_upper
answered = (_, refl)

needs_auth : chosen.require_auth ≡ true
unfolding compile_route
needs_auth = refl

-- A proxy that removes the one header that `Connection` lists
abbrev lists : Header → Str → Bool
lists h key = str_eq (header_get (bytes "Connection") h) key

abbrev relay : Header → Header
relay h = delete (header_get (bytes "Connection") h) h

relay-IsRelay : IsRelay lists relay
relay-IsRelay = record {
  removes =
      λ h key listed. lookup-delete (header_get (bytes "Connection") h) key h ∙ rw listed refl;
  keeps =
      λ h key known free. lookup-delete (header_get (bytes "Connection") h) key h ∙ rw free refl;
}

serve_public_identified_example :
    (state : RuntimeState Middleware) × (m : Middleware) × (c : Claims)
    × (first.manager.data_plane.runtime ≡ some state)
    × (state.authorizer ≡ some m)
    × (identify identities 5 m (strip_trusted_headers request.headers) ≡ some c)
    × (is_empty c.subject ≡ false)
    × (5 < c.expiry)
    × All (λ scope. contains c.scopes scope ≡ true) chosen.scopes
    × (lookup scopes answered.0 ≡ some (bytes "read" ∷ []))
    × (lookup scopes (relay answered.0)
        ≡ (if lists answered.0 scopes then none else some (bytes "read" ∷ [])))
serve_public_identified_example =
    serve_public_identified canonical identities first 5 0 request chosen answered.0 lists relay
      relay-IsRelay answered.1 needs_auth

observe_rejections_example :
    let h =
      handle canonical (authorizer identities 5) runs.0.manager.data_plane.runtime 0 request in
    let m = observe new_metrics (bytes "GET") 200 (some (bytes "success")) 2 h in
    (((route : CompiledRoute) × (out : Header) × (h.answer ≡ forwarded route out))
      × (m.rejections ≡ add_u64 new_metrics.rejections 0))
    ⊎ (((route : CompiledRoute) (out : Header) → ¬ (h.answer ≡ forwarded route out))
        × (m.rejections ≡ add_u64 new_metrics.rejections 1))
observe_rejections_example =
    observe_rejections canonical (authorizer identities 5) runs.0.manager.data_plane.runtime 0
      request new_metrics 200 (some (bytes "success")) 2

signalled : (p : Process) × Shutdown.Reachable world path p
unfolding launched
signalled = (_, next (launches runs.0 runs.1) refl (drains refl))

Reachable-drains_example :
    (signalled.0.control_listens ≡ false
      → (ready_response signalled.0.system.control none).code ≡ 503)
    × (signalled.0.public_listens ≡ false → signalled.0.control_listens ≡ false)
Reachable-drains_example = Reachable-drains world path signalled.0 none signalled.1

exit_abandons_example :
    (p : Process) × Shutdown.Reachable world path p
    × (p.exited ≡ true)
    × (p.public_requests ≡ 3)
    × (p.public_listens ≡ true)
exit_abandons_example = exit_abandons world path runs.0 runs.1 3
