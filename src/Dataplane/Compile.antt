-- ===== src/Dataplane/Compile.antt =====
-- `ReconfigureWithAuthorizer` and `Reconfigure` of internal/dataplane/server.go: a configuration is
-- compiled into routes and pools before it replaces the active runtime state.
pub mod Servable
pub mod Guarded
use mathlib.Core.Bool.{decide}
use go_serve.Common.{
  ℕ, ◌*◌, Bool, true, false, not, ◌&&◌, ◌||◌, Option, none, some, List, [], ◌∷◌, ◌++◌, map,
  if◌then◌else◌, ℤ, pos, pos_part, leb_ℤ, ltb_ℤ, Str, to_upper, is_empty, Result, ok, err, ◌>>=◌,
  ◌>>◌, is_some, length, replicate,
}
use go_serve.Common.Dict.{str_Eq, lookup, insert}
use go_serve.Config.{Config, RouteConfig, UpstreamConfig, Url}
use go_serve.Config.Validate.{ConfigError, validate, second}
use go_serve.Config.Clone.{
  clone, ServerConfig-discrete, AuthConfig-discrete, ClusterConfig-discrete,
}
use go_serve.Dataplane.Breaker.{CircuitBreaker, new_breaker}
use go_serve.Dataplane.Paths.{normalize_host, slash}
use go_serve.Dataplane.Routing.{CompiledRoute}
use go_serve.Dataplane.Pool.{UpstreamPool}

pub data CompileError : Type 0 where
  invalid : ConfigError → CompileError
  duplicate_upstream no_urls : Str → CompileError
  invalid_url unknown_upstream : Str → Str → CompileError
  restart_required : CompileError

abbrev pub Pools : Type 0
Pools = List (Str × UpstreamPool)

-- if d <= 0 { d = default }
abbrev pub or_default : ℤ → ℕ → ℤ
or_default d default = if leb_ℤ d (pos 0) then pos default else d

unfoldable pub new_pool : UpstreamConfig → List Url → UpstreamPool
new_pool u endpoints =
    let threshold = or_default u.circuit_breaker_threshold 5 in
    let cooldown = or_default u.circuit_breaker_cooldown (10 * second) in
    record {
      name = u.name;
      endpoints = endpoints;
      next = 0;
      request_timeout = or_default u.request_timeout (30 * second);
      health_path = u.health_path;
      health_interval = or_default u.health_interval (10 * second);
      retry_attempts = if ltb_ℤ u.retry_attempts (pos 0) then pos 0 else u.retry_attempts;
      healthy = replicate (length endpoints) true;
      breakers = replicate (length endpoints) (new_breaker threshold cooldown);
    }

unfoldable pub compile_route : RouteConfig → CompiledRoute
compile_route r = record {
  name = r.name;
  host = normalize_host r.host;
  path_prefix = if is_empty r.path_prefix then slash else r.path_prefix;
  methods = map to_upper r.methods;
  headers = r.headers;
  require_auth = r.require_auth;
  scopes = r.scopes;
  upstream = r.upstream;
}

-- The loop over the routes.
unfoldable pub compile_routes : Pools → List RouteConfig → Result CompileError (List CompiledRoute)
unfolding compile_route
compile_routes pools [] = ok []
compile_routes pools (r ∷ rs) =
    let rest = compile_routes pools rs in
    elim (lookup r.upstream pools) [
      | none ↦ err (unknown_upstream r.name r.upstream)
      | some pool ↦ rest >>= λ routes. ok (compile_route r ∷ routes)
    ]

-- The runtime state; the in-flight channel is its capacity, and `watched` lists the pools that have
-- a health loop.
pub record RuntimeState (A : Type 0) : Type 0 where
  pub cfg : Config
  pub routes : List CompiledRoute
  pub pools : Pools
  pub max_in_flight : ℕ
  pub max_body : ℤ
  pub authorizer : Option A
  pub watched : List Str

-- `stopped` lists the states whose context was cancelled, the last first.
pub record Server (A : Type 0) : Type 0 where
  pub runtime : Option (RuntimeState A)
  pub stopped : List (RuntimeState A)

unfoldable pub watched_pools : Pools → List Str
watched_pools [] = []
watched_pools ((name, pool) ∷ pools) =
    if is_empty pool.health_path then watched_pools pools else name ∷ watched_pools pools

abbrev pub previous_state : {A : Type 0} → Option (RuntimeState A) → List (RuntimeState A)
previous_state none = []
previous_state (some state) = state ∷ []

-- reflect.DeepEqual of the three parts that a running server cannot change
unfoldable pub same_listeners : Config → Config → Bool
same_listeners a b =
    decide (ServerConfig-discrete a.server b.server)
    && decide (AuthConfig-discrete a.auth b.auth)
    && decide (ClusterConfig-discrete a.cluster b.cluster)

module _ (url_parse : Str → Option Url) where
  unfoldable pub parse_endpoints : Str → List Str → Result CompileError (List Url)
  parse_endpoints name [] = ok []
  parse_endpoints name (raw ∷ raws) =
      let rest = parse_endpoints name raws in
      elim (url_parse raw) [
        | none ↦ err (invalid_url name raw)
        | some target ↦
            if is_empty target.scheme || is_empty target.host
            then err (invalid_url name raw)
            else rest >>= λ targets. ok (target ∷ targets)
      ]

  -- The body of the loop over the upstreams.
  unfoldable pub compile_upstream : Pools → UpstreamConfig → Result CompileError Pools
  unfolding new_pool parse_endpoints
  compile_upstream pools u =
      if is_some (lookup u.name pools) then err (duplicate_upstream u.name) else elim u.urls [
        | [] ↦ err (no_urls u.name)
        | raw ∷ raws ↦ do
          endpoints ← parse_endpoints u.name (raw ∷ raws)
          ok (insert u.name (new_pool u endpoints) pools)
      ]

  unfoldable pub compile_upstreams : Pools → List UpstreamConfig → Result CompileError Pools
  compile_upstreams pools [] = ok pools
  compile_upstreams pools (u ∷ us) =
      compile_upstream pools u >>= λ pools'. compile_upstreams pools' us

  abbrev pub lift_error : Result ConfigError (Unit {0}) → Result CompileError (Unit {0})
  lift_error (ok u) = ok u
  lift_error (err e) = err (invalid e)

  unfoldable pub compile : {A : Type 0} → Config → Option A → Result CompileError (RuntimeState A)
  compile cfg authorizer = do
    lift_error (validate url_parse cfg)
    pools ← compile_upstreams [] cfg.upstreams
    routes ← compile_routes pools cfg.routes
    ok (record {
      cfg = clone cfg;
      routes = routes;
      pools = pools;
      max_in_flight = pos_part cfg.limits.max_in_flight;
      max_body = cfg.limits.max_body_bytes;
      authorizer = authorizer;
      watched = watched_pools pools;
    })

  unfoldable pub reconfigure_with_authorizer :
      {A : Type 0} → Server A → Config → Option A → Server A × Option CompileError
  unfolding compile
  reconfigure_with_authorizer s cfg authorizer = elim (compile cfg authorizer) [
    | err e ↦ (s, some e)
    | ok state ↦
        (record { runtime = some state; stopped = previous_state s.runtime ++ s.stopped }, none)
  ]

  unfoldable pub reconfigure : {A : Type 0} → Server A → Config → Server A × Option CompileError
  unfolding reconfigure_with_authorizer
  reconfigure s cfg = elim s.runtime [
    | none ↦ reconfigure_with_authorizer s cfg none
    | some current ↦
        if same_listeners current.cfg cfg
        then reconfigure_with_authorizer s cfg current.authorizer
        else (s, some restart_required)
  ]

  -- `NewServerWithEvents`
  unfoldable pub new_server : {A : Type 0} → Config → Option A → Result CompileError (Server A)
  unfolding reconfigure_with_authorizer
  new_server cfg authorizer =
      let (s, e) =
        reconfigure_with_authorizer (record { runtime = none; stopped = [] }) cfg authorizer in
      elim e [ none ↦ ok s | some error ↦ err error ]

-- `Server.Close`: the context of the running state is cancelled.
unfoldable pub close_server : {A : Type 0} → Server A → Server A
close_server s = record s { stopped = previous_state s.runtime ++ s.stopped }
