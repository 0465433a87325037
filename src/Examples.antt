-- ===== src/Examples.antt =====
-- Concrete configurations, pools and requests.
mod Configs
mod Balancing
mod Requests
mod Admin
mod Counting
mod Nodes
mod Identities
mod Connections
mod Programs
mod Membership
mod Forwarding
mod Codecs
mod Handshakes
mod Answers
mod Control
mod Bootstraps
use go_serve.Common.{
  ℕ, Bool, true, false, Option, none, some, List, [], ◌∷◌, ℤ, pos, Str, bytes, is_empty,
  if◌then◌else◌,
}
use go_serve.Config.{Config, RouteConfig, UpstreamConfig, Url}
use go_serve.Config.Validate.{second}
use go_serve.Dataplane.Breaker.{CircuitBreaker}
use go_serve.Dataplane.Pool.{UpstreamPool}
use go_serve.Dataplane.Routing.{CompiledRoute}

-- A parser that takes any text but the empty one for a host.
abbrev pub url_parse : Str → Option Url
url_parse raw =
    if is_empty raw then none else some (record { scheme = bytes "http"; host = raw; path = [] })

abbrev pub api : RouteConfig
api = record {
  name = bytes "api";
  host = [];
  path_prefix = bytes "/api";
  methods = bytes "GET" ∷ [];
  upstream = bytes "app";
  require_auth = false;
  scopes = [];
  headers = [];
}

abbrev pub app : UpstreamConfig
app = record {
  name = bytes "app";
  urls = bytes "10.0.0.1" ∷ [];
  health_path = [];
  dial_timeout = pos 0;
  request_timeout = pos 0;
  health_interval = pos 0;
  retry_attempts = pos 1;
  circuit_breaker_threshold = pos 0;
  circuit_breaker_cooldown = pos 0;
}

abbrev pub site : Config
site = record {
  server = record {
    public_addr = bytes ":8080";
    admin_addr = bytes ":9901";
    read_header_timeout = pos second;
    read_timeout = pos second;
    write_timeout = pos second;
    idle_timeout = pos second;
    shutdown_timeout = pos second;
    tls_cert_file = [];
    tls_key_file = [];
  };
  cluster = record {
    enabled = false;
    node_id = [];
    bind_addr = [];
    advertise_addr = [];
    data_dir = [];
    bootstrap = false;
    peers = none;
    virtual_ip = [];
    interface = [];
    on_leader_command = [];
    on_follower_command = [];
    forward_timeout = pos second;
    assignment_ttl = pos second;
  };
  control_plane = record { ui = false; openapi_path = bytes "/openapi.json" };
  auth = record {
    mode = bytes "disabled";
    issuer_url = [];
    client_id = [];
    client_secret_file = [];
    session_secret_file = [];
    redirect_url = [];
    allow_insecure_redirect = false;
    session_cookie_name = bytes "session";
    allowed_scopes = none;
  };
  limits = record {
    max_connections = pos 10;
    max_in_flight = pos 2;
    max_header_bytes = pos 2048;
    max_body_bytes = pos 4096;
  };
  routes = api ∷ [];
  upstreams = app ∷ [];
}

-- A closed breaker that opens at two failures, for ten nanoseconds.
abbrev pub breaker : CircuitBreaker
breaker = record {
  threshold = pos 2;
  cooldown = pos 10;
  failures = pos 0;
  open_until = 0;
  half_open = false;
}

abbrev pub endpoint : Url
endpoint = record { scheme = bytes "http"; host = bytes "10.0.0.1"; path = [] }

abbrev pub pool_of : List Bool → List Url → List CircuitBreaker → UpstreamPool
pool_of healthy endpoints breakers = record {
  name = bytes "app";
  endpoints = endpoints;
  next = 0;
  request_timeout = pos second;
  health_path = [];
  health_interval = pos second;
  retry_attempts = pos 1;
  healthy = healthy;
  breakers = breakers;
}

abbrev pub route : CompiledRoute
route = record {
  name = bytes "api";
  host = [];
  path_prefix = bytes "/api";
  methods = bytes "GET" ∷ [];
  headers = [];
  require_auth = false;
  scopes = [];
  upstream = bytes "app";
}
