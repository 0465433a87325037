-- ===== src/Config/Validate.antt =====
-- `Default`, `Validate` and `ParseTOML` of internal/config/config.go.
use go_serve.Common.{
  ℕ, ◌*◌, ◌^◌, Bool, false, not, ◌&&◌, ◌||◌, Option, none, some, List, [], ◌∷◌, ◌==◌, if◌then◌else◌,
  pos, leb_ℤ, ltb_ℤ, Str, bytes, str_eq, is_empty, Result, ok, err, ◌>>◌, reject_if,
}
use go_serve.Config.{
  Config, ClusterConfig, ClusterPeer, AuthConfig, LimitsConfig, RouteConfig, Url, items,
}

-- One constructor for each message of the file.
pub data ConfigError : Type 0 where
  addrs_required tls_files_apart cluster_fields cluster_timeouts peer_fields : ConfigError
  duplicate_node : Str → ConfigError
  openapi_path_relative auth_mode_unknown : ConfigError
  auth_fields : Str → ConfigError
  oidc_fields redirect_relative redirect_insecure : ConfigError
  route_needs_auth : Str → ConfigError
  limits_too_small toml_decode unknown_keys : ConfigError

abbrev pub second : ℕ
second = 1000000000

unfoldable pub default : Config
default = record {
  server = record {
    public_addr = bytes ":8080";
    admin_addr = bytes "127.0.0.1:9901";
    read_header_timeout = pos (5 * second);
    read_timeout = pos (30 * second);
    write_timeout = pos (30 * second);
    idle_timeout = pos (60 * second);
    shutdown_timeout = pos (15 * second);
    tls_cert_file = [];
    tls_key_file = [];
  };
  cluster = record {
    enabled = false;
    node_id = [];
    bind_addr = [];
    advertise_addr = [];
    data_dir = [];
    bootstrap = false;
    peers = none;
    virtual_ip = [];
    interface = [];
    on_leader_command = [];
    on_follower_command = [];
    forward_timeout = pos (5 * second);
    assignment_ttl = pos (600 * second);
  };
  control_plane = record { ui = false; openapi_path = bytes "/api/openapi.json" };
  auth = record {
    mode = bytes "disabled";
    issuer_url = [];
    client_id = [];
    client_secret_file = [];
    session_secret_file = [];
    redirect_url = [];
    allow_insecure_redirect = false;
    session_cookie_name = bytes "go_serve_session";
    allowed_scopes = none;
  };
  limits = record {
    max_connections = pos 10000;
    max_in_flight = pos 1000;
    max_header_bytes = pos (2 ^ 20);
    max_body_bytes = pos (10 * 2 ^ 20);
  };
  routes = [];
  upstreams = [];
}

-- a != b
abbrev pub differ : Bool → Bool → Bool
differ a b = if a then not b else b

-- s != "" && s[0] == '/'
abbrev pub is_absolute : Str → Bool
is_absolute [] = false
is_absolute (c ∷ s) = c == b'/'

unfoldable pub contains : List Str → Str → Bool
contains [] s = false
contains (x ∷ xs) s = str_eq x s || contains xs s

-- The loop over the peers; `seen` holds the ids so far.
unfoldable pub validate_peers : List Str → List ClusterPeer → Result ConfigError (Unit {0})
validate_peers seen [] = ok tt
validate_peers seen (peer ∷ peers) =
    let rest = validate_peers (peer.id ∷ seen) peers in
    if is_empty peer.id || is_empty peer.address
    then err peer_fields
    else if contains seen peer.id
    then err (duplicate_node peer.id)
    else rest

unfoldable pub validate_cluster : ClusterConfig → Result ConfigError (Unit {0})
validate_cluster c =
    if c.enabled
    then (do
      reject_if
          (is_empty c.node_id
            || is_empty c.bind_addr
            || is_empty c.advertise_addr
            || is_empty c.data_dir)
          cluster_fields
      reject_if (leb_ℤ c.forward_timeout (pos 0) || leb_ℤ c.assignment_ttl (pos 0)) cluster_timeouts
      validate_peers (c.node_id ∷ []) (items c.peers))
    else ok tt

abbrev pub disabled : Str
disabled = bytes "disabled"

abbrev pub oidc : Str
oidc = bytes "oidc"

abbrev pub bearer : Str
bearer = bytes "bearer"

abbrev pub https : Str
https = bytes "https"

unfoldable pub validate_redirect : AuthConfig → Option Url → Result ConfigError (Unit {0})
validate_redirect a none = err redirect_relative
validate_redirect a (some url) = do
  reject_if (is_empty url.scheme || is_empty url.host) redirect_relative
  reject_if (not (str_eq url.scheme https) && not a.allow_insecure_redirect) redirect_insecure

-- The loop over the routes.
unfoldable pub validate_routes : Str → List RouteConfig → Result ConfigError (Unit {0})
validate_routes mode [] = ok tt
validate_routes mode (route ∷ routes) =
    let rest = validate_routes mode routes in
    if route.require_auth && str_eq mode disabled then err (route_needs_auth route.name) else rest

unfoldable pub validate_limits : LimitsConfig → Result ConfigError (Unit {0})
validate_limits l =
    reject_if
      (ltb_ℤ l.max_connections (pos 1)
        || ltb_ℤ l.max_in_flight (pos 1)
        || ltb_ℤ l.max_header_bytes (pos 1024)
        || ltb_ℤ l.max_body_bytes (pos 1))
      limits_too_small

-- `url_parse` is `url.Parse`.
module _ (url_parse : Str → Option Url) where
  unfoldable pub validate_auth : AuthConfig → Result ConfigError (Unit {0})
  validate_auth a = do
    let is_oidc = str_eq a.mode oidc
    let is_bearer = str_eq a.mode bearer
    reject_if (not (str_eq a.mode disabled) && not is_oidc && not is_bearer) auth_mode_unknown
    reject_if ((is_oidc || is_bearer) && (is_empty a.issuer_url || is_empty a.client_id))
        (auth_fields a.mode)
    reject_if
        (is_oidc
          && (is_empty a.redirect_url
              || is_empty a.client_secret_file
              || is_empty a.session_secret_file))
        oidc_fields
    if is_oidc && not (is_empty a.redirect_url)
        then validate_redirect a (url_parse a.redirect_url)
        else ok tt

  unfoldable pub validate : Config → Result ConfigError (Unit {0})
  validate c = do
    reject_if (is_empty c.server.public_addr || is_empty c.server.admin_addr) addrs_required
    reject_if (differ (is_empty c.server.tls_cert_file) (is_empty c.server.tls_key_file))
        tls_files_apart
    validate_cluster c.cluster
    reject_if (not (is_absolute c.control_plane.openapi_path)) openapi_path_relative
    validate_auth c.auth
    validate_routes c.auth.mode c.routes
    validate_limits c.limits

  -- `toml.Decode` over the defaults: an error, or the value with the keys that it did not decode.
  module _ (toml_decode_into : Config → Str → Option (Config × List Str)) where
    unfoldable pub parse_toml : Str → Result ConfigError Config
    parse_toml contents = elim (toml_decode_into default contents) [
      | none ↦ err toml_decode
      | some (value, []) ↦ validate value >> ok value
      | some (value, key ∷ keys) ↦ err unknown_keys
    ]
