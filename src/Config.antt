-- ===== src/Config.antt =====
-- internal/config/config.go: the data that the file describes. A Go `string` is a `Str`, an integer
-- or a duration a `ℤ`, a slice a list, and a string map an association list.
pub mod Validate
pub mod Load
pub mod Valid
pub mod Clone
use go_serve.Common.{Bool, Option, none, some, List, [], ℤ, Str}

-- A slice whose nil the program tells from an empty one (`reflect.DeepEqual` does); `none` is nil.
abbrev pub Slice : Type 0 → Type 0
Slice A = Option (List A)

abbrev pub items : {A : Type 0} → Slice A → List A
items none = []
items (some xs) = xs

pub record ServerConfig : Type 0 where
  pub public_addr : Str
  pub admin_addr : Str
  pub read_header_timeout : ℤ
  pub read_timeout : ℤ
  pub write_timeout : ℤ
  pub idle_timeout : ℤ
  pub shutdown_timeout : ℤ
  pub tls_cert_file : Str
  pub tls_key_file : Str

pub record ClusterPeer : Type 0 where
  pub id : Str
  pub address : Str
  pub public_url : Str
  pub admin_url : Str

pub record ClusterConfig : Type 0 where
  pub enabled : Bool
  pub node_id : Str
  pub bind_addr : Str
  pub advertise_addr : Str
  pub data_dir : Str
  pub bootstrap : Bool
  pub peers : Slice ClusterPeer
  pub virtual_ip : Str
  pub interface : Str
  pub on_leader_command : Str
  pub on_follower_command : Str
  pub forward_timeout : ℤ
  pub assignment_ttl : ℤ

pub record ControlPlaneConfig : Type 0 where
  pub ui : Bool
  pub openapi_path : Str

pub record AuthConfig : Type 0 where
  pub mode : Str
  pub issuer_url : Str
  pub client_id : Str
  pub client_secret_file : Str
  pub session_secret_file : Str
  pub redirect_url : Str
  pub allow_insecure_redirect : Bool
  pub session_cookie_name : Str
  pub allowed_scopes : Slice Str

pub record LimitsConfig : Type 0 where
  pub max_connections : ℤ
  pub max_in_flight : ℤ
  pub max_header_bytes : ℤ
  pub max_body_bytes : ℤ

pub record RouteConfig : Type 0 where
  pub name : Str
  pub host : Str
  pub path_prefix : Str
  pub methods : List Str
  pub upstream : Str
  pub require_auth : Bool
  pub scopes : List Str
  pub headers : List (Str × Str)

pub record UpstreamConfig : Type 0 where
  pub name : Str
  pub urls : List Str
  pub health_path : Str
  pub dial_timeout : ℤ
  pub request_timeout : ℤ
  pub health_interval : ℤ
  pub retry_attempts : ℤ
  pub circuit_breaker_threshold : ℤ
  pub circuit_breaker_cooldown : ℤ

pub record Config : Type 0 where
  pub server : ServerConfig
  pub cluster : ClusterConfig
  pub control_plane : ControlPlaneConfig
  pub auth : AuthConfig
  pub limits : LimitsConfig
  pub routes : List RouteConfig
  pub upstreams : List UpstreamConfig

-- The parts of a `*url.URL` that the program reads. `net/url` parses; the model takes the parser.
pub record Url : Type 0 where
  pub scheme : Str
  pub host : Str
  pub path : Str
