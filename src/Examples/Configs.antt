-- ===== src/Examples/Configs.antt =====
-- The configuration's theorems at a small site.
use go_serve.Common.{◌≡◌, ◌↔◌, refl, none, [], bytes, str_eq, ok, ℕ}
use go_serve.Common.Dict.{lookup, insert}
use go_serve.Config.Validate.{
  validate, validate_cluster, validate_auth, validate_routes, validate_limits, default,
}
use go_serve.Config.Valid.{IsValid, validate_iff}
use go_serve.Dataplane.Compile.{
  compile, compile_upstreams, compile_upstream, compile_routes, parse_endpoints, RuntimeState,
  Server,
}
use go_serve.Examples.{url_parse, site}

site_is_valid : validate url_parse site ≡ ok tt
unfolding validate validate_cluster validate_auth validate_routes validate_limits bytes str_eq
site_is_valid = refl

default_is_valid : validate url_parse default ≡ ok tt
unfolding validate validate_cluster validate_auth validate_routes validate_limits bytes str_eq
    default
default_is_valid = refl

validate_iff_example : (validate url_parse site ≡ ok tt) ↔ IsValid url_parse site
validate_iff_example = validate_iff url_parse site

site_compiles : (state : RuntimeState ℕ) × (compile url_parse site none ≡ ok state)
unfolding validate validate_cluster validate_auth validate_routes validate_limits bytes str_eq
    compile compile_upstreams compile_upstream compile_routes parse_endpoints lookup insert
site_compiles = (_, refl)

abbrev fresh : Server ℕ
fresh = record { runtime = none; stopped = [] }
