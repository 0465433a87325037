-- ===== src/Dataplane/Routing.antt =====
-- `match` of internal/dataplane/server.go, over the compiled routes. A route's pointer to its pool
-- is the pool's name, which is unique among the pools of one runtime state.
pub mod Best
use go_serve.Common.{
  ℕ, Bool, true, false, not, ◌&&◌, ◌||◌, Option, none, some, List, [], ◌∷◌, ltb, length,
  if◌then◌else◌, Str, str_eq, is_empty,
}
use go_serve.Config.Validate.{contains}
use go_serve.Dataplane.Paths.{normalize_host, path_matches}

pub record CompiledRoute : Type 0 where
  pub name : Str
  pub host : Str
  pub path_prefix : Str
  pub methods : List Str
  pub headers : List (Str × Str)
  pub require_auth : Bool
  pub scopes : List Str
  pub upstream : Str

-- Whether the loop passes the tests on the host and the path.
unfoldable pub fits : Str → Str → CompiledRoute → Bool
fits host path route =
    (is_empty route.host || str_eq route.host host) && path_matches route.path_prefix path

-- len(route.methods) > 0, and the method is not among them
unfoldable pub refuses_method : Str → CompiledRoute → Bool
refuses_method method route = elim route.methods [
  | [] ↦ false
  | m ∷ ms ↦ not (contains (m ∷ ms) method)
]

-- best == nil || len(route.pathPrefix) > len(best.pathPrefix)
abbrev pub improves : Option CompiledRoute → CompiledRoute → Bool
improves none route = true
improves (some best) route = ltb (length best.path_prefix) (length route.path_prefix)

-- The loop, with its variables `best` and `methodAllowed`.
unfoldable pub match_from :
    Str → Str → Str → Option CompiledRoute → Bool → List CompiledRoute → Option CompiledRoute × Bool
match_from host method path best method_allowed [] = (best, method_allowed)
match_from host method path best method_allowed (route ∷ routes) =
    match_from host method path
      (if fits host path route && not (refuses_method method route) && improves best route
        then some route
        else best)
      (method_allowed || (fits host path route && refuses_method method route)) routes

unfoldable pub match : List CompiledRoute → Str → Str → Str → Option CompiledRoute × Bool
unfolding match_from
match routes request_host method path =
    match_from (normalize_host request_host) method path none false routes
