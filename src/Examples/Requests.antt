-- ===== src/Examples/Requests.antt =====
-- Routing and admission of one request.
use go_serve.Common.{
  ℕ, arith, ◌≡◌, ◌⊎◌, refl, Bool, true, false, none, some, List, [], ◌∷◌, pos, Str, bytes, str_eq,
  has_prefix, trim_suffix,
}
use go_serve.Common.Dict.{str_Eq, lookup, delete}
use go_serve.Dataplane.Paths.{normalize_host, path_matches}
use go_serve.Dataplane.Routing.{CompiledRoute, match, fits, refuses_method}
use go_serve.Dataplane.Pool.{has_healthy_endpoint}
use go_serve.Config.Validate.{contains}
use go_serve.Dataplane.Routing.Best.{IsBest, match-IsBest}
use go_serve.Dataplane.Compile.{RuntimeState}
use go_serve.Dataplane.Headers.{
  Header, subject, is_trusted, strip_trusted_headers, apply_route_headers,
}
use go_serve.Dataplane.Handler.{Incoming, forwarded, handle}
use go_serve.Dataplane.Handler.Admission.{handle_trusted}
use go_serve.Dataplane.InFlight.{Serving, Reachable, empty, next, installs, admits}
use go_serve.Dataplane.InFlight.Accounted.{HasSlots, Reachable-HasSlots}
use go_serve.Examples.{site, route, pool_of, endpoint, breaker}

abbrev get : Str
get = bytes "GET"

abbrev path : Str
path = bytes "/api/users"

abbrev routes : List CompiledRoute
routes = route ∷ []

finds : (match routes [] get path).0 ≡ some route
unfolding match bytes str_eq fits path_matches has_prefix trim_suffix refuses_method contains
finds = refl

match-IsBest_example : IsBest (normalize_host []) get path routes route
match-IsBest_example = match-IsBest routes [] get path route finds

misses : (match routes [] (bytes "POST") path).0 ≡ none
unfolding match bytes str_eq fits path_matches has_prefix trim_suffix refuses_method contains
misses = refl

abbrev state : RuntimeState ℕ
state = record {
  cfg = site;
  routes = routes;
  pools = (bytes "app", pool_of (true ∷ []) (endpoint ∷ []) (breaker ∷ [])) ∷ [];
  max_in_flight = 2;
  max_body = pos 4096;
  authorizer = none;
  watched = [];
}

-- A client that claims to be somebody.
abbrev request : Incoming
request = record {
  host = [];
  method = get;
  path = path;
  headers = (subject, bytes "root" ∷ []) ∷ (bytes "Accept", bytes "text/plain" ∷ []) ∷ [];
}

abbrev canonical : Str → Str
canonical key = key

abbrev authorize : ℕ → Header → List Str → Bool × Header
authorize a headers scopes = (false, headers)

abbrev sent : Header
sent = (bytes "Accept", bytes "text/plain" ∷ []) ∷ []

passes : (handle canonical authorize (some state) 1 request).answer ≡ forwarded route sent
unfolding handle match bytes str_eq fits path_matches has_prefix trim_suffix refuses_method contains
    strip_trusted_headers lookup has_healthy_endpoint apply_route_headers delete
passes = refl

subject-is_trusted : is_trusted subject ≡ true
unfolding bytes str_eq
subject-is_trusted = refl

handle_trusted_example :
    ((route.require_auth ≡ false) × (lookup subject sent ≡ none))
    ⊎ ((route.require_auth ≡ true)
        × ((a : ℕ) × (g : Header) × (authorize a
                (strip_trusted_headers request.headers)
                route.scopes
              ≡ (true, g))
            × (lookup subject sent ≡ lookup subject g)))
handle_trusted_example =
    handle_trusted canonical authorize (some state) 1 request route sent subject subject-is_trusted
      passes

-- A request that is still served while its state is replaced.
overlapping : (s : Serving ℕ) × Reachable s
overlapping =
    let one = next empty (installs state) in
    let two = next one (admits 0 (record { state = state; taken = 0 }) refl (omega arith)) in
    (_, next two (installs state))

Reachable-HasSlots_example : HasSlots overlapping.0
Reachable-HasSlots_example = Reachable-HasSlots overlapping.0 overlapping.1
