-- ===== src/ControlPlane/Endpoints.antt =====
-- `Handler` of internal/controlplane/server.go: the table of the endpoints and what each is served with.
-- Which entry of the table a request gets is the library's choice, and so is what pprof answers. A JSON
-- object is a list of its fields, whose values are of type `D` where they are no objects.
pub mod Reading
use go_serve.Common.{
  ℕ, Bool, true, false, Option, none, some, List, [], ◌∷◌, map, Str, bytes, Result, if◌then◌else◌,
}
use go_serve.Common.Dict.{str_Eq, lookup, insert, delete}
use go_serve.Config.{Config, RouteConfig, Url}
use go_serve.ControlPlane.{
  ControlPlane, State, Response, plain, config_status, get_config, ready_response, validate_config,
  replace_config, rollback_config,
}
use go_serve.ControlPlane.Cluster.{
  Controller, Reply, cluster_status, cluster_members, cluster_sync, add_cluster_member,
  remove_cluster_member, transfer_leadership,
}

pub data Endpoint : Type 0 where
  on_health on_ready on_get_config on_replace_config on_validate_config on_rollback : Endpoint
  on_config_status on_servers on_routes on_cluster_status on_cluster_members : Endpoint
  on_add_member on_remove_member on_cluster_sync on_transfer on_openapi on_docs on_pprof : Endpoint

-- The method, the pattern and the endpoint
unfoldable pub endpoints : List (Str × Str × Endpoint)
endpoints =
    (bytes "GET", bytes "/health", on_health)
    ∷ (bytes "GET", bytes "/ready", on_ready)
    ∷ (bytes "GET", bytes "/api/v1/config", on_get_config)
    ∷ (bytes "PUT", bytes "/api/v1/config", on_replace_config)
    ∷ (bytes "POST", bytes "/api/v1/config/validate", on_validate_config)
    ∷ (bytes "POST", bytes "/api/v1/config/rollback", on_rollback)
    ∷ (bytes "GET", bytes "/api/v1/config/status", on_config_status)
    ∷ (bytes "GET", bytes "/api/v1/servers", on_servers)
    ∷ (bytes "GET", bytes "/api/v1/routes", on_routes)
    ∷ (bytes "GET", bytes "/api/v1/cluster/status", on_cluster_status)
    ∷ (bytes "GET", bytes "/api/v1/cluster/members", on_cluster_members)
    ∷ (bytes "POST", bytes "/api/v1/cluster/members", on_add_member)
    ∷ (bytes "DELETE", bytes "/api/v1/cluster/members/{id}", on_remove_member)
    ∷ (bytes "GET", bytes "/api/v1/cluster/sync", on_cluster_sync)
    ∷ (bytes "POST", bytes "/api/v1/cluster/leadership/transfer", on_transfer)
    ∷ (bytes "GET", bytes "/api/openapi.json", on_openapi)
    ∷ (bytes "GET", bytes "/api/docs", on_docs)
    ∷ (bytes "GET", bytes "/debug/pprof/", on_pprof)
    ∷ (bytes "GET", bytes "/debug/pprof/cmdline", on_pprof)
    ∷ (bytes "GET", bytes "/debug/pprof/profile", on_pprof)
    ∷ (bytes "GET", bytes "/debug/pprof/symbol", on_pprof)
    ∷ (bytes "GET", bytes "/debug/pprof/trace", on_pprof)
    ∷ []

-- What the handlers read of a request: the decoded bodies, `If-Match`, the path's id, and what the
-- readiness check answers.
pub record Input : Type 0 where
  pub config_body : Option Config
  pub if_match : Str
  pub member : Option (Str × Str)
  pub id : Str
  pub target : Option (Option Str)
  pub check : Option (Bool × Str)

-- An entry of the listing of `routes`; its two counts are constants in the source.
pub record RouteListing : Type 0 where
  pub name : Str
  pub upstream : Str
  pub healthy_endpoints : ℕ
  pub requests_total : ℕ

pub data Served (E S F : Type 0) : Type 0 where
  alive documented docs_page docs_hidden profiled : Served E S F
  configured : Response E → Served E S F
  clustered : Reply S F → Served E S F
  servers_of : State → Served E S F
  routes_of : List RouteListing → Served E S F

unfoldable pub routes : Config → List RouteListing
routes c =
    map
      (λ (r : RouteConfig). record {
        name = r.name;
        upstream = r.upstream;
        healthy_endpoints = 0;
        requests_total = 0;
      })
      c.routes

-- `docs`
unfoldable pub docs : {E S F : Type 0} → Config → Served E S F
docs c = if c.control_plane.ui then docs_page else docs_hidden

-- The control plane, the state that it activates on, and the cluster's
pub record Admin (E M R : Type 0) : Type 0 where
  pub control : ControlPlane E
  pub manager : M
  pub cluster : R

abbrev pub updated_with :
    {E M R S F : Type 0} → R → ControlPlane E × M × Response E → Admin E M R × Served E S F
updated_with r (s, m, response) =
    (record { control = s; manager = m; cluster = r }, configured response)

abbrev pub changed_with :
    {E M R S F : Type 0} → Admin E M R → R × Reply S F → Admin E M R × Served E S F
changed_with a (r, reply) = (record a { cluster = r }, clustered reply)

module _ {E M R S F : Type 0} (url_parse : Str → Option Url) (activate : M → Config → M × Option E)
    (k : Option (Controller R S F)) where
  unfoldable pub serve_endpoint : Endpoint → Input → Admin E M R → Admin E M R × Served E S F
  serve_endpoint on_health q a = (a, alive)
  serve_endpoint on_ready q a = (a, configured (ready_response a.control q.check))
  serve_endpoint on_get_config q a = (a, configured (get_config a.control))
  serve_endpoint on_replace_config q a =
      updated_with a.cluster
        (replace_config activate url_parse a.control a.manager q.config_body q.if_match)
  serve_endpoint on_validate_config q a = (a, configured (validate_config url_parse q.config_body))
  serve_endpoint on_rollback q a =
      updated_with a.cluster (rollback_config activate a.control a.manager q.if_match)
  serve_endpoint on_config_status q a = (a, configured (config_status a.control))
  serve_endpoint on_servers q a = (a, servers_of a.control.state)
  serve_endpoint on_routes q a = (a, routes_of (routes a.control.config))
  serve_endpoint on_cluster_status q a = (a, clustered (cluster_status k a.cluster))
  serve_endpoint on_cluster_members q a = (a, clustered (cluster_members k a.cluster))
  serve_endpoint on_add_member q a = changed_with a (add_cluster_member k a.cluster q.member)
  serve_endpoint on_remove_member q a = changed_with a (remove_cluster_member k a.cluster q.id)
  serve_endpoint on_cluster_sync q a = (a, clustered (cluster_sync k a.cluster))
  serve_endpoint on_transfer q a = changed_with a (transfer_leadership k a.cluster q.target)
  serve_endpoint on_openapi q a = (a, documented)
  serve_endpoint on_docs q a = (a, docs a.control.config)
  serve_endpoint on_pprof q a = (a, profiled)

-- `redactConfig`, on what the configuration's JSON is decoded to
pub data Field (D : Type 0) : Type 0 where
  leaf : D → Field D
  object : List (Str × D) → Field D

abbrev pub redact_auth :
    {D : Type 0} → List (Str × Field D) → Option (Field D) → List (Str × Field D)
redact_auth doc none = doc
redact_auth doc (some (leaf d)) = doc
redact_auth doc (some (object auth)) =
    insert (bytes "auth") (object (delete (bytes "client_secret_file") auth)) doc

unfoldable pub redact_config : {D : Type 0} → List (Str × Field D) → List (Str × Field D)
redact_config doc = redact_auth doc (lookup (bytes "auth") doc)
