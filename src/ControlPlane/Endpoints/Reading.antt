-- ===== src/ControlPlane/Endpoints/Reading.antt =====
-- The endpoints that only read.
use go_serve.Common.{
  ◌≡◌, refl, Bool, true, false, not, ◌&&◌, ◌||◌, and_iff, Option, List, [], ◌∷◌, arith, Str, bytes,
  str_eq, All,
}
use go_serve.Config.{Config, Url}
use go_serve.ControlPlane.Cluster.{Controller}
use go_serve.ControlPlane.Endpoints.{
  Endpoint, on_health, on_ready, on_get_config, on_validate_config, on_config_status, on_servers,
  on_routes, on_cluster_status, on_cluster_members, on_cluster_sync, on_openapi, on_docs, on_pprof,
  on_replace_config, on_rollback, on_add_member, on_remove_member, on_transfer, endpoints, Input,
  Admin, serve_endpoint,
}

-- The endpoints whose handlers only read
abbrev is_reader : Endpoint → Bool
is_reader on_replace_config = false
is_reader on_rollback = false
is_reader on_add_member = false
is_reader on_remove_member = false
is_reader on_transfer = false
is_reader _ = true

abbrev all_read : List (Str × Str × Endpoint) → Bool
all_read [] = true
all_read ((method, pattern, e) ∷ table) =
    (not (str_eq method (bytes "GET")) || is_reader e) && all_read table

module _ {E M R S F : Type 0} (url_parse : Str → Option Url) (activate : M → Config → M × Option E)
    (k : Option (Controller R S F)) where
  -- What a GET request leaves: everything as it was.
  abbrev pub OnlyReads : Str × Str × Endpoint → Type 0
  OnlyReads (method, pattern, e) =
      str_eq method (bytes "GET") ≡ true
      → (q : Input) (a : Admin E M R) → (serve_endpoint url_parse activate k e q a).0 ≡ a

  reader_keeps :
      (e : Endpoint) (q : Input) (a : Admin E M R)
      → is_reader e ≡ true
      → (serve_endpoint url_parse activate k e q a).0 ≡ a
  unfolding serve_endpoint
  reader_keeps on_health q a h = refl
  reader_keeps on_ready q a h = refl
  reader_keeps on_get_config q a h = refl
  reader_keeps on_validate_config q a h = refl
  reader_keeps on_config_status q a h = refl
  reader_keeps on_servers q a h = refl
  reader_keeps on_routes q a h = refl
  reader_keeps on_cluster_status q a h = refl
  reader_keeps on_cluster_members q a h = refl
  reader_keeps on_cluster_sync q a h = refl
  reader_keeps on_openapi q a h = refl
  reader_keeps on_docs q a h = refl
  reader_keeps on_pprof q a h = refl
  reader_keeps on_replace_config q a h = absurd (cc)
  reader_keeps on_rollback q a h = absurd (cc)
  reader_keeps on_add_member q a h = absurd (cc)
  reader_keeps on_remove_member q a h = absurd (cc)
  reader_keeps on_transfer q a h = absurd (cc)

  table-OnlyReads :
      (table : List (Str × Str × Endpoint)) → all_read table ≡ true → All OnlyReads table
  table-OnlyReads [] h = tt
  table-OnlyReads ((method, pattern, e) ∷ table) h =
      let (first, rest) =
        (and_iff (not (str_eq method (bytes "GET")) || is_reader e) (all_read table)).0 h in
      (λ get q a. reader_keeps e q a (ground arith), table-OnlyReads table rest)

  endpoints_read : all_read endpoints ≡ true
  unfolding endpoints bytes str_eq
  endpoints_read = refl

  -- Every endpoint that the control plane registers for GET leaves the configuration, its versions, the
  -- manager and the cluster as they were, whatever the request and whether there is a cluster or not.
  pub endpoints-OnlyReads : All OnlyReads endpoints
  endpoints-OnlyReads = table-OnlyReads endpoints endpoints_read
