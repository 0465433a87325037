-- ===== src/Config/Valid.antt =====
-- What a configuration must satisfy, stated without the order of the tests, and the theorem that
-- `validate` decides it.
use go_serve.Common.{
  ◌≤◌, ◌<◌, ◌≡◌, ◌≢◌, ◌↔◌, ◌⊎◌, inl, inr, refl, sym, true, Option, none, some, List, [], ◌∷◌, map,
  arith, pos_part, Str, str_eq, str_eq_iff, is_empty, ok, All, In, Bool-cases,
}
use go_serve.Config.{
  Config, ClusterConfig, ClusterPeer, AuthConfig, LimitsConfig, RouteConfig, Url, items,
}
use go_serve.Config.Validate.{
  contains, validate_peers, validate_cluster, validate_redirect, validate_routes, validate_limits,
  validate_auth, validate, disabled, oidc, bearer, https, is_absolute,
}

-- No element occurs twice.
abbrev pub IsDistinct : List Str → Type 0
IsDistinct [] = Unit
IsDistinct (x ∷ xs) = (¬ In x xs) × IsDistinct xs

abbrev pub ids : List ClusterPeer → List Str
ids = map (λ p. p.id)

pub record IsValidCluster (c : ClusterConfig) : Type 0 where
  pub node_id : c.node_id ≢ []
  pub bind_addr : c.bind_addr ≢ []
  pub advertise_addr : c.advertise_addr ≢ []
  pub data_dir : c.data_dir ≢ []
  pub forward_timeout : 0 < pos_part c.forward_timeout
  pub assignment_ttl : 0 < pos_part c.assignment_ttl
  pub peers : All (λ p. (p.id ≢ []) × (p.address ≢ [])) (items c.peers)
  pub distinct : IsDistinct (c.node_id ∷ ids (items c.peers))

contains_iff : (xs : List Str) (s : Str) → (contains xs s ≡ true) ↔ In s xs
unfolding contains
contains_iff [] s = ground arith
contains_iff (x ∷ xs) s = ground (arith, contains_iff xs s, str_eq_iff x s, str_eq_iff s x)

is_empty_iff : (s : Str) → (is_empty s ≡ true) ↔ (s ≡ [])
is_empty_iff [] = ground arith
is_empty_iff (c ∷ s) = ground arith

abbrev NotIn : List Str → Str → Type 0
NotIn seen x = ¬ In x seen

fresh-cons :
    (a : Str) (seen xs : List Str) → All (NotIn (a ∷ seen)) xs → All (NotIn seen) xs × (¬ In a xs)
fresh-cons a seen [] h = (tt, λ m. m)
fresh-cons a seen (x ∷ xs) (n, h) =
    let (rest, away) = fresh-cons a seen xs h in
    ((λ m. n (inr m), rest), elim [ inl e ↦ n (inl (sym e)) | inr m ↦ away m ])

cons-fresh :
    (a : Str) (seen xs : List Str) → All (NotIn seen) xs → ¬ In a xs → All (NotIn (a ∷ seen)) xs
cons-fresh a seen [] h n = tt
cons-fresh a seen (x ∷ xs) (k, h) n =
    (elim [ inl e ↦ n (inl (sym e)) | inr m ↦ k m ], cons-fresh a seen xs h (λ m. n (inr m)))

abbrev HasFields : ClusterPeer → Type 0
HasFields p = (p.id ≢ []) × (p.address ≢ [])

peers_sound :
    (seen : List Str) (ps : List ClusterPeer)
    → validate_peers seen ps ≡ ok tt
    → All HasFields ps × All (NotIn seen) (ids ps) × IsDistinct (ids ps)
unfolding validate_peers
peers_sound seen [] h = (tt, tt, tt)
peers_sound seen (p ∷ ps) h =
    let (fields, fresh, distinct) = peers_sound (p.id ∷ seen) ps (ground arith) in
    let (away, apart) = fresh-cons p.id seen (ids ps) fresh in
    (
      ((ground (arith, is_empty_iff p.id), ground (arith, is_empty_iff p.address)), fields),
      (λ m. ground (arith, (contains_iff seen p.id).1 m), away),
      (apart, distinct),
    )

peers_complete :
    (seen : List Str) (ps : List ClusterPeer)
    → All HasFields ps
    → All (NotIn seen) (ids ps)
    → IsDistinct (ids ps)
    → validate_peers seen ps ≡ ok tt
unfolding validate_peers
peers_complete seen [] f n d = refl
peers_complete seen (p ∷ ps) ((i, a), f) (n, ns) (apart, d) =
    let ih = peers_complete (p.id ∷ seen) ps f (cons-fresh p.id seen (ids ps) ns apart) d in
    let absent : contains seen p.id ≡ true → ⊥ = λ e. n ((contains_iff seen p.id).0 e) in
    ground (arith, ih, absent, is_empty_iff p.id, is_empty_iff p.address)

cluster_sound :
    (c : ClusterConfig) → validate_cluster c ≡ ok tt → c.enabled ≡ true → IsValidCluster c
unfolding validate_cluster
cluster_sound c h on =
    let (fields, fresh, distinct) = peers_sound (c.node_id ∷ []) (items c.peers) (ground arith) in
    let (rest, away) = fresh-cons c.node_id [] (ids (items c.peers)) fresh in
    record {
      node_id = ground (arith, is_empty_iff c.node_id);
      bind_addr = ground (arith, is_empty_iff c.bind_addr);
      advertise_addr = ground (arith, is_empty_iff c.advertise_addr);
      data_dir = ground (arith, is_empty_iff c.data_dir);
      forward_timeout = ground arith;
      assignment_ttl = ground arith;
      peers = fields;
      distinct = (away, distinct);
    }

All-NotIn_nil : (xs : List Str) → All (NotIn []) xs
All-NotIn_nil [] = tt
All-NotIn_nil (x ∷ xs) = (λ m. m, All-NotIn_nil xs)

cluster_complete :
    (c : ClusterConfig) → (c.enabled ≡ true → IsValidCluster c) → validate_cluster c ≡ ok tt
unfolding validate_cluster
cluster_complete c v = elim (Bool-cases c.enabled) [
  | inr off ↦ rw off
  | inl on ↦
      let w = v on in
      let peers =
        peers_complete (c.node_id ∷ []) (items c.peers) w.peers
          (cons-fresh c.node_id [] (ids (items c.peers)) (All-NotIn_nil (ids (items c.peers)))
            (w.distinct.0))
          (w.distinct.1) in
      ground (
        arith,
        peers,
        w.node_id,
        w.bind_addr,
        w.advertise_addr,
        w.data_dir,
        w.forward_timeout,
        w.assignment_ttl,
        is_empty_iff c.node_id,
        is_empty_iff c.bind_addr,
        is_empty_iff c.advertise_addr,
        is_empty_iff c.data_dir,
      )
]

-- The URL of a redirect is absolute, and uses HTTPS unless the file allows otherwise.
abbrev pub IsRedirect : AuthConfig → Option Url → Type 0
IsRedirect a none = ⊥
IsRedirect a (some u) =
    (u.scheme ≢ []) × (u.host ≢ []) × ((u.scheme ≡ https) ⊎ (a.allow_insecure_redirect ≡ true))

IsRedirect-iff :
    (a : AuthConfig) (u : Option Url) → (validate_redirect a u ≡ ok tt) ↔ IsRedirect a u
unfolding validate_redirect
IsRedirect-iff a none = ground arith
IsRedirect-iff a (some u) =
    ground (arith, is_empty_iff u.scheme, is_empty_iff u.host, str_eq_iff u.scheme https)

routes_iff :
    (mode : Str) (rs : List RouteConfig)
    → (validate_routes mode rs ≡ ok tt) ↔ All (λ r. r.require_auth ≡ true → mode ≢ disabled) rs
unfolding validate_routes
routes_iff mode [] = ground arith
routes_iff mode (r ∷ rs) = (
  λ h. (ground (arith, str_eq_iff mode disabled), (routes_iff mode rs).0 (ground arith)),
  λ (k, ks). ground (arith, (routes_iff mode rs).1 ks, str_eq_iff mode disabled, k),
)

pub record IsValidLimits (l : LimitsConfig) : Type 0 where
  pub max_connections : 1 ≤ pos_part l.max_connections
  pub max_in_flight : 1 ≤ pos_part l.max_in_flight
  pub max_header_bytes : 1024 ≤ pos_part l.max_header_bytes
  pub max_body_bytes : 1 ≤ pos_part l.max_body_bytes

limits_sound : (l : LimitsConfig) → validate_limits l ≡ ok tt → IsValidLimits l
unfolding validate_limits
limits_sound l h = ground arith

limits_complete : (l : LimitsConfig) → IsValidLimits l → validate_limits l ≡ ok tt
unfolding validate_limits
limits_complete l v = ground arith

absolute : (s : Str) → is_absolute s ≡ true → (rest : Str) × (s ≡ b'/' ∷ rest)
absolute [] h = cc
absolute (c ∷ s) h = (s, ground arith)

module _ (url_parse : Str → Option Url) where
  pub record IsValidAuth (a : AuthConfig) : Type 0 where
    pub mode : (a.mode ≡ disabled) ⊎ (a.mode ≡ oidc) ⊎ (a.mode ≡ bearer)
    pub client : (a.mode ≡ oidc) ⊎ (a.mode ≡ bearer) → (a.issuer_url ≢ []) × (a.client_id ≢ [])
    pub files :
        a.mode ≡ oidc
        → (a.redirect_url ≢ []) × (a.client_secret_file ≢ []) × (a.session_secret_file ≢ [])
    pub redirect : a.mode ≡ oidc → IsRedirect a (url_parse a.redirect_url)

  auth_sound : (a : AuthConfig) → validate_auth url_parse a ≡ ok tt → IsValidAuth a
  unfolding validate_auth
  auth_sound a h = record {
    mode =
        ground
          (arith, str_eq_iff a.mode disabled, str_eq_iff a.mode oidc, str_eq_iff a.mode bearer);
    client = λ m. ground (
      arith,
      str_eq_iff a.mode oidc,
      str_eq_iff a.mode bearer,
      is_empty_iff a.issuer_url,
      is_empty_iff a.client_id,
    );
    files = λ m. ground (
      arith,
      str_eq_iff a.mode oidc,
      is_empty_iff a.redirect_url,
      is_empty_iff a.client_secret_file,
      is_empty_iff a.session_secret_file,
    );
    redirect = λ m.
        (IsRedirect-iff a (url_parse a.redirect_url)).0 (ground (arith, str_eq_iff a.mode oidc));
  }

  auth_complete : (a : AuthConfig) → IsValidAuth a → validate_auth url_parse a ≡ ok tt
  unfolding validate_auth
  auth_complete a v = elim (Bool-cases (str_eq a.mode oidc)) [
    | inl is_oidc ↦
        let m = (str_eq_iff a.mode oidc).0 is_oidc in
        let redirect = (IsRedirect-iff a (url_parse a.redirect_url)).1 (v.redirect m) in
        ground (
          arith,
          v.files m,
          v.client (inl m),
          redirect,
          is_empty_iff a.issuer_url,
          is_empty_iff a.client_id,
          is_empty_iff a.redirect_url,
          is_empty_iff a.client_secret_file,
          is_empty_iff a.session_secret_file,
        )
    | inr not_oidc ↦ ground (
      arith,
      str_eq_iff a.mode disabled,
      str_eq_iff a.mode oidc,
      str_eq_iff a.mode bearer,
      v.client,
      v.mode,
      is_empty_iff a.issuer_url,
      is_empty_iff a.client_id,
    )
  ]

  pub record IsValid (c : Config) : Type 0 where
    pub public_addr : c.server.public_addr ≢ []
    pub admin_addr : c.server.admin_addr ≢ []
    pub tls : (c.server.tls_cert_file ≡ []) ↔ (c.server.tls_key_file ≡ [])
    pub cluster : c.cluster.enabled ≡ true → IsValidCluster c.cluster
    pub openapi_path : (rest : Str) × (c.control_plane.openapi_path ≡ b'/' ∷ rest)
    pub auth : IsValidAuth c.auth
    pub routes : All (λ r. r.require_auth ≡ true → c.auth.mode ≢ disabled) c.routes
    pub limits : IsValidLimits c.limits

  validate_sound : (c : Config) → validate url_parse c ≡ ok tt → IsValid c
  unfolding validate
  validate_sound c h = record {
    public_addr = ground (arith, is_empty_iff c.server.public_addr);
    admin_addr = ground (arith, is_empty_iff c.server.admin_addr);
    tls = ground (arith, is_empty_iff c.server.tls_cert_file, is_empty_iff c.server.tls_key_file);
    cluster = cluster_sound c.cluster (ground arith);
    openapi_path = absolute c.control_plane.openapi_path (ground arith);
    auth = auth_sound c.auth (ground arith);
    routes = (routes_iff c.auth.mode c.routes).0 (ground arith);
    limits = limits_sound c.limits (ground arith);
  }

  validate_complete : (c : Config) → IsValid c → validate url_parse c ≡ ok tt
  unfolding validate
  validate_complete c v =
      let path = v.openapi_path.1 in
      ground (
        arith,
        v.public_addr,
        v.admin_addr,
        v.tls,
        path,
        cluster_complete c.cluster v.cluster,
        auth_complete c.auth v.auth,
        (routes_iff c.auth.mode c.routes).1 v.routes,
        limits_complete c.limits v.limits,
        is_empty_iff c.server.public_addr,
        is_empty_iff c.server.admin_addr,
        is_empty_iff c.server.tls_cert_file,
        is_empty_iff c.server.tls_key_file,
      )

  -- `Validate` accepts a configuration exactly when it satisfies every condition of `IsValid`.
  pub validate_iff : (c : Config) → (validate url_parse c ≡ ok tt) ↔ IsValid c
  validate_iff c = (validate_sound c, validate_complete c)
