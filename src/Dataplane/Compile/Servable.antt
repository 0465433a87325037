-- ===== src/Dataplane/Compile/Servable.antt =====
-- What a compiled configuration is good for.
use go_serve.Common.{
  ℕ, zero, suc, ◌*◌, ◌^◌, ◌<◌, ◌≡◌, refl, inl, inr, true, Option, none, some, List, [], ◌∷◌, arith,
  ℤ, pos_part, neg_part, Str, str_eq, is_empty, Result, ok, err, ◌>>=◌, >>=-eq-ok, ok_injective,
  Result-cases, ◌||◌, ◌++◌, ◌⊎◌, is_some, length, replicate, length-replicate, All, Bool-cases,
  Option-cases,
}
use go_serve.Common.Dict.{str_Eq, lookup, insert}
use go_serve.Config.{Config, RouteConfig, UpstreamConfig, Url}
use go_serve.Config.Validate.{second}
use go_serve.Config.Valid.{IsValid, validate_iff}
use go_serve.Config.Clone.{clone}
use go_serve.Dataplane.Breaker.{new_breaker}
use go_serve.Dataplane.Breaker.Laws as BreakerLaws
use go_serve.Dataplane.Routing.{CompiledRoute}
use go_serve.Dataplane.Pool.{UpstreamPool}
use go_serve.Dataplane.Pool.Sized.{IsSized}
use go_serve.Dataplane.Compile
use go_serve.Dataplane.Compile.{
  CompileError, Pools, or_default, new_pool, compile_route, compile_routes, RuntimeState, Server,
  parse_endpoints, compile_upstream, compile_upstreams, lift_error, compile,
  reconfigure_with_authorizer, reconfigure, previous_state,
}

-- More failures than a server records in 200 years of one each nanosecond.
abbrev pub lifetime : ℕ
lifetime = 2 ^ 62

-- A pool that can serve: there is an endpoint, each endpoint has its flag and its breaker, and the
-- breakers and the number of retries are in range.
pub record IsReady (pool : UpstreamPool) : Type 0 where
  pub sized : IsSized pool
  pub breakers : All (BreakerLaws.IsValid lifetime) pool.breakers
  pub retries : neg_part pool.retry_attempts ≡ 0
  pub timeout : 0 < pos_part pool.request_timeout

pub record IsServable {A : Type 0} (state : RuntimeState A) : Type 0 where
  pub pools : All (λ p. IsReady p.1) state.pools
  pub routes : All (λ r. is_some (lookup r.upstream state.pools) ≡ true) state.routes
  pub capacity : 0 < state.max_in_flight

or_default_pos :
    (d : ℤ) (k : ℕ) → 0 < k → (0 < pos_part (or_default d k)) × (neg_part (or_default d k) ≡ 0)
or_default_pos d k h = ground arith

breaker-IsValid :
    (t c : ℤ)
    → 0 < pos_part t
    → neg_part t ≡ 0
    → 0 < pos_part c
    → neg_part c ≡ 0
    → BreakerLaws.IsValid lifetime (new_breaker t c)
unfolding new_breaker
breaker-IsValid t c a b d e = ground arith

All-replicate : {A : Type 0} (P : A → Type 0) (n : ℕ) (a : A) → P a → All P (replicate n a)
All-replicate P zero a h = tt
All-replicate P (suc n) a h = (h, All-replicate P n a h)

new_pool-IsReady : (u : UpstreamConfig) (es : List Url) → 0 < length es → IsReady (new_pool u es)
unfolding new_pool
new_pool-IsReady u es h =
    let (t, t') = or_default_pos u.circuit_breaker_threshold 5 (omega arith) in
    let (c, c') = or_default_pos u.circuit_breaker_cooldown (10 * second) (omega arith) in
    record {
      sized = record {
        some_endpoint = h;
        healthy = length-replicate (length es) true;
        breakers = length-replicate (length es) _;
      };
      breakers = All-replicate _ (length es) _ (breaker-IsValid _ _ t t' c c');
      retries = ground arith;
      timeout = (or_default_pos u.request_timeout (30 * second) (omega arith)).0;
    }

All-insert :
    (P : Str × UpstreamPool → Type 0) (k : Str) (v : UpstreamPool) (m : Pools)
    → P (k, v)
    → All P m
    → All P (insert k v m)
unfolding insert
All-insert P k v [] h a = (h, tt)
All-insert P k v ((j, w) ∷ m) h (b, a) = elim (Bool-cases (str_eq j k)) [
  | inl e ↦ rw e (h, a)
  | inr e ↦ rw e (b, All-insert P k v m h a)
]

routes_resolved :
    (pools : Pools) (rs : List RouteConfig) (routes : List CompiledRoute)
    → compile_routes pools rs ≡ ok routes
    → All (λ r. is_some (lookup r.upstream pools) ≡ true) routes
unfolding compile_routes
routes_resolved pools [] routes h = rw (← ok_injective h) tt
routes_resolved pools (r ∷ rs) routes h = elim (Option-cases (lookup r.upstream pools)) [
  | inl e ↦ absurd (cc (rw (e, compile_routes) at h))
  | inr (pool, e) ↦
      let (rest, compiled, same) = >>=-eq-ok _ _ (rw (e, compile_routes) at h) in
      let built : compile_route r ∷ rest ≡ routes = ok_injective same in
      rw (← built) (rw e refl, routes_resolved pools rs rest compiled)
]

module _ (url_parse : Str → Option Url) where
  parse_endpoints-length :
      (name raw : Str) (raws : List Str) (es : List Url)
      → parse_endpoints url_parse name (raw ∷ raws) ≡ ok es
      → 0 < length es
  unfolding parse_endpoints
  parse_endpoints-length name raw raws es h = elim (Option-cases (url_parse raw)) [
    | inl e ↦ absurd (cc (rw (e, parse_endpoints) at h))
    | inr (target, e) ↦ elim (Bool-cases (is_empty target.scheme || is_empty target.host)) [
      | inl bad ↦ absurd (cc (rw (e, bad, parse_endpoints) at h))
      | inr good ↦
          let (rest, parsed, same) =
            >>=-eq-ok (parse_endpoints url_parse name raws) (λ targets. ok (target ∷ targets))
              (rw (e, good, parse_endpoints) at h) in
          let built : target ∷ rest ≡ es = ok_injective same in rw (← built) (omega arith)
    ]
  ]

  abbrev AllReady : Pools → Type 0
  AllReady = All (λ p. IsReady p.1)

  upstream_ready :
      (pools : Pools) (u : UpstreamConfig) (pools' : Pools)
      → AllReady pools
      → compile_upstream url_parse pools u ≡ ok pools'
      → AllReady pools'
  unfolding compile_upstream
  upstream_ready pools u pools' a h = elim (Bool-cases (is_some (lookup u.name pools))) [
    | inl twice ↦ absurd (cc (rw (twice, compile_upstream) at h))
    | inr once ↦ add u.urls (rw (once, compile_upstream) at h)
  ]
    where
      add :
          (urls : List Str)
          → ◌≡◌ {A = Result CompileError Pools}
              (elim urls [
                | [] ↦ err (Compile.no_urls u.name)
                | raw ∷ raws ↦ do
                  endpoints ← parse_endpoints url_parse u.name (raw ∷ raws)
                  ok (insert u.name (new_pool u endpoints) pools)
              ])
              (ok pools')
          → AllReady pools'
      add [] e = cc
      add (raw ∷ raws) e =
          let (endpoints, parsed, same) = >>=-eq-ok _ _ e in
          let built : insert u.name (new_pool u endpoints) pools ≡ pools' = ok_injective same in
          rw (← built) (
            All-insert (λ p. IsReady p.1) u.name (new_pool u endpoints) pools
              (new_pool-IsReady u endpoints
                (parse_endpoints-length u.name raw raws endpoints parsed))
              a)

  upstreams_ready :
      (us : List UpstreamConfig) (pools pools' : Pools)
      → AllReady pools
      → compile_upstreams url_parse pools us ≡ ok pools'
      → AllReady pools'
  unfolding compile_upstreams
  upstreams_ready [] pools pools' a h = rw (← ok_injective h) a
  upstreams_ready (u ∷ us) pools pools' a h =
      let (next, one, others) = >>=-eq-ok _ _ h in
      upstreams_ready us next pools' (upstream_ready pools u next a one) others

  lift_ok : (r : Result _ (Unit {0})) → lift_error url_parse r ≡ ok tt → r ≡ ok tt
  lift_ok (ok u) h = refl
  lift_ok (err e) h = cc

  -- What compiles is valid and can serve: every route has its pool, every pool an endpoint, a flag and
  -- a valid breaker for each of its endpoints, and a request can be admitted.
  pub compile-IsServable :
      {A : Type 0} (cfg : Config) (authorizer : Option A) (state : RuntimeState A)
      → compile url_parse cfg authorizer ≡ ok state
      → IsValid url_parse cfg
        × IsServable state
        × (state.cfg ≡ clone cfg)
        × (state.authorizer ≡ authorizer)
  unfolding compile
  compile-IsServable cfg authorizer state h =
      let (u, valid, h₁) = >>=-eq-ok _ _ h in
      let (pools, upstreams, h₂) = >>=-eq-ok _ _ h₁ in
      let (routes, compiled, h₃) = >>=-eq-ok _ _ h₂ in
      let v = (validate_iff url_parse cfg).0 (lift_ok _ valid) in
      let built = ok_injective h₃ in
      (
        v,
        rw (← built) (record {
          pools = upstreams_ready cfg.upstreams [] pools tt upstreams;
          routes = routes_resolved pools cfg.routes routes compiled;
          capacity = v.limits.max_in_flight;
        }),
        rw (← built) refl,
        rw (← built) refl,
      )

  -- A configuration that is refused leaves the server as it was, and one that is accepted becomes its
  -- runtime state, which can serve, and cancels the state before.
  pub reconfigure_lem :
      {A : Type 0} (s : Server A) (cfg : Config) (authorizer : Option A)
      → ((e : CompileError) × (reconfigure_with_authorizer url_parse s cfg authorizer
            ≡ (s, some e)))
        ⊎ ((state : RuntimeState A) × (reconfigure_with_authorizer url_parse s cfg authorizer ≡ (
          record { runtime = some state; stopped = previous_state s.runtime ++ s.stopped },
          none,
        ))
            × IsServable state
            × (state.cfg ≡ clone cfg))
  unfolding reconfigure_with_authorizer
  reconfigure_lem s cfg authorizer = elim (Result-cases (compile url_parse cfg authorizer)) [
    | inl (e, h) ↦ inl (e, rw (h, reconfigure_with_authorizer))
    | inr (state, h) ↦
        let (valid, servable, copied, _) = compile-IsServable cfg authorizer state h in
        inr (state, rw (h, reconfigure_with_authorizer), servable, copied)
  ]
