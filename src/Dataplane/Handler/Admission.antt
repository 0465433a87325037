-- ===== src/Dataplane/Handler/Admission.antt =====
-- Which requests the handler forwards, and with which headers.
use go_serve.Common.{
  ℕ, ◌<◌, ◌≡◌, ◌⊎◌, refl, ap, ◌∙◌, inl, inr, Bool, true, false, Option, none, some, List, arith,
  ltb, Str, Bool-cases, Option-cases,
}
use go_serve.Common.Dict.{str_Eq, lookup}
use go_serve.Dataplane.Routing.{CompiledRoute, match}
use go_serve.Dataplane.Pool.{UpstreamPool, has_healthy_endpoint}
use go_serve.Dataplane.Compile.{RuntimeState}
use go_serve.Dataplane.Headers.{
  Header, is_trusted, is_protected, strip_trusted_headers, apply_route_headers,
  lookup-strip_trusted_headers, lookup-apply_route_headers,
}
use go_serve.Dataplane.Handler.{
  Incoming, forwarded, forward, admit_if, serve_route, route_or_refuse, handle,
}

module _ {A : Type 0} (canonical_header_key : Str → Str)
    (authorize : A → Header → List Str → Bool × Header) where
  -- The route needs no authentication, or the authorizer lets the request pass, with new headers.
  pub data Granted (state : RuntimeState A) (route : CompiledRoute) (h : Header)
      : Header → Type 0 where
    open_route : route.require_auth ≡ false → Granted state route h h
    authorized :
        (a : A) (g : Header)
        → route.require_auth ≡ true
        → state.authorizer ≡ some a
        → authorize a h route.scopes ≡ (true, g)
        → Granted state route h g

  -- What the request that a route forwards is.
  pub record IsForwarded (state : RuntimeState A) (route : CompiledRoute) (h out : Header)
      : Type 0 where
    pub granted_headers : Header
    pub granted : Granted state route h granted_headers
    pub pool : UpstreamPool
    pub has_pool : lookup route.upstream state.pools ≡ some pool
    pub healthy : has_healthy_endpoint pool ≡ true
    pub headers : out ≡ apply_route_headers canonical_header_key granted_headers route.headers

  forward_sound :
      (state : RuntimeState A) (route r : CompiledRoute) (h g out : Header)
      → Granted state route h g
      → (forward canonical_header_key authorize state route g).answer ≡ forwarded r out
      → (r ≡ route) × IsForwarded state route h out
  unfolding forward
  forward_sound state route r h g out granted e =
      elim (Option-cases (lookup route.upstream state.pools)) [
        | inl p ↦ absurd (cc (rw (p, forward) at e))
        | inr (pool, p) ↦ elim (Bool-cases (has_healthy_endpoint pool)) [
          | inr b ↦ absurd (cc (rw (p, b, forward) at e))
          | inl b ↦
              let same : forwarded route (apply_route_headers canonical_header_key g route.headers)
                  ≡ forwarded r out =
                rw (p, b, forward) at e in
              (
                cc,
                record {
                  granted_headers = g;
                  granted = granted;
                  pool = pool;
                  has_pool = p;
                  healthy = b;
                  headers = cc;
                },
              )
        ]
      ]

  admit_sound :
      (state : RuntimeState A) (route r : CompiledRoute) (h out : Header) (a : A)
      (q : Bool × Header)
      → route.require_auth ≡ true
      → state.authorizer ≡ some a
      → authorize a h route.scopes ≡ q
      → (admit_if canonical_header_key authorize state route q).answer ≡ forwarded r out
      → (r ≡ route) × IsForwarded state route h out
  admit_sound state route r h out a (true, g) auth has answer e =
      forward_sound state route r h g out (authorized a g auth has answer) e
  admit_sound state route r h out a (false, g) auth has answer e = absurd (cc)

  serve_sound :
      (state : RuntimeState A) (route r : CompiledRoute) (h out : Header)
      → (serve_route canonical_header_key authorize state route h).answer ≡ forwarded r out
      → (r ≡ route) × IsForwarded state route h out
  unfolding serve_route
  serve_sound state route r h out e = elim (Bool-cases route.require_auth) [
    | inr auth ↦
        forward_sound state route r h h out (open_route auth) (simp (auth, serve_route) at e)
    | inl auth ↦ elim (Option-cases state.authorizer) [
      | inl has ↦ absurd (cc (simp (auth, has, serve_route) at e))
      | inr (a, has) ↦
          admit_sound state route r h out a (authorize a h route.scopes) auth has refl
            (simp (auth, has, serve_route) at e)
    ]
  ]

  route_sound :
      (state : RuntimeState A) (r : CompiledRoute) (h out : Header)
      (q : Option CompiledRoute × Bool)
      → (route_or_refuse canonical_header_key authorize state h q).answer ≡ forwarded r out
      → (q.0 ≡ some r) × IsForwarded state r h out
  route_sound state r h out (none, true) e = absurd (cc)
  route_sound state r h out (none, false) e = absurd (cc)
  route_sound state r h out (some route, allowed) e =
      let (same, is) = serve_sound state route r h out e in (rw same refl, rw same is)

  -- A request is forwarded only by a runtime state with a free slot, on the route that `match`
  -- chooses for its host, method and path, with the authorizer's leave where the route requires
  -- authentication, and to a pool that has a healthy endpoint.
  pub handle_forwards :
      (runtime : Option (RuntimeState A)) (in_flight : ℕ) (request : Incoming)
      (route : CompiledRoute) (out : Header)
      → (handle canonical_header_key authorize runtime in_flight request).answer
        ≡ forwarded route out
      → (state : RuntimeState A) × (runtime ≡ some state)
        × (in_flight < state.max_in_flight)
        × ((match state.routes request.host request.method request.path).0 ≡ some route)
        × IsForwarded state route (strip_trusted_headers request.headers) out
  unfolding handle
  handle_forwards none in_flight request route out e = absurd (cc)
  handle_forwards (some state) in_flight request route out e =
      elim (Bool-cases (ltb in_flight state.max_in_flight)) [
        | inr full ↦ absurd (cc (rw (full, handle) at e))
        | inl free ↦
            let (chosen, is) =
              route_sound state route (strip_trusted_headers request.headers) out
                (match state.routes request.host request.method request.path)
                (rw (free, handle) at e) in
            (state, refl, ground arith, chosen, is)
      ]

  protected : (t : Str) → is_trusted t ≡ true → is_protected t ≡ true
  protected t h = rw h refl

  -- A forwarded request has a trusted name only with the values that the authorizer gave it: on a
  -- route that needs no authentication it has none, whatever the client sent and whatever headers
  -- the route sets.
  pub handle_trusted :
      (runtime : Option (RuntimeState A)) (in_flight : ℕ) (request : Incoming)
      (route : CompiledRoute) (out : Header) (t : Str)
      → is_trusted t ≡ true
      → (handle canonical_header_key authorize runtime in_flight request).answer
        ≡ forwarded route out
      → ((route.require_auth ≡ false) × (lookup t out ≡ none))
        ⊎ ((route.require_auth ≡ true)
            × ((a : A) × (g : Header) × (authorize a
                    (strip_trusted_headers request.headers)
                    route.scopes
                  ≡ (true, g))
                × (lookup t out ≡ lookup t g)))
  handle_trusted runtime in_flight request route out t trusted e =
      let (state, known, free, chosen, is) =
        handle_forwards runtime in_flight request route out e in
      let kept =
        lookup-apply_route_headers canonical_header_key t is.granted_headers route.headers
          (protected t trusted) in
      let found = ap (lookup t) is.headers ∙ kept in from is.granted_headers is.granted found
    where
      from :
          {state : RuntimeState A} (g : Header)
          → Granted state route (strip_trusted_headers request.headers) g
          → lookup t out ≡ lookup t g
          → ((route.require_auth ≡ false) × (lookup t out ≡ none))
            ⊎ ((route.require_auth ≡ true)
                × ((a : A) × (g' : Header) × (authorize a
                        (strip_trusted_headers request.headers)
                        route.scopes
                      ≡ (true, g'))
                    × (lookup t out ≡ lookup t g')))
      from _ (open_route no_auth) found =
          inl (no_auth, found ∙ lookup-strip_trusted_headers t request.headers trusted)
      from _ (authorized a g auth has answer) found = inr (auth, (a, g, answer, found))
