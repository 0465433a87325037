-- ===== src/Dataplane/Handler/Configured.antt =====
-- A guarded runtime state has an answer to every request.
use go_serve.Common.{
  ℕ, ◌≡◌, ◌≢◌, refl, inl, inr, Bool, true, false, Option, none, some, List, Str, ltb, Bool-cases,
  Option-cases,
}
use go_serve.Common.Dict.{str_Eq, lookup}
use go_serve.Dataplane.Routing.{CompiledRoute, match}
use go_serve.Dataplane.Routing.Best.{match-IsBest}
use go_serve.Dataplane.Pool.{has_healthy_endpoint}
use go_serve.Dataplane.Compile.{RuntimeState}
use go_serve.Dataplane.Compile.Guarded.{IsGuarded, All-middle}
use go_serve.Dataplane.Headers.{Header, strip_trusted_headers}
use go_serve.Dataplane.Handler.{
  Incoming, Answer, unavailable, unconfigured, forward, admit_if, serve_route, route_or_refuse,
  handle,
}

-- The answers that do not tell of a missing configuration or authorizer.
abbrev pub IsConfigured : Answer → Type 0
IsConfigured a = (a ≢ unavailable) × (a ≢ unconfigured)

module _ {A : Type 0} (canonical_header_key : Str → Str)
    (authorize : A → Header → List Str → Bool × Header) where
  forward-IsConfigured :
      (state : RuntimeState A) (route : CompiledRoute) (h : Header)
      → IsConfigured (forward canonical_header_key authorize state route h).answer
  unfolding forward
  forward-IsConfigured state route h = elim (Option-cases (lookup route.upstream state.pools)) [
    | inl p ↦ rw (p, forward) (λ e. cc, λ e. cc)
    | inr (pool, p) ↦ elim (Bool-cases (has_healthy_endpoint pool)) [
      | inl b ↦ rw (p, b, forward) (λ e. cc, λ e. cc)
      | inr b ↦ rw (p, b, forward) (λ e. cc, λ e. cc)
    ]
  ]

  admit-IsConfigured :
      (state : RuntimeState A) (route : CompiledRoute) (q : Bool × Header)
      → IsConfigured (admit_if canonical_header_key authorize state route q).answer
  admit-IsConfigured state route (true, h) = forward-IsConfigured state route h
  admit-IsConfigured state route (false, h) = (λ e. cc, λ e. cc)

  serve-IsConfigured :
      (state : RuntimeState A) (route : CompiledRoute) (h : Header)
      → (route.require_auth ≡ true → state.authorizer ≢ none)
      → IsConfigured (serve_route canonical_header_key authorize state route h).answer
  unfolding serve_route
  serve-IsConfigured state route h guarded = elim (Bool-cases route.require_auth) [
    | inr free ↦ simp (free, serve_route) (forward-IsConfigured state route h)
    | inl auth ↦ elim (Option-cases state.authorizer) [
      | inl missing ↦ absurd (guarded auth missing)
      | inr (a, has) ↦
          simp (auth, has, serve_route)
            (admit-IsConfigured state route (authorize a h route.scopes))
    ]
  ]

  route-IsConfigured :
      (state : RuntimeState A) (h : Header) (q : Option CompiledRoute × Bool)
      → ((route : CompiledRoute)
          → q.0 ≡ some route
          → route.require_auth ≡ true
          → state.authorizer ≢ none)
      → IsConfigured (route_or_refuse canonical_header_key authorize state h q).answer
  route-IsConfigured state h (none, true) guarded = (λ e. cc, λ e. cc)
  route-IsConfigured state h (none, false) guarded = (λ e. cc, λ e. cc)
  route-IsConfigured state h (some route, allowed) guarded =
      serve-IsConfigured state route h (guarded route refl)

  -- A guarded runtime state answers no request with a missing configuration or a missing authorizer.
  pub handle-IsConfigured :
      (state : RuntimeState A) (in_flight : ℕ) (request : Incoming)
      → IsGuarded state
      → IsConfigured (handle canonical_header_key authorize (some state) in_flight request).answer
  unfolding handle
  handle-IsConfigured state in_flight request guarded =
      elim (Bool-cases (ltb in_flight state.max_in_flight)) [
        | inr full ↦ rw (full, handle) (λ e. cc, λ e. cc)
        | inl free ↦
            rw (free, handle)
              (route-IsConfigured state (strip_trusted_headers request.headers)
                (match state.routes request.host request.method request.path) chosen)
      ]
    where
      chosen :
          (route : CompiledRoute)
          → (match state.routes request.host request.method request.path).0 ≡ some route
          → route.require_auth ≡ true
          → state.authorizer ≢ none
      chosen route h =
          let best = match-IsBest state.routes request.host request.method request.path route h in
          All-middle (λ r. r.require_auth ≡ true → state.authorizer ≢ none) best.before best.after
            route (rw best.split at guarded)
