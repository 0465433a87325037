-- ===== src/Dataplane/Handler/Counted.antt =====
-- What the handler records of each request.
use go_serve.Common.{
  ℕ, ◌≡◌, ◌⊎◌, refl, inl, inr, Bool, true, false, Option, none, some, List, Str, ltb, Bool-cases,
  Option-cases,
}
use go_serve.Common.Dict.{str_Eq, lookup}
use go_serve.Dataplane.Routing.{CompiledRoute, match}
use go_serve.Dataplane.Pool.{has_healthy_endpoint}
use go_serve.Dataplane.Compile.{RuntimeState}
use go_serve.Dataplane.Headers.{Header, strip_trusted_headers, apply_route_headers}
use go_serve.Dataplane.Handler.{
  Incoming, Handled, forwarded, forward, admit_if, serve_route, route_or_refuse, handle,
}

-- A request is forwarded under its route's name and upstream, or it is turned away once.
abbrev pub IsCounted : Handled → Type 0
IsCounted h =
    ((route : CompiledRoute) × (out : Header) × (h.answer ≡ forwarded route out)
      × (h.rejections ≡ 0)
      × (h.signal ≡ some (route.name, route.upstream)))
    ⊎ (((route : CompiledRoute) (out : Header) → ¬ (h.answer ≡ forwarded route out))
        × (h.rejections ≡ 1))

module _ {A : Type 0} (canonical_header_key : Str → Str)
    (authorize : A → Header → List Str → Bool × Header) where
  forward-IsCounted :
      (state : RuntimeState A) (route : CompiledRoute) (h : Header)
      → IsCounted (forward canonical_header_key authorize state route h)
  unfolding forward
  forward-IsCounted state route h = elim (Option-cases (lookup route.upstream state.pools)) [
    | inl p ↦ rw (p, forward) (inr (λ r o e. cc, refl))
    | inr (pool, p) ↦ elim (Bool-cases (has_healthy_endpoint pool)) [
      | inl b ↦
          rw (p, b, forward)
            (inl
              (route, apply_route_headers canonical_header_key h route.headers, refl, refl, refl))
      | inr b ↦ rw (p, b, forward) (inr (λ r o e. cc, refl))
    ]
  ]

  admit-IsCounted :
      (state : RuntimeState A) (route : CompiledRoute) (q : Bool × Header)
      → IsCounted (admit_if canonical_header_key authorize state route q)
  admit-IsCounted state route (true, h) = forward-IsCounted state route h
  admit-IsCounted state route (false, h) = inr (λ r o e. cc, refl)

  serve-IsCounted :
      (state : RuntimeState A) (route : CompiledRoute) (h : Header)
      → IsCounted (serve_route canonical_header_key authorize state route h)
  unfolding serve_route
  serve-IsCounted state route h = elim (Bool-cases route.require_auth) [
    | inr free ↦ simp (free, serve_route) (forward-IsCounted state route h)
    | inl auth ↦ elim (Option-cases state.authorizer) [
      | inl missing ↦ simp (auth, missing, serve_route) (inr (λ r o e. cc, refl))
      | inr (a, has) ↦
          simp (auth, has, serve_route) (admit-IsCounted state route (authorize a h route.scopes))
    ]
  ]

  route-IsCounted :
      (state : RuntimeState A) (h : Header) (q : Option CompiledRoute × Bool)
      → IsCounted (route_or_refuse canonical_header_key authorize state h q)
  route-IsCounted state h (none, true) = inr (λ r o e. cc, refl)
  route-IsCounted state h (none, false) = inr (λ r o e. cc, refl)
  route-IsCounted state h (some route, allowed) = serve-IsCounted state route h

  -- Every request is forwarded under its route's name and upstream, with no rejection, or is turned away
  -- with exactly one.
  pub handle-IsCounted :
      (runtime : Option (RuntimeState A)) (in_flight : ℕ) (request : Incoming)
      → IsCounted (handle canonical_header_key authorize runtime in_flight request)
  unfolding handle
  handle-IsCounted none in_flight request = inr (λ r o e. cc, refl)
  handle-IsCounted (some state) in_flight request =
      elim (Bool-cases (ltb in_flight state.max_in_flight)) [
        | inr full ↦ rw (full, handle) (inr (λ r o e. cc, refl))
        | inl free ↦
            rw (free, handle)
              (route-IsCounted state (strip_trusted_headers request.headers)
                (match state.routes request.host request.method request.path))
      ]
