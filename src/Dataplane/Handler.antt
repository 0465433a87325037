-- ===== src/Dataplane/Handler.antt =====
-- `Handler` of internal/dataplane/server.go, up to the call of the proxy. `in_flight` is the number of
-- the slots of `maxInFlight` that are taken.
pub mod Admission
pub mod Configured
pub mod Counted
use go_serve.Common.{
  ℕ, ◌<◌, ◌≡◌, refl, sym, ap, ◌∙◌, inl, inr, Bool, true, false, Option, none, some, List, arith,
  if◌then◌else◌, ltb, Str, Bool-cases, Option-cases,
}
use go_serve.Common.Dict.{str_Eq, lookup}
use go_serve.Dataplane.Routing.{CompiledRoute, match}
use go_serve.Dataplane.Pool.{UpstreamPool, has_healthy_endpoint}
use go_serve.Dataplane.Compile.{RuntimeState}
use go_serve.Dataplane.Headers.{
  Header, is_trusted, is_protected, strip_trusted_headers, apply_route_headers,
  lookup-strip_trusted_headers, lookup-apply_route_headers,
}

pub record Incoming : Type 0 where
  pub host : Str
  pub method : Str
  pub path : Str
  pub headers : Header

-- `refused` is the answer that the authorizer wrote.
pub data Answer : Type 0 where
  unavailable busy method_not_allowed not_found unconfigured refused upstream_unavailable : Answer
  forwarded : CompiledRoute → Header → Answer

-- The answer, the calls of `AddRejection`, and what `SetRoute` recorded.
pub record Handled : Type 0 where
  pub answer : Answer
  pub rejections : ℕ
  pub signal : Option (Str × Str)

abbrev pub turn_away : Option (Str × Str) → Answer → Handled
turn_away signal answer = record { answer = answer; rejections = 1; signal = signal }

module _ {A : Type 0} (canonical_header_key : Str → Str)
    (authorize : A → Header → List Str → Bool × Header) where
  -- From the check of the endpoints on.
  -- The headers are those with which the proxy is called; it removes some before it sends them.
  unfoldable pub forward : RuntimeState A → CompiledRoute → Header → Handled
  forward state route headers =
      let signal = some (route.name, route.upstream) in
      elim (lookup route.upstream state.pools) [
        | none ↦ turn_away signal upstream_unavailable
        | some pool ↦
            if has_healthy_endpoint pool
            then (record {
              answer =
                  forwarded route (apply_route_headers canonical_header_key headers route.headers);
              rejections = 0;
              signal = signal;
            })
            else turn_away signal upstream_unavailable
      ]

  abbrev pub admit_if : RuntimeState A → CompiledRoute → Bool × Header → Handled
  admit_if state route (permitted, headers) =
      if permitted
      then forward state route headers
      else turn_away (some (route.name, route.upstream)) refused

  unfoldable pub serve_route : RuntimeState A → CompiledRoute → Header → Handled
  unfolding forward
  serve_route state route headers =
      if route.require_auth
      then (elim state.authorizer [
        | none ↦ turn_away (some (route.name, route.upstream)) unconfigured
        | some a ↦ admit_if state route (authorize a headers route.scopes)
      ])
      else forward state route headers

  abbrev pub route_or_refuse : RuntimeState A → Header → Option CompiledRoute × Bool → Handled
  route_or_refuse state headers (none, method_allowed) =
      turn_away none (if method_allowed then method_not_allowed else not_found)
  route_or_refuse state headers (some route, method_allowed) = serve_route state route headers

  unfoldable pub handle : Option (RuntimeState A) → ℕ → Incoming → Handled
  unfolding serve_route
  handle none in_flight request = turn_away none unavailable
  handle (some state) in_flight request =
      if ltb in_flight state.max_in_flight
      then route_or_refuse state (strip_trusted_headers request.headers)
          (match state.routes request.host request.method request.path)
      else turn_away none busy
