-- ===== src/Dataplane/Compile/Guarded.antt =====
-- The routes of a compiled configuration that ask for an authorizer.
use go_serve.Common.{
  ◌≡◌, ◌≢◌, inl, inr, Bool, true, Option, none, List, [], ◌∷◌, ◌++◌, Str, ok, >>=-eq-ok,
  ok_injective, All, Option-cases,
}
use go_serve.Common.Dict.{str_Eq, lookup}
use go_serve.Config.{Config, RouteConfig, Url}
use go_serve.Config.Validate.{disabled, validate}
use go_serve.Dataplane.Routing.{CompiledRoute}
use go_serve.Dataplane.Compile.{
  Pools, compile_route, compile_routes, compile_upstreams, RuntimeState, lift_error, compile,
}
use go_serve.Dataplane.Compile.Servable.{compile-IsServable}

-- What holds of each route's `require_auth` holds after the compilation.
compile_routes_auth :
    (P : Bool → Type 0) (pools : Pools) (rs : List RouteConfig) (routes : List CompiledRoute)
    → compile_routes pools rs ≡ ok routes
    → All (λ r. P r.require_auth) rs
    → All (λ r. P r.require_auth) routes
unfolding compile_routes compile_route
compile_routes_auth P pools [] routes h a = rw (← ok_injective h) tt
compile_routes_auth P pools (r ∷ rs) routes h (p, a) =
    elim (Option-cases (lookup r.upstream pools)) [
      | inl e ↦ absurd (cc (rw (e, compile_routes) at h))
      | inr (pool, e) ↦
          let (rest, compiled, same) =
            >>=-eq-ok (compile_routes pools rs) _ (rw (e, compile_routes) at h) in
          let built : compile_route r ∷ rest ≡ routes = ok_injective same in
          rw (← built) (p, compile_routes_auth P pools rs rest compiled a)
    ]

-- A runtime state whose routes ask for an authorizer only where it has one.
abbrev pub IsGuarded : {A : Type 0} → RuntimeState A → Type 0
IsGuarded state = All (λ r. r.require_auth ≡ true → state.authorizer ≢ none) state.routes

All-imp :
    {A : Type 0} {P Q : A → Type 0} (xs : List A) → ((x : A) → P x → Q x) → All P xs → All Q xs
All-imp [] f a = tt
All-imp (x ∷ xs) f (p, a) = (f x p, All-imp xs f a)

pub All-middle :
    {A : Type 0} (P : A → Type 0) (before after : List A) (x : A)
    → All P (before ++ x ∷ after)
    → P x
All-middle P [] after x (p, a) = p
All-middle P (y ∷ before) after x (p, a) = All-middle P before after x a

-- What compiles with an authorizer, or in the mode `disabled`, is guarded.
pub compile-IsGuarded :
    {A : Type 0} (url_parse : Str → Option Url) (cfg : Config) (authorizer : Option A)
    (state : RuntimeState A)
    → compile url_parse cfg authorizer ≡ ok state
    → (authorizer ≡ none → cfg.auth.mode ≡ disabled)
    → IsGuarded state
unfolding compile
compile-IsGuarded url_parse cfg authorizer state h off =
    let (valid, servable, copied, is) = compile-IsServable url_parse cfg authorizer state h in
    let (u, checked, h₁) = >>=-eq-ok (lift_error url_parse (validate url_parse cfg)) _ h in
    let (pools, upstreams, h₂) = >>=-eq-ok (compile_upstreams url_parse [] cfg.upstreams) _ h₁ in
    let (routes, compiled, h₃) = >>=-eq-ok (compile_routes pools cfg.routes) _ h₂ in
    let built = ok_injective h₃ in
    let has =
      All-imp {Q = λ r. r.require_auth ≡ true → authorizer ≢ none} cfg.routes
        (λ r needs e n. needs e (off n)) valid.routes in
    rw (← built)
      (compile_routes_auth (λ b. b ≡ true → authorizer ≢ none) pools cfg.routes routes compiled has)
