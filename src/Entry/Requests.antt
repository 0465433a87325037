-- ===== src/Entry/Requests.antt =====
-- The public listener of a reachable program: `dataPlane.Handler()` with the authorizer that `main`
-- gives the manager.
use go_serve.Common.{
  ℕ, ◌<◌, ◌≡◌, ◌≢◌, refl, sym, ap, ◌∙◌, Bool, true, false, Option, none, some, List, [], ◌∷◌, Str,
  bytes, str_eq, is_empty, All, inl, inr, if◌then◌else◌, Bool-cases,
}
use go_serve.Common.Dict.{str_Eq, lookup}
use go_serve.Config.Validate.{contains}
use go_serve.Auth.{Claims, Authorized, failure, forbidden, permitted, authenticate, authorize}
use go_serve.Auth.Protect.{Identities}
use go_serve.Auth.Creation.{Middleware}
use go_serve.Auth.Granting.{authorize_sound}
use go_serve.Dataplane.Headers.{
  Header, scopes, is_protected, strip_trusted_headers, lookup-apply_route_headers,
}
use go_serve.Dataplane.Routing.{CompiledRoute}
use go_serve.Dataplane.Compile.{RuntimeState}
use go_serve.Dataplane.Compile.Servable.{IsServable, compile-IsServable}
use go_serve.Dataplane.Compile.Guarded.{compile-IsGuarded}
use go_serve.Dataplane.Handler.{Incoming, unavailable, unconfigured, Handled, forwarded, handle}
use go_serve.Dataplane.Handler.Admission.{Granted, open_route, authorized, handle_forwards}
use go_serve.Dataplane.Handler.Configured.{handle-IsConfigured}
use go_serve.Entry.{World}
use go_serve.Entry.System.{System, Reachable}
use go_serve.Entry.Guarded.{Reachable-IsGuarded}

-- `Header.Get` of a canonical name
abbrev pub header_get : Str → Header → Str
header_get key headers = elim (lookup key headers) [
  | none ↦ []
  | some values ↦ elim values [ [] ↦ [] | v ∷ vs ↦ v ]
]

abbrev pub identify : Identities → ℕ → Middleware → Header → Option Claims
identify i now m headers =
    authenticate (i.open_cookie m.cookie_key) i.verifier m.mode (i.cookie_of m.cookie_name headers)
      (header_get (bytes "Authorization") headers) now

abbrev pub verdict : Header → Authorized → Bool × Header
verdict headers failure = (false, headers)
verdict headers forbidden = (false, headers)
verdict headers (permitted out) = (true, out)

-- `Middleware.Authorize` as the data plane's `Authorizer`
abbrev pub authorizer : Identities → ℕ → Middleware → Header → List Str → Bool × Header
authorizer i now m headers required =
    verdict headers (authorize i.join (identify i now m headers) headers required)

unfoldable pub serve_public : (Str → Str) → Identities → System → ℕ → ℕ → Incoming → Handled
serve_public canonical_header_key i s now in_flight request =
    handle canonical_header_key (authorizer i now) s.manager.data_plane.runtime in_flight request

-- A program that runs, whatever its admin API was asked for, has a runtime state that can serve and
-- that the control plane's configuration describes, and it answers no request with a missing
-- configuration or a missing authorizer.
pub serve_public_configured :
    {C : Type 0} (w : World C) (path : Str) (canonical_header_key : Str → Str) (i : Identities)
    (s : System) (now in_flight : ℕ) (request : Incoming)
    → Reachable w path s
    → ((state : RuntimeState Middleware) × (s.manager.data_plane.runtime ≡ some state)
        × (state.cfg ≡ s.control.config)
        × IsServable state)
      × ((serve_public canonical_header_key i s now in_flight request).answer ≢ unavailable)
      × ((serve_public canonical_header_key i s now in_flight request).answer ≢ unconfigured)
unfolding serve_public
serve_public_configured w path canonical_header_key i s now in_flight request reached =
    let g = Reachable-IsGuarded w path s reached in
    let agrees = g.synced.agrees in
    let (valid, servable, copied, same) =
      compile-IsServable w.url_parse s.manager.config g.authorizer agrees.state agrees.compiled in
    let guarded =
      compile-IsGuarded w.url_parse s.manager.config g.authorizer agrees.state agrees.compiled
        g.off in
    let (answers, configured) =
      handle-IsConfigured canonical_header_key (authorizer i now) agrees.state in_flight request
        guarded in
    (
      (agrees.state, agrees.running, copied ∙ agrees.cloned ∙ sym g.synced.config, servable),
      rw agrees.running answers,
      rw agrees.running configured,
    )

permitted_verdict :
    (h out : Header) (a : Authorized) → verdict h a ≡ (true, out) → a ≡ permitted out
permitted_verdict h out failure e = absurd (cc)
permitted_verdict h out forbidden e = absurd (cc)
permitted_verdict h out (permitted g) e = ap permitted (ap (λ (q : Bool × Header). q.1) e)

scopes-IsProtected : is_protected scopes ≡ true
unfolding str_eq bytes
scopes-IsProtected = refl

granted_middleware :
    {A : Type 0} (canonical : Str → Str) (authorize : A → Header → List Str → Bool × Header)
    (state : RuntimeState A) (route : CompiledRoute) (h g : Header)
    → Granted canonical authorize state route h g
    → route.require_auth ≡ true
    → (a : A) × (state.authorizer ≡ some a) × (authorize a h route.scopes ≡ (true, g))
granted_middleware canonical authorize state route h _ (open_route free) needs = absurd (cc)
granted_middleware canonical authorize state route h _ (authorized a g auth has answer) needs =
    (a, has, answer)

-- `httputil.ReverseProxy`, behind the director: from the headers that the handler leaves, those that it
-- sends. It removes every header that the request's `Connection` header lists, and of the headers
-- that the handler protects it changes no other.
pub record IsRelay (lists : Header → Str → Bool) (relay : Header → Header) : Type 0 where
  pub removes : (h : Header) (key : Str) → lists h key ≡ true → lookup key (relay h) ≡ none
  pub keeps :
      (h : Header) (key : Str)
      → is_protected key ≡ true
      → lists h key ≡ false
      → lookup key (relay h) ≡ lookup key h

relayed_scopes :
    (lists : Header → Str → Bool) (relay : Header → Header) (h : Header) (values : List Str)
    → IsRelay lists relay
    → lookup scopes h ≡ some values
    → lookup scopes (relay h) ≡ (if lists h scopes then none else some values)
relayed_scopes lists relay h values is set = elim (Bool-cases (lists h scopes)) [
  | inl listed ↦ rw listed (is.removes h scopes listed)
  | inr free ↦ rw free (is.keeps h scopes scopes-IsProtected free ∙ set)
]

-- A request that the public listener forwards on a route that requires authentication comes from a
-- session or a token that the data plane's authorizer accepts, with a subject, not expired, and with
-- every scope that the route requires. It leaves the handler with the scopes of that identity, and the
-- upstream is told these, or none where the `Connection` header lists their name, as the documented
-- proxy removes what is listed there; it is never told other scopes.
pub serve_public_identified :
    (canonical_header_key : Str → Str) (i : Identities) (s : System) (now in_flight : ℕ)
    (request : Incoming) (route : CompiledRoute) (out : Header) (lists : Header → Str → Bool)
    (relay : Header → Header)
    → IsRelay lists relay
    → (serve_public canonical_header_key i s now in_flight request).answer ≡ forwarded route out
    → route.require_auth ≡ true
    → (state : RuntimeState Middleware) × (m : Middleware) × (c : Claims)
      × (s.manager.data_plane.runtime ≡ some state)
      × (state.authorizer ≡ some m)
      × (identify i now m (strip_trusted_headers request.headers) ≡ some c)
      × (is_empty c.subject ≡ false)
      × (now < c.expiry)
      × All (λ scope. contains c.scopes scope ≡ true) route.scopes
      × (lookup scopes out ≡ some (i.join c.scopes ∷ []))
      × (lookup scopes (relay out)
          ≡ (if lists out scopes then none else some (i.join c.scopes ∷ [])))
unfolding serve_public
serve_public_identified canonical_header_key i s now in_flight request route out lists relay proxied
      answered needs =
    let h = strip_trusted_headers request.headers in
    let (state, known, free, chosen, is) =
      handle_forwards canonical_header_key (authorizer i now) s.manager.data_plane.runtime in_flight
        request route out answered in
    let g = is.granted_headers in
    let (m, has, passes) =
      granted_middleware canonical_header_key (authorizer i now) state route h g is.granted needs in
    let (c, who, subject, fresh, enough, set) =
      authorize_sound (i.open_cookie m.cookie_key) i.verifier i.join m.mode
        (i.cookie_of m.cookie_name h) (header_get (bytes "Authorization") h) now h g route.scopes
        (permitted_verdict h g _ passes) in
    let kept =
      lookup-apply_route_headers canonical_header_key scopes g route.headers scopes-IsProtected in
    let told = ap (lookup scopes) is.headers ∙ kept ∙ set in
    (
      state,
      m,
      c,
      known,
      has,
      who,
      subject,
      fresh,
      enough,
      told,
      relayed_scopes lists relay out (i.join c.scopes ∷ []) proxied told,
    )
