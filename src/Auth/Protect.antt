-- ===== src/Auth/Protect.antt =====
-- The answers of `Authorize`, and `Handler` and `Protect` of internal/auth/auth.go.
use go_serve.Common.{
  ℕ, ◌≡◌, refl, inl, inr, Bool, false, ◌&&◌, ◌||◌, Option, none, some, List, [], ◌∷◌, ◌++◌,
  if◌then◌else◌, Str, bytes, str_eq, is_empty, has_prefix, Bool-cases,
}
use go_serve.Dataplane.Headers.{Header}
use go_serve.Auth.{
  Claims, verify_bearer, authenticate, Authorized, failure, forbidden, permitted, authorize,
}

-- strings.Contains
unfoldable pub has_infix : Str → Str → Bool
has_infix [] t = is_empty t
has_infix (c ∷ s) t = has_prefix (c ∷ s) t || has_infix s t

-- What the middleware reads of a request; `uri` is its `RequestURI`.
pub record Presented : Type 0 where
  pub method : Str
  pub path : Str
  pub uri : Str
  pub accept : Str
  pub cookie : Option Str
  pub authorization : Str
  pub headers : Header

pub data Denial : Type 0 where
  to_login : Str → Denial
  unauthorized insufficient_scope : Denial

-- `redirectToLogin`; `query_escape` is `url.QueryEscape`.
abbrev pub redirect_to_login : (Str → Str) → Str → Denial
redirect_to_login query_escape uri = to_login (bytes "/oauth2/login?return=" ++ query_escape uri)

-- The answer to a request whose identity is missing.
unfoldable pub deny : (Str → Str) → Str → Presented → Denial
deny query_escape mode r =
    if str_eq mode (bytes "oidc")
      && str_eq r.method (bytes "GET")
      && has_infix r.accept (bytes "text/html")
    then redirect_to_login query_escape r.uri
    else unauthorized

-- The paths that `Handler` keeps for itself.
pub data OauthPage : Type 0 where
  login_page callback_page logout_page : OauthPage

unfoldable pub oauth_page : Str → Option OauthPage
oauth_page path =
    if str_eq path (bytes "/oauth2/login")
    then some login_page
    else if str_eq path (bytes "/oauth2/callback")
    then some callback_page
    else if str_eq path (bytes "/oauth2/logout")
    then some logout_page
    else none

pub data Protected : Type 0 where
  oauth : OauthPage → Protected
  denied : Denial → Protected
  passed : Header → Protected

-- What tells who a request is from: `Request.Cookie`, the session's cipher under a key, the token's
-- verifier, and `strings.Join` with a space.
pub record Identities : Type 0 where
  pub cookie_of : Str → Header → Option Str
  pub open_cookie : Str → Str → Option Claims
  pub verifier : Option (Str → Option Claims)
  pub join : List Str → Str

-- What the middleware needs beside the request.
pub record Guard : Type 0 where
  pub mode : Str
  pub open_cookie : Str → Option Claims
  pub verifier : Option (Str → Option Claims)
  pub join : List Str → Str
  pub query_escape : Str → Str

abbrev pub answer_of : Guard → Presented → Authorized → Protected
answer_of g r failure = denied (deny g.query_escape g.mode r)
answer_of g r forbidden = denied insufficient_scope
answer_of g r (permitted headers) = passed headers

-- `Authorize` with what it writes
unfoldable pub authorize_request : Guard → ℕ → Presented → List Str → Protected
authorize_request g now r required = answer_of g r (
    authorize g.join (authenticate g.open_cookie g.verifier g.mode r.cookie r.authorization now)
      r.headers required)

unfoldable pub protect : Guard → ℕ → Presented → Protected
unfolding oauth_page authorize_request
protect g now r = elim (oauth_page r.path) [
  | some page ↦ oauth page
  | none ↦ authorize_request g now r []
]

no_bearer : has_prefix [] (bytes "Bearer ") ≡ false
unfolding has_prefix bytes
no_bearer = refl

-- A request with neither a session nor an `Authorization` header is nobody's.
pub authenticate_anonymous :
    (open_cookie : Str → Option Claims) (verifier : Option (Str → Option Claims)) (mode : Str)
    (now : ℕ)
    → authenticate open_cookie verifier mode none [] now ≡ none
unfolding authenticate
authenticate_anonymous open_cookie verifier mode now =
    let missing : verify_bearer open_cookie verifier [] now ≡ none =
      rw (no_bearer, verify_bearer) in
    elim (Bool-cases (str_eq mode (bytes "bearer"))) [ inl e ↦ rw e missing | inr e ↦ rw e refl ]

-- A protected listener answers a request without credentials itself, wherever it goes.
pub protect_anonymous :
    (g : Guard) (now : ℕ) (r : Presented)
    → r.cookie ≡ none
    → r.authorization ≡ []
    → oauth_page r.path ≡ none
    → protect g now r ≡ denied (deny g.query_escape g.mode r)
unfolding protect authorize_request authorize
protect_anonymous g now r cookie authorization page =
    let nobody = authenticate_anonymous g.open_cookie g.verifier g.mode now in
    simp (page, cookie, authorization, nobody, protect)
