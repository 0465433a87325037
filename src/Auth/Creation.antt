-- ===== src/Auth/Creation.antt =====
-- `New` of internal/auth/auth.go. The discovery of the provider, the files, the random source and
-- `url.Parse` are parameters. The verifier, the login states and the clock, which `New` only makes, are
-- no fields of `Middleware` here: Auth/Verifier.antt and Auth/Login.antt have the first two.
use go_serve.Common.{
  ◌≤◌, ◌≡◌, refl, arith, Bool, true, false, not, ◌&&◌, ◌||◌, Option, none, some, if◌then◌else◌, ltb,
  Str, str_eq, is_empty, length, trim_space, Result, ok, err, ◌>>=◌, ◌>>◌, reject_if,
  reject_if-eq-ok, >>=-eq-ok, ok_injective,
}
use go_serve.Config.{AuthConfig, Slice, Url}
use go_serve.Config.Validate.{https, oidc}

pub record OauthClient : Type 0 where
  pub client_id : Str
  pub client_secret : Str
  pub redirect_url : Str
  pub scopes : Slice Str

pub record Middleware : Type 0 where
  pub mode : Str
  pub cookie_name : Str
  pub cookie_key : Str
  pub oauth : Option OauthClient
  pub secure_cookie : Bool

pub data NewError : Type 0 where
  discovery session_secret_unreadable session_secret_short key_failed : NewError
  client_secret_unreadable redirect_relative redirect_insecure : NewError

abbrev pub or_err : {A : Type 0} → Option A → NewError → Result NewError A
or_err none e = err e
or_err (some a) e = ok a

-- `newMiddleware`
abbrev pub new_middleware : Str → Str → Str → Middleware
new_middleware mode key cookie_name = record {
  mode = mode;
  cookie_name = cookie_name;
  cookie_key = key;
  oauth = none;
  secure_cookie = false;
}

module _ (discover : Str → Bool) (read_file : Str → Option Str) (random_key : Option Str)
    (url_parse : Str → Option Url) where
  abbrev pub session_secret : AuthConfig → Result NewError Str
  session_secret cfg = do
    key ← or_err (read_file cfg.session_secret_file) session_secret_unreadable
    reject_if (ltb (length key) 32) session_secret_short
    ok key

  -- The key of the session cookies
  unfoldable pub session_key : AuthConfig → Result NewError Str
  session_key cfg =
      if str_eq cfg.mode oidc then session_secret cfg else or_err random_key key_failed

  -- The client of the provider
  unfoldable pub add_oauth : AuthConfig → Middleware → Result NewError Middleware
  add_oauth cfg m = do
    secret ← or_err (read_file cfg.client_secret_file) client_secret_unreadable
    parsed ← or_err (url_parse cfg.redirect_url) redirect_relative
    reject_if (is_empty parsed.scheme || is_empty parsed.host) redirect_relative
    reject_if (not (str_eq parsed.scheme https) && not cfg.allow_insecure_redirect)
        redirect_insecure
    ok (record m {
      oauth = some (record {
        client_id = cfg.client_id;
        client_secret = trim_space secret;
        redirect_url = cfg.redirect_url;
        scopes = cfg.allowed_scopes;
      });
      secure_cookie = str_eq parsed.scheme https;
    })

  unfoldable pub new_auth : AuthConfig → Result NewError Middleware
  unfolding session_key add_oauth
  new_auth cfg = do
    reject_if (not (discover cfg.issuer_url)) discovery
    key ← session_key cfg
    let m = new_middleware cfg.mode key cfg.session_cookie_name
    if str_eq cfg.mode oidc then add_oauth cfg m else ok m

  session_key-length :
      (cfg : AuthConfig) (key : Str)
      → str_eq cfg.mode oidc ≡ true
      → session_key cfg ≡ ok key
      → 32 ≤ length key
  unfolding session_key
  session_key-length cfg key mode h =
      let h' : session_secret cfg ≡ ok key = rw (mode, session_key) at h in
      let (raw, opened, h₁) =
        >>=-eq-ok (or_err (read_file cfg.session_secret_file) session_secret_unreadable) _ h' in
      let (u, checked, h₂) =
        >>=-eq-ok (reject_if (ltb (length raw) 32) session_secret_short) _ h₁ in
      let long = reject_if-eq-ok (ltb (length raw) 32) session_secret_short checked in
      rw (← ok_injective h₂) (ground arith)

  add_oauth_secure :
      (cfg : AuthConfig) (m m' : Middleware)
      → add_oauth cfg m ≡ ok m'
      → (m'.cookie_key ≡ m.cookie_key)
        × ((c : OauthClient) × (m'.oauth ≡ some c))
        × ((m'.secure_cookie || cfg.allow_insecure_redirect) ≡ true)
  unfolding add_oauth
  add_oauth_secure cfg m m' h =
      let (secret, read, h₁) =
        >>=-eq-ok (or_err (read_file cfg.client_secret_file) client_secret_unreadable) _ h in
      let (url, parsed, h₂) =
        >>=-eq-ok (or_err (url_parse cfg.redirect_url) redirect_relative) _ h₁ in
      let (u, absolute, h₃) =
        >>=-eq-ok (reject_if (is_empty url.scheme || is_empty url.host) redirect_relative) _ h₂ in
      let bad = not (str_eq url.scheme https) && not cfg.allow_insecure_redirect in
      let (v, safe, h₄) = >>=-eq-ok (reject_if bad redirect_insecure) _ h₃ in
      let good = reject_if-eq-ok bad redirect_insecure safe in
      rw (← ok_injective h₄) (refl, (_, refl), ground arith)

  -- In the mode `oidc`, a middleware that was created encrypts its cookies under a secret of at least
  -- 32 bytes, has a client for the provider, and leaves its cookies open to plain HTTP only where the
  -- configuration allows an insecure redirect.
  pub new_auth-oidc :
      (cfg : AuthConfig) (m : Middleware)
      → str_eq cfg.mode oidc ≡ true
      → new_auth cfg ≡ ok m
      → (32 ≤ length m.cookie_key)
        × ((c : OauthClient) × (m.oauth ≡ some c))
        × ((m.secure_cookie || cfg.allow_insecure_redirect) ≡ true)
  unfolding new_auth
  new_auth-oidc cfg m mode h =
      let (u, found, h₁) = >>=-eq-ok (reject_if (not (discover cfg.issuer_url)) discovery) _ h in
      let (key, made, h₂) = >>=-eq-ok (session_key cfg) _ h₁ in
      let (same, client, secure) =
        add_oauth_secure cfg (new_middleware cfg.mode key cfg.session_cookie_name) m
          (rw mode at h₂) in
      (rw same (session_key-length cfg key mode made), client, secure)
