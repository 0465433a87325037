-- ===== src/Auth.antt =====
-- `Middleware` of internal/auth/auth.go: who a request is from, which scopes it has, and the state of
-- a login. The cookie's cipher and its JSON, and the verifier of tokens, are arguments; a time is a
-- number of nanoseconds after Go's zero time.
pub mod Granting
pub mod Login
pub mod Session
pub mod Protect
pub mod Creation
pub mod Verifier
use go_serve.Common.{
  ℕ, zero, suc, ◌+◌, ◌*◌, Bool, true, false, not, ◌&&◌, ◌||◌, Option, none, some, List, [], ◌∷◌,
  ltb, if◌then◌else◌, Str, bytes, str_eq, is_empty, has_prefix, trim_space, length, Result, ok, err,
  ◌>>=◌, ◌>>◌, reject_if,
}
use go_serve.Common.Dict.{str_Eq, lookup, insert, delete}
use go_serve.Config.Validate.{contains, second}
use go_serve.Dataplane.Headers.{Header, subject, email, scopes, strip_trusted_headers}

pub record Claims : Type 0 where
  pub subject : Str
  pub email : Str
  pub scopes : List Str
  pub expiry : ℕ
  pub nonce : Str

unfoldable pub valid_claims : Claims → ℕ → Bool
valid_claims claims now = not (is_empty claims.subject) && ltb now claims.expiry

abbrev pub valid_nonce : Str → Str → Bool
valid_nonce actual expected =
    not (is_empty expected) && not (is_empty actual) && str_eq actual expected

unfoldable pub has_scopes : List Str → List Str → Bool
has_scopes granted [] = true
has_scopes granted (scope ∷ required) =
    let rest = has_scopes granted required in if contains granted scope then rest else false

-- A value that may be missing, or whose claims are not valid now.
abbrev pub checked : ℕ → Option Claims → Option Claims
checked now none = none
checked now (some claims) = if valid_claims claims now then some claims else none

-- strings.TrimPrefix of a text that has the prefix
abbrev pub skip : ℕ → Str → Str
skip zero s = s
skip (suc n) [] = []
skip (suc n) (c ∷ s) = skip n s

module _ (open_cookie : Str → Option Claims) (verifier : Option (Str → Option Claims)) where
  -- `openSession` of the request's cookie, where it has one
  abbrev pub open_session : Option Str → ℕ → Option Claims
  open_session none now = none
  open_session (some cookie) now = checked now (open_cookie cookie)

  -- The token of the header `Authorization`
  unfoldable pub verify_bearer : Str → ℕ → Option Claims
  verify_bearer authorization now =
      if has_prefix authorization (bytes "Bearer ")
      then (elim verifier [
        | none ↦ none
        | some verify ↦
            checked now (verify (trim_space (skip (length (bytes "Bearer ")) authorization)))
      ])
      else none

  unfoldable pub authenticate : Str → Option Str → Str → ℕ → Option Claims
  unfolding verify_bearer
  authenticate mode cookie authorization now = elim (open_session cookie now) [
    | some claims ↦ some claims
    | none ↦
        if str_eq mode (bytes "bearer") || not (is_empty authorization)
        then verify_bearer authorization now
        else none
  ]

-- The headers of the identity; the scopes are joined by spaces.
unfoldable pub identity_headers : (List Str → Str) → Header → Claims → Header
identity_headers join headers claims =
    let named = insert subject (claims.subject ∷ []) (strip_trusted_headers headers) in
    insert scopes (join claims.scopes ∷ [])
      (if is_empty claims.email then named else insert email (claims.email ∷ []) named)

pub data Authorized : Type 0 where
  failure forbidden : Authorized
  permitted : Header → Authorized

-- `Authorize`, from what `authenticate` found
unfoldable pub authorize : (List Str → Str) → Option Claims → Header → List Str → Authorized
unfolding has_scopes identity_headers
authorize join none headers required = failure
authorize join (some claims) headers required =
    if has_scopes claims.scopes required
    then permitted (identity_headers join headers claims)
    else forbidden

unfoldable pub safe_return_path : Str → Bool
safe_return_path value =
    is_empty value || (has_prefix value (bytes "/") && not (has_prefix value (bytes "//")))

pub record LoginState : Type 0 where
  pub return_path : Str
  pub verifier : Str
  pub nonce : Str
  pub expires : ℕ

abbrev pub LoginStates : Type 0
LoginStates = List (Str × LoginState)

-- `redirected` holds the state's token, the verifier and the nonce, from which the provider's URL is made.
pub data LoginResult : Type 0 where
  login_unconfigured state_failed verifier_failed nonce_failed : LoginResult
  redirected : Str → Str → Str → LoginResult

abbrev pub or_fail : Option Str → LoginResult → Result LoginResult Str
or_fail none why = err why
or_fail (some token) why = ok token

abbrev pub begun :
    LoginStates → Result LoginResult (LoginStates × LoginResult) → LoginStates × LoginResult
begun states (err why) = (states, why)
begun states (ok result) = result

-- `login`, with its three random tokens where the source gave them; `configured` is whether there is an
-- OAuth client.
unfoldable pub login :
    Bool → LoginStates → Option Str → Option Str → Option Str → Str → ℕ → LoginStates × LoginResult
unfolding safe_return_path
login configured states state_random verifier_random nonce_random return_path now = begun states (do
  reject_if (not configured) login_unconfigured
  token ← or_fail state_random state_failed
  verifier ← or_fail verifier_random verifier_failed
  nonce ← or_fail nonce_random nonce_failed
  let entry : LoginState = record {
    return_path = if safe_return_path return_path then return_path else bytes "/";
    verifier = verifier;
    nonce = nonce;
    expires = now + 600 * second;
  }
  ok (insert token entry states, redirected token verifier nonce))

-- `session` sets the cookie and redirects to the path.
pub data CallbackResult : Type 0 where
  not_configured invalid_state exchange_failed token_missing token_invalid no_session :
      CallbackResult
  session : Str → Str → CallbackResult

module _ (exchange : Str → Str → Option (Option Str)) (verify : Str → Option Claims)
    (seal : Claims → Option Str) where
  abbrev pub start_session : LoginState → Option Str → CallbackResult
  start_session state none = no_session
  start_session state (some cookie) = session cookie state.return_path

  abbrev pub check_identity : LoginState → Option Claims → CallbackResult
  check_identity state none = token_invalid
  check_identity state (some claims) =
      if valid_nonce claims.nonce state.nonce
      then start_session state (seal claims)
      else token_invalid

  -- The exchange of the code for an identity token and its check
  unfoldable pub finish_login : LoginState → Str → ℕ → CallbackResult
  finish_login state code now = elim (exchange code state.verifier) [
    | none ↦ exchange_failed
    | some id_token ↦ elim id_token [
      | none ↦ token_missing
      | some raw ↦ check_identity state (checked now (verify raw))
    ]
  ]

  -- Where there is an OAuth client
  unfoldable pub take_state : LoginStates → Str → Str → ℕ → LoginStates × CallbackResult
  unfolding finish_login
  take_state states token code now = (
    delete token states,
    elim (lookup token states) [
      | none ↦ invalid_state
      | some state ↦ if ltb state.expires now then invalid_state else finish_login state code now
    ],
  )

  unfoldable pub callback : Bool → LoginStates → Str → Str → ℕ → LoginStates × CallbackResult
  unfolding take_state
  callback configured states token code now =
      if configured then take_state states token code now else (states, not_configured)
