-- ===== src/Examples/Identities.antt =====
-- One user's token, and a login.
use go_serve.Common.{
  ◌≤◌, ◌≡◌, refl, true, Option, none, some, List, [], ◌∷◌, Str, bytes, str_eq, has_prefix,
}
use go_serve.Common.Dict.{str_Eq, lookup}
use go_serve.Config.Validate.{contains}
use go_serve.Dataplane.Headers.{Header}
use go_serve.Auth.{
  Claims, valid_claims, valid_nonce, has_scopes, verify_bearer, authenticate, identity_headers,
  permitted, authorize, LoginState, LoginStates, session, finish_login, callback, take_state,
  invalid_state,
}
use go_serve.Auth.Login.{callback_once, callback_session}

abbrev user : Claims
user = record {
  subject = bytes "u";
  email = [];
  scopes = bytes "read" ∷ [];
  expiry = 100;
  nonce = bytes "n";
}

abbrev open_cookie : Str → Option Claims
open_cookie cookie = none

abbrev verify : Str → Option Claims
verify token = some user

abbrev join : List Str → Str
join [] = []
join (s ∷ rest) = s

abbrev bearer_header : Str
bearer_header = bytes "Bearer t"

abbrev required : List Str
required = bytes "read" ∷ []

abbrev out : Header
out = identity_headers join [] user

passes :
    authorize join
      (authenticate open_cookie (some verify) (bytes "bearer") none bearer_header 5)
      []
      required
    ≡ permitted out
unfolding authorize authenticate verify_bearer has_scopes valid_claims bytes str_eq has_prefix
    contains
passes = refl

abbrev exchange : Str → Str → Option (Option Str)
exchange code verifier = some (some code)

abbrev seal : Claims → Option Str
seal claims = some claims.subject

abbrev pending : LoginState
pending = record { return_path = bytes "/"; verifier = bytes "v"; nonce = bytes "n"; expires = 50 }

abbrev states : LoginStates
states = (bytes "s", pending) ∷ []

starts :
    (callback exchange verify seal true states (bytes "s") (bytes "c") 5).1
    ≡ session (bytes "u") (bytes "/")
unfolding callback take_state finish_login lookup bytes str_eq valid_claims
starts = refl

callback_session_example :
    (state : LoginState) × (lookup (bytes "s") states ≡ some state)
    × (5 ≤ state.expires)
    × ((c : Claims) × (valid_claims c 5 ≡ true)
        × (valid_nonce c.nonce state.nonce ≡ true)
        × (seal c ≡ some (bytes "u"))
        × (bytes "/" ≡ state.return_path))
callback_session_example =
    callback_session exchange verify seal true states (bytes "s") (bytes "c") 5 (bytes "u")
      (bytes "/") starts

callback_once_example :
    (callback exchange verify seal true
      (callback exchange verify seal true states (bytes "s") (bytes "c") 5).0
      (bytes "s")
      (bytes "d")
      6).1
    ≡ invalid_state
callback_once_example =
    callback_once exchange verify seal true states (bytes "s") (bytes "c") (bytes "d") 5 6
