-- ===== src/Examples/Handshakes.antt =====
-- A session that is sealed, and a certificate that changes.
use go_serve.Common.{ℕ, ◌+◌, ◌≡◌, refl, true, Option, none, some, List, [], ◌∷◌, Str, bytes}
use go_serve.Auth.{Claims, valid_claims, authenticate}
use go_serve.Auth.Session.{
  Codec, IsLawful, IsText, seal_session, open_value, authenticate-seal_session,
}
use go_serve.Dataplane.Certificates.{Files, new_loader, handshakes}
use go_serve.Dataplane.Certificates.Current.{AllStamped, answers, handshakes-eq-answers}
use go_serve.Examples.Codecs.{ascii, marshal, unmarshal, unmarshal-marshal}

abbrev user : Claims
user = record {
  subject = bytes "u";
  email = [];
  scopes = bytes "read" ∷ [];
  expiry = 100;
  nonce = [];
}

-- A cipher that changes nothing, under nonces of one byte.
abbrev clear : Codec
clear = record {
  nonce_size = 1;
  seal = λ nonce payload. payload;
  open_sealed = λ nonce sealed. some sealed;
  encode = λ s. s;
  decode = λ s. some s;
  marshal = λ claims. some (marshal claims);
  valid_string = ascii;
  unmarshal = unmarshal;
}

read_back :
    (claims : Claims) (payload : Str)
    → some (marshal claims) ≡ some payload
    → unmarshal payload ≡ some claims
read_back claims payload written =
    let is : marshal claims ≡ payload = cc in rw (← is) (unmarshal-marshal claims)

clear-IsLawful : IsLawful clear
clear-IsLawful = record {
  open-seal = λ nonce payload n. refl;
  decode-encode = λ s. refl;
  unmarshal-marshal = λ claims payload text written. read_back claims payload written;
}

abbrev cookie : Str
cookie = 7 ∷ marshal user

sealed : seal_session clear (some (7 ∷ [])) user ≡ some cookie
unfolding seal_session
sealed = refl

still_valid : valid_claims user 5 ≡ true
unfolding valid_claims bytes
still_valid = refl

user-IsText : IsText ascii user
unfolding bytes
user-IsText = (refl, refl, refl, (refl, tt))

authenticate-seal_session_example :
    authenticate (open_value clear) none (bytes "oidc") (some cookie) [] 5 ≡ some user
authenticate-seal_session_example =
    authenticate-seal_session clear none (7 ∷ []) cookie (bytes "oidc") [] user 5 clear-IsLawful
      refl user-IsText sealed still_valid

-- A certificate is a number here: the sum of the times at which its files were written.
abbrev content : ℕ → ℕ → Option ℕ
content s t = some (s + t)

abbrev at_times : ℕ → ℕ → Files ℕ
at_times s t = record { cert_time = some s; key_time = some t; pair = some (s + t) }

abbrev missing : Files ℕ
missing = record { cert_time = none; key_time = some 4; pair = none }

abbrev history : List (Files ℕ)
history = at_times 1 2 ∷ at_times 1 2 ∷ missing ∷ at_times 3 4 ∷ []

stamped : AllStamped content history
stamped = (λ s t a b. cc, (λ s t a b. cc, (λ s t a b. absurd (cc), (λ s t a b. cc, tt))))

handshakes-eq-answers_example : (handshakes new_loader history).1 ≡ answers content history
handshakes-eq-answers_example = handshakes-eq-answers content history stamped
