-- ===== src/Auth/Session.antt =====
-- `sealSession` and `openSession` of internal/auth/auth.go. AES-GCM under the hashed key, base64, JSON
-- and the random nonce are parameters; JSON keeps only texts that are valid UTF-8.
use go_serve.Common.{
  ℕ, ◌≡◌, refl, ap, arith, true, false, Option, none, some, [], ◌∷◌, ◌++◌, ltb, if◌then◌else◌, Str,
  length, length-append, take, All, Option-cases, inl, inr, Bool,
}
use go_serve.Auth.{Claims, valid_claims, skip, authenticate}

-- What the code calls: `seal` and `open` are those of the cipher for the middleware's key.
pub record Codec : Type 0 where
  pub nonce_size : ℕ
  pub seal : Str → Str → Str
  pub open_sealed : Str → Str → Option Str
  pub encode : Str → Str
  pub decode : Str → Option Str
  pub marshal : Claims → Option Str
  pub unmarshal : Str → Option Claims
  pub valid_string : Str → Bool  -- utf8.ValidString

-- The texts of an identity are valid UTF-8.
abbrev pub IsText : (Str → Bool) → Claims → Type 0
IsText valid_string claims =
    (valid_string claims.subject ≡ true)
    × (valid_string claims.email ≡ true)
    × (valid_string claims.nonce ≡ true)
    × All (λ scope. valid_string scope ≡ true) claims.scopes

-- The documented behaviour of these: the cipher opens what it sealed with a nonce of its size, and JSON
-- reads what it could write of an identity whose texts are valid.
pub record IsLawful (c : Codec) : Type 0 where
  pub open-seal :
      (nonce payload : Str)
      → length nonce ≡ c.nonce_size
      → c.open_sealed nonce (c.seal nonce payload) ≡ some payload
  pub decode-encode : (s : Str) → c.decode (c.encode s) ≡ some s
  pub unmarshal-marshal :
      (claims : Claims) (payload : Str)
      → IsText c.valid_string claims
      → c.marshal claims ≡ some payload
      → c.unmarshal payload ≡ some claims

module _ (c : Codec) where
  -- `random` is what the random source gave, if it did not fail.
  unfoldable pub seal_session : Option Str → Claims → Option Str
  seal_session random claims = elim (c.marshal claims) [
    | none ↦ none
    | some payload ↦ elim random [
      | none ↦ none
      | some nonce ↦ some (c.encode (nonce ++ c.seal nonce payload))
    ]
  ]

  abbrev pub open_payload : Option Str → Option Claims
  open_payload none = none
  open_payload (some payload) = c.unmarshal payload

  -- `openSession` up to the check of the claims
  unfoldable pub open_value : Str → Option Claims
  open_value value = elim (c.decode value) [
    | none ↦ none
    | some sealed ↦
        if ltb (length sealed) c.nonce_size
        then none
        else open_payload (c.open_sealed (take c.nonce_size sealed) (skip c.nonce_size sealed))
  ]

pub take-append : (a b : Str) → take (length a) (a ++ b) ≡ a
take-append [] b = refl
take-append (x ∷ a) b = ap (λ s. x ∷ s) (take-append a b)

pub skip-append : (a b : Str) → skip (length a) (a ++ b) ≡ b
skip-append [] b = refl
skip-append (x ∷ a) b = skip-append a b

open_value-seal :
    (c : Codec) (nonce payload : Str) (claims : Claims)
    → IsLawful c
    → length nonce ≡ c.nonce_size
    → IsText c.valid_string claims
    → c.marshal claims ≡ some payload
    → open_value c (c.encode (nonce ++ c.seal nonce payload)) ≡ some claims
unfolding open_value
open_value-seal c nonce payload claims l n text written =
    let sealed = c.seal nonce payload in
    let long : ltb (length (nonce ++ sealed)) c.nonce_size ≡ false =
      (let total = length-append nonce sealed in ground arith) in
    let front : take c.nonce_size (nonce ++ sealed) ≡ nonce = rw (← n) (take-append nonce sealed) in
    let back : skip c.nonce_size (nonce ++ sealed) ≡ sealed = rw (← n) (skip-append nonce sealed) in
    simp (
      l.decode-encode (nonce ++ sealed),
      long,
      front,
      back,
      l.open-seal nonce payload n,
      l.unmarshal-marshal claims payload text written,
      open_value,
    )

-- A session cookie that was made for an identity whose texts are valid UTF-8 is accepted as that
-- identity, in every mode and whatever else the request carries, for as long as the identity is valid.
pub authenticate-seal_session :
    (c : Codec) (verifier : Option (Str → Option Claims)) (nonce cookie mode authorization : Str)
    (claims : Claims) (now : ℕ)
    → IsLawful c
    → length nonce ≡ c.nonce_size
    → IsText c.valid_string claims
    → seal_session c (some nonce) claims ≡ some cookie
    → valid_claims claims now ≡ true
    → authenticate (open_value c) verifier mode (some cookie) authorization now ≡ some claims
unfolding seal_session authenticate
authenticate-seal_session c verifier nonce cookie mode authorization claims now l n text sealed
      valid =
    elim (Option-cases (c.marshal claims)) [
      | inl failed ↦ absurd (cc (rw (failed, seal_session) at sealed))
      | inr (payload, written) ↦
          let same : some (c.encode (nonce ++ c.seal nonce payload)) ≡ some cookie =
            rw (written, seal_session) at sealed in
          let is : c.encode (nonce ++ c.seal nonce payload) ≡ cookie = cc in
          let opened : open_value c cookie ≡ some claims =
            rw (← is) (open_value-seal c nonce payload claims l n text written) in
          simp (opened, valid, authenticate)
    ]
