-- ===== src/Auth/Verifier.antt =====
-- `oidcVerifier.Verify` of internal/auth/auth.go. The library's verifier, which checks the signature, the
-- issuer and the audience, the reading of the token's claims, and `time.Unix` are parameters.
pub mod Worded
use go_serve.Common.{
  ℕ, Bool, true, false, Option, none, some, List, [], ◌∷◌, ◌++◌, ℤ, Str, is_empty, is_space,
  if◌then◌else◌,
}
use go_serve.Auth.{Claims}

-- strings.Fields, from the word that was begun
abbrev pub add_word : Str → List Str → List Str
add_word word words = if is_empty word then words else word ∷ words

unfoldable pub fields_from : Str → Str → List Str
fields_from word [] = add_word word []
fields_from word (c ∷ s) =
    let cut = fields_from [] s in
    let longer = fields_from (word ++ c ∷ []) s in if is_space c then add_word word cut else longer

unfoldable pub fields : Str → List Str
unfolding fields_from
fields s = fields_from [] s

-- What the token's JSON holds
pub record TokenClaims : Type 0 where
  pub subject : Str
  pub email : Str
  pub scope : Str
  pub expiry : ℤ
  pub nonce : Str

module _ {T : Type 0} (verify_token : Str → Option T) (claims_of : T → Option TokenClaims)
    (unix : ℤ → ℕ) where
  abbrev pub to_claims : TokenClaims → Claims
  to_claims value = record {
    subject = value.subject;
    email = value.email;
    scopes = fields value.scope;
    expiry = unix value.expiry;
    nonce = value.nonce;
  }

  abbrev pub read_claims : Option TokenClaims → Option Claims
  read_claims none = none
  read_claims (some value) = some (to_claims value)

  unfoldable pub verify : Str → Option Claims
  unfolding fields
  verify raw = elim (verify_token raw) [ none ↦ none | some token ↦ read_claims (claims_of token) ]
