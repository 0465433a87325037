-- ===== src/Auth/Granting.antt =====
-- Whom `Authorize` lets pass.
use go_serve.Common.{
  ℕ, ◌<◌, ◌≡◌, sym, ap, ◌∙◌, inl, inr, true, false, not, ◌||◌, Option, none, some, List, [], ◌∷◌,
  arith, Str, bytes, str_eq, is_empty, has_prefix, All, Bool-cases, Option-cases,
}
use go_serve.Common.Dict.{str_Eq, lookup, lookup-insert_self}
use go_serve.Config.Validate.{contains}
use go_serve.Dataplane.Headers.{Header, scopes}
use go_serve.Auth.{
  Claims, valid_claims, has_scopes, checked, open_session, verify_bearer, authenticate,
  identity_headers, permitted, authorize,
}

pub checked_valid :
    (now : ℕ) (o : Option Claims) (c : Claims) → checked now o ≡ some c → valid_claims c now ≡ true
checked_valid now none c h = absurd (cc)
checked_valid now (some d) c h = elim (Bool-cases (valid_claims d now)) [
  | inl e ↦ let same : some d ≡ some c = rw e at h in let is : d ≡ c = cc in rw (← is) e
  | inr e ↦ absurd (cc (rw e at h))
]

module _ (open_cookie : Str → Option Claims) (verifier : Option (Str → Option Claims)) where
  bearer_valid :
      (authorization : Str) (now : ℕ) (c : Claims)
      → verify_bearer open_cookie verifier authorization now ≡ some c
      → valid_claims c now ≡ true
  unfolding verify_bearer
  bearer_valid authorization now c h =
      elim (Bool-cases (has_prefix authorization (bytes "Bearer "))) [
        | inr e ↦ absurd (cc (rw (e, verify_bearer) at h))
        | inl e ↦ elim (Option-cases verifier) [
          | inl v ↦ absurd (cc (rw (e, v, verify_bearer) at h))
          | inr (verify, v) ↦ checked_valid now _ c (rw (e, v, verify_bearer) at h)
        ]
      ]

  session_valid :
      (cookie : Option Str) (now : ℕ) (c : Claims)
      → open_session open_cookie verifier cookie now ≡ some c
      → valid_claims c now ≡ true
  session_valid none now c h = absurd (cc)
  session_valid (some cookie) now c h = checked_valid now (open_cookie cookie) c h

  authenticate_valid :
      (mode : Str) (cookie : Option Str) (authorization : Str) (now : ℕ) (c : Claims)
      → authenticate open_cookie verifier mode cookie authorization now ≡ some c
      → valid_claims c now ≡ true
  unfolding authenticate
  authenticate_valid mode cookie authorization now c h =
      elim (Option-cases (open_session open_cookie verifier cookie now)) [
        | inr (d, e) ↦
            let same : some d ≡ some c = rw (e, authenticate) at h in
            session_valid cookie now c (e ∙ same)
        | inl e ↦ elim (Bool-cases (str_eq mode (bytes "bearer") || not (is_empty authorization))) [
          | inl asks ↦ bearer_valid authorization now c (rw (e, asks, authenticate) at h)
          | inr silent ↦ absurd (cc (rw (e, silent, authenticate) at h))
        ]
      ]

has_scopes_sound :
    (granted required : List Str)
    → has_scopes granted required ≡ true
    → All (λ s. contains granted s ≡ true) required
unfolding has_scopes
has_scopes_sound granted [] h = tt
has_scopes_sound granted (s ∷ required) h = elim (Bool-cases (contains granted s)) [
  | inl e ↦ (e, has_scopes_sound granted required (rw (e, has_scopes) at h))
  | inr e ↦ absurd (cc (rw (e, has_scopes) at h))
]

-- A request that is authorised comes from a session or a token with a subject, which has not expired
-- and has every scope that the route requires, and it goes on with the scopes of that identity.
pub authorize_sound :
    (open_cookie : Str → Option Claims) (verifier : Option (Str → Option Claims))
    (join : List Str → Str) (mode : Str) (cookie : Option Str) (authorization : Str) (now : ℕ)
    (headers out : Header) (required : List Str)
    → authorize join
        (authenticate open_cookie verifier mode cookie authorization now)
        headers
        required
      ≡ permitted out
    → (c : Claims) × (authenticate open_cookie verifier mode cookie authorization now ≡ some c)
      × (is_empty c.subject ≡ false)
      × (now < c.expiry)
      × All (λ s. contains c.scopes s ≡ true) required
      × (lookup scopes out ≡ some (join c.scopes ∷ []))
unfolding authorize identity_headers valid_claims
authorize_sound open_cookie verifier join mode cookie authorization now headers out required h =
    elim (Option-cases (authenticate open_cookie verifier mode cookie authorization now)) [
      | inl e ↦ absurd (cc (rw (e, authorize) at h))
      | inr (c, e) ↦ elim (Bool-cases (has_scopes c.scopes required)) [
        | inr lacks ↦ absurd (cc (rw (e, lacks, authorize) at h))
        | inl has ↦
            let same : permitted (identity_headers join headers c) ≡ permitted out =
              rw (e, has, authorize) at h in
            let is : identity_headers join headers c ≡ out = cc in
            let valid = authenticate_valid open_cookie verifier mode cookie authorization now c e in
            let set : lookup scopes (identity_headers join headers c) ≡ some (join c.scopes ∷ []) =
              lookup-insert_self scopes (join c.scopes ∷ []) _ in
            (
              c,
              e,
              ground (arith, valid),
              ground (arith, valid),
              has_scopes_sound c.scopes required has,
              ap (lookup scopes) (sym is) ∙ set,
            )
      ]
    ]
