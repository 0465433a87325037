-- ===== src/Auth/Login.antt =====
-- The state of a login.
use go_serve.Common.{
  Bool, false, if◌then◌else◌, ℕ, ◌≤◌, ◌≡◌, refl, ◌∙◌, inl, inr, true, Option, none, some, arith,
  ltb, Str, str_eq_refl, Bool-cases, Option-cases,
}
use go_serve.Common.Dict.{str_Eq, lookup, delete, lookup-delete}
use go_serve.Auth.Granting.{checked_valid}
use go_serve.Auth.{
  Claims, LoginState, LoginStates, invalid_state, session, finish_login, callback, take_state,
  not_configured, check_identity, valid_nonce, valid_claims, checked,
}

module _ (exchange : Str → Str → Option (Option Str)) (verify : Str → Option Claims)
    (seal : Claims → Option Str) where
  -- A login's state is used once: after a callback with a token, whatever its result, another callback
  -- with that token is refused, as an unknown login or, where there is no OAuth client, as every one.
  pub callback_once :
      (configured : Bool) (states : LoginStates) (token code code' : Str) (now now' : ℕ)
      → (callback exchange verify seal configured
          (callback exchange verify seal configured states token code now).0
          token
          code'
          now').1
        ≡ (if configured then invalid_state else not_configured)
  unfolding callback take_state
  callback_once false states token code code' now now' = refl
  callback_once true states token code code' now now' =
      let gone : lookup token (delete token states) ≡ none =
        lookup-delete token token states ∙ rw (str_eq_refl token) refl in
      rw (gone, callback, take_state) refl

  identity_checked :
      (state : LoginState) (o : Option Claims) (cookie path : Str)
      → check_identity exchange verify seal state o ≡ session cookie path
      → (c : Claims) × (o ≡ some c)
        × (valid_nonce c.nonce state.nonce ≡ true)
        × (seal c ≡ some cookie)
        × (path ≡ state.return_path)
  identity_checked state none cookie path h = absurd (cc)
  identity_checked state (some c) cookie path h =
      elim (Bool-cases (valid_nonce c.nonce state.nonce)) [
        | inr e ↦ absurd (cc (rw e at h))
        | inl e ↦ elim (Option-cases (seal c)) [
          | inl none_sealed ↦ absurd (cc (rw (e, none_sealed) at h))
          | inr (value, sealed) ↦
              let same : session value state.return_path ≡ session cookie path =
                rw (e, sealed) at h in
              (c, refl, e, (sealed ∙ cc), cc)
        ]
      ]

  login_finished :
      (state : LoginState) (code : Str) (now : ℕ) (cookie path : Str)
      → finish_login exchange verify seal state code now ≡ session cookie path
      → (c : Claims) × (valid_claims c now ≡ true)
        × (valid_nonce c.nonce state.nonce ≡ true)
        × (seal c ≡ some cookie)
        × (path ≡ state.return_path)
  unfolding finish_login
  login_finished state code now cookie path h = elim (Option-cases (exchange code state.verifier)) [
    | inl e ↦ absurd (cc (rw (e, finish_login) at h))
    | inr (token, e) ↦ elim (Option-cases token) [
      | inl t ↦ absurd (cc (rw (e, t, finish_login) at h))
      | inr (raw, t) ↦
          let (c, found, nonce, sealed, to) =
            identity_checked state (checked now (verify raw)) cookie path
              (rw (e, t, finish_login) at h) in
          (c, checked_valid now (verify raw) c found, nonce, sealed, to)
    ]
  ]

  taken_session :
      (states : LoginStates) (token code : Str) (now : ℕ) (cookie path : Str)
      → (take_state exchange verify seal states token code now).1 ≡ session cookie path
      → (state : LoginState) × (lookup token states ≡ some state)
        × (now ≤ state.expires)
        × ((c : Claims) × (valid_claims c now ≡ true)
            × (valid_nonce c.nonce state.nonce ≡ true)
            × (seal c ≡ some cookie)
            × (path ≡ state.return_path))
  unfolding take_state
  taken_session states token code now cookie path h = elim (Option-cases (lookup token states)) [
    | inl e ↦ absurd (cc (rw (e, take_state) at h))
    | inr (state, e) ↦ elim (Bool-cases (ltb state.expires now)) [
      | inl late ↦ absurd (cc (rw (e, late, take_state) at h))
      | inr early ↦ (
        state,
        e,
        ground arith,
        login_finished state code now cookie path (rw (e, early, take_state) at h),
      )
    ]
  ]

  -- A callback that starts a session does so for a login that this node began and that has not expired,
  -- with an identity that is valid now and has the login's nonce, and it returns to the login's path.
  pub callback_session :
      (configured : Bool) (states : LoginStates) (token code : Str) (now : ℕ) (cookie path : Str)
      → (callback exchange verify seal configured states token code now).1 ≡ session cookie path
      → (state : LoginState) × (lookup token states ≡ some state)
        × (now ≤ state.expires)
        × ((c : Claims) × (valid_claims c now ≡ true)
            × (valid_nonce c.nonce state.nonce ≡ true)
            × (seal c ≡ some cookie)
            × (path ≡ state.return_path))
  unfolding callback
  callback_session false states token code now cookie path h = absurd (cc)
  callback_session true states token code now cookie path h =
      taken_session states token code now cookie path h
