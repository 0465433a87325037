-- ===== src/Auth/Verifier/Worded.antt =====
-- The scopes that a token gives.
use go_serve.Common.{
  ℕ, ◌≡◌, refl, inl, inr, false, Option, some, List, [], ◌∷◌, ◌++◌, ℤ, Str, is_empty, is_space, All,
  Bool-cases, Option-cases,
}
use go_serve.Auth.{Claims}
use go_serve.Auth.Verifier.{add_word, fields_from, fields, TokenClaims, to_claims, verify}

abbrev NoSpace : Str → Type 0
NoSpace = All (λ c. is_space c ≡ false)

-- A word has a byte, and none that is white space.
abbrev pub IsWord : Str → Type 0
IsWord s = (is_empty s ≡ false) × All (λ c. is_space c ≡ false) s

add_word-IsWord :
    (word : Str) (words : List Str)
    → NoSpace word
    → All IsWord words
    → All IsWord (add_word word words)
add_word-IsWord [] words n a = a
add_word-IsWord (c ∷ word) words n a = ((refl, n), a)

NoSpace-snoc : (word : Str) (c : ℕ) → NoSpace word → is_space c ≡ false → NoSpace (word ++ c ∷ [])
NoSpace-snoc [] c n e = (e, tt)
NoSpace-snoc (d ∷ word) c (m, n) e = (m, NoSpace-snoc word c n e)

fields_from-IsWord : (word s : Str) → NoSpace word → All IsWord (fields_from word s)
unfolding fields_from
fields_from-IsWord word [] n = add_word-IsWord word [] n tt
fields_from-IsWord word (c ∷ s) n = elim (Bool-cases (is_space c)) [
  | inl cut ↦
      rw (cut, fields_from) (add_word-IsWord word (fields_from [] s) n (fields_from-IsWord [] s tt))
  | inr on ↦ rw (on, fields_from) (fields_from-IsWord (word ++ c ∷ []) s (NoSpace-snoc word c n on))
]

-- The scopes of an identity that a token gives are words: whatever the token's text of scopes holds, none
-- of them is empty or has white space in it.
pub verify-IsWord :
    {T : Type 0} (verify_token : Str → Option T) (claims_of : T → Option TokenClaims) (unix : ℤ → ℕ)
    (raw : Str) (c : Claims)
    → verify verify_token claims_of unix raw ≡ some c
    → All IsWord c.scopes
unfolding verify fields
verify-IsWord verify_token claims_of unix raw c h = elim (Option-cases (verify_token raw)) [
  | inl e ↦ absurd (cc (rw (e, verify) at h))
  | inr (token, e) ↦ elim (Option-cases (claims_of token)) [
    | inl e' ↦ absurd (cc (rw (e, e', verify) at h))
    | inr (value, e') ↦
        let same : some (to_claims verify_token claims_of unix value) ≡ some c =
          rw (e, e', verify) at h in
        let is : to_claims verify_token claims_of unix value ≡ c = cc in
        rw (← is) (fields_from-IsWord [] value.scope tt)
  ]
]
