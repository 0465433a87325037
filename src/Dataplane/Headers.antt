-- ===== src/Dataplane/Headers.antt =====
-- `stripTrustedHeaders` and `applyRouteHeaders` of internal/dataplane/server.go. A header maps
-- canonical names to their values; `Del` of a canonical name removes them, and `Set` leaves one.
use go_serve.Common.{
  ◌≡◌, refl, sym, ap, ◌∙◌, inl, inr, Bool, true, ◌||◌, none, List, [], ◌∷◌, arith, if◌then◌else◌,
  Str, bytes, str_eq, str_eq_iff, Bool-cases,
}
use go_serve.Common.Dict.{str_Eq, lookup, insert, delete, lookup-insert, lookup-delete}

abbrev pub Header : Type 0
Header = List (Str × List Str)

abbrev pub subject : Str
subject = bytes "X-Authenticated-Subject"

abbrev pub email : Str
email = bytes "X-Authenticated-Email"

abbrev pub scopes : Str
scopes = bytes "X-Authenticated-Scopes"

-- The names that carry who was authenticated.
abbrev pub is_trusted : Str → Bool
is_trusted k = str_eq subject k || str_eq email k || str_eq scopes k

-- The names that a route's headers cannot set.
abbrev pub is_protected : Str → Bool
is_protected k = is_trusted k || str_eq (bytes "Authorization") k || str_eq (bytes "Cookie") k

unfoldable pub strip_trusted_headers : Header → Header
strip_trusted_headers h = delete scopes (delete email (delete subject h))

module _ (canonical_header_key : Str → Str) where
  unfoldable pub apply_route_headers : Header → List (Str × Str) → Header
  apply_route_headers h [] = h
  apply_route_headers h ((key, value) ∷ headers) =
      let canonical = canonical_header_key key in
      apply_route_headers (if is_protected canonical then h else insert canonical (value ∷ []) h)
        headers

  set_unprotected :
      (k t : Str) (v : List Str) (h : Header)
      → is_protected t ≡ true
      → lookup t (if is_protected k then h else insert k v h) ≡ lookup t h
  set_unprotected k t v h p = elim (Bool-cases (is_protected k)) [
    | inl e ↦ rw e refl
    | inr e ↦ elim (Bool-cases (str_eq k t)) [
      | inl same ↦
          let at : k ≡ t = (str_eq_iff k t).0 same in absurd (cc (sym e ∙ ap is_protected at ∙ p))
      | inr other ↦ rw e (lookup-insert k t v h ∙ rw other refl)
    ]
  ]

  -- The headers of a route change no protected name.
  pub lookup-apply_route_headers :
      (t : Str) (h : Header) (headers : List (Str × Str))
      → is_protected t ≡ true
      → lookup t (apply_route_headers h headers) ≡ lookup t h
  unfolding apply_route_headers
  lookup-apply_route_headers t h [] p = refl
  lookup-apply_route_headers t h ((k, v) ∷ headers) p =
      let c = canonical_header_key k in
      lookup-apply_route_headers t (if is_protected c then h else insert c (v ∷ []) h) headers p
      ∙ set_unprotected c t (v ∷ []) h p

-- A request that was stripped has no trusted name.
pub lookup-strip_trusted_headers :
    (t : Str) (h : Header) → is_trusted t ≡ true → lookup t (strip_trusted_headers h) ≡ none
unfolding strip_trusted_headers
lookup-strip_trusted_headers t h p =
    lookup-delete scopes t (delete email (delete subject h))
    ∙ (let second = lookup-delete email t (delete subject h) in
        let first = lookup-delete subject t h in ground arith)
