-- ===== src/Dataplane/Paths.antt =====
-- Host and path functions of internal/dataplane/server.go, with `net.SplitHostPort`.
use go_serve.Common.{
  ℕ, ◌≡◌, refl, Bool, true, false, not, ◌&&◌, ◌||◌, Option, none, some, [], ◌∷◌, ◌++◌, ◌==◌,
  if◌then◌else◌, Str, bytes, str_eq, has_prefix, has_suffix, trim_suffix, to_lower, is_empty,
}

-- strings.IndexByte(s, c) >= 0
unfoldable pub has_byte : ℕ → Str → Bool
has_byte c [] = false
has_byte c (d ∷ s) = d == c || has_byte c s

-- The text before and after the first `c`.
unfoldable pub cut : ℕ → Str → Option (Str × Str)
cut c [] = none
cut c (d ∷ s) =
    let rest = cut c s in
    if d == c then some ([], s) else elim rest [ none ↦ none | some (a, b) ↦ some (d ∷ a, b) ]

-- The host of `host:port`; `none` where `net.SplitHostPort` returns an error.
split_plain : Str → Option Str
split_plain s = elim (cut b':' s) [
  | none ↦ none
  | some (host, port) ↦
      if has_byte b':' port || has_byte b'[' s || has_byte b']' s then none else some host
]

-- The host of `[host]:port`, from behind the bracket.
split_bracketed : Str → Option Str
split_bracketed s = elim (cut b']' s) [
  | none ↦ none
  | some (host, []) ↦ none
  | some (host, d ∷ port) ↦
      if not (d == b':') || has_byte b':' port || has_byte b'[' s || has_byte b']' port
      then none
      else some host
]

unfoldable pub split_host_port : Str → Option Str
unfolding split_plain split_bracketed has_byte cut
split_host_port [] = none
split_host_port (c ∷ s) = if c == b'[' then split_bracketed s else split_plain (c ∷ s)

abbrev or_else : Option Str → Str → Str
or_else none s = s
or_else (some t) s = t

unfoldable pub normalize_host : Str → Str
unfolding split_host_port to_lower trim_suffix
normalize_host value =
    let host = or_else (split_host_port value) value in to_lower (trim_suffix host (bytes "."))

abbrev pub slash : Str
slash = b'/' ∷ []

unfoldable pub path_matches : Str → Str → Bool
path_matches prefix request_path =
    if str_eq prefix slash
    then true
    else str_eq request_path prefix || has_prefix request_path (trim_suffix prefix slash ++ slash)

-- requestPath[1:]
abbrev pub tail : Str → Str
tail [] = []
tail (c ∷ s) = s

unfoldable pub join_url_path : Str → Str → Str
join_url_path base request_path =
    if is_empty base
    then request_path
    else if is_empty request_path
    then base
    else if has_suffix base slash && has_prefix request_path slash
    then base ++ tail request_path
    else if not (has_suffix base slash) && not (has_prefix request_path slash)
    then base ++ slash ++ request_path
    else base ++ request_path

host_tests :
    (normalize_host (bytes "API.Example.com:8080") ≡ bytes "api.example.com")
    × (normalize_host (bytes "example.com.") ≡ bytes "example.com")
    × (normalize_host (bytes "[::1]:443") ≡ bytes "::1")
    × (normalize_host (bytes "::1") ≡ bytes "::1")
unfolding normalize_host bytes str_eq
host_tests = (refl, refl, refl, refl)

path_tests :
    (path_matches (bytes "/api") (bytes "/api/v1") ≡ true)
    × (path_matches (bytes "/api/") (bytes "/api/v1") ≡ true)
    × (path_matches (bytes "/api") (bytes "/apix") ≡ false)
    × (join_url_path (bytes "/base/") (bytes "/x") ≡ bytes "/base/x")
    × (join_url_path (bytes "/base") (bytes "x") ≡ bytes "/base/x")
unfolding path_matches join_url_path bytes str_eq has_prefix has_suffix trim_suffix
path_tests = (refl, refl, refl, refl, refl)
