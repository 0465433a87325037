-- ===== src/ControlPlane/Version.antt =====
-- The version in `If-Match` and `ETag`: `requireVersionLocked` and `etag` of
-- internal/controlplane/server.go, with `strconv.ParseInt` and `FormatInt` in base 10.
pub mod Decimal
use go_serve.Common.{
  ℕ, zero, suc, ◌+◌, ◌-◌, ◌*◌, ◌/◌, ◌%◌, ◌^◌, Bool, true, false, not, ◌&&◌, ◌||◌, Option, none,
  some, List, [], ◌∷◌, ◌++◌, ◌==◌, ltb, leb, if◌then◌else◌, ℤ, pos, negsuc, Str, is_empty, trim,
  trim_space, Result, ok, err,
}

-- The digits of `n`, the first one first; the fuel is more than their number.
unfoldable pub digits : ℕ → ℕ → Str
digits zero n = []
digits (suc fuel) n =
    let front = digits fuel (n / 10) in
    if ltb n 10 then (b'0' + n) ∷ [] else front ++ (b'0' + n % 10) ∷ []

unfoldable pub format_int : ℤ → Str
unfolding digits
format_int (pos n) = digits (suc n) n
format_int (negsuc n) = b'-' ∷ digits (suc (suc n)) (suc n)

abbrev pub quote : ℕ
quote = 34

unfoldable pub etag : ℤ → Str
unfolding format_int
etag version = quote ∷ (format_int version ++ quote ∷ [])

abbrev pub is_digit : ℕ → Bool
is_digit c = leb b'0' c && leb c b'9'

-- The value of a text of digits, from the value of those before.
unfoldable pub parse_digits : ℕ → Str → Option ℕ
parse_digits acc [] = some acc
parse_digits acc (c ∷ s) =
    let rest = parse_digits (acc * 10 + (c - b'0')) s in if is_digit c then rest else none

-- ParseUint of what follows the sign; there must be a digit.
unfoldable pub parse_uint : Str → Option ℕ
unfolding parse_digits
parse_uint [] = none
parse_uint (c ∷ s) = parse_digits 0 (c ∷ s)

abbrev pub in_range : ℕ → (ℕ → ℤ) → Option ℕ → Option ℤ
in_range limit make none = none
in_range limit make (some n) = if ltb n limit then some (make n) else none

abbrev pub negate : ℕ → ℤ
negate zero = pos 0
negate (suc n) = negsuc n

unfoldable pub parse_int : Str → Option ℤ
unfolding parse_uint
parse_int [] = none
parse_int (c ∷ s) =
    if c == b'-'
    then in_range (2 ^ 63 + 1) negate (parse_uint s)
    else if c == b'+'
    then in_range (2 ^ 63) pos (parse_uint s)
    else in_range (2 ^ 63) pos (parse_uint (c ∷ s))

pub data VersionError : Type 0 where
  match_required match_malformed : VersionError
  version_conflict : ℤ → ℤ → VersionError

abbrev pub same_int : ℤ → ℤ → Bool
same_int (pos a) (pos b) = a == b
same_int (negsuc a) (negsuc b) = a == b
same_int _ _ = false

-- `if_match` is the header, empty where it is absent.
unfoldable pub require_version : ℤ → Str → Result VersionError (Unit {0})
unfolding parse_int
require_version version if_match =
    let value = trim (λ c. c == quote) (trim_space if_match) in
    if is_empty value then err match_required else elim (parse_int value) [
      | none ↦ err match_malformed
      | some want ↦ if same_int want version then ok tt else err (version_conflict version want)
    ]
