-- ===== src/ControlPlane/Version/Decimal.antt =====
-- A printed version is read back.
use mathlib.Core.List.{reverse, reverse-append, reverse-reverse, reverse-cons}
use go_serve.Common.{
  inc_i64, ℕ, zero, suc, ◌+◌, ◌-◌, ◌*◌, ◌/◌, ◌%◌, ◌^◌, ◌<◌, ◌≡◌, ◌≢◌, refl, sym, ap, ◌∙◌, inl, inr,
  Bool, true, false, some, [], ◌∷◌, ◌++◌, arith, ◌==◌, ltb, if◌then◌else◌, ℤ, pos, negsuc, Str,
  trim, trim_space, drop_while, is_space, Result, ok, err, All, Bool-cases, All-append,
}
use go_serve.ControlPlane.Version.{
  digits, format_int, etag, quote, is_digit, parse_digits, parse_uint, parse_int, require_version,
  same_int, VersionError, version_conflict,
}

parse_digits-append :
    (acc n : ℕ) (s : Str) (c : ℕ)
    → parse_digits acc s ≡ some n
    → is_digit c ≡ true
    → parse_digits acc (s ++ c ∷ []) ≡ some (n * 10 + (c - b'0'))
unfolding parse_digits
parse_digits-append acc n [] c h d = ground arith
parse_digits-append acc n (x ∷ s) c h d = elim (Bool-cases (is_digit x)) [
  | inl e ↦
      rw (e, parse_digits)
        (parse_digits-append (acc * 10 + (x - b'0')) n s c (rw (e, parse_digits) at h) d)
  | inr e ↦ absurd (cc (rw (e, parse_digits) at h))
]

parse-digits : (fuel n : ℕ) → n < fuel → parse_digits 0 (digits fuel n) ≡ some n
unfolding digits
parse-digits zero n h = absurd (omega arith)
parse-digits (suc fuel) n h = elim (Bool-cases (ltb n 10)) [
  | inl e ↦ rw (e, digits) (unfold parse_digits in ground arith)
  | inr e ↦
      rw (e, digits)
        (parse_digits-append 0 (n / 10) (digits fuel (n / 10)) (b'0' + n % 10)
            (parse-digits fuel (n / 10) (ground arith)) (ground arith)
          ∙ ap some (omega arith))
]

abbrev IsDigit : ℕ → Type 0
IsDigit c = is_digit c ≡ true

digits-IsDigit : (fuel n : ℕ) → All IsDigit (digits fuel n)
unfolding digits
digits-IsDigit zero n = tt
digits-IsDigit (suc fuel) n = elim (Bool-cases (ltb n 10)) [
  | inl e ↦ rw (e, digits) (ground arith, tt)
  | inr e ↦
      rw (e, digits)
        (All-append IsDigit (digits fuel (n / 10)) ((b'0' + n % 10) ∷ [])
          (digits-IsDigit fuel (n / 10)) (ground arith, tt))
]

digits-ne-nil : (fuel n : ℕ) → digits (suc fuel) n ≢ []
unfolding digits
digits-ne-nil fuel n h = elim (Bool-cases (ltb n 10)) [
  | inl e ↦ absurd (cc (rw (e, digits) at h))
  | inr e ↦ append-ne-nil (digits fuel (n / 10)) (b'0' + n % 10) (rw (e, digits) at h)
]
  where
    append-ne-nil : (xs : Str) (c : ℕ) → (xs ++ c ∷ []) ≢ []
    append-ne-nil [] c e = cc
    append-ne-nil (x ∷ xs) c e = cc

parse_uint-digits : (n : ℕ) → parse_uint (digits (suc n) n) ≡ some n
parse_uint-digits n =
    go (digits (suc n) n) (parse-digits (suc n) n (omega arith)) (digits-ne-nil n n)
  where
    go : (s : Str) → parse_digits 0 s ≡ some n → s ≢ [] → parse_uint s ≡ some n
    go [] h k = absurd (k refl)
    go (c ∷ s) h k = unfold parse_uint in h

abbrev pub InRange : ℤ → Type 0
InRange (pos n) = n < 2 ^ 63
InRange (negsuc n) = n < 2 ^ 63

nothing_read : (n : ℕ) → parse_uint [] ≢ some n
unfolding parse_uint
nothing_read n h = cc

parse_int_unsigned :
    (s : Str) (n : ℕ)
    → All IsDigit s
    → parse_uint s ≡ some n
    → n < 2 ^ 63
    → parse_int s ≡ some (pos n)
unfolding parse_int
parse_int_unsigned [] n d h l = absurd (nothing_read n h)
parse_int_unsigned (c ∷ s) n (d, ds) h l = ground arith

-- What `FormatInt` prints, `ParseInt` reads.
parse_int-format_int : (v : ℤ) → InRange v → parse_int (format_int v) ≡ some v
unfolding format_int
parse_int-format_int (pos n) h =
    parse_int_unsigned (digits (suc n) n) n (digits-IsDigit (suc n) n) (parse_uint-digits n) h
parse_int-format_int (negsuc n) h =
    let read = parse_uint-digits (suc n) in unfold parse_int in ground arith

abbrev Fails : (ℕ → Bool) → ℕ → Type 0
Fails p c = p c ≡ false

drop_while-All : (p : ℕ → Bool) (s : Str) → All (Fails p) s → drop_while p s ≡ s
unfolding drop_while
drop_while-All p [] h = refl
drop_while-All p (c ∷ s) (h, hs) = rw h

All-reverse : (P : ℕ → Type 0) (s : Str) → All P s → All P (reverse s)
All-reverse P [] h = tt
All-reverse P (c ∷ s) (h, hs) =
    rw reverse-cons (All-append P (reverse s) (c ∷ []) (All-reverse P s hs) (h, tt))

drop_head : (p : ℕ → Bool) (c : ℕ) (s : Str) → p c ≡ true → drop_while p (c ∷ s) ≡ drop_while p s
unfolding drop_while
drop_head p c s h = rw h

keep_head : (p : ℕ → Bool) (c : ℕ) (s : Str) → p c ≡ false → drop_while p (c ∷ s) ≡ c ∷ s
unfolding drop_while
keep_head p c s h = rw h

trim_lem : (p : ℕ → Bool) (s : Str) → trim p s ≡ reverse (drop_while p (reverse (drop_while p s)))
unfolding trim
trim_lem p s = refl

-- Trimming takes one `q` off each end of a text that holds nothing to be trimmed.
trim-around :
    (p : ℕ → Bool) (q c : ℕ) (s : Str)
    → p q ≡ true
    → All (Fails p) (c ∷ s)
    → trim p (q ∷ (c ∷ s ++ q ∷ [])) ≡ c ∷ s
trim-around p q c s hq (h, hs) =
    let front = drop_head p q (c ∷ (s ++ q ∷ [])) hq ∙ keep_head p c (s ++ q ∷ []) h in
    let turned = reverse-append (c ∷ s) (q ∷ []) in
    let back =
      drop_head p q (reverse (c ∷ s)) hq
      ∙ drop_while-All p (reverse (c ∷ s)) (All-reverse (Fails p) (c ∷ s) (h, hs)) in
    trim_lem p _
    ∙ ap (λ t. reverse (drop_while p (reverse t))) front
    ∙ ap (λ t. reverse (drop_while p t)) turned
    ∙ ap reverse back
    ∙ reverse-reverse (c ∷ s)

trim_space-quoted : (s : Str) → trim_space (quote ∷ (s ++ quote ∷ [])) ≡ quote ∷ (s ++ quote ∷ [])
unfolding trim_space
trim_space-quoted s =
    let turned = reverse-append (quote ∷ s) (quote ∷ []) in
    trim_lem is_space (quote ∷ (s ++ quote ∷ []))
    ∙ ap (λ t. reverse (drop_while is_space (reverse t)))
        (keep_head is_space quote (s ++ quote ∷ []) refl)
    ∙ ap (λ t. reverse (drop_while is_space t)) turned
    ∙ ap reverse (keep_head is_space quote (reverse (quote ∷ s)) refl ∙ sym turned)
    ∙ reverse-reverse (quote ∷ (s ++ quote ∷ []))

not_quotes : (s : Str) → All IsDigit s → All (Fails (λ c. c == quote)) s
not_quotes [] h = tt
not_quotes (c ∷ s) (h, hs) = (ground arith, not_quotes s hs)

not_quote : (v : ℤ) → All (Fails (λ c. c == quote)) (format_int v)
unfolding format_int
not_quote (pos n) = not_quotes (digits (suc n) n) (digits-IsDigit (suc n) n)
not_quote (negsuc n) =
    (refl, not_quotes (digits (suc (suc n)) (suc n)) (digits-IsDigit (suc (suc n)) (suc n)))

no_version : (v : ℤ) → parse_int [] ≢ some v
unfolding parse_int
no_version v h = cc

-- What the check answers to a request whose `If-Match` is the version `want`.
abbrev pub compared : ℤ → ℤ → Result VersionError (Unit {0})
compared version want = if same_int want version then ok tt else err (version_conflict version want)

-- A text that reads as a version is compared with the current one.
read_compared :
    (v want : ℤ) (text : Str)
    → parse_int text ≡ some want
    → All (Fails (λ c. c == quote)) text
    → require_version v (quote ∷ (text ++ quote ∷ [])) ≡ compared v want
unfolding require_version
read_compared v want [] h n = absurd (no_version want h)
read_compared v want (c ∷ s) h n =
    let value =
      ap (trim (λ d. d == quote)) (trim_space-quoted (c ∷ s))
      ∙ trim-around (λ d. d == quote) quote c s refl n in
    rw (value, h)

-- A request whose `If-Match` is the `ETag` of a version passes the check when that is the current
-- version, and is otherwise refused as a conflict between the two.
pub require_version-etag :
    (v want : ℤ) → InRange want → require_version v (etag want) ≡ compared v want
unfolding etag
require_version-etag v want h =
    read_compared v want (format_int want) (parse_int-format_int want h) (not_quote want)

compared_same : (v : ℤ) → compared v v ≡ ok tt
compared_same (pos a) = ground arith
compared_same (negsuc a) = ground arith

compared_next : (v : ℤ) → InRange v → compared (inc_i64 v) v ≡ err (version_conflict (inc_i64 v) v)
unfolding inc_i64
compared_next (pos a) h = ground arith
compared_next (negsuc zero) h = refl
compared_next (negsuc (suc a)) h = ground arith

-- The tag of the current version passes.
pub require_version-current : (v : ℤ) → InRange v → require_version v (etag v) ≡ ok tt
require_version-current v h = require_version-etag v v h ∙ compared_same v

-- The tag of a version is refused as a conflict once the version has been incremented.
pub require_version-stale :
    (v : ℤ)
    → InRange v
    → require_version (inc_i64 v) (etag v) ≡ err (version_conflict (inc_i64 v) v)
require_version-stale v h = require_version-etag (inc_i64 v) v h ∙ compared_next v h
