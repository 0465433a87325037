-- ===== src/Dataplane/Pool/Choice.antt =====
-- What `pick` has tried when it returns.
use go_serve.Common.{
  ℕ, zero, suc, ◌+◌, ◌*◌, ◌%◌, ◌≤◌, ◌<◌, ◌≡◌, refl, ap, inl, inr, Bool, true, false, ◌&&◌, Option,
  none, some, List, [], ◌∷◌, arith, length, get_elem?, set, Bool-cases, Option-cases,
}
use native.Mathlib.Decide.{dec_lt}
use go_serve.Dataplane.Breaker.{CircuitBreaker, allow}
use go_serve.Dataplane.Pool.{
  UpstreamPool, word, bump_next, is_healthy, ask_breaker, try_candidate, pick_from, pick,
}

abbrev pub grants : ℕ → Option CircuitBreaker → Bool
grants now none = false
grants now (some b) = (allow now b).1

-- Endpoint `i` is marked healthy, and its breaker would let a request through.
abbrev pub is_available : UpstreamPool → ℕ → ℕ → Bool
is_available p now i = is_healthy p i && grants now (get_elem? p.breakers i)

-- The endpoint that round `k` tries, of `n`, where the counter was `start` at first.
abbrev pub candidate : ℕ → ℕ → ℕ → ℕ
candidate start n k = (start + 1 + 2 * k) % word % n

allow_refused : (now : ℕ) (b : CircuitBreaker) → (allow now b).1 ≡ false → (allow now b).0 ≡ b
unfolding allow
allow_refused now b h = ground arith

set_same {ℓ} :
    {A : Type ℓ} (xs : List A) (i : ℕ) (a : A) → get_elem? xs i ≡ some a → set xs i a ≡ xs
set_same [] i a h = refl
set_same (x ∷ xs) zero a h = ground arith
set_same (x ∷ xs) (suc i) a h = ap (λ l. x ∷ l) (set_same xs i a h)

try_granted : (now i : ℕ) (p : UpstreamPool) → (try_candidate now i p).1 ≡ is_available p now i
unfolding try_candidate ask_breaker
try_granted now i p = ground arith

ask_refused :
    (now i : ℕ) (p : UpstreamPool) → (ask_breaker now i p).1 ≡ false → (ask_breaker now i p).0 ≡ p
unfolding ask_breaker
ask_refused now i p h = elim (Option-cases (get_elem? p.breakers i)) [
  | inl e ↦ rw (e, ask_breaker)
  | inr (b, e) ↦
      let same = allow_refused now b (rw (e, ask_breaker) at h) in
      rw (e, ask_breaker, same, set_same p.breakers i b e)
]

try_refused :
    (now i : ℕ) (p : UpstreamPool)
    → (try_candidate now i p).1 ≡ false
    → (try_candidate now i p).0 ≡ p
unfolding try_candidate
try_refused now i p h = elim (Bool-cases (is_healthy p i)) [
  | inl e ↦ rw (e, try_candidate) (ask_refused now i p (rw (e, try_candidate) at h))
  | inr e ↦ rw (e, try_candidate)
]

-- The breakers once endpoint `i` was asked.
abbrev pub asked : List CircuitBreaker → ℕ → ℕ → List CircuitBreaker
asked breakers now i = elim (get_elem? breakers i) [
  | none ↦ breakers
  | some b ↦ set breakers i (allow now b).0
]

pub record Picked (clock : ℕ → ℕ) (p : UpstreamPool) (start first last : ℕ)
    (r : UpstreamPool × ℕ × Bool) : Type 0 where
  pub round : ℕ
  pub late : first ≤ round
  pub early : round < last
  pub index : r.1 ≡ candidate start (length p.endpoints) round
  pub available : is_available p (clock round) r.1 ≡ true
  pub breakers : r.0.breakers ≡ asked p.breakers (clock round) r.1

next_round : (start k : ℕ) → ((start + k) % word + 1) % word ≡ (start + (k + 1)) % word
next_round start k = omega arith

round_candidate : (start k : ℕ) → ((start + (k + 1)) % word + k) % word ≡ (start + 1 + 2 * k) % word
round_candidate start k = omega arith

try_breakers :
    (now i : ℕ) (p : UpstreamPool)
    → is_available p now i ≡ true
    → (try_candidate now i (bump_next p)).0.breakers ≡ asked p.breakers now i
unfolding try_candidate ask_breaker
try_breakers now i p h = elim (Option-cases (get_elem? p.breakers i)) [
  | inl e ↦ ground arith
  | inr (b, e) ↦ rw (e, try_candidate, ask_breaker) (ground arith)
]

module _ (clock : ℕ → ℕ) (start : ℕ) where
  pick_from_found :
      (rounds k : ℕ) (p : UpstreamPool)
      → p.next ≡ (start + k) % word
      → (pick_from clock rounds k p).2 ≡ true
      → Picked clock p start k (k + rounds) (pick_from clock rounds k p)
  unfolding pick_from
  pick_from_found zero k p e h = cc
  pick_from_found (suc rounds) k p e h =
      let p' = bump_next p in
      let c = (p'.next + k) % word % length p'.endpoints in
      let index : c ≡ candidate start (length p.endpoints) k =
        ap (λ n. n % length p.endpoints) (omega arith) in
      elim (Bool-cases (try_candidate (clock k) c p').1) [
        | inl g ↦
            rw (g, pick_from)
              (record {
                round = k;
                late = omega arith;
                early = omega arith;
                index = index;
                available = ground (arith, try_granted (clock k) c p');
                breakers = try_breakers (clock k) c p (ground (arith, try_granted (clock k) c p'));
              })
        | inr g ↦
            let same = try_refused (clock k) c p' g in
            let later =
              pick_from_found rounds (k + 1) p' (omega arith) (rw (g, pick_from, same) at h) in
            rw (g, pick_from, same)
              (record {
                round = later.round;
                late = omega (arith, later.late);
                early = omega (arith, later.early);
                index = later.index;
                available = later.available;
                breakers = later.breakers;
              })
      ]

  pick_from_missed :
      (rounds k : ℕ) (p : UpstreamPool)
      → p.next ≡ (start + k) % word
      → (pick_from clock rounds k p).2 ≡ false
      → (j : ℕ) → k ≤ j
      → j < k + rounds
      → is_available p (clock j) (candidate start (length p.endpoints) j) ≡ false
  unfolding pick_from
  pick_from_missed zero k p e h j l m = absurd (omega arith)
  pick_from_missed (suc rounds) k p e h j l m =
      let p' = bump_next p in
      let c = (p'.next + k) % word % length p'.endpoints in
      let index : c ≡ candidate start (length p.endpoints) k =
        ap (λ n. n % length p.endpoints) (omega arith) in
      elim (Bool-cases (try_candidate (clock k) c p').1) [
        | inl g ↦ absurd (cc (rw (g, pick_from) at h))
        | inr g ↦
            let same = try_refused (clock k) c p' g in
            elim (dec_lt k j) [
              | yes later ↦
                  pick_from_missed rounds (k + 1) p' (omega arith) (rw (g, pick_from, same) at h) j
                    (omega arith) (omega arith)
              | no now ↦
                  let at_k : k ≡ j = omega arith in
                  let refused : is_available p (clock k) c ≡ false =
                    ground (arith, try_granted (clock k) c p') in
                  rw (← at_k, ← index) refused
            ]
      ]

  pick_from_missed_same :
      (rounds k : ℕ) (p : UpstreamPool)
      → (pick_from clock rounds k p).2 ≡ false
      → ((pick_from clock rounds k p).0.breakers ≡ p.breakers)
        × ((pick_from clock rounds k p).1 ≡ 0)
  unfolding pick_from
  pick_from_missed_same zero k p h = (refl, refl)
  pick_from_missed_same (suc rounds) k p h =
      let p' = bump_next p in
      let c = (p'.next + k) % word % length p'.endpoints in
      elim (Bool-cases (try_candidate (clock k) c p').1) [
        | inl g ↦ absurd (cc (rw (g, pick_from) at h))
        | inr g ↦
            let same = try_refused (clock k) c p' g in
            rw (g, pick_from, same)
              (pick_from_missed_same rounds (k + 1) p' (rw (g, pick_from, same) at h))
      ]

-- With a permit, `pick` returns the endpoint of one of its rounds, which is healthy and whose breaker
-- let the request through; that breaker's step is the only change to the breakers.
pub pick_permitted :
    (clock : ℕ → ℕ) (p : UpstreamPool)
    → p.next < word
    → (pick clock p).2 ≡ true
    → Picked clock p p.next 0 (length p.endpoints) (pick clock p)
unfolding pick
pick_permitted clock p w h =
    let none_before : 0 + length p.endpoints ≡ length p.endpoints = omega arith in
    rw none_before at (pick_from_found clock p.next (length p.endpoints) 0 p (omega arith) h)

-- Without one, each round met an endpoint that is not available, the breakers are as they were, and
-- the request goes to endpoint 0.
pub pick_refused :
    (clock : ℕ → ℕ) (p : UpstreamPool)
    → p.next < word
    → (pick clock p).2 ≡ false
    → ((k : ℕ)
        → k < length p.endpoints
        → is_available p (clock k) (candidate p.next (length p.endpoints) k) ≡ false)
      × ((pick clock p).0.breakers ≡ p.breakers)
      × ((pick clock p).1 ≡ 0)
unfolding pick
pick_refused clock p w h =
    let (same, zeroth) = pick_from_missed_same clock p.next (length p.endpoints) 0 p h in
    (
      λ k m.
          pick_from_missed clock p.next (length p.endpoints) 0 p (omega arith) h k (omega arith)
            (omega arith),
      same,
      zeroth,
    )
