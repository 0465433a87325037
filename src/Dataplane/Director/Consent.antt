-- ===== src/Dataplane/Director/Consent.antt =====
-- When a proxied request reaches an upstream, and whose breaker it changes.
use mathlib.Core.Option
use go_serve.Common.{
  ℕ, zero, suc, ◌+◌, ◌%◌, ◌<◌, ◌≡◌, ◌≢◌, ◌⊎◌, refl, ap, ◌∙◌, inl, inr, Bool, true, false, Option,
  none, some, List, pos, neg_part, get_elem?, set, get_elem?-set_ne, length, Returns, Option-cases,
  Bool-cases,
}
use go_serve.Dataplane.Breaker.{CircuitBreaker, allow}
use go_serve.Dataplane.Pool.{
  UpstreamPool, word, bump_next, is_healthy, ask_breaker, try_candidate, pick_from, pick,
}
use go_serve.Dataplane.Pool.Choice.{
  is_available, grants, asked, candidate, pick_permitted, pick_refused,
}
use go_serve.Dataplane.Retry.{
  Transport, Request, Reply, Trip, Sent, sent, refused, admit, send, round_trip,
}
use go_serve.Dataplane.Retry.Laws.{IsBounded, round_trip-IsBounded}
use go_serve.Dataplane.Director.{transport_of, Exchange, exchanged, exchange}

ask_attempts :
    (now i : ℕ) (p : UpstreamPool) → (try_candidate now i p).0.retry_attempts ≡ p.retry_attempts
unfolding try_candidate ask_breaker
ask_attempts now i p = elim (Bool-cases (is_healthy p i)) [
  | inr ill ↦ rw (ill, try_candidate) refl
  | inl well ↦ elim (Option-cases (get_elem? p.breakers i)) [
    | inl e ↦ rw (well, e, try_candidate, ask_breaker) refl
    | inr (b, e) ↦ rw (well, e, try_candidate, ask_breaker) refl
  ]
]

pick_attempts :
    (clock : ℕ → ℕ) (rounds k : ℕ) (p : UpstreamPool)
    → (pick_from clock rounds k p).0.retry_attempts ≡ p.retry_attempts
unfolding pick_from
pick_attempts clock zero k p = refl
pick_attempts clock (suc rounds) k p =
    let p' = bump_next p in
    let c = (p'.next + k) % word % length p'.endpoints in
    elim (Bool-cases (try_candidate (clock k) c p').1) [
      | inl g ↦ rw (g, pick_from) (ask_attempts (clock k) c p')
      | inr g ↦
          rw (g, pick_from)
            (pick_attempts clock rounds (k + 1) (try_candidate (clock k) c p').0
              ∙ ask_attempts (clock k) c p')
    ]

abbrev Unchanged : List CircuitBreaker → List CircuitBreaker → ℕ → Type 0
Unchanged before after i = (j : ℕ) → i ≢ j → get_elem? after j ≡ get_elem? before j

asked-Unchanged :
    (breakers : List CircuitBreaker) (now i : ℕ) → Unchanged breakers (asked breakers now i) i
asked-Unchanged breakers now i j ne = elim (Option-cases (get_elem? breakers i)) [
  | inl e ↦ rw (e, asked) refl
  | inr (b, e) ↦ rw (e, asked) (get_elem?-set_ne breakers i j (allow now b).0 ne)
]

-- What one `RoundTrip` for endpoint `i` does, `permitted` or not.
abbrev Careful : List CircuitBreaker → ℕ → Bool → ℕ → Sent → Type 0
Careful breakers i permitted now s =
    Unchanged breakers s.breakers i
    × (permitted ≡ false → s.calls ≢ 0 → grants now (get_elem? breakers i) ≡ true)

module _ (transport : Transport) (request : Request) (answers : ℕ → Reply) (clock : ℕ → ℕ) where
  trip-Unchanged :
      (breakers : List CircuitBreaker) (i : ℕ) (b : CircuitBreaker) (s : Sent)
      → send transport request answers clock breakers (some (i, b)) ≡ some s
      → Unchanged breakers s.breakers i
  unfolding send
  trip-Unchanged breakers i b s h = trips _ h
    where
      trips :
          (t : Option Trip)
          → Option.map (sent breakers i) t ≡ some s
          → Unchanged breakers s.breakers i
      trips none e j ne = absurd (cc)
      trips (some t) e j ne =
          let is : sent breakers i t ≡ s = cc in
          rw (← is) (get_elem?-set_ne breakers i j t.breaker ne)

  refused_calls :
      (breakers : List CircuitBreaker) (s : Sent)
      → send transport request answers clock breakers none ≡ some s
      → (s.calls ≡ 0) × (s.breakers ≡ breakers)
  unfolding send
  refused_calls breakers s h =
      let is : refused breakers ≡ s = cc in (rw (← is) refl, rw (← is) refl)

  round_trip-Careful :
      (i : ℕ) (permitted : Bool) (now : ℕ) (s : Sent)
      → round_trip transport (some (pos i)) (some permitted) now request answers clock ≡ some s
      → Careful transport.breakers i permitted now s
  unfolding round_trip admit
  round_trip-Careful i permitted now s h = elim (Option-cases (get_elem? transport.breakers i)) [
    | inl e ↦
        let (none_sent, same) =
          refused_calls transport.breakers s (rw (e, round_trip, admit) at h) in
        (λ j ne. rw same refl, λ p sends. absurd (sends none_sent))
    | inr (b, e) ↦ elim (Bool-cases permitted) [
      | inl granted ↦ (
        trip-Unchanged transport.breakers i b s (rw (e, granted, round_trip, admit) at h),
        λ p sends. absurd (cc),
      )
      | inr asks ↦ elim (Bool-cases (allow now b).1) [
        | inl lets ↦
            let after =
              trip-Unchanged (set transport.breakers i (allow now b).0) i (allow now b).0 s
                (rw (e, asks, lets, round_trip, admit) at h) in
            (
              λ j ne. after j ne ∙ get_elem?-set_ne transport.breakers i j (allow now b).0 ne,
              λ p sends. rw e lets,
            )
        | inr stops ↦
            let (none_sent, same) =
              refused_calls (set transport.breakers i (allow now b).0) s
                (rw (e, asks, stops, round_trip, admit) at h) in
            (
              λ j ne. rw same (get_elem?-set_ne transport.breakers i j (allow now b).0 ne),
              λ p sends. absurd (sends none_sent),
            )
      ]
    ]
  ]

-- Who let a request through: a round of `pick` met the endpoint available, or no round met one, and it
-- is endpoint 0, whose breaker lets it through at `now`.
abbrev pub Consents : (ℕ → ℕ) → UpstreamPool → ℕ → ℕ → Type 0
Consents clock p now i =
    ((round : ℕ) × (round < length p.endpoints)
      × (i ≡ candidate p.next (length p.endpoints) round)
      × (is_available p (clock round) i ≡ true))
    ⊎ ((i ≡ 0)
        × (grants now (get_elem? p.breakers 0) ≡ true)
        × ((round : ℕ)
            → round < length p.endpoints
            → is_available p (clock round) (candidate p.next (length p.endpoints) round) ≡ false))

-- What an exchange keeps to.
pub record IsConsented (clock : ℕ → ℕ) (p : UpstreamPool) (now : ℕ) (e : Exchange) : Type 0 where
  pub consent : e.sent.calls ≢ 0 → Consents clock p now e.endpoint
  pub others : (j : ℕ) → e.endpoint ≢ j → get_elem? e.pool.breakers j ≡ get_elem? p.breakers j

module _ (clock : ℕ → ℕ) (p : UpstreamPool) (now : ℕ) (room : p.next < word) where
  sent-IsConsented :
      (s : Sent)
      → Careful (pick clock p).0.breakers (pick clock p).1 (pick clock p).2 now s
      → IsConsented clock p now (exchanged (pick clock p).0 (pick clock p).1 s)
  sent-IsConsented s (kept, asks) = elim (Bool-cases (pick clock p).2) [
    | inl e ↦
        let picked = pick_permitted clock p room e in
        record {
          consent = λ sends. inl (picked.round, picked.early, picked.index, picked.available);
          others = λ j ne.
              kept j ne
              ∙ ap (λ l. get_elem? l j) picked.breakers
              ∙ asked-Unchanged p.breakers (clock picked.round) (pick clock p).1 j ne;
        }
    | inr e ↦
        let (missed, same, zeroth) = pick_refused clock p room e in
        record {
          consent =
              λ sends. let lets = asks e sends in inr (zeroth, (rw (same, zeroth) at lets), missed);
          others = λ j ne. kept j ne ∙ ap (λ l. get_elem? l j) same;
        }
  ]

-- A request that the proxy sends to a pool, with no other request's steps between its own, comes to an
-- end. It calls the upstream only with the consent of the breaker of the endpoint that it is directed
-- to, in a round of `pick` that found it healthy, or, where all rounds failed, at endpoint 0 and then;
-- no other endpoint's breaker changes; and it was retried no more often than the pool allows, and never
-- where its method is not safe.
pub exchange-IsConsented :
    (clock : ℕ → ℕ) (p : UpstreamPool) (events : Bool) (now : ℕ) (request : Request)
    (answers : ℕ → Reply) (times : ℕ → ℕ)
    → p.next < word
    → neg_part p.retry_attempts ≡ 0
    → Returns
        (λ e.
          IsConsented clock p now e
          × IsBounded (transport_of (pick clock p).0 events) request answers e.sent)
        (exchange clock p events now request answers times)
unfolding exchange pick
exchange-IsConsented clock p events now request answers times room retries =
    let (p', index, permitted) = pick clock p in
    let t = transport_of p' events in
    finish (round_trip t (some (pos index)) (some permitted) now request answers times)
      (round_trip-IsBounded t (some (pos index)) (some permitted) now request answers times
        (ap neg_part (pick_attempts clock (length p.endpoints) 0 p) ∙ retries))
      (λ s h. round_trip-Careful t request answers times index permitted now s h)
  where
    finish :
        (o : Option Sent)
        → Returns (IsBounded (transport_of (pick clock p).0 events) request answers) o
        → ((s : Sent)
            → o ≡ some s
            → Careful (pick clock p).0.breakers (pick clock p).1 (pick clock p).2 now s)
        → Returns
            (λ (e : Exchange).
              IsConsented clock p now e
              × IsBounded (transport_of (pick clock p).0 events) request answers e.sent)
            (Option.map (exchanged (pick clock p).0 (pick clock p).1) o)
    finish none b c = b
    finish (some s) b c = (sent-IsConsented clock p now room s (c s refl), b)
