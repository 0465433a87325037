-- ===== src/Dataplane/Retry/Laws.antt =====
-- How often `RoundTrip` calls the base transport, and what it returns.
use go_serve.Common.{
  Returns, ℕ, zero, suc, ◌+◌, ◌≤◌, ◌<◌, ◌≡◌, ◌⊎◌, inl, inr, refl, Bool, true, false, not, Option,
  none, some, arith, ◌||◌, get_elem?, List, ℤ, leb_ℤ, pos, pos_part, neg_part, is_some, Bool-cases,
  Option-cases,
}
use mathlib.Core.Path.{subst, ap, ◌∙◌}
use mathlib.Core.Option
use go_serve.Dataplane.Breaker.{CircuitBreaker, failure}
use go_serve.Dataplane.Retry.{
  Sent, sent, send, admit, round_trip, circuit_open, Reply, Request, Transport, Trip, is_safe,
  is_good, rewind, retry_from,
}

-- One of a response and an error, as `http.RoundTripper` demands.
abbrev pub IsOne : Reply → Type 0
IsOne r = is_some r.response ≡ not (is_some r.error)

Returns-map :
    {A : Type 0} {P Q : A → Type 0} (o : Option A)
    → ((t : A) → P t → Q t)
    → Returns P o
    → Returns Q o
Returns-map none f h = h
Returns-map (some t) f h = f t h

Returns-Option_map :
    {A B : Type 0} {P : A → Type 0} (Q : B → Type 0) (f : A → B)
    → ((a : A) → P a → Q (f a))
    → (o : Option A) → Returns P o
    → Returns Q (Option.map f o)
Returns-Option_map Q f h none r = r
Returns-Option_map Q f h (some a) r = h a r

module _ (transport : Transport) (request : Request) (answers : ℕ → Reply) (clock : ℕ → ℕ) where
  abbrev stops : ℕ → Bool
  stops attempt = leb_ℤ transport.attempts (pos attempt) || not (is_safe request.method)

  pub record Bounded (attempt : ℕ) (t : Trip) : Type 0 where
    pub at_least : attempt < t.calls
    pub retried : t.calls ≤ t.retries + 1
    pub counted : t.retries ≤ t.calls
    pub at_most : t.retries ≤ pos_part transport.attempts
    pub unsafe : is_safe request.method ≡ false → attempt ≡ 0 → t.calls ≡ 1

  -- The results are those of the last call, or those of a rewind after it.
  abbrev pub Last : ℕ → Trip → Type 0
  Last attempt t =
      (k : ℕ) × (attempt ≤ k)
      × (t.calls ≡ k + 1)
      × ((t.reply ≡ answers k) ⊎ (rewind request k (answers k) ≡ some t.reply))

  abbrev Good : ℕ → Trip → Type 0
  Good attempt t = Bounded attempt t × Last attempt t

  Good-later :
      (attempt : ℕ) (t : Trip)
      → Good (attempt + 1) t
      → attempt < pos_part transport.attempts
      → is_safe request.method ≡ true
      → Good attempt t
  Good-later attempt t (b, (k, l, c, r)) m s = (ground arith, (k, omega arith, c, r))

  retry_from-Good :
      (fuel attempt transitions : ℕ) (b : CircuitBreaker)
      → neg_part transport.attempts ≡ 0
      → attempt ≤ pos_part transport.attempts
      → pos_part transport.attempts < fuel + attempt
      → Returns
          (Good attempt)
          (retry_from transport request answers clock fuel attempt transitions b)
  unfolding retry_from
  retry_from-Good zero attempt transitions b n l f = absurd (omega arith)
  retry_from-Good (suc fuel) attempt transitions b n l f =
      elim (Bool-cases (is_good (answers attempt))) [
        | inl good ↦ rw (good, retry_from) (ground arith, (attempt, ground arith, refl, inl refl))
        | inr bad ↦ elim (Bool-cases (stops attempt)) [
          | inl stop ↦
              rw (bad, stop, retry_from) (ground arith, (attempt, ground arith, refl, inl refl))
          | inr go ↦ elim (Option-cases (rewind request attempt (answers attempt))) [
            | inl e ↦
                rw (bad, go, e, retry_from)
                  (Returns-map _ (λ t g. Good-later attempt t g (ground arith) (ground arith))
                    (retry_from-Good fuel (attempt + 1) _ (failure (clock attempt) b) n
                      (ground arith) (omega arith)))
            | inr (stopped, e) ↦
                rw (bad, go, e, retry_from) (ground arith, (attempt, ground arith, refl, inr e))
          ]
        ]
      ]

-- What a finished `RoundTrip` has done.
pub record IsBounded (transport : Transport) (request : Request) (answers : ℕ → Reply) (s : Sent)
    : Type 0 where
  pub retried : s.calls ≤ s.retries + 1
  pub at_most : s.retries ≤ pos_part transport.attempts
  pub unsafe : is_safe request.method ≡ false → s.calls ≤ 1
  pub refused : s.calls ≡ 0 → s.reply ≡ circuit_open
  pub last :
      (k : ℕ)
      → s.calls ≡ k + 1
      → (s.reply ≡ answers k) ⊎ (rewind request k (answers k) ≡ some s.reply)

module _ (transport : Transport) (request : Request) (answers : ℕ → Reply) (clock : ℕ → ℕ) where
  sent-IsBounded :
      (breakers : List CircuitBreaker) (i : ℕ) (t : Trip)
      → Good transport request answers clock 0 t
      → IsBounded transport request answers (sent breakers i t)
  sent-IsBounded breakers i t (b, (k, l, c, r)) = record {
    retried = b.retried;
    at_most = b.at_most;
    unsafe = λ u. omega (arith, b.unsafe u refl);
    refused = λ z. absurd (omega arith);
    last = λ j e.
        let same : k ≡ j = omega arith in
        subst (λ m. (t.reply ≡ answers m) ⊎ (rewind request m (answers m) ≡ some t.reply)) same r;
  }

  send-IsBounded :
      (breakers : List CircuitBreaker) (admitted : Option (ℕ × CircuitBreaker))
      → neg_part transport.attempts ≡ 0
      → Returns
          (IsBounded transport request answers)
          (send transport request answers clock breakers admitted)
  unfolding send
  send-IsBounded breakers none n = record {
    retried = omega arith;
    at_most = omega arith;
    unsafe = λ u. omega arith;
    refused = λ z. refl;
    last = λ k e. absurd (omega arith);
  }
  send-IsBounded breakers (some (i, b)) n =
      Returns-Option_map _ (sent breakers i) (sent-IsBounded breakers i) _ (
        retry_from-Good transport request answers clock (suc (pos_part transport.attempts)) 0 0 b n
          (omega arith) (omega arith))

-- `RoundTrip` returns. It retries at most `attempts` times, a method that is not safe never, and calls
-- the base transport at most once more than it retries; without a call it returns the error of an
-- open circuit, and after the last call either that call's results or those of a failed rewind.
pub round_trip-IsBounded :
    (transport : Transport) (index : Option ℤ) (permit : Option Bool) (now : ℕ) (request : Request)
    (answers : ℕ → Reply) (clock : ℕ → ℕ)
    → neg_part transport.attempts ≡ 0
    → Returns
        (IsBounded transport request answers)
        (round_trip transport index permit now request answers clock)
unfolding round_trip
round_trip-IsBounded transport index permit now request answers clock n =
    let (breakers, admitted) = admit transport index permit now in
    send-IsBounded transport request answers clock breakers admitted n

admit_permitted :
    (transport : Transport) (i now : ℕ) (b : CircuitBreaker)
    → get_elem? transport.breakers i ≡ some b
    → admit transport (some (pos i)) (some true) now ≡ (transport.breakers, some (i, b))
unfolding admit
admit_permitted transport i now b e = rw (e, admit)

abbrev nothing : Reply
nothing = record { response = none; error = none }

module _ (transport : Transport) (request : Request) (answers : ℕ → Reply) (clock : ℕ → ℕ) where
  first_drops :
      (b : CircuitBreaker) (status : ℕ)
      → 0 < pos_part transport.attempts
      → neg_part transport.attempts ≡ 0
      → is_safe request.method ≡ true
      → request.has_body ≡ true
      → request.get_body ≡ none
      → 500 ≤ status
      → answers 0 ≡ record { response = some status; error = none }
      → Returns
          (λ t. t.reply ≡ nothing)
          (retry_from transport request answers clock (suc (pos_part transport.attempts)) 0 0 b)
  unfolding retry_from
  first_drops b status m n safe body get s a =
      let bad : is_good (answers 0) ≡ false = ap is_good a ∙ (unfold is_good in ground arith) in
      let go : stops transport request answers clock 0 ≡ false = ground arith in
      let stopped : rewind request 0 (answers 0) ≡ some nothing =
        ap (rewind request 0) a ∙ (unfold rewind in rw (body, get)) in
      rw (bad, go, stopped, retry_from) refl

-- A request with a body that cannot be rewound, as every request of a server is: where its method is
-- safe, retries are configured and the first answer is a response with a server error, `RoundTrip`
-- drops that response and returns neither a response nor an error.
pub round_trip_drops_response :
    (transport : Transport) (i : ℕ) (b : CircuitBreaker) (now status : ℕ) (request : Request)
    (answers : ℕ → Reply) (clock : ℕ → ℕ)
    → get_elem? transport.breakers i ≡ some b
    → 0 < pos_part transport.attempts
    → neg_part transport.attempts ≡ 0
    → is_safe request.method ≡ true
    → request.has_body ≡ true
    → request.get_body ≡ none
    → 500 ≤ status
    → answers 0 ≡ record { response = some status; error = none }
    → Returns
        (λ s. s.reply ≡ record { response = none; error = none })
        (round_trip transport (some (pos i)) (some true) now request answers clock)
unfolding round_trip
round_trip_drops_response transport i b now status request answers clock at_i m n safe body get s
      a =
    rw (admit_permitted transport i now b at_i, round_trip, send)
      (Returns-Option_map (λ s. s.reply ≡ nothing)
        (sent (admit transport (some (pos i)) (some true) now).0 i) (λ t e. e)
        (retry_from transport request answers clock (suc (pos_part transport.attempts)) 0 0 b)
        (first_drops transport request answers clock b status m n safe body get s a))
