-- ===== src/Dataplane/Retry.antt =====
-- `retryTransport.RoundTrip` of internal/dataplane/server.go. What the base transport answers to each
-- attempt, the times at which failures are recorded and the outcomes of `GetBody` are arguments.
-- A response is its status; closing a body has no effect here.
pub mod Laws
use go_serve.Common.{
  ℕ, zero, suc, ◌+◌, Bool, true, false, not, ◌&&◌, ◌||◌, Option, none, some, List, [], ◌∷◌, leb,
  ltb, if◌then◌else◌, ℤ, pos, negsuc, leb_ℤ, pos_part, Str, bytes, str_eq, is_some, get_elem?, set,
}
use mathlib.Core.Option
use go_serve.Dataplane.Breaker.{CircuitBreaker, allow, success, failure, is_open}

-- `(*http.Response, error)`; both may be nil.
pub record Reply : Type 0 where
  pub response : Option ℕ
  pub error : Option Str

pub record Request : Type 0 where
  pub method : Str
  pub has_body : Bool  -- request.Body != nil && request.Body != http.NoBody
  pub get_body : Option (ℕ → Option Str)  -- `none` for a nil GetBody; else its error, if any

pub record Transport : Type 0 where
  pub attempts : ℤ
  pub has_events : Bool
  pub breakers : List CircuitBreaker

-- What one `RoundTrip` leaves behind: the breaker of its endpoint, the calls of the base transport, of
-- `AddRetry` and of `RecordCircuitTransition`, and the results.
pub record Trip : Type 0 where
  pub breaker : CircuitBreaker
  pub calls : ℕ
  pub retries : ℕ
  pub transitions : ℕ
  pub reply : Reply

unfoldable pub is_safe : Str → Bool
is_safe method =
    str_eq method (bytes "GET")
    || str_eq method (bytes "HEAD")
    || str_eq method (bytes "OPTIONS")
    || str_eq method (bytes "PUT")
    || str_eq method (bytes "DELETE")

-- err == nil && response != nil && response.StatusCode < 500
unfoldable pub is_good : Reply → Bool
is_good reply = elim reply.response [
  | none ↦ false
  | some status ↦ not (is_some reply.error) && ltb status 500
]

-- What stops a retry over the body: `none` to go on, or the results.
unfoldable pub rewind : Request → ℕ → Reply → Option Reply
rewind request attempt reply =
    if request.has_body
    then (elim request.get_body [
      | none ↦ some (record { response = none; error = reply.error })
      | some get ↦ elim (get attempt) [
        | none ↦ none
        | some body_err ↦ some (record { response = none; error = some body_err })
      ]
    ])
    else none

module _ (transport : Transport) (request : Request) (answers : ℕ → Reply) (clock : ℕ → ℕ) where
  -- transport.events != nil && transport.breakers[index].isOpen()
  unfoldable pub transition : CircuitBreaker → ℕ
  transition b = if transport.has_events && is_open b then 1 else 0

  -- The loop from `attempt` on; `none` if the fuel runs out.
  unfoldable pub retry_from : ℕ → ℕ → ℕ → CircuitBreaker → Option Trip
  unfolding transition
  retry_from zero attempt transitions b = none
  retry_from (suc fuel) attempt transitions b =
      let reply = answers attempt in
      let b' = failure (clock attempt) b in
      let transitions' = transitions + transition b' in
      let rest = retry_from fuel (attempt + 1) transitions' b' in
      if is_good reply
      then some (record {
        breaker = success b;
        calls = attempt + 1;
        retries = attempt;
        transitions = transitions;
        reply = reply;
      })
      else if leb_ℤ transport.attempts (pos attempt) || not (is_safe request.method)
      then some (record {
        breaker = b';
        calls = attempt + 1;
        retries = attempt;
        transitions = transitions';
        reply = reply;
      })
      else elim (rewind request attempt reply) [
        | none ↦ rest
        | some stopped ↦ some (record {
          breaker = b';
          calls = attempt + 1;
          retries = attempt + 1;
          transitions = transitions';
          reply = stopped;
        })
      ]

abbrev pub circuit_open : Reply
circuit_open = record { response = none; error = some (bytes "upstream circuit is open") }

-- The breaker that the request is for, with the permit already used or asked for now; `none` where
-- the first test of `RoundTrip` fails. The endpoint's index and the permit come from the context.
unfoldable pub admit :
    Transport → Option ℤ → Option Bool → ℕ → List CircuitBreaker × Option (ℕ × CircuitBreaker)
admit transport (some (pos index)) permit now = elim (get_elem? transport.breakers index) [
  | none ↦ (transport.breakers, none)
  | some b ↦ elim permit [
    | some true ↦ (transport.breakers, some (index, b))
    | _ ↦
        let (b', granted) = allow now b in
        let asked = set transport.breakers index b' in
        (asked, (if granted then some (index, b') else none))
  ]
]
admit transport other permit now = (transport.breakers, none)

-- What a whole `RoundTrip` leaves behind.
pub record Sent : Type 0 where
  pub breakers : List CircuitBreaker
  pub calls : ℕ
  pub retries : ℕ
  pub transitions : ℕ
  pub reply : Reply

abbrev pub refused : List CircuitBreaker → Sent
refused breakers = record {
  breakers = breakers;
  calls = 0;
  retries = 0;
  transitions = 0;
  reply = circuit_open;
}

-- The breaker is shared by pointer: it is written back at its place.
abbrev pub sent : List CircuitBreaker → ℕ → Trip → Sent
sent breakers i trip = record {
  breakers = set breakers i trip.breaker;
  calls = trip.calls;
  retries = trip.retries;
  transitions = trip.transitions;
  reply = trip.reply;
}

module _ (transport : Transport) (request : Request) (answers : ℕ → Reply) (clock : ℕ → ℕ) where
  -- From the first test on; the fuel allows every attempt.
  unfoldable pub send : List CircuitBreaker → Option (ℕ × CircuitBreaker) → Option Sent
  unfolding retry_from
  send breakers none = some (refused breakers)
  send breakers (some (i, b)) =
      Option.map (sent breakers i)
        (retry_from transport request answers clock (suc (pos_part transport.attempts)) 0 0 b)

unfoldable pub round_trip :
    Transport → Option ℤ → Option Bool → ℕ → Request → (ℕ → Reply) → (ℕ → ℕ) → Option Sent
unfolding admit send
round_trip transport index permit now request answers clock =
    let (breakers, admitted) = admit transport index permit now in
    send transport request answers clock breakers admitted
