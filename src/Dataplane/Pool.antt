-- ===== src/Dataplane/Pool.antt =====
-- `upstreamPool` of internal/dataplane/server.go: the selection of an endpoint, and its health.
-- The pool's transports and proxy are library objects; what a call of them returns is an argument.
-- The counters and the flags are atomics, and each function below is one run of the Go function with
-- no other goroutine between its steps; `clock i` is the time that the i-th `time.Now()` in it reads.
pub mod Sized
pub mod Choice
pub mod Cycle
pub mod Health
use go_serve.Common.{
  ℕ, zero, suc, ◌+◌, ◌%◌, ◌^◌, Bool, true, false, ◌&&◌, ◌||◌, Option, none, some, List, [], ◌∷◌,
  leb, ltb, if◌then◌else◌, length, get_elem?, set, ℤ, Str,
}
use go_serve.Config.{Url}
use go_serve.Dataplane.Breaker.{CircuitBreaker, allow, success}

pub record UpstreamPool : Type 0 where
  pub name : Str
  pub endpoints : List Url
  pub next : ℕ  -- uint64
  pub request_timeout : ℤ
  pub health_path : Str
  pub health_interval : ℤ
  pub retry_attempts : ℤ
  pub healthy : List Bool
  pub breakers : List CircuitBreaker

abbrev pub word : ℕ
word = 2 ^ 64

-- u.next.Add(1)
abbrev pub bump_next : UpstreamPool → UpstreamPool
bump_next p = record p { next = (p.next + 1) % word }

-- u.healthy[candidate].Load(); `false` out of range, which `IsSized` rules out.
abbrev pub is_healthy : UpstreamPool → ℕ → Bool
is_healthy p i = elim (get_elem? p.healthy i) [ none ↦ false | some h ↦ h ]

-- u.breakers[candidate].allow()
unfoldable pub ask_breaker : ℕ → ℕ → UpstreamPool → UpstreamPool × Bool
ask_breaker now i p = elim (get_elem? p.breakers i) [
  | none ↦ (p, false)
  | some b ↦
      let (b', granted) = allow now b in (record p { breakers = set p.breakers i b' }, granted)
]

-- u.healthy[candidate].Load() && u.breakers[candidate].allow()
unfoldable pub try_candidate : ℕ → ℕ → UpstreamPool → UpstreamPool × Bool
try_candidate now i p = if is_healthy p i then ask_breaker now i p else (p, false)

-- The loop of `pick` from round `index` on, with the number of rounds left.
unfoldable pub pick_from : (ℕ → ℕ) → ℕ → ℕ → UpstreamPool → UpstreamPool × ℕ × Bool
pick_from clock zero index p = (p, 0, false)
pick_from clock (suc rounds) index p =
    let p' = bump_next p in
    let candidate = (p'.next + index) % word % length p'.endpoints in
    let (tried, granted) = try_candidate (clock index) candidate p' in
    let rest = pick_from clock rounds (index + 1) tried in
    if granted then (tried, candidate, true) else rest

-- The endpoint is `endpoints[index]`: the index and the permit are what the caller puts into the
-- request's context.
unfoldable pub pick : (ℕ → ℕ) → UpstreamPool → UpstreamPool × ℕ × Bool
unfolding pick_from try_candidate ask_breaker
pick clock p = pick_from clock (length p.endpoints) 0 p

unfoldable pub any_true : List Bool → Bool
any_true [] = false
any_true (h ∷ hs) = h || any_true hs

unfoldable pub has_healthy_endpoint : UpstreamPool → Bool
unfolding any_true
has_healthy_endpoint p = any_true p.healthy

-- How one health request ends: the request cannot be built, it fails, or there is a response.
pub data Probe : Type 0 where
  unbuildable failed : Probe
  answered : ℕ → Probe

-- The body of the loop of `checkHealth`; the number counts `RecordHealthFailure`.
unfoldable pub check_endpoint : Probe → ℕ → UpstreamPool → UpstreamPool × ℕ
check_endpoint unbuildable i p = (record p { healthy = set p.healthy i false }, 1)
check_endpoint failed i p = (record p { healthy = set p.healthy i false }, 1)
check_endpoint (answered status) i p =
    if leb 200 status && ltb status 400
    then (
      record p {
        healthy = set p.healthy i true;
        breakers = elim (get_elem? p.breakers i) [
          | none ↦ p.breakers
          | some b ↦ set p.breakers i (success b)
        ];
      },
      0,
    )
    else (record p { healthy = set p.healthy i false }, 1)

unfoldable pub check_from : List Probe → ℕ → UpstreamPool → UpstreamPool × ℕ
check_from [] i p = (p, 0)
check_from (probe ∷ probes) i p =
    let (p', failures) = check_endpoint probe i p in
    let (last, more) = check_from probes (i + 1) p' in (last, failures + more)

-- The list holds one probe for each endpoint, in their order.
unfoldable pub check_health : List Probe → UpstreamPool → UpstreamPool × ℕ
unfolding check_from check_endpoint
check_health probes p = check_from probes 0 p

-- `healthLoop` until its context ends: one check at once, and one at each tick. The number counts the
-- failures of all of them.
unfoldable pub health_loop : List (List Probe) → UpstreamPool → UpstreamPool × ℕ
unfolding check_health
health_loop [] p = (p, 0)
health_loop (probes ∷ ticks) p =
    let (p', failures) = check_health probes p in
    let (last, more) = health_loop ticks p' in (last, failures + more)
