-- ===== src/Dataplane/Pool/Sized.antt =====
-- The slices of a pool keep one length.
use go_serve.Common.{
  ℕ, zero, suc, ◌+◌, ◌%◌, ◌<◌, ◌≡◌, inl, inr, true, false, List, [], ◌∷◌, arith, ◌∙◌, length,
  get_elem?, length-set, Bool-cases, Option-cases,
}
use go_serve.Dataplane.Breaker.{allow, success}
use go_serve.Dataplane.Pool.{
  UpstreamPool, word, bump_next, is_healthy, ask_breaker, try_candidate, pick_from, pick, Probe,
  unbuildable, failed, answered, check_endpoint, check_from, check_health,
}

pub record IsSized (p : UpstreamPool) : Type 0 where
  pub some_endpoint : 0 < length p.endpoints
  pub healthy : length p.healthy ≡ length p.endpoints
  pub breakers : length p.breakers ≡ length p.endpoints

ask_breaker-IsSized : (now i : ℕ) (p : UpstreamPool) → IsSized p → IsSized (ask_breaker now i p).0
unfolding ask_breaker
ask_breaker-IsSized now i p s = elim (Option-cases (get_elem? p.breakers i)) [
  | inl e ↦ rw (e, ask_breaker) s
  | inr (b, e) ↦
      rw (e, ask_breaker)
        (record {
          some_endpoint = s.some_endpoint;
          healthy = s.healthy;
          breakers = length-set p.breakers i (allow now b).0 ∙ s.breakers;
        })
]

try-IsSized : (now i : ℕ) (p : UpstreamPool) → IsSized p → IsSized (try_candidate now i p).0
unfolding try_candidate
try-IsSized now i p s = elim (Bool-cases (is_healthy p i)) [
  | inl h ↦ rw (h, try_candidate) (ask_breaker-IsSized now i p s)
  | inr h ↦ rw (h, try_candidate) s
]

pick_from-IsSized :
    (clock : ℕ → ℕ) (rounds k : ℕ) (p : UpstreamPool)
    → IsSized p
    → IsSized (pick_from clock rounds k p).0
unfolding pick_from
pick_from-IsSized clock zero k p s = s
pick_from-IsSized clock (suc rounds) k p s =
    let p' = bump_next p in
    let c = (p'.next + k) % word % length p'.endpoints in
    let sized : IsSized (try_candidate (clock k) c p').0 =
      try-IsSized (clock k) c p' (omega arith) in
    elim (Bool-cases (try_candidate (clock k) c p').1) [
      | inl g ↦ rw (g, pick_from) sized
      | inr g ↦ rw (g, pick_from) (pick_from-IsSized clock rounds (k + 1) _ sized)
    ]

-- `pick` keeps the slices of a pool at one length.
pub pick-IsSized : (clock : ℕ → ℕ) (p : UpstreamPool) → IsSized p → IsSized (pick clock p).0
unfolding pick
pick-IsSized clock p s = pick_from-IsSized clock (length p.endpoints) 0 p s

check_endpoint-IsSized :
    (probe : Probe) (i : ℕ) (p : UpstreamPool) → IsSized p → IsSized (check_endpoint probe i p).0
unfolding check_endpoint
check_endpoint-IsSized unbuildable i p s = ground (arith, length-set p.healthy i false)
check_endpoint-IsSized failed i p s = ground (arith, length-set p.healthy i false)
check_endpoint-IsSized (answered status) i p s = elim (Option-cases (get_elem? p.breakers i)) [
  | inl e ↦ ground (arith, length-set p.healthy i false, length-set p.healthy i true)
  | inr (b, e) ↦ ground (
    arith,
    length-set p.healthy i false,
    length-set p.healthy i true,
    length-set p.breakers i (success b),
  )
]

-- So does a health check.
pub check_health-IsSized :
    (probes : List Probe) (p : UpstreamPool) → IsSized p → IsSized (check_health probes p).0
unfolding check_health
check_health-IsSized probes p s = go probes 0 p s
  where
    go :
        (probes : List Probe) (i : ℕ) (p : UpstreamPool)
        → IsSized p
        → IsSized (check_from probes i p).0
    go [] i p s = s
    go (probe ∷ probes) i p s =
        go probes (i + 1) (check_endpoint probe i p).0 (check_endpoint-IsSized probe i p s)
