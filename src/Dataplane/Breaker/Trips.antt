-- ===== src/Dataplane/Breaker/Trips.antt =====
-- When a breaker opens, and what it lets through while it is open.
use go_serve.Common.{
  ℕ, suc, ◌+◌, ◌<◌, ◌≡◌, refl, Bool, true, false, ◌||◌, List, [], ◌∷◌, map, arith, leb,
  if◌then◌else◌, pos_part, length,
}
use go_serve.Dataplane.Breaker.{CircuitBreaker, is_open}
use go_serve.Dataplane.Breaker.Phases.{ask, fail, step, run}
use go_serve.Dataplane.Breaker.Laws.{IsValid, step-IsValid}

-- How many requests were let through.
abbrev pub granted : List Bool → ℕ
granted [] = 0
granted (true ∷ answers) = suc (granted answers)
granted (false ∷ answers) = granted answers

-- Whether some request comes at or after `until`.
abbrev pub some_due : ℕ → List ℕ → Bool
some_due until [] = false
some_due until (now ∷ nows) = leb until now || some_due until nows

probing_grants :
    (b : CircuitBreaker) (nows : List ℕ)
    → 0 < b.open_until
    → b.half_open ≡ true
    → granted (run b (map ask nows)).1 ≡ 0
unfolding run step
probing_grants b [] o h = refl
probing_grants b (now ∷ nows) o h = ground (arith, probing_grants b nows)

-- An open breaker lets no request through before its time, and one in all from then on, until that
-- one's outcome is recorded.
pub granted-run_open :
    (b : CircuitBreaker) (nows : List ℕ)
    → 0 < b.open_until
    → b.half_open ≡ false
    → granted (run b (map ask nows)).1 ≡ (if some_due b.open_until nows then 1 else 0)
unfolding run step
granted-run_open b [] o h = refl
granted-run_open b (now ∷ nows) o h =
    ground (arith, granted-run_open b nows, probing_grants (record b { half_open = true }) nows)

open_stays :
    (b : CircuitBreaker) (nows : List ℕ)
    → IsValid (length nows) b
    → 0 < b.open_until
    → is_open (run b (map fail nows)).0 ≡ true
unfolding run is_open step
open_stays b [] v o = ground arith
open_stays b (now ∷ nows) v o =
    open_stays (step b (fail now)).0 nows (step-IsValid (length nows) b (fail now) v) (ground arith)

-- Failures in a row open a closed breaker exactly when they reach its threshold, with those that
-- were counted before.
pub is_open-run_failures :
    (b : CircuitBreaker) (nows : List ℕ)
    → IsValid (length nows) b
    → b.open_until ≡ 0
    → is_open (run b (map fail nows)).0
      ≡ leb (pos_part b.threshold) (pos_part b.failures + length nows)
unfolding run is_open step
is_open-run_failures b [] v o = ground arith
is_open-run_failures b (now ∷ nows) v o =
    let valid = step-IsValid (length nows) b (fail now) v in
    ground (
      arith,
      is_open-run_failures (step b (fail now)).0 nows valid,
      open_stays (step b (fail now)).0 nows valid,
    )
