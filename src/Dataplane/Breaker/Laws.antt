-- ===== src/Dataplane/Breaker/Laws.antt =====
-- The breaker's methods implement the three phases.
use go_serve.Common.{
  ℕ, suc, ◌+◌, ◌^◌, ◌≤◌, ◌<◌, ◌≡◌, refl, Bool, true, List, [], ◌∷◌, arith, ◌==◌, if◌then◌else◌, pos,
  pos_part, neg_part, length,
}
use go_serve.Dataplane.Breaker.{CircuitBreaker, new_breaker}
use go_serve.Dataplane.Breaker.Phases.{
  Phase, closed, opened, probing, Event, ask, succeed, fail, phase_step, phase_run, step, run,
}

-- What holds of every breaker that `ReconfigureWithAuthorizer` makes, up to `n` further failures.
pub record IsValid (n : ℕ) (b : CircuitBreaker) : Type 0 where
  pub threshold_pos : 0 < pos_part b.threshold
  pub threshold_int : neg_part b.threshold ≡ 0
  pub cooldown_pos : 0 < pos_part b.cooldown
  pub cooldown_int : neg_part b.cooldown ≡ 0
  pub counted : neg_part b.failures ≡ 0
  pub room : pos_part b.failures + n < 2 ^ 63
  pub closed_below : b.open_until ≡ 0 → pos_part b.failures < pos_part b.threshold
  pub open_above : 0 < b.open_until → pos_part b.threshold ≤ pos_part b.failures
  pub probing_open : b.half_open ≡ true → 0 < b.open_until

-- The phase that a breaker is in.
abbrev pub phase : CircuitBreaker → Phase
phase b =
    if b.open_until == 0
    then closed (pos_part b.failures)
    else if b.half_open
    then probing b.open_until
    else opened b.open_until

pub step-IsValid :
    (n : ℕ) (b : CircuitBreaker) (e : Event) → IsValid (suc n) b → IsValid n (step b e).0
unfolding step
step-IsValid n b (ask now) v = ground arith
step-IsValid n b succeed v = ground arith
step-IsValid n b (fail now) v = ground arith

abbrev pub Refines : Phase × Bool → CircuitBreaker × Bool → Type 0
Refines s r = (phase r.0 ≡ s.0) × (r.1 ≡ s.1)

step-Refines :
    (n : ℕ) (b : CircuitBreaker) (e : Event)
    → IsValid (suc n) b
    → Refines (phase_step (pos_part b.threshold) (pos_part b.cooldown) (phase b) e) (step b e)
unfolding step
step-Refines n b (ask now) v = ground arith
step-Refines n b succeed v = ground arith
step-Refines n b (fail now) v = ground arith

step_keeps :
    (b : CircuitBreaker) (e : Event)
    → ((step b e).0.threshold ≡ b.threshold) × ((step b e).0.cooldown ≡ b.cooldown)
unfolding step
step_keeps b (ask now) = ground arith
step_keeps b succeed = ground arith
step_keeps b (fail now) = ground arith

-- Whatever happens to a breaker, with fewer than 2^63 failures in all, its answers and its phase are
-- those of the three-phase contract.
pub run_refines :
    (b : CircuitBreaker) (es : List Event)
    → IsValid (length es) b
    → (phase (run b es).0 ≡ (phase_run (pos_part b.threshold) (pos_part b.cooldown) (phase b) es).0)
      × ((run b es).1 ≡ (phase_run (pos_part b.threshold) (pos_part b.cooldown) (phase b) es).1)
unfolding run phase_run
run_refines b [] v = (refl, refl)
run_refines b (e ∷ es) v =
    let next = step-Refines (length es) b e v in
    let ih = run_refines (step b e).0 es (step-IsValid (length es) b e v) in
    let (t, c) = step_keeps b e in
    let spec = phase_step (pos_part b.threshold) (pos_part b.cooldown) (phase b) e in
    let same : phase_run (pos_part (step b e).0.threshold) (pos_part (step b e).0.cooldown)
          (phase (step b e).0) es
        ≡ phase_run (pos_part b.threshold) (pos_part b.cooldown) spec.0 es =
      λ i. phase_run (pos_part (t i)) (pos_part (c i)) (next.0 i) es in
    (cc (ih.0, same), cc (ih.1, same, next.1))

pub run-IsValid :
    (b : CircuitBreaker) (es : List Event) → IsValid (length es) b → IsValid 0 (run b es).0
unfolding run
run-IsValid b [] v = v
run-IsValid b (e ∷ es) v = run-IsValid (step b e).0 es (step-IsValid (length es) b e v)

-- A new breaker with a positive threshold and cooldown is valid, and closed.
pub new_breaker-IsValid :
    (t c n : ℕ) → 0 < t → 0 < c → n < 2 ^ 63 → IsValid n (new_breaker (pos t) (pos c))
unfolding new_breaker
new_breaker-IsValid t c n ht hc hn = ground arith
