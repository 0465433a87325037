-- ===== src/Dataplane/Breaker/Phases.antt =====
-- The contract of a circuit breaker: three phases, with no counter beyond the closed one.
use go_serve.Common.{ℕ, ◌+◌, Bool, true, false, List, [], ◌∷◌, ltb, if◌then◌else◌}
use go_serve.Dataplane.Breaker.{CircuitBreaker, allow, success, failure}

pub data Phase : Type 0 where
  closed : ℕ → Phase  -- consecutive failures
  opened : ℕ → Phase  -- until when
  probing : ℕ → Phase

-- What the callers do to a breaker, with the time at which they do it.
pub data Event : Type 0 where
  ask : ℕ → Event
  succeed : Event
  fail : ℕ → Event

module _ (threshold cooldown : ℕ) where
  abbrev pub phase_step : Phase → Event → Phase × Bool
  phase_step (closed n) (ask now) = (closed n, true)
  phase_step (opened until) (ask now) =
      if ltb now until then (opened until, false) else (probing until, true)
  phase_step (probing until) (ask now) = (probing until, false)
  phase_step p succeed = (closed 0, true)
  phase_step (closed n) (fail now) =
      (if ltb (n + 1) threshold then closed (n + 1) else opened (now + cooldown), true)
  phase_step p (fail now) = (opened (now + cooldown), true)

  -- The answers in order, with the last phase.
  unfoldable pub phase_run : Phase → List Event → Phase × List Bool
  phase_run p [] = (p, [])
  phase_run p (e ∷ es) =
      let (p', answer) = phase_step p e in
      let (last, answers) = phase_run p' es in (last, answer ∷ answers)

-- The same events on the code's breaker; an update answers `true`.
unfoldable pub step : CircuitBreaker → Event → CircuitBreaker × Bool
unfolding allow success failure
step b (ask now) = allow now b
step b succeed = (success b, true)
step b (fail now) = (failure now b, true)

unfoldable pub run : CircuitBreaker → List Event → CircuitBreaker × List Bool
run b [] = (b, [])
run b (e ∷ es) =
    let (b', answer) = step b e in let (last, answers) = run b' es in (last, answer ∷ answers)
