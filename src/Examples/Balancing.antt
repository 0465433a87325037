-- ===== src/Examples/Balancing.antt =====
-- Breakers, pools and retries at concrete inputs.
use go_serve.Common.{
  ℕ, ◌%◌, ◌≡◌, refl, true, false, none, some, List, [], ◌∷◌, arith, pos, pos_part, bytes, str_eq,
  Returns,
}
use go_serve.Dataplane.Breaker.{CircuitBreaker, new_breaker, allow}
use go_serve.Dataplane.Breaker.Phases.{Event, ask, succeed, fail, phase_run, run}
use go_serve.Dataplane.Breaker.Laws.{phase, run_refines, new_breaker-IsValid}
use go_serve.Dataplane.Pool.{UpstreamPool, pick, Probe, failed, answered, is_healthy}
use go_serve.Dataplane.Pool.Choice.{Picked, pick_permitted}
use go_serve.Dataplane.Pool.Cycle.{pick_even_misses}
use go_serve.Dataplane.Retry.{Reply, Request, Transport, is_safe, round_trip}
use go_serve.Dataplane.Retry.Laws.{IsBounded, round_trip-IsBounded, round_trip_drops_response}
use go_serve.Examples.{breaker, endpoint, pool_of}

abbrev b : CircuitBreaker
b = new_breaker (pos 2) (pos 10)

abbrev events : List Event
events = fail 1 ∷ fail 2 ∷ ask 5 ∷ ask 12 ∷ ask 13 ∷ succeed ∷ ask 14 ∷ []

run_refines_example :
    (phase (run b events).0
      ≡ (phase_run (pos_part b.threshold) (pos_part b.cooldown) (phase b) events).0)
    × ((run b events).1
        ≡ (phase_run (pos_part b.threshold) (pos_part b.cooldown) (phase b) events).1)
run_refines_example =
    run_refines b events (new_breaker-IsValid 2 10 7 (omega arith) (omega arith) (omega arith))

abbrev opened_breaker : CircuitBreaker
opened_breaker = record breaker { failures = pos 2; open_until = 12 }

abbrev clock : ℕ → ℕ
clock n = n

abbrev one_well : UpstreamPool
one_well = pool_of (true ∷ []) (endpoint ∷ []) (breaker ∷ [])

one_picked : (pick clock one_well).2 ≡ true
unfolding pick allow
one_picked = refl

pick_permitted_example : Picked clock one_well 0 0 1 (pick clock one_well)
pick_permitted_example = pick_permitted clock one_well (omega arith) one_picked

abbrev one_ill : UpstreamPool
one_ill = pool_of (false ∷ []) (endpoint ∷ []) (breaker ∷ [])

one_missed : (pick clock one_ill).2 ≡ false
unfolding pick
one_missed = refl

abbrev two : UpstreamPool
two = pool_of (true ∷ false ∷ []) (endpoint ∷ endpoint ∷ []) (breaker ∷ breaker ∷ [])

pick_even_misses_example : ((pick clock two).2 ≡ false) × ((pick clock two).1 ≡ 0)
pick_even_misses_example = pick_even_misses clock two 1 refl (omega arith) odd_ill
  where
    odd_ill : (i : ℕ) → i % 2 ≡ 1 → is_healthy two i ≡ false
    odd_ill i h = ground arith

abbrev probes : List Probe
probes = answered 200 ∷ failed ∷ []

abbrev transport : Transport
transport = record { attempts = pos 2; has_events = true; breakers = breaker ∷ [] }

abbrev upload : Request
upload = record { method = bytes "PUT"; has_body = true; get_body = none }

abbrev answers : ℕ → Reply
answers n = record { response = some 503; error = none }

round_trip-IsBounded_example :
    Returns
      (IsBounded transport upload answers)
      (round_trip transport (some (pos 0)) (some true) 1 upload answers clock)
round_trip-IsBounded_example =
    round_trip-IsBounded transport (some (pos 0)) (some true) 1 upload answers clock refl

put_is_safe : is_safe (bytes "PUT") ≡ true
unfolding is_safe bytes str_eq
put_is_safe = refl

round_trip_drops_response_example :
    Returns
      (λ s. s.reply ≡ record { response = none; error = none })
      (round_trip transport (some (pos 0)) (some true) 1 upload answers clock)
round_trip_drops_response_example =
    round_trip_drops_response transport 0 breaker 1 503 upload answers clock refl (omega arith) refl
      put_is_safe refl refl (omega arith) refl
