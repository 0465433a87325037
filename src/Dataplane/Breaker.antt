-- ===== src/Dataplane/Breaker.antt =====
-- `circuitBreaker` of internal/dataplane/server.go. Each method runs under the breaker's mutex, so
-- it is one step on the record; `now` is what `time.Now()` returns in it. A time is a number of
-- nanoseconds after Go's zero time, and 0 is the zero time itself.
pub mod Phases
pub mod Laws
pub mod Trips
use go_serve.Common.{ℕ, Bool, true, false, not, ◌||◌, ◌==◌, ltb, if◌then◌else◌}
use go_serve.Common.{ℤ, pos, leb_ℤ, inc_i64, add_duration}

pub record CircuitBreaker : Type 0 where
  pub threshold : ℤ
  pub cooldown : ℤ
  pub failures : ℤ
  pub open_until : ℕ
  pub half_open : Bool

-- `&circuitBreaker{threshold: threshold, cooldown: cooldown}`
unfoldable pub new_breaker : ℤ → ℤ → CircuitBreaker
new_breaker threshold cooldown = record {
  threshold = threshold;
  cooldown = cooldown;
  failures = pos 0;
  open_until = 0;
  half_open = false;
}

unfoldable pub allow : ℕ → CircuitBreaker → CircuitBreaker × Bool
allow now b =
    if b.open_until == 0
    then (b, true)
    else if ltb now b.open_until || b.half_open
    then (b, false)
    else (record b { half_open = true }, true)

unfoldable pub success : CircuitBreaker → CircuitBreaker
success b = record b { failures = pos 0; open_until = 0; half_open = false }

unfoldable pub failure : ℕ → CircuitBreaker → CircuitBreaker
unfolding inc_i64
failure now b =
    let b' = record b { failures = inc_i64 b.failures } in
    if leb_ℤ b'.threshold b'.failures
    then record b' { open_until = add_duration now b'.cooldown; half_open = false }
    else b'

unfoldable pub is_open : CircuitBreaker → Bool
is_open b = not (b.open_until == 0)
