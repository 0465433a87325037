-- ===== src/Observability/Writer.antt =====
-- `statusWriter` of internal/observability/metrics.go over the response writer of net/http, which sends
-- the status of the first `WriteHeader` that is no informational one, and 200 where a body or a
-- flush comes first.
pub mod Agreeing
use go_serve.Common.{
  ℕ, Bool, true, false, ◌||◌, Option, none, some, List, [], ◌∷◌, ◌==◌, leb, if◌then◌else◌,
}

pub data Call : Type 0 where
  write_header : ℕ → Call
  write flush : Call

-- `status` is the writer's field, and `sent` the status that the client gets, once it is sent.
pub record Written : Type 0 where
  pub status : ℕ
  pub sent : Option ℕ

unfoldable pub new_writer : Written
new_writer = record { status = 0; sent = none }

abbrev pub is_final : ℕ → Bool
is_final code = leb 200 code || (code == 101)

-- `WriteHeader` of the library's writer
abbrev pub send : ℕ → Option ℕ → Option ℕ
send code (some earlier) = some earlier
send code none = if is_final code then some code else none

unfoldable pub call_write_header : ℕ → Written → Written
call_write_header code w = record { status = code; sent = send code w.sent }

-- `Write`, and `Flush` where the library's writer is a flusher
unfoldable pub call_write : Written → Written
unfolding call_write_header
call_write w =
    let ready = if w.status == 0 then call_write_header 200 w else w in
    record ready { sent = send 200 ready.sent }

unfoldable pub run_calls : List Call → Written → Written
unfolding call_write_header call_write
run_calls [] w = w
run_calls (write_header code ∷ calls) w = run_calls calls (call_write_header code w)
run_calls (write ∷ calls) w = run_calls calls (call_write w)
run_calls (flush ∷ calls) w = run_calls calls (call_write w)
