-- ===== src/Observability/Writer/Agreeing.antt =====
-- When the status that the metrics count is the one that the client gets.
use mathlib.Core.Path.{subst}
use go_serve.Common.{ℕ, ◌≤◌, ◌≡◌, refl, sym, false, Option, none, some, List, [], ◌∷◌, ◌==◌, arith}
use go_serve.Observability.{or_200}
use go_serve.Observability.Writer.{
  Call, write_header, write, flush, new_writer, send, call_write_header, call_write, run_calls,
}

-- The status that the client gets in the end; a handler that sends nothing is answered with 200.
abbrev pub received : Option ℕ → ℕ
received none = 200
received (some code) = code

abbrev pub after_write : Option ℕ → Option ℕ
after_write none = some 200
after_write (some code) = some code

-- The calls of a handler that writes no informational status, and no status that differs from one
-- already sent.
abbrev pub IsProper : Option ℕ → List Call → Type 0
IsProper sent [] = Unit
IsProper none (write_header code ∷ calls) = (200 ≤ code) × IsProper (some code) calls
IsProper (some earlier) (write_header code ∷ calls) =
    (code ≡ earlier) × IsProper (some earlier) calls
IsProper sent (write ∷ calls) = IsProper (after_write sent) calls
IsProper sent (flush ∷ calls) = IsProper (after_write sent) calls

-- The field is zero before anything is sent, and what was sent afterwards.
abbrev Agrees : ℕ → Option ℕ → Type 0
Agrees status none = status ≡ 0
Agrees status (some code) = (status ≡ code) × (200 ≤ code)

written :
    (status : ℕ) (sent : Option ℕ)
    → Agrees status sent
    → ((call_write (record { status = status; sent = sent })).sent ≡ after_write sent)
      × Agrees (call_write (record { status = status; sent = sent })).status (after_write sent)
unfolding call_write call_write_header
written status none g = rw g (refl, (refl, omega arith))
written status (some code) (same, final) =
    let nonzero : (status == 0) ≡ false = ground arith in rw nonzero (refl, (same, final))

calls_agree :
    (calls : List Call) (status : ℕ) (sent : Option ℕ)
    → IsProper sent calls
    → Agrees status sent
    → or_200 (run_calls calls (record { status = status; sent = sent })).status
      ≡ received (run_calls calls (record { status = status; sent = sent })).sent
unfolding run_calls call_write_header
calls_agree [] status none p g = rw g refl
calls_agree [] status (some code) p (same, final) = ground arith
calls_agree (write_header code ∷ calls) status none (final, p) g =
    let sends : send code none ≡ some code = ground arith in
    calls_agree calls code (send code none) (subst (λ o. IsProper o calls) (sym sends) p)
      (subst (Agrees code) (sym sends) (refl, final))
calls_agree (write_header code ∷ calls) status (some earlier) (again, p) (same, final) =
    calls_agree calls code (some earlier) p (again, final)
calls_agree (write ∷ calls) status none p g =
    let w = call_write (record { status = status; sent = none }) in
    let (s, a) = written status none g in calls_agree calls w.status w.sent (rw s p) (rw s a)
calls_agree (write ∷ calls) status (some code) p g =
    let w = call_write (record { status = status; sent = (some code) }) in
    let (s, a) = written status (some code) g in calls_agree calls w.status w.sent (rw s p) (rw s a)
calls_agree (flush ∷ calls) status none p g =
    let w = call_write (record { status = status; sent = none }) in
    let (s, a) = written status none g in calls_agree calls w.status w.sent (rw s p) (rw s a)
calls_agree (flush ∷ calls) status (some code) p g =
    let w = call_write (record { status = status; sent = (some code) }) in
    let (s, a) = written status (some code) g in calls_agree calls w.status w.sent (rw s p) (rw s a)

-- The status that the metrics count is the one that the client gets, when the handler writes no
-- informational status and none that differs from the status already sent.
pub run_calls-received :
    (calls : List Call)
    → IsProper none calls
    → or_200 (run_calls calls new_writer).status ≡ received (run_calls calls new_writer).sent
unfolding new_writer
run_calls-received calls p = calls_agree calls 0 none p refl
