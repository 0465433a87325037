-- ===== src/Entry/Shutdown/Abandoned.antt =====
-- What the exit of `main` leaves behind.
use mathlib.Core.Path.{subst}
use go_serve.Common.{ℕ, zero, suc, ◌+◌, ◌≡◌, refl, arith, true, Str, ok}
use go_serve.Entry.{World, Running, start}
use go_serve.Entry.Shutdown.{
  Process, launched, Reachable, public_arrives, drains, closes_control, control_returns, exits,
  launches, next,
}

module _ {C : Type 0} (w : World C) (path : Str) (r : Running C)
    (starts : start w path ≡ ok r) where
  -- The process with `n` public requests in flight.
  abbrev busy : ℕ → Process
  busy n = record (launched r) { public_requests = n }

  busy_reached : (n : ℕ) → Reachable w path (busy n)
  unfolding launched
  busy_reached zero = launches r starts
  busy_reached (suc n) =
      let more : n + 1 ≡ suc n = omega arith in
      subst (λ k. Reachable w path (busy k)) more (next (busy_reached n) refl (public_arrives refl))

  -- For any number of public requests, a process that is started can come to have exited with all of
  -- them in flight and its public listener open: the first `Serve` that returns ends `main`, while the
  -- public server was not asked to shut down.
  pub exit_abandons :
      (n : ℕ)
      → (p : Process) × Reachable w path p
        × (p.exited ≡ true)
        × (p.public_requests ≡ n)
        × (p.public_listens ≡ true)
  unfolding launched
  exit_abandons n =
      let drained = next (busy_reached n) refl (drains refl) in
      let closing = next drained refl (closes_control refl) in
      let returned = next closing refl (control_returns refl refl) in
      (_, next returned refl (exits (omega arith)), refl, refl, refl)
