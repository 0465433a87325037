-- ===== src/Dataplane/Pool/Cycle.antt =====
-- Which endpoints the rounds of `pick` reach: each round advances the shared counter and adds its own
-- number, so the rounds of a run that meets no other go in steps of two.
use native.Mathlib.Nat.{div-add-mod}
use go_serve.Common.{ℕ, ◌+◌, ◌*◌, ◌%◌, ◌<◌, ◌≡◌, ap, inl, inr, false, arith, length, Bool-cases}
use go_serve.Dataplane.Pool.{UpstreamPool, word, is_healthy, pick}
use go_serve.Dataplane.Pool.Choice.{candidate, pick_permitted, pick_refused}

even_parity : (h x : ℕ) → x % (2 * h) % 2 ≡ x % 2
even_parity h x = omega (arith, div-add-mod x (2 * h))

candidate-eq :
    (start n k : ℕ) → start + 2 * n < word → k < n → candidate start n k ≡ (start + 1 + 2 * k) % n
candidate-eq start n k room lt = ap (λ x. x % n) (omega arith)

-- Over an even number of endpoints the rounds keep one parity: where the endpoints of that parity are
-- all unhealthy, `pick` gives no permit and returns endpoint 0, whatever the others are.
pub pick_even_misses :
    (clock : ℕ → ℕ) (p : UpstreamPool) (h : ℕ)
    → length p.endpoints ≡ 2 * h
    → p.next + 2 * length p.endpoints < word
    → ((i : ℕ) → i % 2 ≡ (p.next + 1) % 2 → is_healthy p i ≡ false)
    → ((pick clock p).2 ≡ false) × ((pick clock p).1 ≡ 0)
pick_even_misses clock p h even room sick = elim (Bool-cases (pick clock p).2) [
  | inl e ↦
      let picked = pick_permitted clock p (omega arith) e in
      let k = picked.round in
      let at_k = candidate-eq p.next (length p.endpoints) k room picked.early in
      let same : candidate p.next (length p.endpoints) k % 2 ≡ (p.next + 1) % 2 = omega (
        arith,
        at_k,
        ap (λ n. (p.next + 1 + 2 * k) % n) even,
        even_parity h (p.next + 1 + 2 * k),
      ) in
      let ill = sick (candidate p.next (length p.endpoints) k) same in
      let well = picked.available in
      let index = picked.index in absurd (ground (arith, ill, well, index))
  | inr e ↦ (e, (pick_refused clock p (omega arith) e).2)
]
