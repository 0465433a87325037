-- ===== src/Dataplane/Pool/Health.antt =====
-- What a health check leaves behind.
use go_serve.Common.{
  ℕ, zero, suc, ◌+◌, ◌≡◌, refl, sym, ap, ◌∙◌, inl, inr, Bool, false, ◌&&◌, map, ap₂, ◌++◌,
  length-append, none, some, List, [], ◌∷◌, arith, if◌then◌else◌, leb, ltb, length, get_elem?, set,
  Bool-cases, Option-cases,
}
use mathlib.Core.List.{append_assoc}
use go_serve.Dataplane.Breaker.{CircuitBreaker, success}
use go_serve.Dataplane.Pool.{
  UpstreamPool, Probe, unbuildable, failed, answered, check_endpoint, check_from, check_health,
}

-- A response with a status from 200 to 399.
abbrev pub is_well : Probe → Bool
is_well unbuildable = false
is_well failed = false
is_well (answered status) = leb 200 status && ltb status 400

-- How many probes are not well.
abbrev pub ill : List Probe → ℕ
ill [] = 0
ill (probe ∷ probes) = (if is_well probe then 0 else 1) + ill probes

-- The breaker of an endpoint after its probe.
abbrev pub recover : Probe → CircuitBreaker → CircuitBreaker
recover probe b = if is_well probe then success b else b

abbrev pub verdict : Probe → Bool → Bool
verdict probe old = is_well probe

module _ {A : Type 0} (f : Probe → A → A) where
  abbrev update_at : Probe → List A → ℕ → List A
  update_at q [] i = []
  update_at q (x ∷ xs) zero = f q x ∷ xs
  update_at q (x ∷ xs) (suc i) = x ∷ update_at q xs i

  -- One element after the other, from index `i` on.
  abbrev visit : List Probe → ℕ → List A → List A
  visit [] i xs = xs
  visit (q ∷ qs) i xs = visit qs (i + 1) (update_at q xs i)

  -- All at once.
  abbrev pub zip_with : List Probe → List A → List A
  zip_with [] xs = xs
  zip_with (q ∷ qs) [] = []
  zip_with (q ∷ qs) (x ∷ xs) = f q x ∷ zip_with qs xs

  update_at-append :
      (done : List A) (q : Probe) (x : A) (xs : List A)
      → update_at q (done ++ (x ∷ xs)) (length done) ≡ (done ++ (f q x ∷ [])) ++ xs
  update_at-append [] q x xs = refl
  update_at-append (d ∷ done) q x xs = ap (λ l. d ∷ l) (update_at-append done q x xs)

  -- The same through a read and a write.
  update_at-set :
      (q : Probe) (xs : List A) (i : ℕ)
      → update_at q xs i ≡ elim (get_elem? xs i) [ none ↦ xs | some a ↦ set xs i (f q a) ]
  update_at-set q [] i = refl
  update_at-set q (x ∷ xs) zero = refl
  update_at-set q (x ∷ xs) (suc i) = elim (Option-cases (get_elem? xs i)) [
    | inl e ↦ rw e (ap (λ l. x ∷ l) (update_at-set q xs i ∙ rw e))
    | inr (a, e) ↦ rw e (ap (λ l. x ∷ l) (update_at-set q xs i ∙ rw e))
  ]

  visit-zip_with :
      (qs : List Probe) (done xs : List A) (i : ℕ)
      → i ≡ length done
      → length qs ≡ length xs
      → visit qs i (done ++ xs) ≡ done ++ zip_with qs xs
  visit-zip_with [] done xs i e h = refl
  visit-zip_with (q ∷ qs) done [] i e h = absurd (omega arith)
  visit-zip_with (q ∷ qs) done (x ∷ xs) i e h =
      rw
        (
          e,
          update_at-append done q x xs,
          visit-zip_with qs (done ++ (f q x ∷ [])) xs (length done + 1)
              (omega (arith, length-append done (f q x ∷ []))) (omega arith),
        )
        (append_assoc done (f q x ∷ []) (zip_with qs xs))

check_endpoint-healthy :
    (probe : Probe) (i : ℕ) (p : UpstreamPool)
    → (check_endpoint probe i p).0.healthy ≡ set p.healthy i (is_well probe)
unfolding check_endpoint
check_endpoint-healthy unbuildable i p = refl
check_endpoint-healthy failed i p = refl
check_endpoint-healthy (answered status) i p = ground arith

check_endpoint-failures :
    (probe : Probe) (i : ℕ) (p : UpstreamPool)
    → (check_endpoint probe i p).1 ≡ (if is_well probe then 0 else 1)
unfolding check_endpoint
check_endpoint-failures unbuildable i p = refl
check_endpoint-failures failed i p = refl
check_endpoint-failures (answered status) i p = ground arith

failures-check_from :
    (probes : List Probe) (i : ℕ) (p : UpstreamPool) → (check_from probes i p).1 ≡ ill probes
unfolding check_from
failures-check_from [] i p = refl
failures-check_from (probe ∷ probes) i p =
    ap₂ (λ a b. a + b) (check_endpoint-failures probe i p)
      (failures-check_from probes (i + 1) (check_endpoint probe i p).0)

set-update_at :
    (probe : Probe) (xs : List Bool) (i : ℕ)
    → set xs i (is_well probe) ≡ update_at verdict probe xs i
set-update_at probe [] i = refl
set-update_at probe (x ∷ xs) zero = refl
set-update_at probe (x ∷ xs) (suc i) = ap (λ l. x ∷ l) (set-update_at probe xs i)

recover_nothing :
    (probe : Probe) (xs : List CircuitBreaker) (i : ℕ)
    → is_well probe ≡ false
    → update_at recover probe xs i ≡ xs
recover_nothing probe [] i h = refl
recover_nothing probe (x ∷ xs) zero h = rw h
recover_nothing probe (x ∷ xs) (suc i) h = ap (λ l. x ∷ l) (recover_nothing probe xs i h)

check_endpoint-breakers :
    (probe : Probe) (i : ℕ) (p : UpstreamPool)
    → (check_endpoint probe i p).0.breakers ≡ update_at recover probe p.breakers i
unfolding check_endpoint
check_endpoint-breakers unbuildable i p = sym (recover_nothing unbuildable p.breakers i refl)
check_endpoint-breakers failed i p = sym (recover_nothing failed p.breakers i refl)
check_endpoint-breakers (answered status) i p = elim (Bool-cases (is_well (answered status))) [
  | inr bad ↦ rw bad (sym (recover_nothing (answered status) p.breakers i bad))
  | inl good ↦
      let step = update_at-set recover (answered status) p.breakers i in
      elim (Option-cases (get_elem? p.breakers i)) [
        | inl e ↦ rw (good, e) (sym (step ∙ rw e))
        | inr (b, e) ↦ rw (good, e) (sym (step ∙ rw (e, good)))
      ]
]

check_from-visit :
    (probes : List Probe) (i : ℕ) (p : UpstreamPool)
    → ((check_from probes i p).0.healthy ≡ visit verdict probes i p.healthy)
      × ((check_from probes i p).0.breakers ≡ visit recover probes i p.breakers)
unfolding check_from
check_from-visit [] i p = (refl, refl)
check_from-visit (probe ∷ probes) i p =
    let p' = (check_endpoint probe i p).0 in
    let (healthy, breakers) = check_from-visit probes (i + 1) p' in
    let flags = check_endpoint-healthy probe i p ∙ set-update_at probe p.healthy i in
    (
      healthy ∙ ap (λ l. visit verdict probes (i + 1) l) flags,
      breakers ∙ ap (λ l. visit recover probes (i + 1) l) (check_endpoint-breakers probe i p),
    )

-- A health check marks each endpoint by the answer of its own probe, closes the breakers of those
-- that are well and no other, and counts one failure for each that is not.
pub check_health_lem :
    (probes : List Probe) (p : UpstreamPool)
    → length probes ≡ length p.healthy
    → length probes ≡ length p.breakers
    → ((check_health probes p).0.healthy ≡ map is_well probes)
      × ((check_health probes p).0.breakers ≡ zip_with recover probes p.breakers)
      × ((check_health probes p).1 ≡ ill probes)
unfolding check_health
check_health_lem probes p h b =
    let (healthy, breakers) = check_from-visit probes 0 p in
    (
      healthy ∙ visit-zip_with verdict probes [] p.healthy 0 refl h ∙ verdicts probes p.healthy h,
      breakers ∙ visit-zip_with recover probes [] p.breakers 0 refl b,
      failures-check_from probes 0 p,
    )
  where
    verdicts :
        (qs : List Probe) (hs : List Bool)
        → length qs ≡ length hs
        → zip_with verdict qs hs ≡ map is_well qs
    verdicts [] [] e = refl
    verdicts [] (x ∷ hs) e = absurd (omega arith)
    verdicts (q ∷ qs) [] e = absurd (omega arith)
    verdicts (q ∷ qs) (x ∷ hs) e = ap (λ l. is_well q ∷ l) (verdicts qs hs (omega arith))
