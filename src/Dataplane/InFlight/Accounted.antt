-- ===== src/Dataplane/InFlight/Accounted.antt =====
-- How many requests each runtime state serves at the same time.
use go_serve.Common.{
  ℕ, zero, suc, ◌+◌, ◌-◌, ◌<◌, ◌≤◌, ◌≡◌, ◌≢◌, ◌⊎◌, refl, sym, ap, ◌∙◌, inl, inr, true, false, some,
  List, [], ◌∷◌, ◌++◌, ◌==◌, ==_iff, arith, get_elem?, set, length, length-set, length-append,
  lt_of_get_elem?, get_elem?-set_self, get_elem?-set_ne, if◌then◌else◌, All, Bool-cases,
}
use go_serve.Dataplane.Compile.{RuntimeState}
use go_serve.Dataplane.InFlight.{
  Generation, Serving, remove_at, take_slot, give_back, install, Step, admits, ends, installs,
  Reachable, empty, next,
}

-- The requests of one generation
abbrev pub count : ℕ → List ℕ → ℕ
count i [] = 0
count i (j ∷ js) = (if i == j then 1 else 0) + count i js

count-remove_at :
    (i k j : ℕ) (js : List ℕ)
    → get_elem? js k ≡ some j
    → count i js ≡ (if i == j then 1 else 0) + count i (remove_at js k)
count-remove_at i k j [] h = absurd (cc)
count-remove_at i zero j (j' ∷ js) h = let same : j' ≡ j = cc in rw same refl
count-remove_at i (suc k) j (j' ∷ js) h = omega (arith, count-remove_at i k j js h)

abbrev Below : ℕ → List ℕ → Type 0
Below n = All (λ j. j < n)

Below-remove_at : (n k : ℕ) (js : List ℕ) → Below n js → Below n (remove_at js k)
Below-remove_at n k [] h = tt
Below-remove_at n zero (j ∷ js) (b, h) = h
Below-remove_at n (suc k) (j ∷ js) (b, h) = (b, Below-remove_at n k js h)

Below-suc : (n m : ℕ) (js : List ℕ) → n ≤ m → Below n js → Below m js
Below-suc n m [] l h = tt
Below-suc n m (j ∷ js) l (b, h) = (omega arith, Below-suc n m js l h)

count-Below : (n : ℕ) (js : List ℕ) → Below n js → count n js ≡ 0
count-Below n [] h = refl
count-Below n (j ∷ js) (b, h) = let ih = count-Below n js h in ground arith

get_elem?-snoc :
    {A : Type 0} (xs : List A) (x y : A) (i : ℕ)
    → get_elem? (xs ++ x ∷ []) i ≡ some y
    → (get_elem? xs i ≡ some y) ⊎ ((i ≡ length xs) × (x ≡ y))
get_elem?-snoc [] x y zero h = inr (refl, cc)
get_elem?-snoc [] x y (suc i) h = absurd (cc)
get_elem?-snoc (z ∷ xs) x y zero h = inl h
get_elem?-snoc (z ∷ xs) x y (suc i) h = elim (get_elem?-snoc xs x y i h) [
  | inl e ↦ inl e
  | inr (e, same) ↦ inr (ap suc e, same)
]

get_elem?-set :
    {A : Type 0} (xs : List A) (i j : ℕ) (x v y : A)
    → get_elem? xs i ≡ some x
    → get_elem? (set xs i v) j ≡ some y
    → ((i ≡ j) × (v ≡ y)) ⊎ ((i ≢ j) × (get_elem? xs j ≡ some y))
get_elem?-set xs i j x v y at found = elim (Bool-cases (i == j)) [
  | inl e ↦
      let same : i ≡ j = (==_iff i j).0 e in
      let put : get_elem? (set xs i v) i ≡ some v =
        get_elem?-set_self xs i v (lt_of_get_elem? xs i at) in
      inl (same, cc (put, found, same))
  | inr e ↦
      let differs : i ≢ j = λ same. cc (sym e ∙ (==_iff i j).1 same) in
      inr (differs, sym (get_elem?-set_ne xs i j v differs) ∙ found)
]

module _ {A : Type 0} where
  -- Each slot that is taken belongs to one request, and there are no more than the state allows.
  pub record HasSlots (s : Serving A) : Type 0 where
    pub slots :
        (i : ℕ) (g : Generation A)
        → get_elem? s.generations i ≡ some g
        → (g.taken ≡ count i s.active) × (g.taken ≤ g.state.max_in_flight)
    pub known : Below (length s.generations) s.active

  admitted-HasSlots :
      (s : Serving A) (i : ℕ) (g : Generation A)
      → get_elem? s.generations i ≡ some g
      → g.taken < g.state.max_in_flight
      → HasSlots s
      → HasSlots (take_slot s i g)
  admitted-HasSlots s i g at room a = record {
    slots = λ j h found. elim (get_elem?-set s.generations i j g _ h at found) [
      | inl (same, is) ↦
          let (one, bound) = a.slots i g at in rw (← is, ← same) (ground arith, omega arith)
      | inr (differs, old) ↦
          let (one, bound) = a.slots j h old in
          let away : (j == i) ≡ false = ground arith in (rw away (omega (arith, one)), bound)
    ];
    known =
        let size = length-set s.generations i (record g { taken = g.taken + 1 }) in
        let i_known = lt_of_get_elem? s.generations i at in
        (omega arith, Below-suc (length s.generations) _ s.active (omega arith) a.known);
  }

  ended-HasSlots :
      (s : Serving A) (k i : ℕ) (g : Generation A)
      → get_elem? s.active k ≡ some i
      → get_elem? s.generations i ≡ some g
      → HasSlots s
      → HasSlots (give_back s k i g)
  ended-HasSlots s k i g held at a = record {
    slots = λ j h found.
        let fewer = count-remove_at j k i s.active held in
        elim (get_elem?-set s.generations i j g _ h at found) [
          | inl (same, is) ↦
              let (one, bound) = a.slots i g at in
              let self : (j == i) ≡ true = (==_iff j i).1 (sym same) in
              let less : count j s.active ≡ 1 + count j (remove_at s.active k) = rw self at fewer in
              rw (← is) (omega (arith, ap (λ n. count n s.active) same), omega arith)
          | inr (differs, old) ↦
              let (one, bound) = a.slots j h old in
              let away : (j == i) ≡ false = ground arith in
              (
                let same : count j s.active ≡ 0 + count j (remove_at s.active k) =
                      rw away at fewer in
                    omega (arith, one),
                bound,
              )
        ];
    known =
        let size = length-set s.generations i (record g { taken = g.taken - 1 }) in
        Below-suc (length s.generations) _ (remove_at s.active k) (omega arith)
          (Below-remove_at (length s.generations) k s.active a.known);
  }

  installed-HasSlots :
      (s : Serving A) (state : RuntimeState A) → HasSlots s → HasSlots (install s state)
  installed-HasSlots s state a = record {
    slots = λ j h found.
        elim (get_elem?-snoc s.generations (record { state = state; taken = 0 }) h j found) [
          | inl old ↦ a.slots j h old
          | inr (last, is) ↦
              let nobody = count-Below (length s.generations) s.active a.known in
              rw (← is, last) (sym nobody, omega arith)
        ];
    known =
        Below-suc (length s.generations) _ s.active
          (omega (arith, length-append s.generations (record { state = state; taken = 0 } ∷ [])))
          a.known;
  }

  step-HasSlots : {s t : Serving A} → Step s t → HasSlots s → HasSlots t
  step-HasSlots {s} {t} (admits i g at room) a = admitted-HasSlots s i g at room a
  step-HasSlots {s} {t} (ends k i g held at) a = ended-HasSlots s k i g held at a
  step-HasSlots {s} {t} (installs state) a = installed-HasSlots s state a

  -- In every order of admissions, ends and reconfigurations, the slots that are taken of a runtime
  -- state are those of the requests that it serves, and they are no more than its `max_in_flight`,
  -- also while requests of the states before it have not ended.
  pub Reachable-HasSlots : (s : Serving A) → Reachable s → HasSlots s
  Reachable-HasSlots _ empty = record { slots = λ i g found. absurd (cc); known = tt }
  Reachable-HasSlots _ (next {s} {t} before step) = step-HasSlots step (Reachable-HasSlots s before)
