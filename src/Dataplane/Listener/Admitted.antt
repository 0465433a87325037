-- ===== src/Dataplane/Listener/Admitted.antt =====
-- How many connections are admitted.
use go_serve.Common.{
  ℕ, zero, suc, ◌+◌, ◌≤◌, ◌≡◌, refl, ap, inl, inr, Bool, true, false, some, List, [], ◌∷◌, ◌++◌,
  arith, get_elem?, set, Option-cases,
}
use go_serve.Dataplane.Listener.{
  LimitedListener, limit_listener, close, Step, acquires, fails, accepts, closes, Reachable, start,
  next,
}

-- The connections that still hold a slot.
abbrev pub held : List Bool → ℕ
held [] = 0
held (true ∷ bs) = suc (held bs)
held (false ∷ bs) = held bs

held-append : (bs : List Bool) → held (bs ++ true ∷ []) ≡ held bs + 1
held-append [] = refl
held-append (true ∷ bs) = omega (arith, held-append bs)
held-append (false ∷ bs) = held-append bs

held-set :
    (bs : List Bool) (i : ℕ) → get_elem? bs i ≡ some true → held bs ≡ suc (held (set bs i false))
held-set [] i h = absurd (cc)
held-set (true ∷ bs) zero h = refl
held-set (false ∷ bs) zero h = absurd (cc)
held-set (true ∷ bs) (suc i) h = ap suc (held-set bs i h)
held-set (false ∷ bs) (suc i) h = held-set bs i h

-- Each slot belongs to a waiting call or to a connection, and there are no more than the limit.
pub record IsAccounted (limit : ℕ) (l : LimitedListener) : Type 0 where
  pub same_limit : l.limit ≡ limit
  pub slots : l.slots ≡ l.pending + held l.connections
  pub bounded : l.slots ≤ limit

close-IsAccounted :
    (limit i : ℕ) (l : LimitedListener) → IsAccounted limit l → IsAccounted limit (close i l)
unfolding close
close-IsAccounted limit i l a = elim (Option-cases (get_elem? l.connections i)) [
  | inl e ↦ simp (e, close) a
  | inr (false, e) ↦ simp (e, close) a
  | inr (true, e) ↦
      let one = held-set l.connections i e in
      let slots = a.slots in
      let bounded = a.bounded in
      simp (e, close)
        (record { same_limit = a.same_limit; slots = omega arith; bounded = omega arith })
]

step-IsAccounted :
    (limit : ℕ) {l m : LimitedListener} → Step l m → IsAccounted limit l → IsAccounted limit m
step-IsAccounted limit {l} {m} (acquires room) a = record {
  same_limit = a.same_limit;
  slots = let h = a.slots in omega arith;
  bounded = let h = a.same_limit in omega arith;
}
step-IsAccounted limit {l} {m} (fails waits) a = record {
  same_limit = a.same_limit;
  slots = let h = a.slots in omega arith;
  bounded = let h = a.bounded in omega arith;
}
step-IsAccounted limit {l} {m} (accepts waits) a = record {
  same_limit = a.same_limit;
  slots = let h = a.slots in omega (arith, held-append l.connections);
  bounded = a.bounded;
}
step-IsAccounted limit {l} {m} (closes i) a = close-IsAccounted limit i l a

-- In every order of accepts, failures and repeated closes, each slot that is taken belongs to one
-- waiting call or one open connection, so no more connections are open than the limit.
pub Reachable-IsAccounted :
    (limit : ℕ) (l : LimitedListener)
    → Reachable limit l
    → IsAccounted limit l × (held l.connections ≤ limit)
Reachable-IsAccounted limit l r =
    let a = accounted r in (a, let h = a.slots in omega (arith, a.bounded))
  where
    accounted : {l : LimitedListener} → Reachable limit l → IsAccounted limit l
    accounted start =
        unfold limit_listener in (record { same_limit = refl; slots = refl; bounded = omega arith })
    accounted (next before step) = step-IsAccounted limit step (accounted before)
