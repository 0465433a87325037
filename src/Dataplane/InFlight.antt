-- ===== src/Dataplane/InFlight.antt =====
-- `maxInFlight` of internal/dataplane/server.go over the requests that `Handler` serves at the same time. A
-- request loads the runtime state that is current, takes a slot of that state's channel, and gives
-- it back when it ends; the state may have been replaced in between, at any of these points.
pub mod Accounted
use go_serve.Common.{
  ℕ, zero, suc, ◌+◌, ◌-◌, ◌<◌, ◌≡◌, Option, none, some, List, [], ◌∷◌, ◌++◌, get_elem?, set,
}
use go_serve.Dataplane.Compile.{RuntimeState}

-- A runtime state that was installed, with the slots of its channel that are taken
pub record Generation (A : Type 0) : Type 0 where
  pub state : RuntimeState A
  pub taken : ℕ

-- `generations` lists these, the first one first; `active` tells of each request that holds a slot which
-- of them it is from.
pub record Serving (A : Type 0) : Type 0 where
  pub generations : List (Generation A)
  pub active : List ℕ

abbrev pub remove_at : List ℕ → ℕ → List ℕ
remove_at [] k = []
remove_at (i ∷ is) zero = is
remove_at (i ∷ is) (suc k) = i ∷ remove_at is k

module _ {A : Type 0} where
  -- runtime.maxInFlight <- struct{}{}
  abbrev pub take_slot : Serving A → ℕ → Generation A → Serving A
  take_slot s i g = record {
    generations = set s.generations i (record g { taken = g.taken + 1 });
    active = i ∷ s.active;
  }

  -- <-runtime.maxInFlight, by the request at the place `k`
  abbrev pub give_back : Serving A → ℕ → ℕ → Generation A → Serving A
  give_back s k i g = record {
    generations = set s.generations i (record g { taken = g.taken - 1 });
    active = remove_at s.active k;
  }

  -- s.runtime.Swap, to a state whose channel is new
  abbrev pub install : Serving A → RuntimeState A → Serving A
  install s state = record s {
    generations = s.generations ++ record { state = state; taken = 0 } ∷ [];
  }

  pub data Step : Serving A → Serving A → Type 0 where
    admits :
        {s : Serving A} (i : ℕ) (g : Generation A)
        → get_elem? s.generations i ≡ some g
        → g.taken < g.state.max_in_flight
        → Step s (take_slot s i g)
    ends :
        {s : Serving A} (k i : ℕ) (g : Generation A)
        → get_elem? s.active k ≡ some i
        → get_elem? s.generations i ≡ some g
        → Step s (give_back s k i g)
    installs : {s : Serving A} (state : RuntimeState A) → Step s (install s state)

  pub data Reachable : Serving A → Type 0 where
    empty : Reachable (record { generations = []; active = [] })
    next : {s t : Serving A} → Reachable s → Step s t → Reachable t
