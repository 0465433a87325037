-- ===== src/Dataplane/Listener.antt =====
-- `limitedListener` and `limitedConn` of internal/dataplane/server.go, for a limit of at least one:
-- `LimitListener` returns another listener unchanged below that. Each call of `Accept` is two steps,
-- since it waits for a slot and then for a connection, and other calls may come between. The calls of
-- `Close` of one connection follow one another.
pub mod Admitted
use go_serve.Common.{
  ℕ, ◌+◌, ◌-◌, ◌<◌, ◌≡◌, Bool, true, false, Option, none, some, List, [], ◌∷◌, ◌++◌, get_elem?, set,
}

-- `pending` counts the calls of `Accept` that hold a slot and wait; `connections` tells of each
-- connection whether its `release` is not nil.
pub record LimitedListener : Type 0 where
  pub limit : ℕ
  pub slots : ℕ
  pub pending : ℕ
  pub connections : List Bool

-- `LimitListener`
unfoldable pub limit_listener : ℕ → LimitedListener
limit_listener limit = record { limit = limit; slots = 0; pending = 0; connections = [] }

-- listener.slots <- struct{}{}, which blocks while the channel is full
abbrev pub acquire : LimitedListener → LimitedListener
acquire l = record l { slots = l.slots + 1; pending = l.pending + 1 }

-- The inner `Accept` fails.
abbrev pub accept_failed : LimitedListener → LimitedListener
accept_failed l = record l { slots = l.slots - 1; pending = l.pending - 1 }

-- The inner `Accept` returns a connection.
abbrev pub accepted : LimitedListener → LimitedListener
accepted l = record l { pending = l.pending - 1; connections = l.connections ++ true ∷ [] }

-- `limitedConn.Close` of the i-th connection, which releases its slot the first time.
unfoldable pub close : ℕ → LimitedListener → LimitedListener
close i l = elim (get_elem? l.connections i) [
  | none ↦ l
  | some unreleased ↦ elim unreleased [
    | false ↦ l
    | true ↦ record l { slots = l.slots - 1; connections = set l.connections i false }
  ]
]

pub data Step : LimitedListener → LimitedListener → Type 0 where
  acquires : {l : LimitedListener} → l.slots < l.limit → Step l (acquire l)
  fails : {l : LimitedListener} → 0 < l.pending → Step l (accept_failed l)
  accepts : {l : LimitedListener} → 0 < l.pending → Step l (accepted l)
  closes : {l : LimitedListener} (i : ℕ) → Step l (close i l)

-- What a new listener with this limit can come to.
pub data Reachable (limit : ℕ) : LimitedListener → Type 0 where
  start : Reachable limit (limit_listener limit)
  next : {l m : LimitedListener} → Reachable limit l → Step l m → Reachable limit m
