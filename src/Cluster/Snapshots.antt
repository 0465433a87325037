-- ===== src/Cluster/Snapshots.antt =====
-- `Snapshot`, `Persist` and `Restore` of internal/cluster/node.go. The JSON codec of the map and the
-- snapshot's sink are parameters; a map that is copied holds the same entries.
pub mod Replayed
use go_serve.Common.{Bool, true, false, Option, none, some, Str, if◌then◌else◌}
use go_serve.Cluster.{Assignments}

-- `Snapshot`: a copy of the map
unfoldable pub snapshot : Assignments → Assignments
snapshot assignments = assignments

-- What the sink holds in the end
pub data Sink : Type 0 where
  cancelled : Sink
  kept : Str → Sink

module _ (encode : Assignments → Option Str) (decode : Str → Option Assignments) where
  -- `Persist`
  unfoldable pub persist : Assignments → Sink
  persist assignments = elim (encode assignments) [ none ↦ cancelled | some text ↦ kept text ]

  -- `Restore`: the map, and whether the text was read
  unfoldable pub restore : Assignments → Str → Assignments × Bool
  restore assignments text = elim (decode text) [
    | none ↦ (assignments, false)
    | some stored ↦ (stored, true)
  ]
