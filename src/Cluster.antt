-- ===== src/Cluster.antt =====
-- `Node` and `stateMachine` of internal/cluster/node.go: the assignments of clients to nodes, which
-- Raft replicates, and the choice between serving a request here and forwarding it. Raft and
-- `json.Unmarshal` are arguments: the log is a list of entries, and `raft_applies` is whether an entry
-- was committed and applied. A time is a number of nanoseconds after Go's zero time.
pub mod Replicas
pub mod Sticky
pub mod Leadership
pub mod Membership
pub mod Snapshots
pub mod Joining
pub mod Forwarding
pub mod Creation
pub mod Hooks
use go_serve.Common.{
  ℕ, ◌+◌, ◌*◌, ◌%◌, ◌^◌, Bool, true, false, not, ◌&&◌, ◌||◌, Option, none, some, List, [], ◌∷◌,
  ◌==◌, ltb, map, if◌then◌else◌, Str, bytes, str_eq, is_empty, length, get_elem?, add_duration, ℤ,
}
use go_serve.Common.Dict.{str_Eq, lookup, insert}
use go_serve.Config.{ClusterConfig, ClusterPeer, items}

pub record Assignment : Type 0 where
  pub client_key : Str
  pub node_id : Str
  pub peer_url : Str
  pub expires_at : ℕ

pub record Command : Type 0 where
  pub kind : Str
  pub assignment : Assignment

abbrev pub Assignments : Type 0
Assignments = List (Str × Assignment)

module _ (json_unmarshal : Str → Option Command) where
  -- `Apply`, on the data of one entry of the log
  unfoldable pub apply : Assignments → Str → Assignments
  apply assignments entry = elim (json_unmarshal entry) [
    | none ↦ assignments
    | some command ↦
        if str_eq command.kind (bytes "assign")
        then insert command.assignment.client_key command.assignment assignments
        else assignments
  ]

  unfoldable pub apply_all : Assignments → List Str → Assignments
  unfolding apply
  apply_all assignments [] = assignments
  apply_all assignments (entry ∷ log) = apply_all (apply assignments entry) log

-- `Node.Assignment`: an assignment that has expired counts as none.
unfoldable pub assignment : Assignments → Str → ℕ → Option Assignment
assignment assignments key now = elim (lookup key assignments) [
  | none ↦ none
  | some found ↦ if ltb found.expires_at now then none else some found
]

-- The members, this node first.
abbrev pub members : ClusterConfig → List (Str × Str)
members config =
    (config.node_id, []) ∷ map (λ peer. (peer.id, peer.public_url)) (items config.peers)

-- `sum32` is FNV-1a; the index is below the number of members, so there is one.
unfoldable pub assignment_for : (Str → ℕ) → ClusterConfig → Str → ℕ → Option Assignment
assignment_for sum32 config key now =
    elim (get_elem? (members config) (sum32 key % length (members config))) [
      | none ↦ none
      | some member ↦ some (record {
        client_key = key;
        node_id = member.0;
        peer_url = member.1;
        expires_at = add_duration now config.assignment_ttl;
      })
    ]

-- What `Proxy` does with a request: `submitted` is the entry that it gave to Raft, if any.
pub data Target : Type 0 where
  local : Target
  peer : Str → Target

pub record Proxied : Type 0 where
  pub target : Target
  pub submitted : Option Assignment

-- The test that follows the assignment.
unfoldable pub route_to : ClusterConfig → Option Assignment → Target
route_to config none = local
route_to config (some a) =
    if is_empty a.node_id || str_eq a.node_id config.node_id || is_empty a.peer_url
    then local
    else peer a.peer_url

unfoldable pub proxy :
    (Str → ℕ) → ClusterConfig → Assignments → Bool → Str → Bool → Bool → Str → ℕ → Proxied
unfolding assignment assignment_for route_to
proxy sum32 config assignments is_leader leader_address raft_applies forwarded key now =
    if forwarded || (not is_leader && is_empty leader_address)
    then (record { target = local; submitted = none })
    else elim (assignment assignments key now) [
      | some found ↦ record { target = route_to config (some found); submitted = none }
      | none ↦
          if is_leader
          then (record {
            target =
                if raft_applies
                then route_to config (assignment_for sum32 config key now)
                else local;
            submitted = assignment_for sum32 config key now;
          })
          else (record { target = local; submitted = none })
    ]

-- `leadershipLoop` over the values that it receives: the calls of `OnLeader` and `OnFollower`.
unfoldable pub leadership_loop : Bool → List Bool → List Bool
leadership_loop previous [] = []
leadership_loop previous (leader ∷ rest) =
    let calls = leadership_loop leader rest in
    if (leader && previous) || (not leader && not previous) then calls else leader ∷ calls
