-- ===== src/Cluster/Joining.antt =====
-- `clusterHandler` and `joinLoop` of internal/cluster/node.go: the endpoints that every node serves on
-- its control plane, and the loop by which a node asks its peers to let it in.
pub mod Refused
pub mod Admits
use go_serve.Common.{
  ℕ, Bool, true, false, not, ◌&&◌, ◌||◌, Option, none, some, List, [], ◌∷◌, ◌++◌, Str, bytes,
  str_eq, is_empty, leb, ltb, if◌then◌else◌,
}
use go_serve.Config.{ClusterConfig, ClusterPeer, items}
use go_serve.Auth.Protect.{Presented}
use go_serve.Cluster.{Assignment, Assignments, assignment}
use go_serve.Cluster.Membership.{Raft, is_leader}

-- `joins` is the decoded body of a join: the id and the address.
pub record ClusterRequest : Type 0 where
  pub path : Str
  pub method : Str
  pub joins : Option (Str × Str)
  pub client_key : Str

pub data ClusterAnswer : Type 0 where
  health : Str → Bool → Str → ClusterAnswer
  fields_missing not_leader join_failed joined no_assignment passed_on : ClusterAnswer
  assigned : Assignment → ClusterAnswer

-- The status that each answer is written with, where it is not the next handler's
abbrev pub code : ClusterAnswer → Option ℕ
code (health id leads address) = some 200
code fields_missing = some 400
code not_leader = some 503
code join_failed = some 409
code joined = some 200
code no_assignment = some 404
code (assigned a) = some 200
code passed_on = none

abbrev pub join_answer : {R : Type 0} → R × Bool → R × ClusterAnswer
join_answer (r, true) = (r, joined)
join_answer (r, false) = (r, join_failed)

module _ {R : Type 0} (raft : Raft R) (config : ClusterConfig) where
  -- The branch of `/cluster/join`
  unfoldable pub serve_join : R → Option (Str × Str) → R × ClusterAnswer
  serve_join r none = (r, fields_missing)
  serve_join r (some (id, address)) =
      if is_empty id || is_empty address
      then (r, fields_missing)
      else if not (is_leader raft config r)
      then (r, not_leader)
      else join_answer (raft.add_voter r id address)

  -- The branch of `/cluster/assignment`, which looks at the time twice
  unfoldable pub serve_assignment : Assignments → Str → ℕ → ℕ → ClusterAnswer
  serve_assignment assignments key now later = elim (assignment assignments key now) [
    | none ↦ no_assignment
    | some a ↦ if ltb a.expires_at later then no_assignment else assigned a
  ]

  unfoldable pub cluster_handler : Assignments → R → ClusterRequest → ℕ → ℕ → R × ClusterAnswer
  unfolding serve_join serve_assignment
  cluster_handler assignments r q now later =
      if str_eq q.path (bytes "/cluster/health")
      then (r, health config.node_id (is_leader raft config r) (raft.leader_address r))
      else if str_eq q.path (bytes "/cluster/join") && str_eq q.method (bytes "POST")
      then serve_join r q.joins
      else if str_eq q.path (bytes "/cluster/assignment")
      then (r, serve_assignment assignments q.client_key now later)
      else (r, passed_on)

-- strings.TrimRight(s, "/")
abbrev pub drop_slashes : Str → Str
drop_slashes [] = []
drop_slashes (c ∷ s) =
    let rest = drop_slashes s in
    if is_empty rest && str_eq (c ∷ []) (bytes "/") then [] else c ∷ rest

abbrev pub join_url : ClusterPeer → Str
join_url peer = drop_slashes peer.admin_url ++ bytes "/cluster/join"

-- The peers in one round; `send` is the status that the answer to the POST to an URL has, if any.
unfoldable pub join_round : (Str → Option ℕ) → List ClusterPeer → Bool
join_round send [] = false
join_round send (peer ∷ peers) =
    let rest = join_round send peers in
    if is_empty peer.admin_url then rest else elim (send (join_url peer)) [
      | none ↦ rest
      | some status ↦ if leb 200 status && ltb status 300 then true else rest
    ]

-- `joinLoop` over the rounds until its context ends: whether it joined.
unfoldable pub join_loop : ClusterConfig → List (Str → Option ℕ) → Bool
unfolding join_round
join_loop config [] = false
join_loop config (send ∷ rounds) =
    let rest = join_loop config rounds in
    if join_round send (items config.peers) then true else rest

-- The request as the peer's middleware sees it: only the content type is set.
abbrev pub join_request : Str → Presented
join_request path = record {
  method = bytes "POST";
  path = path;
  uri = path;
  accept = [];
  cookie = none;
  authorization = [];
  headers = (bytes "Content-Type", bytes "application/json" ∷ []) ∷ [];
}
