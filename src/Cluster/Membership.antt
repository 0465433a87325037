-- ===== src/Cluster/Membership.antt =====
-- The membership operations of `Node` of internal/cluster/node.go. Raft is an interface on a state
-- `R`: the members that it holds, and its calls with what each leaves and whether it failed.
-- A node that `New` returned has a Raft, so the branches for a node without one are left out.
pub mod Kept
pub mod Truthful
use go_serve.Common.{
  ℕ, ◌≡◌, ◌≢◌, Bool, true, false, not, ◌&&◌, ◌||◌, Option, none, some, List, [], ◌∷◌, map, Str,
  bytes, str_eq, is_empty, Result, ok, err, if◌then◌else◌, In,
}
use go_serve.Config.{ClusterConfig, ClusterPeer}
use go_serve.ControlPlane.Cluster.{Controller}

-- One server of a Raft configuration
pub record Server : Type 0 where
  pub id : Str
  pub address : Str
  pub suffrage : Str

pub record Stats : Type 0 where
  pub commit_index : Str
  pub applied_index : Str
  pub last_log_index : Str

pub record Raft (R : Type 0) : Type 0 where
  pub servers : R → List Server
  pub configuration_fails : R → Bool
  pub state : R → Str
  pub leader_address : R → Str
  pub stats : R → Stats
  pub add_voter : R → Str → Str → R × Bool
  pub remove_server : R → Str → R × Bool
  pub leadership_transfer : R → R × Bool
  pub leadership_transfer_to : R → Str → Str → R × Bool

abbrev pub ids : List Server → List Str
ids = map (λ s. s.id)

-- What Raft documents of these calls: adding a voter loses no member, and when it succeeds the voter
-- is one; removing a server loses no other one, and when it succeeds the server is none; a transfer
-- of the leadership keeps the members.
pub record IsLawful {R : Type 0} (raft : Raft R) : Type 0 where
  pub adds :
      (r : R) (id address other : Str)
      → In other (ids (raft.servers r))
      → In other (ids (raft.servers (raft.add_voter r id address).0))
  pub added :
      (r : R) (id address : Str)
      → (raft.add_voter r id address).1 ≡ true
      → In id (ids (raft.servers (raft.add_voter r id address).0))
  pub removes :
      (r : R) (id other : Str)
      → id ≢ other
      → In other (ids (raft.servers r))
      → In other (ids (raft.servers (raft.remove_server r id).0))
  pub removed :
      (r : R) (id : Str)
      → (raft.remove_server r id).1 ≡ true
      → ¬ In id (ids (raft.servers (raft.remove_server r id).0))
  pub transfers : (r : R) → raft.servers (raft.leadership_transfer r).0 ≡ raft.servers r
  pub transfers_to :
      (r : R) (id address : Str)
      → raft.servers (raft.leadership_transfer_to r id address).0 ≡ raft.servers r

pub data ClusterError : Type 0 where
  cluster_unavailable configuration_failed fields_required local_member raft_failed : ClusterError
  not_found : Str → ClusterError

pub record Member : Type 0 where
  pub id : Str
  pub address : Str
  pub suffrage : Str
  pub is_self : Bool
  pub is_leader : Bool

-- What the three reading calls return
pub data Document : Type 0 where
  status : Str → Str → Bool → Str → Stats → Document
  members_of : List Member → Document
  sync : Str → Str → Str → Stats → Bool → Document

abbrev pub outcome : {R : Type 0} → R × Bool → R × Option ClusterError
outcome (r, true) = (r, none)
outcome (r, false) = (r, some raft_failed)

module _ {R : Type 0} (raft : Raft R) (config : ClusterConfig) where
  abbrev pub is_leader : R → Bool
  is_leader r = str_eq (raft.state r) (bytes "Leader")

  -- `Ready`, where the node has a Raft
  unfoldable pub node_ready : R → Bool × Str
  node_ready r =
      if str_eq (raft.state r) (bytes "Shutdown")
      then (false, bytes "cluster_unavailable")
      else if is_empty (raft.leader_address r)
      then (false, bytes "cluster_no_leader")
      else (true, bytes "ready")

  unfoldable pub node_status : R → Result ClusterError Document
  node_status r =
      ok (status config.node_id (raft.state r) (is_leader r) (raft.leader_address r) (raft.stats r))

  abbrev pub member_of : R → Server → Member
  member_of r s = record {
    id = s.id;
    address = s.address;
    suffrage = s.suffrage;
    is_self = str_eq s.id config.node_id;
    is_leader = str_eq s.id config.node_id && is_leader r;
  }

  unfoldable pub node_members : R → Result ClusterError Document
  node_members r =
      if raft.configuration_fails r
      then err configuration_failed
      else ok (members_of (map (member_of r) (raft.servers r)))

  unfoldable pub node_sync : R → Result ClusterError Document
  node_sync r =
      let stats = raft.stats r in
      ok (
        sync config.node_id (raft.leader_address r) (raft.state r) stats
          (str_eq stats.commit_index stats.applied_index))

  unfoldable pub add_member : R → Str → Str → R × Option ClusterError
  add_member r id address =
      if is_empty id || is_empty address
      then (r, some fields_required)
      else outcome (raft.add_voter r id address)

  unfoldable pub remove_member : R → Str → R × Option ClusterError
  remove_member r id =
      if is_empty id
      then (r, some fields_required)
      else if str_eq id config.node_id
      then (r, some local_member)
      else outcome (raft.remove_server r id)

  -- The loop over the servers
  unfoldable pub transfer_among : R → Str → List Server → R × Option ClusterError
  transfer_among r id [] = (r, some (not_found id))
  transfer_among r id (s ∷ servers) =
      let rest = transfer_among r id servers in
      if str_eq s.id id then outcome (raft.leadership_transfer_to r s.id s.address) else rest

  unfoldable pub transfer : R → Str → R × Option ClusterError
  unfolding transfer_among
  transfer r id =
      if is_empty id
      then outcome (raft.leadership_transfer r)
      else if raft.configuration_fails r
      then (r, some configuration_failed)
      else transfer_among r id (raft.servers r)

  -- The node as the control plane's `ClusterController`
  abbrev pub controller : Controller R Document ClusterError
  controller = record {
    cluster_status = node_status;
    cluster_members = node_members;
    cluster_sync = node_sync;
    add_cluster_member = add_member;
    remove_cluster_member = remove_member;
    transfer_leadership = transfer;
  }
