-- ===== src/Cluster/Creation.antt =====
-- `New` of internal/cluster/node.go. What opens the stores, the transport and Raft are parameters, and so
-- is the bootstrap of the cluster.
pub mod Distinct
use go_serve.Common.{
  ℕ, Bool, true, false, not, Option, none, some, List, [], ◌∷◌, map, Str, bytes, Result, ok, err,
  ◌>>=◌, ◌>>◌, reject_if, if◌then◌else◌,
}
use go_serve.Config.{ClusterConfig, ClusterPeer, items}
use go_serve.Cluster.Membership.{Server}

pub data NodeError : Type 0 where
  cluster_disabled no_data_directory no_log_store no_snapshots advertise_unresolved : NodeError
  no_transport no_raft bootstrap_failed : NodeError

-- `BootstrapCluster`: `ErrCantBootstrap` tells that there is a state already.
pub data Bootstrapped : Type 0 where
  done cannot failed : Bootstrapped

-- Whether each call succeeds
pub record Opening : Type 0 where
  pub make_directory : Str → Bool
  pub open_logs : Str → Bool
  pub open_snapshots : Str → Bool
  pub resolve : Str → Bool
  pub open_transport : Str → Str → Bool
  pub start_raft : Str → Bool
  pub bootstrap : List Server → Bootstrapped

-- What a node that was created does: the servers that it bootstrapped with, if it did, and whether it
-- runs `joinLoop`; `leadershipLoop` runs always.
pub record Started : Type 0 where
  pub bootstrapped : Option (List Server)
  pub joins : Bool

abbrev pub voter : Str → Str → Server
voter id address = record { id = id; address = address; suffrage = bytes "Voter" }

-- The node itself, and its peers
unfoldable pub bootstrap_servers : ClusterConfig → List Server
bootstrap_servers cfg =
    voter cfg.node_id cfg.advertise_addr
    ∷ map (λ (peer : ClusterPeer). voter peer.id peer.address) (items cfg.peers)

abbrev pub after_bootstrap : List Server → Bootstrapped → Result NodeError Started
after_bootstrap servers done = ok (record { bootstrapped = some servers; joins = false })
after_bootstrap servers cannot = ok (record { bootstrapped = none; joins = false })
after_bootstrap servers failed = err bootstrap_failed

unfoldable pub new_node : Opening → ClusterConfig → Result NodeError Started
unfolding bootstrap_servers
new_node o cfg = do
  reject_if (not cfg.enabled) cluster_disabled
  reject_if (not (o.make_directory cfg.data_dir)) no_data_directory
  reject_if (not (o.open_logs cfg.data_dir)) no_log_store
  reject_if (not (o.open_snapshots cfg.data_dir)) no_snapshots
  reject_if (not (o.resolve cfg.advertise_addr)) advertise_unresolved
  reject_if (not (o.open_transport cfg.bind_addr cfg.advertise_addr)) no_transport
  reject_if (not (o.start_raft cfg.node_id)) no_raft
  if cfg.bootstrap
      then after_bootstrap (bootstrap_servers cfg) (o.bootstrap (bootstrap_servers cfg))
      else ok (record { bootstrapped = none; joins = true })
