-- ===== src/Cluster/Creation/Distinct.antt =====
-- The servers that a node bootstraps its cluster with.
use go_serve.Common.{
  ◌≡◌, refl, ap, inl, inr, Bool, true, false, not, Option, none, some, List, [], ◌∷◌, map, Str, ok,
  >>=-eq-ok, ok_injective, reject_if, In, Bool-cases, if◌then◌else◌,
}
use go_serve.Config.{ClusterConfig, ClusterPeer, Config, Url, items}
use go_serve.Config.Validate.{validate}
use go_serve.Config.Valid.{IsDistinct, IsValidCluster, IsValid, validate_iff}
use go_serve.Config.Valid as Valid
use go_serve.Cluster.Membership.{Server, ids}
use go_serve.Cluster.Creation.{
  cluster_disabled, no_data_directory, no_log_store, no_snapshots, advertise_unresolved,
  no_transport, no_raft, Bootstrapped, done, cannot, failed, Opening, Started, voter,
  bootstrap_servers, after_bootstrap, new_node,
}

ids_voters :
    (peers : List ClusterPeer)
    → ids (map (λ (peer : ClusterPeer). voter peer.id peer.address) peers) ≡ Valid.ids peers
ids_voters [] = refl
ids_voters (p ∷ peers) = ap (λ rest. p.id ∷ rest) (ids_voters peers)

bootstrap_servers-ids :
    (cfg : ClusterConfig) → ids (bootstrap_servers cfg) ≡ cfg.node_id ∷ Valid.ids (items cfg.peers)
unfolding bootstrap_servers
bootstrap_servers-ids cfg = ap (λ rest. cfg.node_id ∷ rest) (ids_voters (items cfg.peers))

bootstrapped_with :
    (servers s : List Server) (b : Bootstrapped) (r : Started)
    → after_bootstrap servers b ≡ ok r
    → r.bootstrapped ≡ some s
    → s ≡ servers
bootstrapped_with servers s done r h e =
    let is = ok_injective h in cc (ap (λ (t : Started). t.bootstrapped) is, e)
bootstrapped_with servers s cannot r h e =
    let is = ok_injective h in absurd (cc (ap (λ (t : Started). t.bootstrapped) is, e))
bootstrapped_with servers s failed r h e = absurd (cc)

new_node_servers :
    (o : Opening) (cfg : ClusterConfig) (r : Started) (s : List Server)
    → new_node o cfg ≡ ok r
    → r.bootstrapped ≡ some s
    → (cfg.enabled ≡ true) × (s ≡ bootstrap_servers cfg)
unfolding new_node
new_node_servers o cfg r s h e =
    let (u₁, on, h₁) = >>=-eq-ok (reject_if (not cfg.enabled) cluster_disabled) _ h in
    let (u₂, d, h₂) =
      >>=-eq-ok (reject_if (not (o.make_directory cfg.data_dir)) no_data_directory) _ h₁ in
    let (u₃, l, h₃) = >>=-eq-ok (reject_if (not (o.open_logs cfg.data_dir)) no_log_store) _ h₂ in
    let (u₄, n, h₄) =
      >>=-eq-ok (reject_if (not (o.open_snapshots cfg.data_dir)) no_snapshots) _ h₃ in
    let (u₅, a, h₅) =
      >>=-eq-ok (reject_if (not (o.resolve cfg.advertise_addr)) advertise_unresolved) _ h₄ in
    let (u₆, t, h₆) =
      >>=-eq-ok (reject_if (not (o.open_transport cfg.bind_addr cfg.advertise_addr)) no_transport) _
        h₅ in
    let (u₇, f, h₇) = >>=-eq-ok (reject_if (not (o.start_raft cfg.node_id)) no_raft) _ h₆ in
    (enabled cfg.enabled on, last h₇)
  where
    enabled : (b : Bool) {u : Unit {0}} → reject_if (not b) cluster_disabled ≡ ok u → b ≡ true
    enabled true on = refl
    enabled false on = absurd (cc)

    last :
        (if cfg.bootstrap
            then after_bootstrap (bootstrap_servers cfg) (o.bootstrap (bootstrap_servers cfg))
            else ok (record { bootstrapped = none; joins = true }))
          ≡ ok r
        → s ≡ bootstrap_servers cfg
    last h' = elim (Bool-cases cfg.bootstrap) [
      | inl boots ↦
          bootstrapped_with (bootstrap_servers cfg) s (o.bootstrap (bootstrap_servers cfg)) r
            (rw boots at h') e
      | inr joins ↦
          let is = ok_injective (rw joins at h') in
          absurd (cc (ap (λ (t : Started). t.bootstrapped) is, e))
    ]

-- A node that is created from a valid configuration and bootstraps its cluster does so with servers whose
-- ids are distinct, and it is one of them.
pub new_node-IsDistinct :
    (url_parse : Str → Option Url) (o : Opening) (c : Config) (r : Started) (s : List Server)
    → validate url_parse c ≡ ok tt
    → new_node o c.cluster ≡ ok r
    → r.bootstrapped ≡ some s
    → IsDistinct (ids s) × In c.cluster.node_id (ids s)
new_node-IsDistinct url_parse o c r s valid created boots =
    let (on, is) = new_node_servers o c.cluster r s created boots in
    let v = ((validate_iff url_parse c).0 valid).cluster on in
    rw (is, bootstrap_servers-ids c.cluster) (v.distinct, inl refl)
