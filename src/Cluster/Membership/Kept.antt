-- ===== src/Cluster/Membership/Kept.antt =====
-- Which members a cluster keeps, whatever its administrators and the nodes that join ask for.
use go_serve.Common.{
  ◌≡◌, ◌≢◌, refl, sym, ◌∙◌, inl, inr, Bool, true, false, ◌||◌, Option, none, some, List, [], ◌∷◌, ℕ,
  bytes, not, ◌&&◌, Str, str_eq, str_eq_iff, is_empty, In, Bool-cases,
}
use go_serve.Config.{ClusterConfig}
use go_serve.ControlPlane.Cluster as Endpoints
use go_serve.ControlPlane.Cluster.{Reply, added, removed, change_reply}
use go_serve.Cluster.{Assignments}
use go_serve.Cluster.Joining.{ClusterRequest, join_answer, serve_join, cluster_handler}
use go_serve.Cluster.Membership.{
  is_leader, Server, Raft, ids, IsLawful, ClusterError, Document, outcome, add_member,
  remove_member, transfer_among, transfer, controller,
}

-- The requests that change the membership or the leadership, with their decoded bodies.
pub data AdminRequest : Type 0 where
  add_request : Option (Str × Str) → AdminRequest
  remove_request : Str → AdminRequest
  transfer_request : Option (Option Str) → AdminRequest

-- A request to any endpoint that reaches the node's members: the control plane's, or the node's own
-- under `/cluster/`, with what the node knows and the times that it reads.
pub data ClusterCall : Type 0 where
  admin : AdminRequest → ClusterCall
  of_node : Assignments → ClusterRequest → ℕ → ℕ → ClusterCall

module _ {R : Type 0} (raft : Raft R) (config : ClusterConfig) where
  abbrev pub serve : AdminRequest → R → R × Reply Document ClusterError
  serve (add_request member) r =
      Endpoints.add_cluster_member (some (controller raft config)) r member
  serve (remove_request id) r = Endpoints.remove_cluster_member (some (controller raft config)) r id
  serve (transfer_request target) r =
      Endpoints.transfer_leadership (some (controller raft config)) r target

  abbrev pub serve_any : ClusterCall → R → R
  serve_any (admin q) r = (serve q r).0
  serve_any (of_node assignments q now later) r =
      (cluster_handler raft config assignments r q now later).0

  abbrev pub serve_all : List ClusterCall → R → R
  serve_all [] r = r
  serve_all (q ∷ qs) r = serve_all qs (serve_any q r)

  module _ (lawful : IsLawful raft) where
    -- The node itself is a member.
    abbrev pub HasSelf : R → Type 0
    HasSelf r = In config.node_id (ids (raft.servers r))

    outcome_state : (q : R × Bool) → (outcome q).0 ≡ q.0
    outcome_state (r, true) = refl
    outcome_state (r, false) = refl

    change_state :
        (success : Reply Document ClusterError) (q : R × Option ClusterError)
        → (change_reply success q).0 ≡ q.0
    change_state success (r, none) = refl
    change_state success (r, some e) = refl

    add_member-HasSelf :
        (r : R) (id address : Str) → HasSelf r → HasSelf (add_member raft config r id address).0
    unfolding add_member
    add_member-HasSelf r id address h = elim (Bool-cases (is_empty id || is_empty address)) [
      | inl bad ↦ rw (bad, add_member) h
      | inr good ↦
          rw (good, add_member)
            (rw (outcome_state (raft.add_voter r id address))
              (lawful.adds r id address config.node_id h))
    ]

    remove_member-HasSelf :
        (r : R) (id : Str) → HasSelf r → HasSelf (remove_member raft config r id).0
    unfolding remove_member
    remove_member-HasSelf r id h = elim (Bool-cases (is_empty id)) [
      | inl bad ↦ rw (bad, remove_member) h
      | inr good ↦ elim (Bool-cases (str_eq id config.node_id)) [
        | inl self ↦ rw (good, self, remove_member) h
        | inr other ↦
            let differs : id ≢ config.node_id =
              λ same. cc (sym other ∙ (str_eq_iff id config.node_id).1 same) in
            rw (good, other, remove_member)
              (rw (outcome_state (raft.remove_server r id))
                (lawful.removes r id config.node_id differs h))
      ]
    ]

    among_servers :
        (r : R) (id : Str) (servers : List Server)
        → raft.servers (transfer_among raft config r id servers).0 ≡ raft.servers r
    unfolding transfer_among
    among_servers r id [] = refl
    among_servers r id (s ∷ servers) = elim (Bool-cases (str_eq s.id id)) [
      | inl found ↦
          rw (found, transfer_among)
            (rw (outcome_state (raft.leadership_transfer_to r s.id s.address))
              (lawful.transfers_to r s.id s.address))
      | inr other ↦ rw (other, transfer_among) (among_servers r id servers)
    ]

    transfer_servers :
        (r : R) (id : Str) → raft.servers (transfer raft config r id).0 ≡ raft.servers r
    unfolding transfer
    transfer_servers r id = elim (Bool-cases (is_empty id)) [
      | inl any ↦
          rw (any, transfer) (rw (outcome_state (raft.leadership_transfer r)) (lawful.transfers r))
      | inr named ↦ elim (Bool-cases (raft.configuration_fails r)) [
        | inl fails ↦ rw (named, fails, transfer) refl
        | inr known ↦ rw (named, known, transfer) (among_servers r id (raft.servers r))
      ]
    ]

    serve-HasSelf : (q : AdminRequest) (r : R) → HasSelf r → HasSelf (serve q r).0
    unfolding Endpoints.add_cluster_member Endpoints.remove_cluster_member
        Endpoints.transfer_leadership
    serve-HasSelf (add_request none) r h = h
    serve-HasSelf (add_request (some (id, address))) r h =
        elim (Bool-cases (is_empty id || is_empty address)) [
          | inl bad ↦ rw bad h
          | inr good ↦ rw good (
              rw (change_state (added id) (add_member raft config r id address))
                (add_member-HasSelf r id address h))
        ]
    serve-HasSelf (remove_request id) r h =
        rw (change_state (removed id) (remove_member raft config r id))
          (remove_member-HasSelf r id h)
    serve-HasSelf (transfer_request none) r h =
        rw
          (
            change_state Endpoints.transfer_started (transfer raft config r []),
            transfer_servers r [],
          )
          h
    serve-HasSelf (transfer_request (some none)) r h = h
    serve-HasSelf (transfer_request (some (some id))) r h =
        rw
          (
            change_state Endpoints.transfer_started (transfer raft config r id),
            transfer_servers r id,
          )
          h

    joined_state : (q : R × Bool) → (join_answer q).0 ≡ q.0
    joined_state (r, true) = refl
    joined_state (r, false) = refl

    join-HasSelf :
        (r : R) (joins : Option (Str × Str))
        → HasSelf r
        → HasSelf (serve_join raft config r joins).0
    unfolding serve_join
    join-HasSelf r none h = h
    join-HasSelf r (some (id, address)) h = elim (Bool-cases (is_empty id || is_empty address)) [
      | inl bad ↦ rw (bad, serve_join) h
      | inr good ↦ elim (Bool-cases (not (is_leader raft config r))) [
        | inl follows ↦ rw (good, follows, serve_join) h
        | inr leads ↦
            rw (good, leads, serve_join)
              (rw (joined_state (raft.add_voter r id address))
                (lawful.adds r id address config.node_id h))
      ]
    ]

    node-HasSelf :
        (assignments : Assignments) (r : R) (q : ClusterRequest) (now later : ℕ)
        → HasSelf r
        → HasSelf (cluster_handler raft config assignments r q now later).0
    unfolding cluster_handler
    node-HasSelf assignments r q now later h =
        elim (Bool-cases (str_eq q.path (bytes "/cluster/health"))) [
          | inl health ↦ rw (health, cluster_handler) h
          | inr n₁ ↦
              elim (Bool-cases
                (str_eq q.path (bytes "/cluster/join") && str_eq q.method (bytes "POST"))) [
                  | inl joining ↦ rw (n₁, joining, cluster_handler) (join-HasSelf r q.joins h)
                  | inr n₂ ↦ elim (Bool-cases (str_eq q.path (bytes "/cluster/assignment"))) [
                    | inl asks ↦ rw (n₁, n₂, asks, cluster_handler) h
                    | inr n₃ ↦ rw (n₁, n₂, n₃, cluster_handler) h
                  ]
                ]
        ]

    serve_any-HasSelf : (q : ClusterCall) (r : R) → HasSelf r → HasSelf (serve_any q r)
    serve_any-HasSelf (admin q) r h = serve-HasSelf q r h
    serve_any-HasSelf (of_node assignments q now later) r h =
        node-HasSelf assignments r q now later h

    -- Over a Raft that keeps its documented laws, no sequence of requests to the control plane's
    -- endpoints that change the membership or the leadership and to the node's own endpoints, joins
    -- included, removes that node from its cluster.
    pub serve_all-HasSelf : (qs : List ClusterCall) (r : R) → HasSelf r → HasSelf (serve_all qs r)
    serve_all-HasSelf [] r h = h
    serve_all-HasSelf (q ∷ qs) r h = serve_all-HasSelf qs (serve_any q r) (serve_any-HasSelf q r h)
