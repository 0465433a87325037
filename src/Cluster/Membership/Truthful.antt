-- ===== src/Cluster/Membership/Truthful.antt =====
-- What the answers of the cluster endpoints tell of the members.
use go_serve.Common.{
  ◌≡◌, ◌≢◌, refl, sym, ◌∙◌, inl, inr, Bool, true, false, ◌||◌, Option, none, some, [], Str, str_eq,
  str_eq_iff, is_empty, In, Bool-cases,
}
use go_serve.Config.{ClusterConfig}
use go_serve.ControlPlane.Cluster as Endpoints
use go_serve.ControlPlane.Cluster.{Reply, added, removed, transfer_started, change_reply}
use go_serve.Cluster.Membership.{
  Raft, ids, IsLawful, ClusterError, Document, outcome, add_member, remove_member, transfer,
}
use go_serve.Cluster.Membership.Kept.{
  AdminRequest, add_request, remove_request, transfer_request, serve,
}

module _ {R : Type 0} (raft : Raft R) (config : ClusterConfig) where
  abbrev Replied : Type 0
  Replied = Reply Document ClusterError

  -- The reply tells of the members after it: an id that was added is one, and an id that was removed
  -- is none and is not the node's.
  abbrev pub Tells : R × Replied → Type 0
  Tells (r, reply) =
      ((id : Str) → reply ≡ added id → In id (ids (raft.servers r)))
      × ((id : Str) → reply ≡ removed id → (¬ In id (ids (raft.servers r))) × (id ≢ config.node_id))

  started_Tells : (q : R × Option ClusterError) → Tells (change_reply transfer_started q)
  started_Tells (r, none) = (λ id h. cc, λ id h. cc)
  started_Tells (r, some e) = (λ id h. cc, λ id h. cc)

  added_Tells :
      (id : Str) (q : R × Bool)
      → (q.1 ≡ true → In id (ids (raft.servers q.0)))
      → Tells (change_reply (added id) (outcome q))
  added_Tells id (r, true) h =
      (λ id' e. let same : id ≡ id' = cc in rw (← same) (h refl), λ id' e. cc)
  added_Tells id (r, false) h = (λ id' e. cc, λ id' e. cc)

  removed_Tells :
      (id : Str) (q : R × Bool)
      → (q.1 ≡ true → ¬ In id (ids (raft.servers q.0)))
      → id ≢ config.node_id
      → Tells (change_reply (removed id) (outcome q))
  removed_Tells id (r, true) h other =
      (λ id' e. cc, λ id' e. let same : id ≡ id' = cc in rw (← same) (h refl, other))
  removed_Tells id (r, false) h other = (λ id' e. cc, λ id' e. cc)

  -- Over a Raft that keeps its documented laws, the answers of the cluster endpoints are true: when a
  -- request is answered with an id that was added, that id is a member afterwards, and when with one
  -- that was removed, it is none, and it is not the id of the node that answers.
  pub serve-Tells :
      (lawful : IsLawful raft) (q : AdminRequest) (r : R) → Tells (serve raft config q r)
  unfolding Endpoints.add_cluster_member Endpoints.remove_cluster_member
      Endpoints.transfer_leadership add_member remove_member
  serve-Tells lawful (add_request none) r = (λ id h. cc, λ id h. cc)
  serve-Tells lawful (add_request (some (id, address))) r =
      elim (Bool-cases (is_empty id || is_empty address)) [
        | inl bad ↦ rw bad (λ id h. cc, λ id h. cc)
        | inr good ↦
            rw (good, add_member)
              (added_Tells id (raft.add_voter r id address) (lawful.added r id address))
      ]
  serve-Tells lawful (remove_request id) r = elim (Bool-cases (is_empty id)) [
    | inl bad ↦ rw (bad, remove_member) (λ id h. cc, λ id h. cc)
    | inr good ↦ elim (Bool-cases (str_eq id config.node_id)) [
      | inl self ↦ rw (good, self, remove_member) (λ id h. cc, λ id h. cc)
      | inr other ↦
          rw (good, other, remove_member)
            (removed_Tells id (raft.remove_server r id) (lawful.removed r id)
              (λ same. cc (sym other ∙ (str_eq_iff id config.node_id).1 same)))
    ]
  ]
  serve-Tells lawful (transfer_request none) r = started_Tells (transfer raft config r [])
  serve-Tells lawful (transfer_request (some none)) r = (λ id h. cc, λ id h. cc)
  serve-Tells lawful (transfer_request (some (some id))) r =
      started_Tells (transfer raft config r id)
