-- ===== src/Cluster/Joining/Admits.antt =====
-- Whom `clusterHandler` lets into the cluster.
use go_serve.Common.{
  ℕ, ◌≡◌, refl, inl, inr, Bool, true, false, ◌&&◌, ◌||◌, Option, none, some, Str, bytes, str_eq,
  is_empty, ltb, In, arith, Bool-cases, Option-cases,
}
use go_serve.Config.{ClusterConfig}
use go_serve.Cluster.{Assignments, assignment}
use go_serve.Cluster.Membership.{Raft, ids, IsLawful, is_leader}
use go_serve.Cluster.Joining.{
  ClusterRequest, joined, join_answer, serve_join, serve_assignment, cluster_handler,
}

module _ {R : Type 0} (raft : Raft R) (config : ClusterConfig) where
  assignment_no_join :
      (assignments : Assignments) (key : Str) (now later : ℕ)
      → ¬ (serve_assignment raft config assignments key now later ≡ joined)
  unfolding serve_assignment
  assignment_no_join assignments key now later h =
      elim (Option-cases (assignment assignments key now)) [
        | inl e ↦ cc (rw (e, serve_assignment) at h)
        | inr (a, e) ↦ elim (Bool-cases (ltb a.expires_at later)) [
          | inl old ↦ cc (rw (e, old, serve_assignment) at h)
          | inr new ↦ cc (rw (e, new, serve_assignment) at h)
        ]
      ]

  -- The request's body names the node that was let in.
  abbrev pub Admitted : R → Option (Str × Str) → R → Type 0
  Admitted r joins r' =
      (id : Str) × (address : Str) × (joins ≡ some (id, address))
      × (is_empty id ≡ false)
      × (is_empty address ≡ false)
      × (is_leader raft config r ≡ true)
      × In id (ids (raft.servers r'))

  join_answered :
      (q : R × Bool) → (join_answer q).1 ≡ joined → (q.1 ≡ true) × ((join_answer q).0 ≡ q.0)
  join_answered (r, true) h = (refl, refl)
  join_answered (r, false) h = absurd (cc)

  serve_join-Admitted :
      (lawful : IsLawful raft) (r : R) (joins : Option (Str × Str))
      → (serve_join raft config r joins).1 ≡ joined
      → Admitted r joins (serve_join raft config r joins).0
  unfolding serve_join
  serve_join-Admitted lawful r none h = absurd (cc)
  serve_join-Admitted lawful r (some (id, address)) h =
      elim (Bool-cases (is_empty id || is_empty address)) [
        | inl bad ↦ absurd (cc (rw (bad, serve_join) at h))
        | inr good ↦ elim (Bool-cases (is_leader raft config r)) [
          | inr follows ↦ absurd (cc (rw (good, follows, serve_join) at h))
          | inl leads ↦
              let (done, state) =
                join_answered (raft.add_voter r id address) (rw (good, leads, serve_join) at h) in
              (
                id,
                address,
                refl,
                ground arith,
                ground arith,
                leads,
                rw (good, leads, serve_join) (rw state (lawful.added r id address done)),
              )
        ]
      ]

  -- Over a Raft that keeps its documented laws, a node answers a request with `joined` only when it
  -- is a POST to `/cluster/join` whose body names an id and an address, the node leads, and the id is
  -- a member afterwards.
  pub cluster_handler-Admitted :
      (lawful : IsLawful raft) (assignments : Assignments) (r : R) (q : ClusterRequest)
      (now later : ℕ)
      → (cluster_handler raft config assignments r q now later).1 ≡ joined
      → (str_eq q.path (bytes "/cluster/join") ≡ true)
        × (str_eq q.method (bytes "POST") ≡ true)
        × Admitted r q.joins (cluster_handler raft config assignments r q now later).0
  unfolding cluster_handler
  cluster_handler-Admitted lawful assignments r q now later h =
      elim (Bool-cases (str_eq q.path (bytes "/cluster/health"))) [
        | inl health ↦ absurd (cc (rw (health, cluster_handler) at h))
        | inr other ↦
            elim (Bool-cases
              (str_eq q.path (bytes "/cluster/join") && str_eq q.method (bytes "POST"))) [
                | inl joins ↦ (
                  ground arith,
                  ground arith,
                  rw (other, joins, cluster_handler)
                      (serve_join-Admitted lawful r q.joins
                        (rw (other, joins, cluster_handler) at h)),
                )
                | inr else_where ↦ elim (Bool-cases (str_eq q.path (bytes "/cluster/assignment"))) [
                  | inl asks ↦ absurd (
                      assignment_no_join assignments q.client_key now later
                        (rw (other, else_where, asks, cluster_handler) at h))
                  | inr none_of ↦
                      absurd (cc (rw (other, else_where, none_of, cluster_handler) at h))
                ]
              ]
      ]
