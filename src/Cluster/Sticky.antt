-- ===== src/Cluster/Sticky.antt =====
-- Where a client's requests go.
use go_serve.Common.{
  ℕ, ◌≤◌, ◌%◌, length, add_duration, ◌≡◌, refl, sym, ap, ◌∙◌, Bool, true, false, not, ◌&&◌, ◌||◌,
  Option, none, some, [], arith, ltb, Str, bytes, str_eq_refl, is_empty,
}
use go_serve.Common.Dict.{str_Eq, lookup, lookup-insert_self}
use go_serve.Config.{ClusterConfig}
use go_serve.Cluster.{
  Assignment, Command, Assignments, apply, assignment, assignment_for, members, local, route_to,
  proxy,
}

applied :
    (json_unmarshal : Str → Option Command) (before : Assignments) (entry : Str) (a : Assignment)
    → json_unmarshal entry ≡ some (record { kind = bytes "assign"; assignment = a })
    → lookup a.client_key (apply json_unmarshal before entry) ≡ some a
unfolding apply
applied json_unmarshal before entry a decodes =
    let same = str_eq_refl (bytes "assign") in
    simp (decodes, same, apply) (lookup-insert_self a.client_key a before)

module _ (sum32 : Str → ℕ) (config : ClusterConfig) where
  -- Once an entry that assigns a client was applied, and until the assignment expires or another one
  -- is applied, it decides where the client's requests go at every node that knows a leader.
  pub proxy_sticky :
      (json_unmarshal : Str → Option Command) (before : Assignments) (entry : Str) (a : Assignment)
      (is_leader : Bool) (leader_address : Str) (raft_applies : Bool) (now : ℕ)
      → json_unmarshal entry ≡ some (record { kind = bytes "assign"; assignment = a })
      → (is_leader || not (is_empty leader_address)) ≡ true
      → now ≤ a.expires_at
      → proxy sum32 config
          (apply json_unmarshal before entry)
          is_leader
          leader_address
          raft_applies
          false
          a.client_key
          now
        ≡ record { target = route_to config (some a); submitted = none }
  unfolding proxy assignment
  proxy_sticky json_unmarshal before entry a is_leader leader_address raft_applies now decodes led
        fresh =
      let known : (not is_leader && is_empty leader_address) ≡ false = ground arith in
      let in_time : ltb a.expires_at now ≡ false = ground arith in
      let found : assignment (apply json_unmarshal before entry) a.client_key now ≡ some a =
        rw (applied json_unmarshal before entry a decodes, in_time, assignment) refl in
      simp (known, found, proxy)

assigned_url :
    (sum32 : Str → ℕ) (leader : ClusterConfig) (key : Str) (made_at : ℕ) (a : Assignment)
    → assignment_for sum32 leader key made_at ≡ some a
    → sum32 key % length (members leader) ≡ 0
    → (a.client_key ≡ key) × (a.peer_url ≡ [])
unfolding assignment_for
assigned_url sum32 leader key made_at a made first =
    let b : Assignment = record {
      client_key = key;
      node_id = leader.node_id;
      peer_url = [];
      expires_at = add_duration made_at leader.assignment_ttl;
    } in
    let same : some b ≡ some a = simp (first, assignment_for) at made in
    let is : b ≡ a = cc in
    (ap (λ (x : Assignment). x.client_key) (sym is), ap (λ (x : Assignment). x.peer_url) (sym is))

-- An assignment of a client to the leader itself, which has no URL, binds no other node: once it was
-- applied and until it expires, each node that knows a leader serves the client's requests itself.
pub proxy_leader_unreachable :
    (sum32 : Str → ℕ) (leader config : ClusterConfig) (key : Str) (made_at : ℕ) (a : Assignment)
    (json_unmarshal : Str → Option Command) (before : Assignments) (entry : Str) (is_leader : Bool)
    (leader_address : Str) (raft_applies : Bool) (now : ℕ)
    → assignment_for sum32 leader key made_at ≡ some a
    → sum32 key % length (members leader) ≡ 0
    → json_unmarshal entry ≡ some (record { kind = bytes "assign"; assignment = a })
    → (is_leader || not (is_empty leader_address)) ≡ true
    → now ≤ a.expires_at
    → proxy sum32 config
        (apply json_unmarshal before entry)
        is_leader
        leader_address
        raft_applies
        false
        key
        now
      ≡ record { target = local; submitted = none }
unfolding route_to
proxy_leader_unreachable sum32 leader config key made_at a json_unmarshal before entry is_leader
      leader_address raft_applies now made first decodes led fresh =
    let (client, url) = assigned_url sum32 leader key made_at a made first in
    let sticky =
      proxy_sticky sum32 config json_unmarshal before entry a is_leader leader_address raft_applies
        now decodes led fresh in
    let here : route_to config (some a) ≡ local = ground (arith, url) in
    rw client at (sticky ∙ ap (λ t. record { target = t; submitted = none }) here)
