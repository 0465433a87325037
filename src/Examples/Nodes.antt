-- ===== src/Examples/Nodes.antt =====
-- A cluster of two nodes.
use go_serve.Common.{
  ℕ, ◌≡◌, refl, true, false, Option, none, some, List, [], ◌∷◌, arith, Str, bytes, is_empty, pos,
  add_duration, if◌then◌else◌,
}
use go_serve.Common.Dict.{str_Eq, lookup}
use go_serve.Config.Validate.{second}
use go_serve.Cluster.{Assignment, Command, apply, apply_all, proxy, assignment_for, local}
use go_serve.Cluster.Replicas.{last_write, lookup-apply_all}
use go_serve.Cluster.Sticky.{proxy_leader_unreachable}
use go_serve.Examples.{site}

abbrev client : Assignment
client = record {
  client_key = bytes "10.1.1.1";
  node_id = bytes "b";
  peer_url = bytes "http://b";
  expires_at = 100;
}

-- Every entry but the empty one assigns the client.
abbrev decode : Str → Option Command
decode entry =
    if is_empty entry then none else some (record { kind = bytes "assign"; assignment = client })

abbrev sum32 : Str → ℕ
sum32 key = 7

abbrev log : List Str
log = [] ∷ bytes "entry" ∷ []

lookup-apply_all_example :
    lookup (bytes "10.1.1.1") (apply_all decode [] log)
    ≡ last_write decode (bytes "10.1.1.1") none log
unfolding lookup
lookup-apply_all_example = lookup-apply_all decode (bytes "10.1.1.1") [] log

decoded : decode (bytes "entry") ≡ some (record { kind = bytes "assign"; assignment = client })
unfolding bytes
decoded = refl

-- What the leader of the site, which has no peers, assigns.
abbrev own : Assignment
own = record {
  client_key = bytes "10.1.1.1";
  node_id = [];
  peer_url = [];
  expires_at = add_duration 1 (pos second);
}

abbrev decode_own : Str → Option Command
decode_own entry = some (record { kind = bytes "assign"; assignment = own })

made : assignment_for sum32 site.cluster (bytes "10.1.1.1") 1 ≡ some own
unfolding assignment_for
made = refl

proxy_leader_unreachable_example :
    proxy sum32 site.cluster
      (apply decode_own [] [])
      false
      (bytes "a:1")
      true
      false
      (bytes "10.1.1.1")
      50
    ≡ record { target = local; submitted = none }
unfolding bytes
proxy_leader_unreachable_example =
    proxy_leader_unreachable sum32 site.cluster site.cluster (bytes "10.1.1.1") 1 own decode_own []
      [] false (bytes "a:1") true 50 made refl refl refl (omega arith)
