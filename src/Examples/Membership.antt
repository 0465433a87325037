-- ===== src/Examples/Membership.antt =====
-- A cluster whose Raft is a list of servers.
use mathlib.Core.Path.{subst}
use go_serve.Auth.{skip}
use go_serve.Common.{
  ap, ◌==◌, ℕ, ◌≡◌, ◌≢◌, refl, sym, inl, inr, Bool, true, false, Option, none, some, List, [], ◌∷◌,
  map, Str, bytes, str_eq, str_eq_iff, is_empty, In, length, if◌then◌else◌, Bool-cases,
}
use go_serve.Common.Dict.{str_Eq, lookup, insert}
use go_serve.Config.{ClusterConfig, items}
use go_serve.Dataplane.Headers.{Header}
use go_serve.Auth.Protect.{Guard, oauth_page}
use go_serve.Cluster.{Assignment, Command, apply, apply_all}
use go_serve.Cluster.Membership.{Server, Raft, ids, IsLawful}
use go_serve.Cluster.Membership.Kept.{
  ClusterCall, admin, of_node, add_request, remove_request, transfer_request, serve, serve_all,
  serve_all-HasSelf,
}
use go_serve.Cluster.Membership.Truthful.{Tells, serve-Tells}
use go_serve.Cluster.Joining.{ClusterRequest, joined, join_loop, cluster_handler}
use go_serve.Cluster.Joining.Admits.{Admitted, cluster_handler-Admitted}
use go_serve.Cluster.Joining.Refused.{NoPages, protected_peer, join_loop_refused}
use go_serve.Cluster.Snapshots.{snapshot, kept, persist, restore}
use go_serve.Cluster.Snapshots.Replayed.{IsText, ReadsTexts, KeepsEntries, restore_replays}
use go_serve.Examples.{site}
use go_serve.Examples.Codecs.{ascii, encode, decode, put_entries, decode-encode}

abbrev without : Str → List Server → List Server
without id [] = []
without id (s ∷ servers) =
    let rest = without id servers in if str_eq s.id id then rest else s ∷ rest

-- A Raft whose calls always succeed, on the list of its servers.
abbrev pub raft : Raft (List Server)
raft = record {
  servers = λ r. r;
  configuration_fails = λ r. false;
  state = λ r. bytes "Leader";
  leader_address = λ r. bytes "a:1";
  stats = λ r. record {
    commit_index = bytes "1";
    applied_index = bytes "1";
    last_log_index = bytes "1";
  };
  add_voter =
      λ r id address. (record { id = id; address = address; suffrage = bytes "Voter" } ∷ r, true);
  remove_server = λ r id. (without id r, true);
  leadership_transfer = λ r. (r, true);
  leadership_transfer_to = λ r id address. (r, true);
}

without_keeps :
    (id other : Str) (r : List Server)
    → id ≢ other
    → In other (ids r)
    → In other (ids (without id r))
without_keeps id other [] differs h = h
without_keeps id other (s ∷ r) differs h = elim (Bool-cases (str_eq s.id id)) [
  | inr stays ↦
      rw stays (elim h [ inl e ↦ inl e | inr m ↦ inr (without_keeps id other r differs m) ])
  | inl goes ↦
      let same : s.id ≡ id = (str_eq_iff s.id id).0 goes in
      rw goes (elim h [
        | inl e ↦ absurd (differs (cc (same, e)))
        | inr m ↦ without_keeps id other r differs m
      ])
]

without_none : (id : Str) (r : List Server) → ¬ In id (ids (without id r))
without_none id [] h = h
without_none id (s ∷ r) h = elim (Bool-cases (str_eq s.id id)) [
  | inl goes ↦ without_none id r (rw goes at h)
  | inr stays ↦ elim (rw stays at h) [
    | inl e ↦ cc (sym stays, (str_eq_iff s.id id).1 (cc e))
    | inr m ↦ without_none id r m
  ]
]

raft-IsLawful : IsLawful raft
raft-IsLawful = record {
  adds = λ r id address other h. inr h;
  added = λ r id address h. inl refl;
  removes = λ r id other differs h. without_keeps id other r differs h;
  removed = λ r id h. without_none id r;
  transfers = λ r. refl;
  transfers_to = λ r id address. refl;
}

abbrev pub config : ClusterConfig
config = record (site.cluster) {
  node_id = bytes "a";
  advertise_addr = bytes "a:1";
  peers = some (
      record {
        id = bytes "b";
        address = bytes "b:1";
        public_url = bytes "http://b";
        admin_url = bytes "http://b:9901/";
      }
      ∷ []);
}

abbrev pub alone : List Server
alone = record { id = bytes "a"; address = bytes "a:1"; suffrage = bytes "Voter" } ∷ []

abbrev pub join : ClusterRequest
join = record {
  path = bytes "/cluster/join";
  method = bytes "POST";
  joins = some (bytes "b", bytes "b:1");
  client_key = [];
}

abbrev requests : List ClusterCall
requests =
    admin (add_request (some (bytes "b", bytes "b:1")))
    ∷ admin (remove_request (bytes "a"))
    ∷ of_node [] join 1 1
    ∷ admin (transfer_request (some (some (bytes "b"))))
    ∷ admin (remove_request (bytes "b"))
    ∷ []

serve_all-HasSelf_example : In (bytes "a") (ids (serve_all raft config requests alone))
serve_all-HasSelf_example = serve_all-HasSelf raft config raft-IsLawful requests alone (inl refl)

serve-Tells_example : Tells raft config (serve raft config (remove_request (bytes "b")) alone)
serve-Tells_example = serve-Tells raft config raft-IsLawful (remove_request (bytes "b")) alone

joins : (cluster_handler raft config [] alone join 1 1).1 ≡ joined
unfolding cluster_handler bytes str_eq
joins = refl

cluster_handler-Admitted_example :
    (str_eq join.path (bytes "/cluster/join") ≡ true)
    × (str_eq join.method (bytes "POST") ≡ true)
    × Admitted raft config alone join.joins (cluster_handler raft config [] alone join 1 1).0
cluster_handler-Admitted_example =
    cluster_handler-Admitted raft config raft-IsLawful [] alone join 1 1 joins

abbrev pub guard : Str → Guard
guard url = record {
  mode = bytes "bearer";
  open_cookie = λ value. none;
  verifier = none;
  join = λ scopes. [];
  query_escape = λ s. s;
}

abbrev from_slash : Str → Str
from_slash [] = []
from_slash (c ∷ s) = let rest = from_slash s in if c == b'/' then c ∷ s else rest

-- The path of an URL that begins with `http://` and has no query
abbrev path_of : Str → Str
path_of url = from_slash (skip 7 url)

no_pages : NoPages path_of (items config.peers)
unfolding oauth_page bytes str_eq
no_pages = (refl, tt)

abbrev accepts : Str → Header → ℕ
accepts url headers = 200

abbrev rounds : List (ℕ × (Str → Bool))
rounds = (1, λ url. true) ∷ (2, λ url. true) ∷ []

join_loop_refused_example :
    join_loop config (map (protected_peer guard path_of accepts) rounds) ≡ false
join_loop_refused_example = join_loop_refused guard path_of accepts config rounds no_pages

abbrev pub client : Assignment
client = record {
  client_key = bytes "10.1.1.1";
  node_id = bytes "b";
  peer_url = bytes "http://b";
  expires_at = 100;
}

keeps : KeepsEntries ascii encode decode
keeps m text texts h =
    let is : length m ∷ put_entries m ≡ text = cc in (m, rw (← is) (decode-encode m), λ key. refl)

abbrev unmarshal : Str → Option Command
unmarshal entry =
    if is_empty entry then none else some (record { kind = bytes "assign"; assignment = client })

client-IsText : IsText ascii client
unfolding bytes
client-IsText = (refl, refl, refl)

reads : ReadsTexts ascii unmarshal
reads [] command h = absurd (cc)
reads (c ∷ entry) command h =
    let is : client ≡ command.assignment =
      (let same : record { kind = bytes "assign"; assignment = client } ≡ command = cc in
        ap (λ (q : Command). q.assignment) same) in
    subst (IsText ascii) is client-IsText

abbrev stored : Str
stored = 1 ∷ put_entries ((client.client_key, client) ∷ [])

taken : persist encode decode (snapshot (apply_all unmarshal [] (bytes "entry" ∷ []))) ≡ kept stored
unfolding persist snapshot apply_all apply insert bytes str_eq
taken = refl

restore_replays_example :
    ((restore encode decode ((bytes "x", client) ∷ []) stored).1 ≡ true)
    × (lookup (bytes "10.1.1.1") (
          apply_all unmarshal (restore encode decode ((bytes "x", client) ∷ []) stored).0 ([] ∷ []))
        ≡ lookup (bytes "10.1.1.1") (apply_all unmarshal [] (bytes "entry" ∷ [] ∷ [])))
restore_replays_example =
    restore_replays ascii encode decode unmarshal (bytes "entry" ∷ []) ([] ∷ [])
      ((bytes "x", client) ∷ []) stored (bytes "10.1.1.1") reads keeps taken
