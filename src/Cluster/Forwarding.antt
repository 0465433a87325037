-- ===== src/Cluster/Forwarding.antt =====
-- `clientKey`, `Assign` and `forward` of internal/cluster/node.go, and `Proxy` on a whole request.
-- `net.SplitHostPort`, `url.Parse` and the client's `Do` are parameters. The bodies, and a copy of one
-- that breaks off, are not modelled.
pub mod Refused
use go_serve.Common.{
  ℕ, Bool, true, false, not, Option, none, some, List, [], ◌∷◌, Str, bytes, str_eq, is_empty,
  Result, ok, err, reject_if, ◌>>=◌, ◌>>◌, if◌then◌else◌, ◌==◌, add_duration,
}
use go_serve.Common.Dict.{str_Eq, lookup, insert}
use go_serve.Config.{ClusterConfig, Url}
use go_serve.Dataplane.Headers.{Header}
use go_serve.Cluster.{Assignment, Assignments, proxy, Proxied, local, peer}

-- `Header.Get` of a canonical name
abbrev pub get : Str → Header → Str
get key headers = elim (lookup key headers) [
  | none ↦ []
  | some values ↦ elim values [ [] ↦ [] | v ∷ vs ↦ v ]
]

pub record ClientRequest : Type 0 where
  pub remote_addr : Str
  pub request_uri : Str
  pub scheme : Str
  pub host : Str
  pub headers : Header

abbrev pub forwarded_name : Str
forwarded_name = bytes "X-Go-Serve-Forwarded"

-- `split_host_port` gives the host.
unfoldable pub client_key : (Str → Option Str) → ClientRequest → Str
client_key split_host_port r =
    let value = get (bytes "X-Go-Serve-Client-Key") r.headers in
    if not (is_empty value)
    then value
    else elim (split_host_port r.remote_addr) [ some host ↦ host | none ↦ r.remote_addr ]

-- The request that `forward` gives to the client: a clone, with the peer's scheme and host in its URL
unfoldable pub forward_request : Url → ClientRequest → ClientRequest
forward_request base r = record r {
  scheme = base.scheme;
  host = base.host;
  headers = insert forwarded_name (bytes "1" ∷ []) r.headers;
}

-- The status and the headers of a response
pub record Response : Type 0 where
  pub status : ℕ
  pub headers : Header

-- What the client gets: the answer of this node's own handler, a peer's response, or the status 502
pub data ProxyAnswer : Type 0 where
  own_handler peer_unavailable : ProxyAnswer
  relayed : Response → ProxyAnswer

-- `forward` with the answer to its error; `send` is the client's `Do`, `none` for an error.
unfoldable pub forward_to :
    (Str → Option Url) → (ClientRequest → Option Response) → ClientRequest → Str → ProxyAnswer
unfolding forward_request
forward_to url_parse send r peer_url = elim (url_parse peer_url) [
  | none ↦ peer_unavailable
  | some base ↦ elim (send (forward_request base r)) [
    | none ↦ peer_unavailable
    | some response ↦ relayed response
  ]
]

unfoldable pub proxy_request :
    (Str → Option Str)
    → (Str → ℕ)
    → ClusterConfig
    → Assignments
    → Bool
    → Str
    → Bool
    → ClientRequest
    → ℕ
    → Proxied
proxy_request split_host_port sum32 config assignments is_leader leader_address raft_applies r now =
    proxy sum32 config assignments is_leader leader_address raft_applies
      (str_eq (get forwarded_name r.headers) (bytes "1")) (client_key split_host_port r) now

-- `Proxy` up to what it answers
unfoldable pub answer_proxied :
    (Str → Option Url) → (ClientRequest → Option Response) → ClientRequest → Proxied → ProxyAnswer
unfolding forward_to
answer_proxied url_parse send r p = elim p.target [
  | local ↦ own_handler
  | peer peer_url ↦ forward_to url_parse send r peer_url
]

pub data AssignError : Type 0 where
  leader_elsewhere : Str → AssignError
  encoding_failed apply_failed : AssignError

-- `IsZero`, then the assignment's own time to live
abbrev pub with_expiry : ClusterConfig → ℕ → Assignment → Assignment
with_expiry config now a =
    if a.expires_at == 0
    then record a { expires_at = add_duration now config.assignment_ttl }
    else a

abbrev pub encoded : Option Str → Result AssignError Str
encoded none = err encoding_failed
encoded (some entry) = ok entry

-- `Assign`: the entry that is given to Raft, where it was applied. `marshal` is `json.Marshal` of the
-- command `assign`.
unfoldable pub assign :
    (Assignment → Option Str)
    → ClusterConfig
    → Bool
    → Str
    → Bool
    → ℕ
    → Assignment
    → Result AssignError Str
assign marshal config is_leader leader_address raft_applies now a = do
  reject_if (not is_leader) (leader_elsewhere leader_address)
  entry ← encoded (marshal (with_expiry config now a))
  reject_if (not raft_applies) apply_failed
  ok entry
