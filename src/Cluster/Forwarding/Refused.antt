-- ===== src/Cluster/Forwarding/Refused.antt =====
-- What becomes of a request that is forwarded.
use go_serve.Common.{ℕ, ◌≤◌, ◌≡◌, false, Option, none, str_eq, is_empty}
use go_serve.Common.Dict.{str_Eq}
use go_serve.Config.{ClusterConfig}
use go_serve.Cluster.{Assignment}
use go_serve.Cluster.Forwarding.{ClientRequest, Response}

-- `Do` of net/http refuses a request whose `RequestURI` is set.
abbrev pub RefusesUri : (ClientRequest → Option Response) → Type 0
RefusesUri send = (r : ClientRequest) → is_empty r.request_uri ≡ false → send r ≡ none

-- An assignment to another node, with a URL at which it is reached.
pub record IsElsewhere (config : ClusterConfig) (now : ℕ) (a : Assignment) : Type 0 where
  pub fresh : now ≤ a.expires_at
  pub named : is_empty a.node_id ≡ false
  pub other : str_eq a.node_id config.node_id ≡ false
  pub reached : is_empty a.peer_url ≡ false
