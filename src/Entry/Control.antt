-- ===== src/Entry/Control.antt =====
-- The control plane's listener of cmd/server/main.go: `Protect` around the metrics' endpoint, around the
-- node's `Handler`, around the control plane's. Which entry of the control plane's table a request
-- gets is the library's choice; the path `/cluster/` and what is below it are the node's.
pub mod Authenticated
pub mod Kept
use go_serve.Common.{
  ℕ, Bool, true, false, Option, none, some, List, Str, bytes, str_eq, has_prefix, if◌then◌else◌,
}
use go_serve.Config.{Config, ClusterConfig, Url}
use go_serve.Auth.Protect.{
  Guard, Presented, OauthPage, Denial, Protected, oauth, denied, passed, protect,
}
use go_serve.Auth.Creation.{Middleware}
use go_serve.Dataplane.Compile.{CompileError}
use go_serve.Runtime.{Manager, activate}
use go_serve.ControlPlane.Cluster.{Controller}
use go_serve.ControlPlane.Endpoints.{Endpoint, Input, Admin, Served, serve_endpoint}
use go_serve.Cluster.{Assignments}
use go_serve.Cluster.Membership.{Raft, ClusterError, Document, controller, node_ready}
use go_serve.Cluster.Joining.{ClusterRequest, ClusterAnswer, passed_on, cluster_handler}
use go_serve.Auth.Protect.{Identities}
use go_serve.Observability.{Metrics}
use go_serve.Observability.Exposed.{Sample, metrics_endpoint}

-- The node, where the program is in a cluster
pub record NodeView (R : Type 0) : Type 0 where
  pub raft : Raft R
  pub config : ClusterConfig
  pub assignments : Assignments

-- `chosen` is the entry of the table that fits the request, if any.
pub record ControlRequest : Type 0 where
  pub presented : Presented
  pub chosen : Option Endpoint
  pub input : Input
  pub cluster : ClusterRequest

pub data ControlAnswer : Type 0 where
  no_endpoint : ControlAnswer
  login : OauthPage → ControlAnswer
  turned_away : Denial → ControlAnswer
  samples : List Sample → ControlAnswer
  of_node : ClusterAnswer → ControlAnswer
  of_control : Served CompileError Document ClusterError → ControlAnswer

abbrev pub State : Type 0 → Type 0
State R = Admin CompileError (Manager Middleware) R

abbrev pub controller_of :
    {R : Type 0} → Option (NodeView R) → Option (Controller R Document ClusterError)
controller_of none = none
controller_of (some node) = some (controller node.raft node.config)

-- `SetReadinessCheck`
abbrev pub check_of : {R : Type 0} → Option (NodeView R) → R → Option (Bool × Str)
check_of none r = none
check_of (some node) r = some (node_ready node.raft node.config r)

-- What `Protect` takes from the middleware; `i` holds the libraries' part.
abbrev pub guard_of : Identities → (Str → Str) → Middleware → Guard
guard_of i query_escape m = record {
  mode = m.mode;
  open_cookie = i.open_cookie m.cookie_key;
  verifier = i.verifier;
  join = i.join;
  query_escape = query_escape;
}

abbrev pub with_served :
    {R : Type 0} → State R × Served CompileError Document ClusterError → State R × ControlAnswer
with_served (a, served) = (a, of_control served)

-- What the node does not answer goes on.
abbrev pub node_or_next :
    {R : Type 0} → State R → State R × ControlAnswer → R × ClusterAnswer → State R × ControlAnswer
node_or_next a own (r, passed_on) = own
node_or_next a own (r, answer) = (record a { cluster = r }, of_node answer)

module _ {R : Type 0} (url_parse : Str → Option Url) (node : Option (NodeView R)) where
  abbrev pub serve_table : Option Endpoint → Input → State R → State R × ControlAnswer
  serve_table none q a = (a, no_endpoint)
  serve_table (some e) q a = with_served (
      serve_endpoint url_parse (activate url_parse) (controller_of node) e
        (record q { check = check_of node a.cluster }) a)

  -- `node.Handler` where there is a node
  unfoldable pub serve_node : ControlRequest → ℕ → ℕ → State R → State R × ControlAnswer
  serve_node q now later a =
      let own = serve_table q.chosen q.input a in
      elim node [
        | none ↦ own
        | some n ↦
            if has_prefix q.presented.path (bytes "/cluster/")
            then node_or_next a own
                (cluster_handler n.raft n.config n.assignments a.cluster q.cluster now later)
            else own
      ]

  unfoldable pub serve_inner : Metrics → ControlRequest → ℕ → ℕ → State R → State R × ControlAnswer
  unfolding serve_node
  serve_inner m q now later a = elim (metrics_endpoint q.presented.path m) [
    | some all ↦ (a, samples all)
    | none ↦ serve_node q now later a
  ]

  abbrev pub after_protect : Protected → State R → State R × ControlAnswer → State R × ControlAnswer
  after_protect (oauth page) a inner = (a, login page)
  after_protect (denied d) a inner = (a, turned_away d)
  after_protect (passed headers) a inner = inner

  -- The whole listener; `guard` is there unless the mode is `disabled`.
  unfoldable pub serve_control :
      Option Guard → Metrics → ControlRequest → ℕ → ℕ → State R → State R × ControlAnswer
  unfolding serve_inner
  serve_control none m q now later a = serve_inner m q now later a
  serve_control (some g) m q now later a =
      after_protect (protect g now q.presented) a (serve_inner m q now later a)

  -- The handler that `main` gives the listener: `authentication` is what it created, if anything.
  unfoldable pub listen_control :
      Identities
      → (Str → Str)
      → Option Middleware
      → Metrics
      → ControlRequest
      → ℕ
      → ℕ
      → State R
      → State R × ControlAnswer
  unfolding serve_control
  listen_control i query_escape none m q now later a = serve_control none m q now later a
  listen_control i query_escape (some authentication) m q now later a =
      serve_control (some (guard_of i query_escape authentication)) m q now later a
