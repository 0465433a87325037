-- ===== src/Entry/Control/Kept.antt =====
-- What the requests to the control plane's listener leave of a program.
use go_serve.Common.{
  ℕ, inl, inr, Option, none, some, Str, bytes, has_prefix, Bool-cases, Option-cases,
}
use go_serve.Auth.Protect.{Guard, Protected, oauth, denied, passed, protect}
use go_serve.ControlPlane.Endpoints.{
  Endpoint, Input, serve_endpoint, on_health, on_ready, on_get_config, on_replace_config,
  on_validate_config, on_rollback, on_config_status, on_servers, on_routes, on_cluster_status,
  on_cluster_members, on_add_member, on_remove_member, on_cluster_sync, on_transfer, on_openapi,
  on_docs, on_pprof,
}
use go_serve.Runtime.{activate}
use go_serve.Observability.{Metrics}
use go_serve.Observability.Exposed.{metrics_endpoint}
use go_serve.Cluster.Joining.{
  ClusterAnswer, health, fields_missing, not_leader, join_failed, joined, no_assignment, passed_on,
  assigned, cluster_handler,
}
use go_serve.Entry.{World}
use go_serve.Entry.System.{System, Reachable, replaced, rolled_back}
use go_serve.Entry.Control.{
  NodeView, ControlRequest, ControlAnswer, State, controller_of, check_of, node_or_next,
  serve_table, serve_node, serve_inner, after_protect, serve_control,
}

-- The program without the state of its cluster
abbrev pub system_of : {R : Type 0} → State R → System
system_of a = record { control = a.control; manager = a.manager }

module _ {C R : Type 0} (w : World C) (node : Option (NodeView R)) (path : Str) where
  abbrev IsReached : State R → Type 0
  IsReached a = Reachable w path (system_of a)

  endpoint-IsReached :
      (e : Endpoint) (q : Input) (a : State R)
      → IsReached a
      → IsReached (serve_endpoint w.url_parse (activate w.url_parse) (controller_of node) e q a).0
  unfolding serve_endpoint
  endpoint-IsReached on_replace_config q a h = replaced q.config_body q.if_match h
  endpoint-IsReached on_rollback q a h = rolled_back q.if_match h
  endpoint-IsReached on_health q a h = h
  endpoint-IsReached on_ready q a h = h
  endpoint-IsReached on_get_config q a h = h
  endpoint-IsReached on_validate_config q a h = h
  endpoint-IsReached on_config_status q a h = h
  endpoint-IsReached on_servers q a h = h
  endpoint-IsReached on_routes q a h = h
  endpoint-IsReached on_cluster_status q a h = h
  endpoint-IsReached on_cluster_members q a h = h
  endpoint-IsReached on_add_member q a h = h
  endpoint-IsReached on_remove_member q a h = h
  endpoint-IsReached on_cluster_sync q a h = h
  endpoint-IsReached on_transfer q a h = h
  endpoint-IsReached on_openapi q a h = h
  endpoint-IsReached on_docs q a h = h
  endpoint-IsReached on_pprof q a h = h

  table-IsReached :
      (e : Option Endpoint) (q : Input) (a : State R)
      → IsReached a
      → IsReached (serve_table w.url_parse node e q a).0
  table-IsReached none q a h = h
  table-IsReached (some e) q a h =
      endpoint-IsReached e (record q { check = check_of node a.cluster }) a h

  protect-IsReached :
      (p : Protected) (a : State R) (inner : State R × ControlAnswer)
      → IsReached a
      → IsReached inner.0
      → IsReached (after_protect w.url_parse node p a inner).0
  protect-IsReached (oauth page) a inner h i = h
  protect-IsReached (denied d) a inner h i = h
  protect-IsReached (passed headers) a inner h i = i

  answer-IsReached :
      (a : State R) (own : State R × ControlAnswer) (r : R) (answer : ClusterAnswer)
      → IsReached a
      → IsReached own.0
      → IsReached (node_or_next a own (r, answer)).0
  answer-IsReached a own r passed_on h i = i
  answer-IsReached a own r (health id leads address) h i = h
  answer-IsReached a own r fields_missing h i = h
  answer-IsReached a own r not_leader h i = h
  answer-IsReached a own r join_failed h i = h
  answer-IsReached a own r joined h i = h
  answer-IsReached a own r no_assignment h i = h
  answer-IsReached a own r (assigned found) h i = h

  node-IsReached :
      (q : ControlRequest) (now later : ℕ) (a : State R)
      → IsReached a
      → IsReached (serve_node w.url_parse node q now later a).0
  unfolding serve_node
  node-IsReached q now later a h =
      let own = table-IsReached q.chosen q.input a h in
      elim (Option-cases node) [
        | inl alone ↦ simp (alone, serve_node) (rw alone at own)
        | inr (n, there) ↦ elim (Bool-cases (has_prefix q.presented.path (bytes "/cluster/"))) [
          | inr other ↦ simp (there, other, serve_node) (rw there at own)
          | inl below ↦
              let r = cluster_handler n.raft n.config n.assignments a.cluster q.cluster now later in
              simp (there, below, serve_node)
                (answer-IsReached a (serve_table w.url_parse (some n) q.chosen q.input a) r.0 r.1 h
                  (rw there at own))
        ]
      ]

  inner-IsReached :
      (m : Metrics) (q : ControlRequest) (now later : ℕ) (a : State R)
      → IsReached a
      → IsReached (serve_inner w.url_parse node m q now later a).0
  unfolding serve_inner
  inner-IsReached m q now later a h = elim (Option-cases (metrics_endpoint q.presented.path m)) [
    | inl next ↦ rw (next, serve_inner) (node-IsReached q now later a h)
    | inr (all, shown) ↦ rw (shown, serve_inner) h
  ]

  -- Whatever is asked of the control plane's listener, protected or not and with a cluster or without,
  -- what the program can come to is reached by replacements, rollbacks and draining alone; so what every
  -- reachable state keeps holds after every request to any of its endpoints.
  pub serve_control-IsReached :
      (guard : Option Guard) (m : Metrics) (q : ControlRequest) (now later : ℕ) (a : State R)
      → Reachable w path (system_of a)
      → Reachable w path (system_of (serve_control w.url_parse node guard m q now later a).0)
  unfolding serve_control
  serve_control-IsReached none m q now later a h = inner-IsReached m q now later a h
  serve_control-IsReached (some g) m q now later a h =
      protect-IsReached (protect g now q.presented) a (serve_inner w.url_parse node m q now later a)
        h (inner-IsReached m q now later a h)
