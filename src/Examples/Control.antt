-- ===== src/Examples/Control.antt =====
-- Requests to the control plane's listener of a program in a cluster.
use go_serve.Common.{◌≡◌, ◌⊎◌, Option, none, some, List, [], bytes}
use go_serve.Config.{Config}
use go_serve.Auth.Protect.{Presented}
use go_serve.Observability.{new_metrics}
use go_serve.ControlPlane.Endpoints.{on_replace_config}
use go_serve.Entry.System.{Reachable, started}
use go_serve.Entry.Control.{NodeView, ControlRequest, State, serve_control}
use go_serve.Entry.Control.Authenticated.{Identified, serve_control_authenticated}
use go_serve.Entry.Control.Kept.{system_of, serve_control-IsReached}
use go_serve.Cluster.Membership.{Server}
use go_serve.Examples.Programs.{world, path, runs, guarded}
use go_serve.Examples.Membership.{raft, config, alone, guard, join}

abbrev node : Option (NodeView (List Server))
node = some (record { raft = raft; config = config; assignments = [] })

abbrev state : State (List Server)
state = record { control = runs.0.control; manager = runs.0.manager; cluster = alone }

-- A replacement by somebody without credentials
abbrev presented : Presented
presented = record {
  method = bytes "PUT";
  path = bytes "/api/v1/config";
  uri = bytes "/api/v1/config";
  accept = [];
  cookie = none;
  authorization = [];
  headers = [];
}

abbrev request : ControlRequest
request = record {
  presented = presented;
  chosen = some on_replace_config;
  input = record {
    config_body = some guarded;
    if_match = bytes "0";
    member = none;
    id = [];
    target = none;
    check = none;
  };
  cluster = join;
}

serve_control_authenticated_example :
    ((serve_control world.url_parse node (some (guard [])) new_metrics request 5 5 state).0 ≡ state)
    ⊎ Identified (guard []) 5 presented
serve_control_authenticated_example =
    serve_control_authenticated world.url_parse node (guard []) new_metrics request 5 5 state

serve_control-IsReached_example :
    Reachable world path
      (system_of (serve_control world.url_parse node none new_metrics request 5 5 state).0)
serve_control-IsReached_example =
    serve_control-IsReached world node path none new_metrics request 5 5 state
      (started runs.0 runs.1)
