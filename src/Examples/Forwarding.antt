-- ===== src/Examples/Forwarding.antt =====
-- A request for a client that another node is assigned.
use go_serve.Common.{Option, none, some, [], Str, bytes, is_empty, if◌then◌else◌}
use go_serve.Common.Dict.{str_Eq}
use go_serve.Cluster.Forwarding.{ClientRequest, Response}

abbrev visitor : ClientRequest
visitor = record {
  remote_addr = bytes "10.1.1.1:5";
  request_uri = bytes "/";
  scheme = [];
  host = [];
  headers = [];
}

abbrev host_of : Str → Option Str
host_of addr = some (bytes "10.1.1.1")

-- A client that refuses what it has to refuse, and else gets an answer
abbrev send : ClientRequest → Option Response
send r = if is_empty r.request_uri then some (record { status = 200; headers = [] }) else none
