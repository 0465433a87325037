-- ===== src/Examples/Bootstraps.antt =====
-- A node that bootstraps a cluster of two.
use go_serve.Common.{◌≡◌, refl, true, some, bytes, str_eq, ok, In}
use go_serve.Config.{Config}
use go_serve.Config.Validate.{
  validate, validate_cluster, validate_peers, validate_auth, validate_routes, validate_limits,
  contains,
}
use go_serve.Config.Valid.{IsDistinct}
use go_serve.Cluster.Membership.{ids}
use go_serve.Cluster.Creation.{Opening, Started, done, new_node, bootstrap_servers}
use go_serve.Cluster.Creation.Distinct.{new_node-IsDistinct}
use go_serve.Examples.{url_parse, site}
use go_serve.Examples.Membership.{config}

abbrev clustered : Config
clustered = record site {
  cluster = record config {
    enabled = true;
    bootstrap = true;
    bind_addr = bytes ":7000";
    data_dir = bytes "/var/lib/go-serve";
  };
}

clustered_is_valid : validate url_parse clustered ≡ ok tt
unfolding validate validate_cluster validate_peers validate_auth validate_routes validate_limits
    bytes str_eq contains
clustered_is_valid = refl

abbrev opening : Opening
opening = record {
  make_directory = λ path. true;
  open_logs = λ path. true;
  open_snapshots = λ path. true;
  resolve = λ addr. true;
  open_transport = λ bind advertise. true;
  start_raft = λ id. true;
  bootstrap = λ servers. done;
}

creates : (r : Started) × (new_node opening clustered.cluster ≡ ok r)
unfolding new_node
creates = (_, refl)

boots : creates.0.bootstrapped ≡ some (bootstrap_servers clustered.cluster)
unfolding creates
boots = refl

new_node-IsDistinct_example :
    IsDistinct (ids (bootstrap_servers clustered.cluster))
    × In clustered.cluster.node_id (ids (bootstrap_servers clustered.cluster))
new_node-IsDistinct_example =
    new_node-IsDistinct url_parse opening clustered creates.0 (bootstrap_servers clustered.cluster)
      clustered_is_valid creates.1 boots
