-- ===== src/ControlPlane/Cluster.antt =====
-- The cluster endpoints of internal/controlplane/server.go, over a `ClusterController` whose state is
-- of type `R`, whose documents are of type `S`, and whose errors are of type `E`.
use go_serve.Common.{ℕ, ◌||◌, Option, none, some, [], Str, is_empty, Result, ok, err, if◌then◌else◌}

-- `ClusterController`
pub record Controller (R S E : Type 0) : Type 0 where
  pub cluster_status : R → Result E S
  pub cluster_members : R → Result E S
  pub cluster_sync : R → Result E S
  pub add_cluster_member : R → Str → Str → R × Option E
  pub remove_cluster_member : R → Str → R × Option E
  pub transfer_leadership : R → Str → R × Option E

pub data Reply (S E : Type 0) : Type 0 where
  no_cluster fields_missing body_malformed transfer_started : Reply S E
  unavailable_now : E → Reply S E
  conflict : E → Reply S E
  document : S → Reply S E
  added : Str → Reply S E
  removed : Str → Reply S E

-- The status that each reply is written with
abbrev pub code : {S E : Type 0} → Reply S E → ℕ
code no_cluster = 404
code fields_missing = 422
code body_malformed = 422
code transfer_started = 202
code (unavailable_now e) = 503
code (conflict e) = 409
code (document s) = 200
code (added id) = 200
code (removed id) = 200

abbrev pub read_reply : {S E : Type 0} → Result E S → Reply S E
read_reply (ok s) = document s
read_reply (err e) = unavailable_now e

-- After a call that changes the cluster
abbrev pub change_reply : {R S E : Type 0} → Reply S E → R × Option E → R × Reply S E
change_reply success (r, none) = (r, success)
change_reply success (r, some e) = (r, conflict e)

module _ {R S E : Type 0} where
  unfoldable pub cluster_status : Option (Controller R S E) → R → Reply S E
  cluster_status none r = no_cluster
  cluster_status (some k) r = read_reply (k.cluster_status r)

  unfoldable pub cluster_members : Option (Controller R S E) → R → Reply S E
  cluster_members none r = no_cluster
  cluster_members (some k) r = read_reply (k.cluster_members r)

  unfoldable pub cluster_sync : Option (Controller R S E) → R → Reply S E
  cluster_sync none r = no_cluster
  cluster_sync (some k) r = read_reply (k.cluster_sync r)

  -- `member` is the body's id and address, `none` where it cannot be decoded.
  unfoldable pub add_cluster_member :
      Option (Controller R S E) → R → Option (Str × Str) → R × Reply S E
  add_cluster_member none r member = (r, no_cluster)
  add_cluster_member (some k) r none = (r, fields_missing)
  add_cluster_member (some k) r (some (id, address)) =
      if is_empty id || is_empty address
      then (r, fields_missing)
      else change_reply (added id) (k.add_cluster_member r id address)

  unfoldable pub remove_cluster_member : Option (Controller R S E) → R → Str → R × Reply S E
  remove_cluster_member none r id = (r, no_cluster)
  remove_cluster_member (some k) r id = change_reply (removed id) (k.remove_cluster_member r id)

  -- `target` is `none` where the content length is zero, and else the decoded body's id, if any.
  unfoldable pub transfer_leadership :
      Option (Controller R S E) → R → Option (Option Str) → R × Reply S E
  transfer_leadership none r target = (r, no_cluster)
  transfer_leadership (some k) r none = change_reply transfer_started (k.transfer_leadership r [])
  transfer_leadership (some k) r (some none) = (r, body_malformed)
  transfer_leadership (some k) r (some (some id)) =
      change_reply transfer_started (k.transfer_leadership r id)
