-- ===== src/Panel/Api.antt =====
-- The handlers of the master for its nodes: handleClusterRegister, handleClusterHeartbeat and
-- handleClusterNodes of panel/cluster.go, handleClusterProfileFetch of panel/smartdist_profile.go. The store
-- is the file store. A request has been decoded, and has the method that the handler asks for.
use dnsdist_edge.Prelude.{
  ℕ, Bool, false, not, ◌||◌, Option, none, some, [], ◌==◌, if◌then◌else◌, Result, ok, err,
}
use dnsdist_edge.Text.{Text, text_eq, codes, trim_space}
use dnsdist_edge.Panel.SmartDist.{SmartDistProfileStore, get_profile, profile_for_node}
use dnsdist_edge.Panel.Cluster.{
  ClusterError, ClusterStore, HeartbeatRequest, process_heartbeat, verify_node_key, delete_node,
}
use dnsdist_edge.Panel.Agent.{
  Fetched, answered, HeartbeatResponse, HeartbeatAnswer, rejected, accepted,
}

-- The texts of the store's errors.
unfoldable pub error_text : ClusterError → Text
error_text ClusterError.bad_token = codes "token pendaftaran tidak valid atau telah kedaluwarsa"
error_text ClusterError.unregistered = codes "node tidak terdaftar"
error_text ClusterError.wrong_key = codes "node key tidak cocok"
error_text ClusterError.no_node = codes "node tidak ditemukan"
error_text ClusterError.storage = []

-- The response with the node's profile, if it has one.
unfoldable pub heartbeat_response : Text → Option (Text × Text) → HeartbeatResponse
heartbeat_response db_hash none = record {
  master_db_hash = db_hash;
  profile_id = [];
  profile_hash = [];
}
heartbeat_response db_hash (some (pid, hash)) = record {
  master_db_hash = db_hash;
  profile_id = pid;
  profile_hash = hash;
}

-- The answer to a heartbeat that was processed with this result.
unfoldable pub heartbeat_answer :
    Text → SmartDistProfileStore → Text → Result ClusterError Unit → HeartbeatAnswer
heartbeat_answer db_hash st id (err e) = rejected (error_text e)
heartbeat_answer db_hash st id (ok u) =
    accepted (some (heartbeat_response db_hash (profile_for_node st id)))

-- handleClusterHeartbeat; `db_hash` is the digest of the manifest, "" if it cannot be read.
unfoldable pub handle_cluster_heartbeat :
    Bool
    → ℕ
    → Text
    → ClusterStore
    → SmartDistProfileStore
    → HeartbeatRequest
    → Text
    → ClusterStore × HeartbeatAnswer
handle_cluster_heartbeat written now db_hash s st req remote_ip =
    let (after, r) = process_heartbeat written now s req remote_ip in
    (after, heartbeat_answer db_hash st req.node_id r)

-- verifyEdgeNode
unfoldable pub verify_edge_node : ClusterStore → Text → Text → Bool
verify_edge_node s id key = if id == [] || key == [] then false else verify_node_key s id key

unfoldable pub profile_body : SmartDistProfileStore → Option (Text × Text) → Fetched
profile_body st none = answered 404 (some [])
profile_body st (some (pid, hash)) = elim (get_profile st pid) [
  | none ↦ answered 404 (some [])
  | some e ↦ answered 200 (some e.raw)
]

-- handleClusterProfileFetch; the body of an error is left out.
unfoldable pub handle_cluster_profile_fetch :
    ClusterStore → SmartDistProfileStore → Text → Text → Fetched
handle_cluster_profile_fetch s st raw_id raw_key =
    let id = trim_space raw_id in
    let key = trim_space raw_key in
    if not (verify_edge_node s id key)
    then answered 401 (some [])
    else profile_body st (profile_for_node st id)

-- The DELETE of handleClusterNodes: the store after it and the status.
unfoldable pub handle_delete_node : Bool → ClusterStore → Text → ClusterStore × ℕ
handle_delete_node written s raw =
    let id = trim_space raw in
    let (after, r) = delete_node written s id in
    if id == [] then (s, 400) else elim r [ err e ↦ (after, 404) | ok u ↦ (after, 200) ]
