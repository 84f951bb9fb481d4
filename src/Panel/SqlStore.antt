-- ===== src/Panel/SqlStore.antt =====
-- `SQLiteClusterStore` of panel/storage.go: the operations of the cluster store on two tables with primary
-- keys. A statement works or fails, which comes as an argument; an INSERT of a key that is there fails.
pub mod Views
pub mod Same
pub mod Equivalent
use dnsdist_edge.Prelude.{
  ℕ, ◌+◌, ◌*◌, Bool, true, false, not, ◌&&◌, ◌||◌, Option, none, some, List, [], ◌∷◌, ◌++◌, ◌==◌,
  ltb, is_some, if◌then◌else◌, Result, ok, err,
}
use dnsdist_edge.Text.{Text, text_eq, trim_space}
use dnsdist_edge.Map.{Map, get, put, remove}
use dnsdist_edge.Panel.Cluster.{
  Status, ProfileSync, Telemetry, NodeRecord, RegisterRequest, HeartbeatRequest, hour, is_positive,
  token_prefix, node_prefix, or_else, new_node, beat_ip, refresh_all,
}
use dnsdist_edge.Panel.Cluster.Listing.{
  Floats, ClusterAggregate, empty_aggregate, count_nodes, clones, averaged,
}

pub data SqlError : Type 0 where
  bad_token failed unregistered wrong_key no_node : SqlError

pub record SqlClusterStore : Type 0 where
  pub cluster_tokens : Map Text ℕ
  pub cluster_nodes : Map Text NodeRecord

-- What the columns of cluster_nodes hold of a record: there is none for the applied profile.
unfoldable pub row_of : NodeRecord → NodeRecord
row_of n = record n {
  telemetry = record (n.telemetry) { applied_profile_hash = [] };
  profile_id = [];
  profile_sync = ProfileSync.untracked;
}

-- GenerateEnrollmentToken
unfoldable pub sql_generate_token : Bool → ℕ → Text → ℕ → SqlClusterStore → SqlClusterStore × Text
sql_generate_token works now random duration q =
    let lifetime = if is_positive duration then duration else 24 * hour in
    let tok = token_prefix ++ random in
    (
      if works && not (is_some (get q.cluster_tokens tok))
          then record q { cluster_tokens = put q.cluster_tokens tok (now + lifetime) }
          else q,
      tok,
    )

-- What is done with the row of a token; `deleted` is whether the DELETE works.
unfoldable pub sql_consume_row :
    Bool → ℕ → SqlClusterStore → Text → Option ℕ → SqlClusterStore × Bool
sql_consume_row deleted now q tok none = (q, false)
sql_consume_row deleted now q tok (some exp) =
    (if deleted then record q { cluster_tokens = remove q.cluster_tokens tok } else q, ltb now exp)

-- ValidateAndConsumeToken
unfoldable pub sql_consume_token : Bool → Bool → ℕ → SqlClusterStore → Text → SqlClusterStore × Bool
sql_consume_token selected deleted now q raw =
    let tok = trim_space raw in
    if tok == [] || not selected
    then (q, false)
    else sql_consume_row deleted now q tok (get q.cluster_tokens tok)

-- The INSERT of RegisterNode.
unfoldable pub sql_enroll_node :
    Bool
    → ℕ
    → Text
    → Text
    → SqlClusterStore
    → RegisterRequest
    → Text
    → SqlClusterStore × Result SqlError NodeRecord
sql_enroll_node works now random key q req remote_ip =
    let id = node_prefix ++ random in
    let rec = new_node now id key req remote_ip in
    if works && not (is_some (get q.cluster_nodes id))
    then (record q { cluster_nodes = put q.cluster_nodes id (row_of rec) }, ok rec)
    else (q, err SqlError.failed)

-- RegisterNode
unfoldable pub sql_register_node :
    Bool
    → Bool
    → Bool
    → ℕ
    → Text
    → Text
    → SqlClusterStore
    → RegisterRequest
    → Text
    → SqlClusterStore × Result SqlError NodeRecord
sql_register_node selected deleted inserted now random key q req remote_ip =
    let (consumed, valid) = sql_consume_token selected deleted now q req.enroll_token in
    let enrolled = sql_enroll_node inserted now random key consumed req remote_ip in
    if valid then enrolled else (consumed, err SqlError.bad_token)

-- The row that the UPDATE of ProcessHeartbeat leaves.
unfoldable pub sql_beat : ℕ → NodeRecord → HeartbeatRequest → Text → NodeRecord
sql_beat now row req remote_ip = row_of (record row {
  name = or_else req.name row.name;
  ip = beat_ip row req remote_ip;
  version = or_else req.version row.version;
  status = if not req.telemetry.dnsdist_running then Status.degraded else Status.online;
  last_seen_at = now;
  telemetry = req.telemetry;
})

unfoldable pub sql_beat_row :
    Bool
    → ℕ
    → SqlClusterStore
    → HeartbeatRequest
    → Text
    → Option NodeRecord
    → SqlClusterStore × Result SqlError Unit
sql_beat_row updated now q req remote_ip none = (q, err SqlError.unregistered)
sql_beat_row updated now q req remote_ip (some row) =
    if not (row.key == req.node_key)
    then (q, err SqlError.wrong_key)
    else if updated
    then (
      record q { cluster_nodes = put q.cluster_nodes req.node_id (sql_beat now row req remote_ip) },
      ok tt,
    )
    else (q, err SqlError.failed)

-- ProcessHeartbeat
unfoldable pub sql_process_heartbeat :
    Bool
    → Bool
    → ℕ
    → SqlClusterStore
    → HeartbeatRequest
    → Text
    → SqlClusterStore × Result SqlError Unit
sql_process_heartbeat selected updated now q req remote_ip =
    if selected
    then sql_beat_row updated now q req remote_ip (get q.cluster_nodes req.node_id)
    else (q, err SqlError.failed)

-- ListNodes; every row can be scanned.
unfoldable pub sql_list_nodes :
    Floats → Bool → ℕ → SqlClusterStore → List NodeRecord × ClusterAggregate
sql_list_nodes floats selected now q =
    let rows = refresh_all now q.cluster_nodes in
    if selected
    then (
      clones rows,
      averaged floats (
          count_nodes floats rows
            (record { agg = empty_aggregate; cache_sum = 0; active_count = 0 })),
    )
    else ([], empty_aggregate)

-- DeleteNode
unfoldable pub sql_delete_node :
    Bool → SqlClusterStore → Text → SqlClusterStore × Result SqlError Unit
sql_delete_node works q id =
    if not works
    then (q, err SqlError.failed)
    else if is_some (get q.cluster_nodes id)
    then (record q { cluster_nodes = remove q.cluster_nodes id }, ok tt)
    else (q, err SqlError.no_node)
