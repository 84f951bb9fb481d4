-- ===== src/Panel/Cluster.antt =====
-- `ClusterStore` of panel/cluster.go: enrollment tokens, nodes and their telemetry. Times are nanoseconds
-- after Go's zero time, and a 64-bit field is its bit pattern. What crypto/rand gives, the time now and
-- whether a write of the store's file succeeds are arguments.
mod Types
pub mod Listing
pub mod Address
pub mod Listed
pub mod Counted
pub mod Aggregate
pub mod Requests
pub mod Keyed
pub use Types.*
use dnsdist_edge.Prelude.{
  ℕ, ◌+◌, ◌*◌, ◌%◌, Bool, true, false, not, ◌&&◌, ◌||◌, Option, none, some, List, [], ◌∷◌, ◌++◌,
  ◌==◌, nat_eq, ltb, leb, is_some, if◌then◌else◌, Result, ok, err,
}
use dnsdist_edge.Text.{Text, text_eq, trim_space}
use dnsdist_edge.Map.{Map, get, put, remove}

-- save
unfoldable pub save : Bool → ClusterStore → ClusterStore × Result ClusterError Unit
save written s =
    if s.file_path == []
    then (s, ok tt)
    else if written
    then (record s { file = some (record { tokens = s.tokens; nodes = s.nodes }) }, ok tt)
    else (s, err ClusterError.storage)

unfoldable pub status_at : NodeRecord → ℕ → Status
status_at n now =
    if n.last_seen_at == 0 || ltb (n.last_seen_at + 3 * minute) now
    then Status.offline
    else if not n.telemetry.dnsdist_running
    then Status.degraded
    else Status.online

-- refreshNodeStatus
unfoldable pub refresh_node_status : ℕ → NodeRecord → NodeRecord
refresh_node_status now n = record n { status = status_at n now }

unfoldable pub refresh_all : ℕ → Map Text NodeRecord → Map Text NodeRecord
refresh_all now [] = []
refresh_all now ((id, n) ∷ nodes) = (id, refresh_node_status now n) ∷ refresh_all now nodes

-- The tokens that load keeps.
unfoldable pub live_tokens : ℕ → Map Text ℕ → Map Text ℕ
live_tokens now [] = []
live_tokens now ((tok, exp) ∷ tokens) =
    let rest = live_tokens now tokens in if ltb now exp then (tok, exp) ∷ rest else rest

-- newClusterStore with load, for what the file holds if it can be read and decoded.
unfoldable pub new_cluster_store : ℕ → Text → Option ClusterDiskFormat → ClusterStore
new_cluster_store now file_path none = record {
  file_path = file_path;
  tokens = [];
  nodes = [];
  file = none;
}
new_cluster_store now file_path (some d) = record {
  file_path = file_path;
  tokens = live_tokens now d.tokens;
  nodes = refresh_all now d.nodes;
  file = some d;
}

-- d > 0 for a time.Duration.
unfoldable pub is_positive : ℕ → Bool
is_positive d = ltb 0 d && ltb d 9223372036854775808

-- The duration that handleClusterToken asks for.
unfoldable pub token_duration : ℕ → ℕ → ℕ
token_duration minutes hours =
    if is_positive minutes
    then (minutes * minute) % u64_mod
    else if is_positive hours
    then (hours * hour) % u64_mod
    else 24 * hour

abbrev pub token_prefix : Text
token_prefix = b'e' ∷ b'n' ∷ b'r' ∷ b'o' ∷ b'l' ∷ b'l' ∷ b'-' ∷ []

abbrev pub node_prefix : Text
node_prefix = b'n' ∷ b'o' ∷ b'd' ∷ b'e' ∷ b'-' ∷ []

-- GenerateEnrollmentToken
unfoldable pub generate_enrollment_token : Bool → ℕ → Text → ℕ → ClusterStore → ClusterStore × Text
generate_enrollment_token written now random duration s =
    let lifetime = if is_positive duration then duration else 24 * hour in
    let tok = token_prefix ++ random in
    ((save written (record s { tokens = put s.tokens tok (now + lifetime) })).0, tok)

unfoldable pub drop_token : ClusterStore → Text → ClusterStore
drop_token s tok = record s { tokens = remove s.tokens tok }

-- What the entry of a token decides.
unfoldable pub consume_token : Bool → ℕ → ClusterStore → Text → Option ℕ → ClusterStore × Bool
consume_token written now s tok none = (drop_token s tok, false)
consume_token written now s tok (some exp) =
    if ltb exp now then (drop_token s tok, false) else ((save written (drop_token s tok)).0, true)

-- ValidateAndConsumeToken
unfoldable pub validate_and_consume_token : Bool → ℕ → ClusterStore → Text → ClusterStore × Bool
validate_and_consume_token written now s raw =
    consume_token written now s (trim_space raw) (get s.tokens (trim_space raw))

unfoldable pub or_else : Text → Text → Text
or_else a b = if a == [] then b else a

abbrev pub no_telemetry : Telemetry
no_telemetry = record {
  qps = 0;
  queries_total = 0;
  blocked_total = 0;
  cache_hit_pct = 0;
  cpu_pct = 0;
  mem_used_mb = 0;
  mem_total_mb = 0;
  uptime_sec = 0;
  dnsdist_running = false;
  db_hash = [];
  db_updated_at = [];
  applied_profile_hash = [];
}

-- The record of a new node.
unfoldable pub new_node : ℕ → Text → Text → RegisterRequest → Text → NodeRecord
new_node now id key req remote_ip = record {
  id = id;
  key = key;
  name = or_else (trim_space req.name) id;
  ip = or_else (trim_space req.reported_ip) remote_ip;
  version = req.version;
  status = Status.online;
  first_seen_at = now;
  last_seen_at = now;
  telemetry = no_telemetry;
  profile_id = [];
  profile_sync = ProfileSync.untracked;
}

-- The second critical section of RegisterNode.
unfoldable pub enroll_node :
    Bool → ℕ → Text → Text → ClusterStore → RegisterRequest → Text → ClusterStore × NodeRecord
enroll_node written now random key s req remote_ip =
    let id = node_prefix ++ random in
    let rec = new_node now id key req remote_ip in
    ((save written (record s { nodes = put s.nodes id rec })).0, rec)

-- RegisterNode
unfoldable pub register_node :
    Bool
    → ℕ
    → Text
    → Text
    → ClusterStore
    → RegisterRequest
    → Text
    → ClusterStore × Result ClusterError NodeRecord
register_node written now random key s req remote_ip =
    let (consumed, valid) = validate_and_consume_token written now s req.enroll_token in
    let (enrolled, rec) = enroll_node written now random key consumed req remote_ip in
    if valid then (enrolled, ok rec) else (consumed, err ClusterError.bad_token)

-- The address that a heartbeat leaves.
unfoldable pub beat_ip : NodeRecord → HeartbeatRequest → Text → Text
beat_ip rec req remote_ip = or_else req.reported_ip (or_else remote_ip rec.ip)

unfoldable pub beat : ℕ → NodeRecord → HeartbeatRequest → Text → NodeRecord
beat now rec req remote_ip = refresh_node_status now (record rec {
  last_seen_at = now;
  name = or_else req.name rec.name;
  ip = beat_ip rec req remote_ip;
  version = or_else req.version rec.version;
  telemetry = req.telemetry;
})

-- What is done with the record of a heartbeat's node.
unfoldable pub beat_record :
    Bool
    → ℕ
    → ClusterStore
    → HeartbeatRequest
    → Text
    → Option NodeRecord
    → ClusterStore × Result ClusterError Unit
beat_record written now s req remote_ip none = (s, err ClusterError.unregistered)
beat_record written now s req remote_ip (some rec) =
    if not (rec.key == req.node_key) then (s, err ClusterError.wrong_key) else (
      (save written (record s { nodes = put s.nodes req.node_id (beat now rec req remote_ip) })).0,
      ok tt,
    )

-- ProcessHeartbeat
unfoldable pub process_heartbeat :
    Bool → ℕ → ClusterStore → HeartbeatRequest → Text → ClusterStore × Result ClusterError Unit
process_heartbeat written now s req remote_ip =
    beat_record written now s req remote_ip (get s.nodes req.node_id)

-- DeleteNode
unfoldable pub delete_node : Bool → ClusterStore → Text → ClusterStore × Result ClusterError Unit
delete_node written s id =
    if not (is_some (get s.nodes id))
    then (s, err ClusterError.no_node)
    else save written (record s { nodes = remove s.nodes id })

unfoldable pub has_key : Option NodeRecord → Text → Bool
has_key none key = false
has_key (some rec) key = not (rec.key == []) && rec.key == key

-- VerifyNodeKey
unfoldable pub verify_node_key : ClusterStore → Text → Text → Bool
verify_node_key s id key = if id == [] || key == [] then false else has_key (get s.nodes id) key
