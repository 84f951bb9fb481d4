-- ===== src/Panel/Cluster/Types.antt =====
-- The data of panel/cluster.go: nodes, requests and the store.
use dnsdist_edge.Prelude.{ℕ, Bool, Option}
use dnsdist_edge.Text.{Text}
use dnsdist_edge.Map.{Map}

abbrev pub minute : ℕ
minute = 60000000000

abbrev pub hour : ℕ
hour = 3600000000000

abbrev pub u64_mod : ℕ
u64_mod = 18446744073709551616

pub data Status : Type 0 where
  online degraded offline : Status

pub data ProfileSync : Type 0 where
  untracked synced pending : ProfileSync

pub data ClusterError : Type 0 where
  bad_token unregistered wrong_key no_node storage : ClusterError

-- The fields that a heartbeat overwrites; a float64 is its bit pattern.
pub record Telemetry : Type 0 where
  pub qps : ℕ
  pub queries_total : ℕ
  pub blocked_total : ℕ
  pub cache_hit_pct : ℕ
  pub cpu_pct : ℕ
  pub mem_used_mb : ℕ
  pub mem_total_mb : ℕ
  pub uptime_sec : ℕ
  pub dnsdist_running : Bool
  pub db_hash : Text
  pub db_updated_at : Text
  pub applied_profile_hash : Text

pub record NodeRecord : Type 0 where
  pub id : Text
  pub key : Text
  pub name : Text
  pub ip : Text
  pub version : Text
  pub status : Status
  pub first_seen_at : ℕ
  pub last_seen_at : ℕ
  pub telemetry : Telemetry
  pub profile_id : Text
  pub profile_sync : ProfileSync

pub record RegisterRequest : Type 0 where
  pub enroll_token : Text
  pub name : Text
  pub reported_ip : Text
  pub version : Text

pub record HeartbeatRequest : Type 0 where
  pub node_id : Text
  pub node_key : Text
  pub name : Text
  pub reported_ip : Text
  pub version : Text
  pub telemetry : Telemetry

pub record ClusterDiskFormat : Type 0 where
  pub tokens : Map Text ℕ
  pub nodes : Map Text NodeRecord

-- `file` is what the file at `file_path` holds.
pub record ClusterStore : Type 0 where
  pub file_path : Text
  pub tokens : Map Text ℕ
  pub nodes : Map Text NodeRecord
  pub file : Option ClusterDiskFormat
