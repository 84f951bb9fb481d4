-- ===== src/Panel/SqlStore/Equivalent.antt =====
-- The SQLite store of panel/storage.go against the file store of panel/cluster.go, where the statements of the
-- one and the file of the other work.
use dnsdist_edge.Prelude.{ℕ, List, [], ◌∷◌}
use dnsdist_edge.Text.{Text, text_eq}
use dnsdist_edge.Panel.Cluster.{NodeRecord, ClusterStore, HeartbeatRequest, beat_ip, or_else}
use dnsdist_edge.Panel.Cluster.Requests.{Request, perform}
use dnsdist_edge.Panel.SqlStore.{SqlClusterStore}
use dnsdist_edge.Panel.SqlStore.Same.{sql_perform, Answer, answer, sql_answer, IsOrdinary}

-- What a heartbeat makes of the view of a record.
abbrev beaten_view : ℕ → HeartbeatRequest → Text → NodeRecord → NodeRecord
beaten_view now req ip v = record v {
  name = or_else req.name v.name;
  ip = beat_ip v req ip;
  version = or_else req.version v.version;
  last_seen_at = now;
  telemetry = record (req.telemetry) { applied_profile_hash = [] };
}

abbrev pub AreOrdinary : ClusterStore → List Request → Type 0
AreOrdinary s [] = Unit
AreOrdinary s (r ∷ requests) = IsOrdinary s r × AreOrdinary (perform s r) requests

unfoldable pub answers_of : ClusterStore → List Request → List Answer
answers_of s [] = []
answers_of s (r ∷ requests) = answer s r ∷ answers_of (perform s r) requests

unfoldable pub sql_answers_of : SqlClusterStore → List Request → List Answer
sql_answers_of q [] = []
sql_answers_of q (r ∷ requests) = sql_answer q r ∷ sql_answers_of (sql_perform q r) requests
