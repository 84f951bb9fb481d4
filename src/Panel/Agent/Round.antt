-- ===== src/Panel/Agent/Round.antt =====
-- A heartbeat of an edge at its master: `sendHeartbeat` and `syncSmartDistProfile` of the edge (panel/cluster.go,
-- panel/smartdist_agent.go) with the master's handlers. Requests and answers pass encoding/json and net/url
-- unchanged, or are lost on the way.
use dnsdist_edge.Prelude.{ℕ, Bool, ◌&&◌, List, [], ◌∷◌, if◌then◌else◌}
use dnsdist_edge.Text.{Text, text_eq}
use dnsdist_edge.Panel.SmartDist.{SmartDistProfileStore}
use dnsdist_edge.Panel.Cluster.{ClusterStore, Telemetry}
use dnsdist_edge.Panel.Agent.{
  EdgeClusterAgent, lost, HeartbeatAnswer, unreachable, SyncIo, Setup, is_registered,
  heartbeat_request, send_heartbeat,
}
use dnsdist_edge.Panel.Api.{handle_cluster_heartbeat, handle_cluster_profile_fetch}

-- What one heartbeat meets: the master's clock and disk, the edge's, the node's telemetry, and which
-- messages arrive.
pub record RoundIo : Type 0 where
  pub now : ℕ
  pub written : Bool
  pub db_hash : Text
  pub remote_ip : Text
  pub measured : Telemetry
  pub version : Text
  pub stamp : Text
  pub failure : Text
  pub heard : Bool
  pub replied : Bool
  pub fetch_replied : Bool
  pub saved : Bool
  pub sync : SyncIo

-- What the master makes of a heartbeat, if it hears it.
unfoldable pub master_turn :
    RoundIo
    → ClusterStore
    → SmartDistProfileStore
    → EdgeClusterAgent
    → ClusterStore × HeartbeatAnswer
master_turn r s st a =
    if is_registered a && r.heard
    then handle_cluster_heartbeat r.written r.now r.db_hash s st
        (heartbeat_request a r.measured r.version) r.remote_ip
    else (s, unreachable r.failure)

unfoldable pub edge_turn :
    Setup
    → RoundIo
    → ClusterStore
    → SmartDistProfileStore
    → HeartbeatAnswer
    → EdgeClusterAgent
    → EdgeClusterAgent
edge_turn setup r s st reply a =
    (send_heartbeat setup r.saved r.stamp r.sync
      (if r.replied then reply else unreachable r.failure)
      (if r.fetch_replied
        then handle_cluster_profile_fetch s st a.state.node_id a.state.node_key
        else lost)
      a).0

unfoldable pub round :
    Setup
    → RoundIo
    → SmartDistProfileStore
    → ClusterStore × EdgeClusterAgent
    → ClusterStore × EdgeClusterAgent
round setup r st (s, a) =
    let (after, reply) = master_turn r s st a in (after, edge_turn setup r after st reply a)

unfoldable pub rounds :
    Setup
    → List RoundIo
    → SmartDistProfileStore
    → ClusterStore × EdgeClusterAgent
    → ClusterStore × EdgeClusterAgent
rounds setup [] st w = w
rounds setup (r ∷ rs) st w = rounds setup rs st (round setup r st w)
