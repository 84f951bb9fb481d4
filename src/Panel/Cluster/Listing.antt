-- ===== src/Panel/Cluster/Listing.antt =====
-- `ListNodes` of panel/cluster.go and the sync states of panel/smartdist_profile.go. `Floats` stands for
-- the float64 arithmetic on bit patterns. The nodes come in the order of the map's entries, as one order
-- of the many that Go takes.
use dnsdist_edge.Prelude.{
  ℕ, suc, ◌+◌, ◌%◌, Option, none, some, List, [], ◌∷◌, ◌==◌, ltb, if◌then◌else◌,
}
use dnsdist_edge.Text.{Text, text_eq}
use dnsdist_edge.Map.{Map}
use dnsdist_edge.Panel.SmartDist.{SmartDistProfileStore, profile_for_node}
use dnsdist_edge.Panel.Cluster.{
  NodeRecord, Status, ProfileSync, Telemetry, ClusterStore, refresh_all, u64_mod,
}

-- `mean sum n` is math.Round(sum/float64(n)*10)/10.
pub record Floats : Type 0 where
  pub plus : ℕ → ℕ → ℕ
  pub mean : ℕ → ℕ → ℕ

pub record ClusterAggregate : Type 0 where
  pub total_nodes : ℕ
  pub online_nodes : ℕ
  pub degraded_nodes : ℕ
  pub offline_nodes : ℕ
  pub synced_nodes : ℕ
  pub pending_nodes : ℕ
  pub total_qps : ℕ
  pub total_queries : ℕ
  pub total_blocked : ℕ
  pub avg_cache_hit_pct : ℕ

abbrev pub empty_aggregate : ClusterAggregate
empty_aggregate = record {
  total_nodes = 0;
  online_nodes = 0;
  degraded_nodes = 0;
  offline_nodes = 0;
  synced_nodes = 0;
  pending_nodes = 0;
  total_qps = 0;
  total_queries = 0;
  total_blocked = 0;
  avg_cache_hit_pct = 0;
}

-- The aggregate with cacheSum and activeCount.
pub record Tally : Type 0 where
  pub agg : ClusterAggregate
  pub cache_sum : ℕ
  pub active_count : ℕ

unfoldable pub plus64 : ℕ → ℕ → ℕ
plus64 a b = (a + b) % u64_mod

-- The sums that an online and a degraded node join.
unfoldable pub add_active : Floats → Telemetry → Tally → Tally
add_active floats m t = record {
  agg = record (t.agg) {
    total_qps = plus64 t.agg.total_qps m.qps;
    total_queries = plus64 t.agg.total_queries m.queries_total;
    total_blocked = plus64 t.agg.total_blocked m.blocked_total;
  };
  cache_sum = floats.plus t.cache_sum m.cache_hit_pct;
  active_count = suc t.active_count;
}

-- The switch on the node's status.
unfoldable pub count_status : Floats → Status → Telemetry → Tally → Tally
count_status floats Status.online m t =
    let a = t.agg in
    add_active floats m (record t { agg = record a { online_nodes = suc a.online_nodes } })
count_status floats Status.degraded m t =
    let a = t.agg in
    add_active floats m (record t { agg = record a { degraded_nodes = suc a.degraded_nodes } })
count_status floats Status.offline m t =
    let a = t.agg in record t { agg = record a { offline_nodes = suc a.offline_nodes } }

unfoldable pub count_node : Floats → NodeRecord → Tally → Tally
count_node floats n t =
    let a = t.agg in
    count_status floats n.status n.telemetry
      (record t { agg = record a { total_nodes = suc a.total_nodes } })

unfoldable pub count_nodes : Floats → Map Text NodeRecord → Tally → Tally
count_nodes floats [] t = t
count_nodes floats ((id, n) ∷ nodes) t = count_nodes floats nodes (count_node floats n t)

-- The clones without their keys.
unfoldable pub clones : Map Text NodeRecord → List NodeRecord
clones [] = []
clones ((id, n) ∷ nodes) = record n { key = [] } ∷ clones nodes

unfoldable pub averaged : Floats → Tally → ClusterAggregate
averaged floats t =
    if ltb 0 t.active_count
    then record (t.agg) { avg_cache_hit_pct = floats.mean t.cache_sum t.active_count }
    else t.agg

-- profileSyncState
unfoldable pub profile_sync_state : Text → Text → ProfileSync
profile_sync_state assigned applied =
    if assigned == []
    then ProfileSync.untracked
    else if assigned == applied
    then ProfileSync.synced
    else ProfileSync.pending

unfoldable pub count_sync : ProfileSync → ClusterAggregate → ClusterAggregate
count_sync ProfileSync.untracked a = a
count_sync ProfileSync.synced a = record a { synced_nodes = suc a.synced_nodes }
count_sync ProfileSync.pending a = record a { pending_nodes = suc a.pending_nodes }

unfoldable pub sync_node : Option (Text × Text) → NodeRecord → NodeRecord
sync_node none n = n
sync_node (some (pid, hash)) n = record n {
  profile_id = pid;
  profile_sync = profile_sync_state hash n.telemetry.applied_profile_hash;
}

-- What the switch on ProfileSync counts; a node without a profile is not looked at.
unfoldable pub count_profile :
    Option (Text × Text) → NodeRecord → ClusterAggregate → ClusterAggregate
count_profile none n a = a
count_profile (some (pid, hash)) n a =
    count_sync (profile_sync_state hash n.telemetry.applied_profile_hash) a

unfoldable pub sync_nodes : SmartDistProfileStore → List NodeRecord → List NodeRecord
sync_nodes st [] = []
sync_nodes st (n ∷ list) = sync_node (profile_for_node st n.id) n ∷ sync_nodes st list

unfoldable pub count_profiles :
    SmartDistProfileStore → List NodeRecord → ClusterAggregate → ClusterAggregate
count_profiles st [] a = a
count_profiles st (n ∷ list) a =
    count_profiles st list (count_profile (profile_for_node st n.id) n a)

unfoldable pub with_profiles :
    Option SmartDistProfileStore
    → List NodeRecord
    → ClusterAggregate
    → List NodeRecord × ClusterAggregate
with_profiles none list a = (list, a)
with_profiles (some st) list a = (sync_nodes st list, count_profiles st list a)

-- ListNodes; the statuses it refreshes stay in the store.
unfoldable pub list_nodes :
    Floats
    → ℕ
    → ClusterStore
    → Option SmartDistProfileStore
    → ClusterStore × (List NodeRecord × ClusterAggregate)
list_nodes floats now s st =
    let nodes = refresh_all now s.nodes in
    let t =
      count_nodes floats nodes
        (record { agg = empty_aggregate; cache_sum = 0; active_count = 0 }) in
    (record s { nodes = nodes }, with_profiles st (clones nodes) (averaged floats t))
