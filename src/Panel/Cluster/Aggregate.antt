-- ===== src/Panel/Cluster/Aggregate.antt =====
-- `ListNodes` of panel/cluster.go: every field of the aggregate against the list that it goes with.
use mathlib.Core.Path.{subst}
use mathlib.Core.List.{foldl}
use dnsdist_edge.Prelude.{
  ℕ, suc, ◌+◌, ◌%◌, ◌<◌, ◌≡◌, refl, ap, sym, ◌∙◌, true, false, Option, none, some, List, [], ◌∷◌,
  ltb, length, if◌then◌else◌, arith, Bool-cases, inl, inr,
}
use dnsdist_edge.Text.{Text, text_eq}
use dnsdist_edge.Map.{Map}
use dnsdist_edge.Panel.SmartDist.{SmartDistProfileStore, profile_for_node}
use dnsdist_edge.Panel.Cluster.{
  NodeRecord, Status, ProfileSync, Telemetry, ClusterStore, refresh_all, u64_mod,
}
use dnsdist_edge.Panel.Cluster.Listing.{
  Floats, Tally, ClusterAggregate, empty_aggregate, plus64, add_active, count_status, count_node,
  count_nodes, clones, averaged, profile_sync_state, count_sync, sync_node, count_profile,
  sync_nodes, count_profiles, with_profiles, list_nodes,
}
use dnsdist_edge.Panel.Cluster.Listed.{IsKeyed}
use dnsdist_edge.Panel.Cluster.Counted.{HasCounts, list_nodes-counts}

-- The telemetry of the nodes that are online or degraded.
unfoldable pub if_active : Status → Telemetry → List Telemetry → List Telemetry
if_active Status.online m rest = m ∷ rest
if_active Status.degraded m rest = m ∷ rest
if_active Status.offline m rest = rest

unfoldable pub active : List NodeRecord → List Telemetry
active [] = []
active (n ∷ list) = if_active n.status n.telemetry (active list)

unfoldable pub sum : (Telemetry → ℕ) → List Telemetry → ℕ
sum f [] = 0
sum f (m ∷ list) = f m + sum f list

-- The float64 sum of the cache hit rates, in the order of the list.
abbrev pub cache_total : Floats → ℕ → List Telemetry → ℕ
cache_total floats begin list =
    foldl (λ (s : ℕ) (m : Telemetry). floats.plus s m.cache_hit_pct) begin list

-- The sums of a tally are 64-bit numbers.
abbrev IsSmall : Tally → Type 0
IsSmall t =
    (t.agg.total_qps < u64_mod) × (t.agg.total_queries < u64_mod) × (t.agg.total_blocked < u64_mod)

-- A tally after some active nodes, in terms of the one before.
abbrev IsSummed : Floats → Tally → Tally → List Telemetry → Type 0
IsSummed floats before after list =
    (after.agg.total_qps ≡ (before.agg.total_qps + sum (λ m. m.qps) list) % u64_mod)
    × (after.agg.total_queries
        ≡ (before.agg.total_queries + sum (λ m. m.queries_total) list) % u64_mod)
    × (after.agg.total_blocked
        ≡ (before.agg.total_blocked + sum (λ m. m.blocked_total) list) % u64_mod)
    × (after.cache_sum ≡ cache_total floats before.cache_sum list)
    × (after.active_count ≡ before.active_count + length list)
    × (after.agg.avg_cache_hit_pct ≡ before.agg.avg_cache_hit_pct)

count_status-IsSummed :
    (floats : Floats) (status : Status) (m : Telemetry) (t after : Tally) (list : List Telemetry)
    → IsSmall t
    → (IsSmall (count_status floats status m t)
        → IsSummed floats (count_status floats status m t) after list)
    → IsSummed floats t after (if_active status m list)
unfolding count_status add_active if_active sum plus64
count_status-IsSummed floats Status.online m t after list small rest =
    let r = rest (omega arith, omega arith, omega arith) in
    (omega (arith, r.0), omega (arith, r.1), omega (arith, r.2), r.3, omega (arith, r.4), r.5)
count_status-IsSummed floats Status.degraded m t after list small rest =
    let r = rest (omega arith, omega arith, omega arith) in
    (omega (arith, r.0), omega (arith, r.1), omega (arith, r.2), r.3, omega (arith, r.4), r.5)
count_status-IsSummed floats Status.offline m t after list small rest = rest small

count_nodes-IsSummed :
    (floats : Floats) (nodes : Map Text NodeRecord) (t : Tally)
    → IsSmall t
    → IsSummed floats t (count_nodes floats nodes t) (active (clones nodes))
unfolding count_nodes count_node clones active sum
count_nodes-IsSummed floats [] t small = (
  omega (arith, small.0),
  omega (arith, small.1),
  omega (arith, small.2),
  refl,
  omega arith,
  refl,
)
count_nodes-IsSummed floats ((id, n) ∷ nodes) t small =
    let met : Tally = record t { agg = record (t.agg) { total_nodes = suc t.agg.total_nodes } } in
    count_status-IsSummed floats n.status n.telemetry met
      (count_nodes floats nodes (count_status floats n.status n.telemetry met))
      (active (clones nodes)) small
      (λ s. count_nodes-IsSummed floats nodes (count_status floats n.status n.telemetry met) s)

-- The sums and the average of an aggregate.
abbrev pub HasSums : Floats → ClusterAggregate → List Telemetry → Type 0
HasSums floats a list =
    (a.total_qps ≡ sum (λ m. m.qps) list % u64_mod)
    × (a.total_queries ≡ sum (λ m. m.queries_total) list % u64_mod)
    × (a.total_blocked ≡ sum (λ m. m.blocked_total) list % u64_mod)
    × (a.avg_cache_hit_pct ≡ (
        if ltb 0 (length list) then floats.mean (cache_total floats 0 list) (length list) else 0))

averaged-HasSums :
    (floats : Floats) (t : Tally) (list : List Telemetry)
    → IsSummed floats (record { agg = empty_aggregate; cache_sum = 0; active_count = 0 }) t list
    → HasSums floats (averaged floats t) list
unfolding averaged
averaged-HasSums floats t list (q, n, b, cache, count, none_yet) =
    let same : t.active_count ≡ length list = omega (arith, count) in
    let mean =
      ap (λ c. floats.mean c t.active_count) cache
      ∙ ap (floats.mean (cache_total floats 0 list)) same in
    elim (Bool-cases (ltb 0 t.active_count)) [
      | inl some_active ↦
          let full : ltb 0 (length list) ≡ true = sym (ap (ltb 0) same) ∙ some_active in
          rw some_active (omega (arith, q), omega (arith, n), omega (arith, b), mean ∙ rw full refl)
      | inr no_active ↦
          let none_there : ltb 0 (length list) ≡ false = sym (ap (ltb 0) same) ∙ no_active in
          rw no_active
            (omega (arith, q), omega (arith, n), omega (arith, b), none_yet ∙ rw none_there refl)
    ]

count_sync-HasSums :
    (floats : Floats) (sync : ProfileSync) (a : ClusterAggregate) (list : List Telemetry)
    → HasSums floats a list
    → HasSums floats (count_sync sync a) list
unfolding count_sync
count_sync-HasSums floats ProfileSync.untracked a list h = h
count_sync-HasSums floats ProfileSync.synced a list h = h
count_sync-HasSums floats ProfileSync.pending a list h = h

count_profile-HasSums :
    (floats : Floats) (p : Option (Text × Text)) (n : NodeRecord) (a : ClusterAggregate)
    (list : List Telemetry)
    → HasSums floats a list
    → HasSums floats (count_profile p n a) list
unfolding count_profile
count_profile-HasSums floats none n a list h = h
count_profile-HasSums floats (some (pid, hash)) n a list h =
    count_sync-HasSums floats (profile_sync_state hash n.telemetry.applied_profile_hash) a list h

count_profiles-HasSums :
    (floats : Floats) (st : SmartDistProfileStore) (nodes : List NodeRecord) (a : ClusterAggregate)
    (list : List Telemetry)
    → HasSums floats a list
    → HasSums floats (count_profiles st nodes a) list
unfolding count_profiles
count_profiles-HasSums floats st [] a list h = h
count_profiles-HasSums floats st (n ∷ nodes) a list h =
    count_profiles-HasSums floats st nodes (count_profile (profile_for_node st n.id) n a) list
      (count_profile-HasSums floats (profile_for_node st n.id) n a list h)

sync_node-same :
    (p : Option (Text × Text)) (n : NodeRecord)
    → ((sync_node p n).status ≡ n.status) × ((sync_node p n).telemetry ≡ n.telemetry)
unfolding sync_node
sync_node-same none n = (refl, refl)
sync_node-same (some (pid, hash)) n = (refl, refl)

active-sync_nodes :
    (st : SmartDistProfileStore) (list : List NodeRecord)
    → active (sync_nodes st list) ≡ active list
unfolding active sync_nodes
active-sync_nodes st [] = refl
active-sync_nodes st (n ∷ list) =
    let (status, telemetry) = sync_node-same (profile_for_node st n.id) n in
    rw (status, telemetry, active-sync_nodes st list) refl

-- The aggregate agrees with the list it is returned with: the numbers of nodes in all, in each status, and
-- of those that have and have not applied their profile; the sums of the queries per second, the queries and
-- the blocked queries over the online and the degraded nodes, as 64-bit numbers; and the mean of the cache
-- hit rates of these nodes, which is 0 if there are none.
pub list_nodes-aggregate :
    (floats : Floats) (now : ℕ) (s : ClusterStore) (st : SmartDistProfileStore)
    → IsKeyed s.nodes
    → let (list, agg) = (list_nodes floats now s (some st)).1 in
      HasCounts agg list × HasSums floats agg (active list)
unfolding list_nodes with_profiles
list_nodes-aggregate floats now s st h =
    let nodes = refresh_all now s.nodes in
    let begin : Tally = record { agg = empty_aggregate; cache_sum = 0; active_count = 0 } in
    let tally : Tally = count_nodes floats nodes begin in
    let act = active (clones nodes) in
    let summed = count_nodes-IsSummed floats nodes begin (omega arith, omega arith, omega arith) in
    let base = averaged-HasSums floats tally act summed in
    (
      unfold list_nodes with_profiles in list_nodes-counts floats now s st h,
      subst (HasSums floats (count_profiles st (clones nodes) (averaged floats tally)))
          (sym (active-sync_nodes st (clones nodes)))
          (count_profiles-HasSums floats st (clones nodes) (averaged floats tally) act base),
    )
