-- ===== src/Panel/Cluster/Counted.antt =====
-- `ListNodes` of panel/cluster.go: the aggregate against the list that it goes with.
use dnsdist_edge.Prelude.{
  ℕ, suc, ◌+◌, ◌≡◌, refl, ap, sym, ◌∙◌, Bool, true, false, Option, none, some, List, [], ◌∷◌, ltb,
  length, All, if◌then◌else◌, arith, Bool-cases, inl, inr,
}
use dnsdist_edge.Text.{Text, text_eq}
use dnsdist_edge.Map.{Map}
use dnsdist_edge.Panel.SmartDist.{SmartDistProfileStore, profile_for_node}
use dnsdist_edge.Panel.Cluster.{
  NodeRecord, Status, ProfileSync, Telemetry, ClusterStore, refresh_node_status, refresh_all,
}
use dnsdist_edge.Panel.Cluster.Listing.{
  Floats, Tally, ClusterAggregate, empty_aggregate, add_active, count_status, count_node,
  count_nodes, clones, averaged, profile_sync_state, count_sync, sync_node, count_profile,
  sync_nodes, count_profiles, with_profiles, list_nodes,
}
use dnsdist_edge.Panel.Cluster.Listed.{IsKeyed}

-- How many nodes of a list have a status, or a sync state.
unfoldable pub is_status : Status → Status → Bool
is_status Status.online Status.online = true
is_status Status.degraded Status.degraded = true
is_status Status.offline Status.offline = true
is_status a b = false

unfoldable pub count_of : Status → List NodeRecord → ℕ
count_of status [] = 0
count_of status (n ∷ list) =
    let rest = count_of status list in if is_status status n.status then suc rest else rest

unfoldable pub is_sync : ProfileSync → ProfileSync → Bool
is_sync ProfileSync.untracked ProfileSync.untracked = true
is_sync ProfileSync.synced ProfileSync.synced = true
is_sync ProfileSync.pending ProfileSync.pending = true
is_sync a b = false

unfoldable pub count_synced : ProfileSync → List NodeRecord → ℕ
count_synced sync [] = 0
count_synced sync (n ∷ list) =
    let rest = count_synced sync list in if is_sync sync n.profile_sync then suc rest else rest

-- A tally after some nodes, in terms of the one before.
abbrev IsCounted : Tally → Tally → List NodeRecord → Type 0
IsCounted before after list =
    (after.agg.total_nodes ≡ before.agg.total_nodes + length list)
    × (after.agg.online_nodes ≡ before.agg.online_nodes + count_of Status.online list)
    × (after.agg.degraded_nodes ≡ before.agg.degraded_nodes + count_of Status.degraded list)
    × (after.agg.offline_nodes ≡ before.agg.offline_nodes + count_of Status.offline list)
    × (after.agg.synced_nodes ≡ before.agg.synced_nodes)
    × (after.agg.pending_nodes ≡ before.agg.pending_nodes)

abbrev one_if : Bool → ℕ
one_if true = 1
one_if false = 0

abbrev IsStep : Tally → Tally → Status → Type 0
IsStep before after status =
    (after.agg.total_nodes ≡ before.agg.total_nodes)
    × (after.agg.online_nodes ≡ before.agg.online_nodes + one_if (is_status Status.online status))
    × (after.agg.degraded_nodes
        ≡ before.agg.degraded_nodes + one_if (is_status Status.degraded status))
    × (after.agg.offline_nodes
        ≡ before.agg.offline_nodes + one_if (is_status Status.offline status))
    × (after.agg.synced_nodes ≡ before.agg.synced_nodes)
    × (after.agg.pending_nodes ≡ before.agg.pending_nodes)

count_status-IsStep :
    (floats : Floats) (status : Status) (m : Telemetry) (t : Tally)
    → IsStep t (count_status floats status m t) status
unfolding count_status add_active is_status
count_status-IsStep floats Status.online m t =
    (refl, omega arith, omega arith, omega arith, refl, refl)
count_status-IsStep floats Status.degraded m t =
    (refl, omega arith, omega arith, omega arith, refl, refl)
count_status-IsStep floats Status.offline m t =
    (refl, omega arith, omega arith, omega arith, refl, refl)

if-one : (b : Bool) (n : ℕ) → (if b then suc n else n) ≡ one_if b + n
if-one true n = omega arith
if-one false n = omega arith

count_nodes-IsCounted :
    (floats : Floats) (nodes : Map Text NodeRecord) (t : Tally)
    → IsCounted t (count_nodes floats nodes t) (clones nodes)
unfolding count_nodes count_node clones count_of
count_nodes-IsCounted floats [] t = (omega arith, omega arith, omega arith, omega arith, refl, refl)
count_nodes-IsCounted floats ((id, n) ∷ nodes) t =
    let met = record t { agg = record (t.agg) { total_nodes = suc t.agg.total_nodes } } in
    let rest = count_nodes-IsCounted floats nodes (count_status floats n.status n.telemetry met) in
    let here = count_status-IsStep floats n.status n.telemetry met in
    let list = clones nodes in
    (
      omega (arith, rest.0, here.0),
      omega (
        arith,
        rest.1,
        here.1,
        if-one (is_status Status.online n.status) (count_of Status.online list),
      ),
      omega (
        arith,
        rest.2,
        here.2,
        if-one (is_status Status.degraded n.status) (count_of Status.degraded list),
      ),
      omega (
        arith,
        rest.3,
        here.3,
        if-one (is_status Status.offline n.status) (count_of Status.offline list),
      ),
      rest.4 ∙ here.4,
      rest.5 ∙ here.5,
    )

-- The fields of an aggregate that count statuses.
abbrev HasStatuses : ClusterAggregate → List NodeRecord → Type 0
HasStatuses a list =
    (a.total_nodes ≡ length list)
    × (a.online_nodes ≡ count_of Status.online list)
    × (a.degraded_nodes ≡ count_of Status.degraded list)
    × (a.offline_nodes ≡ count_of Status.offline list)

averaged-HasStatuses :
    (floats : Floats) (t : Tally) (list : List NodeRecord)
    → HasStatuses t.agg list
    → (t.agg.synced_nodes ≡ 0) × (t.agg.pending_nodes ≡ 0)
    → HasStatuses (averaged floats t) list
      × ((averaged floats t).synced_nodes ≡ 0)
      × ((averaged floats t).pending_nodes ≡ 0)
unfolding averaged
averaged-HasStatuses floats t list h none_yet = elim (Bool-cases (ltb 0 t.active_count)) [
  | inl some_active ↦ rw some_active (h, none_yet.0, none_yet.1)
  | inr no_active ↦ rw no_active (h, none_yet.0, none_yet.1)
]

sync_node-status : (p : Option (Text × Text)) (n : NodeRecord) → (sync_node p n).status ≡ n.status
unfolding sync_node
sync_node-status none n = refl
sync_node-status (some (pid, hash)) n = refl

count_of-sync_nodes :
    (status : Status) (st : SmartDistProfileStore) (list : List NodeRecord)
    → count_of status (sync_nodes st list) ≡ count_of status list
unfolding count_of sync_nodes
count_of-sync_nodes status st [] = refl
count_of-sync_nodes status st (n ∷ list) =
    rw (sync_node-status (profile_for_node st n.id) n, count_of-sync_nodes status st list) refl

length-sync_nodes :
    (st : SmartDistProfileStore) (list : List NodeRecord)
    → length (sync_nodes st list) ≡ length list
unfolding sync_nodes
length-sync_nodes st [] = refl
length-sync_nodes st (n ∷ list) = ap suc (length-sync_nodes st list)

-- The fields that the switch on the sync state leaves alone, and those it counts in.
abbrev IsProfiled : ClusterAggregate → ClusterAggregate → List NodeRecord → Type 0
IsProfiled before after list =
    (after.total_nodes ≡ before.total_nodes)
    × (after.online_nodes ≡ before.online_nodes)
    × (after.degraded_nodes ≡ before.degraded_nodes)
    × (after.offline_nodes ≡ before.offline_nodes)
    × (after.synced_nodes ≡ before.synced_nodes + count_synced ProfileSync.synced list)
    × (after.pending_nodes ≡ before.pending_nodes + count_synced ProfileSync.pending list)

count_sync-IsProfiled :
    (sync : ProfileSync) (a : ClusterAggregate) (n : NodeRecord)
    → n.profile_sync ≡ sync
    → IsProfiled a (count_sync sync a) (n ∷ [])
unfolding count_sync count_synced is_sync
count_sync-IsProfiled ProfileSync.untracked a n e =
    rw e (refl, refl, refl, refl, omega arith, omega arith)
count_sync-IsProfiled ProfileSync.synced a n e =
    rw e (refl, refl, refl, refl, omega arith, omega arith)
count_sync-IsProfiled ProfileSync.pending a n e =
    rw e (refl, refl, refl, refl, omega arith, omega arith)

count_profile-IsProfiled :
    (p : Option (Text × Text)) (a : ClusterAggregate) (n : NodeRecord)
    → n.profile_sync ≡ ProfileSync.untracked
    → IsProfiled a (count_profile p n a) (sync_node p n ∷ [])
unfolding count_profile sync_node count_sync
count_profile-IsProfiled none a n fresh = count_sync-IsProfiled ProfileSync.untracked a n fresh
count_profile-IsProfiled (some (pid, hash)) a n fresh =
    count_sync-IsProfiled (profile_sync_state hash n.telemetry.applied_profile_hash) a
      (sync_node (some (pid, hash)) n) refl

abbrev IsFresh : List NodeRecord → Type 0
IsFresh = All (λ (n : NodeRecord). n.profile_sync ≡ ProfileSync.untracked)

count_synced-cons :
    (sync : ProfileSync) (n : NodeRecord) (list : List NodeRecord)
    → count_synced sync (n ∷ list) ≡ count_synced sync (n ∷ []) + count_synced sync list
unfolding count_synced
count_synced-cons sync n list = ground arith

count_profiles-IsProfiled :
    (st : SmartDistProfileStore) (list : List NodeRecord) (a : ClusterAggregate)
    → IsFresh list
    → IsProfiled a (count_profiles st list a) (sync_nodes st list)
unfolding count_profiles sync_nodes
count_profiles-IsProfiled st [] a h =
    unfold count_synced in (refl, refl, refl, refl, omega arith, omega arith)
count_profiles-IsProfiled st (n ∷ list) a (fresh, h) =
    let p = profile_for_node st n.id in
    let here = count_profile-IsProfiled p a n fresh in
    let rest = count_profiles-IsProfiled st list (count_profile p n a) h in
    let tail = sync_nodes st list in
    (
      rest.0 ∙ here.0,
      rest.1 ∙ here.1,
      rest.2 ∙ here.2,
      rest.3 ∙ here.3,
      omega (arith, rest.4, here.4, count_synced-cons ProfileSync.synced (sync_node p n) tail),
      omega (arith, rest.5, here.5, count_synced-cons ProfileSync.pending (sync_node p n) tail),
    )

clones-IsFresh :
    (now : ℕ) (nodes : Map Text NodeRecord)
    → IsKeyed nodes
    → IsFresh (clones (refresh_all now nodes))
unfolding clones refresh_all refresh_node_status
clones-IsFresh now [] h = tt
clones-IsFresh now ((id, n) ∷ nodes) (same, fresh, h) = (fresh, clones-IsFresh now nodes h)

-- The fields of an aggregate that count nodes, against a list.
abbrev pub HasCounts : ClusterAggregate → List NodeRecord → Type 0
HasCounts agg list =
    (agg.total_nodes ≡ length list)
    × (agg.online_nodes ≡ count_of Status.online list)
    × (agg.degraded_nodes ≡ count_of Status.degraded list)
    × (agg.offline_nodes ≡ count_of Status.offline list)
    × (agg.synced_nodes ≡ count_synced ProfileSync.synced list)
    × (agg.pending_nodes ≡ count_synced ProfileSync.pending list)

pub list_nodes-counts :
    (floats : Floats) (now : ℕ) (s : ClusterStore) (st : SmartDistProfileStore)
    → IsKeyed s.nodes
    → let (list, agg) = (list_nodes floats now s (some st)).1 in HasCounts agg list
unfolding list_nodes with_profiles
list_nodes-counts floats now s st h =
    let nodes = refresh_all now s.nodes in
    let begin : Tally = record { agg = empty_aggregate; cache_sum = 0; active_count = 0 } in
    let tally : Tally = count_nodes floats nodes begin in
    let counted = count_nodes-IsCounted floats nodes begin in
    let base =
      averaged-HasStatuses floats tally (clones nodes)
        (
          omega (arith, counted.0),
          omega (arith, counted.1),
          omega (arith, counted.2),
          omega (arith, counted.3),
        )
        (counted.4, counted.5) in
    let profiled =
      count_profiles-IsProfiled st (clones nodes) (averaged floats tally)
        (clones-IsFresh now s.nodes h) in
    (
      profiled.0 ∙ base.0.0 ∙ sym (length-sync_nodes st (clones nodes)),
      profiled.1 ∙ base.0.1 ∙ sym (count_of-sync_nodes Status.online st (clones nodes)),
      profiled.2 ∙ base.0.2 ∙ sym (count_of-sync_nodes Status.degraded st (clones nodes)),
      profiled.3 ∙ base.0.3 ∙ sym (count_of-sync_nodes Status.offline st (clones nodes)),
      omega (arith, profiled.4, base.1),
      omega (arith, profiled.5, base.2),
    )
