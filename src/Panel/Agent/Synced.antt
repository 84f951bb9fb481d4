-- ===== src/Panel/Agent/Synced.antt =====
-- The list of nodes of panel/cluster.go after heartbeats of an edge that has a profile.
use mathlib.Core.Path.{subst}
use dnsdist_edge.Prelude.{
  ℕ, ◌≡◌, refl, ap, sym, ◌∙◌, true, false, ◌&&◌, some, List, [], ◌∷◌, ◌==◌, ◌≤◌, length, is_some,
  Bool-cases, inl, inr,
}
use dnsdist_edge.Text.{Text, text_eq, text_beq_iff, trim_space, lower}
use dnsdist_edge.Map.{get, get-put}
use dnsdist_edge.Panel.SmartDist.{SmartDistProfileStore, SmartDistEntry, profile_for_node}
use dnsdist_edge.Panel.Lua.{generate_smart_dist_lua, generate_dnsdist_lua}
use dnsdist_edge.Panel.Cluster.{NodeRecord, ProfileSync, ClusterStore, beat, refresh_node_status}
use dnsdist_edge.Panel.Cluster.Listing.{Floats, profile_sync_state, sync_node, list_nodes}
use dnsdist_edge.Panel.Cluster.Listed.{
  IsKeyed, find_node, shown, shown_option, find_node-list_nodes,
}
use dnsdist_edge.Panel.Cluster.Keyed.{IsKeyed-get, process_heartbeat-IsKeyed}
use dnsdist_edge.Panel.Agent.{EdgeClusterAgent, Setup, max_body, is_registered, heartbeat_request}
use dnsdist_edge.Panel.Api.{handle_cluster_heartbeat}
use dnsdist_edge.Panel.Agent.Round.{RoundIo, master_turn, round, rounds}
use dnsdist_edge.Panel.Agent.Identity.{identity, identity-edge_turn}
use dnsdist_edge.Panel.Agent.Enrolled.{
  IsEnrolled, round-IsEnrolled, rounds-IsEnrolled, master_turn-heard,
}
use dnsdist_edge.Panel.Agent.Converge.{is_clean, hash-round}

master_turn-IsKeyed :
    (r : RoundIo) (s : ClusterStore) (st : SmartDistProfileStore) (a : EdgeClusterAgent)
    → IsKeyed s.nodes
    → IsKeyed (master_turn r s st a).0.nodes
unfolding master_turn handle_cluster_heartbeat
master_turn-IsKeyed r s st a k = elim (Bool-cases (is_registered a && r.heard)) [
  | inr deaf ↦ rw deaf k
  | inl hears ↦ rw hears (
      process_heartbeat-IsKeyed r.written r.now s (heartbeat_request a r.measured r.version)
        r.remote_ip k)
]

round-IsKeyed :
    (setup : Setup) (r : RoundIo) (st : SmartDistProfileStore) (w : ClusterStore × EdgeClusterAgent)
    → IsKeyed w.0.nodes
    → IsKeyed (round setup r st w).0.nodes
unfolding round
round-IsKeyed setup r st (s, a) k = master_turn-IsKeyed r s st a k

identity-round :
    (setup : Setup) (r : RoundIo) (st : SmartDistProfileStore) (w : ClusterStore × EdgeClusterAgent)
    → identity (round setup r st w).1 ≡ identity w.1
unfolding round
identity-round setup r st (s, a) =
    let (after, reply) = master_turn r s st a in identity-edge_turn setup r after st reply a

rounds-same :
    (setup : Setup) (rs : List RoundIo) (st : SmartDistProfileStore)
    (w : ClusterStore × EdgeClusterAgent)
    → IsKeyed w.0.nodes
    → IsKeyed (rounds setup rs st w).0.nodes × (identity (rounds setup rs st w).1 ≡ identity w.1)
unfolding rounds
rounds-same setup [] st w k = (k, refl)
rounds-same setup (r ∷ rs) st w k =
    let (keyed, same) =
      rounds-same setup rs st (round setup r st w) (round-IsKeyed setup r st w k) in
    (keyed, same ∙ identity-round setup r st w)

abbrev pub listed : Floats → ℕ → ClusterStore → SmartDistProfileStore → List NodeRecord
listed floats now s st = (list_nodes floats now s (some st)).1.0

-- The list shows this node, as one that has applied this profile.
abbrev pub IsShownSynced : List NodeRecord → Text → Text → Type 0
IsShownSynced list id pid =
    (n : NodeRecord) × (find_node list id ≡ some n)
    × (n.profile_sync ≡ ProfileSync.synced)
    × (n.profile_id ≡ pid)

shown-synced :
    (now : ℕ) (st : SmartDistProfileStore) (pid hash : Text) (n : NodeRecord)
    → profile_for_node st n.id ≡ some (pid, hash)
    → (hash == []) ≡ false
    → n.telemetry.applied_profile_hash ≡ hash
    → ((shown now st n).profile_sync ≡ ProfileSync.synced) × ((shown now st n).profile_id ≡ pid)
unfolding shown sync_node profile_sync_state refresh_node_status
shown-synced now st pid hash n assigned given applied =
    let same : (hash == n.telemetry.applied_profile_hash) ≡ true =
      (text_beq_iff hash n.telemetry.applied_profile_hash).1 (sym applied) in
    rw assigned (rw (given, same) refl, refl)

list_nodes-heard :
    (floats : Floats) (now : ℕ) (r : RoundIo) (s : ClusterStore) (st : SmartDistProfileStore)
    (a : EdgeClusterAgent) (pid hash : Text)
    → IsEnrolled s a
    → IsKeyed s.nodes
    → profile_for_node st a.state.node_id ≡ some (pid, hash)
    → (hash == []) ≡ false
    → a.state.profile_hash ≡ hash
    → r.heard ≡ true
    → IsShownSynced (listed floats now (master_turn r s st a).0 st) a.state.node_id pid
unfolding heartbeat_request beat refresh_node_status
list_nodes-heard floats now r s st a pid hash enrolled k assigned given applied heard =
    let (rec, found, nodes, reply) = master_turn-heard r s st a enrolled heard in
    let id = a.state.node_id in
    let after = (master_turn r s st a).0 in
    let n = beat r.now rec (heartbeat_request a r.measured r.version) r.remote_ip in
    let there : get after.nodes id ≡ some n =
      ap (λ m. get m id) nodes ∙ get-put s.nodes id id n ∙ rw ((text_beq_iff id id).1 refl) refl in
    let keyed = master_turn-IsKeyed r s st a k in
    let own = (IsKeyed-get after.nodes id n keyed there).0 in
    let seen =
      shown-synced now st pid hash n (ap (profile_for_node st) own ∙ assigned) given applied in
    (
      shown now st n,
      find_node-list_nodes floats now after st id keyed ∙ ap (shown_option now st) there,
      seen.0,
      seen.1,
    )

-- An edge that is enrolled and has a profile is shown as synced with it: after any heartbeats, of which any
-- number may have failed anywhere, one in which nothing fails and one more that the master hears, the list
-- has the edge with its profile and the sync state synced. The profile's body is the one its hash is of, it is within the limit of
-- the edge's reader, and both Lua files can be made of it.
pub synced-rounds :
    (setup : Setup) (floats : Floats) (now : ℕ) (rs : List RoundIo) (clean heard : RoundIo)
    (st : SmartDistProfileStore) (s : ClusterStore) (a : EdgeClusterAgent) (pid : Text)
    (e : SmartDistEntry)
    → IsEnrolled s a
    → IsKeyed s.nodes
    → (trim_space a.state.node_id ≡ a.state.node_id)
      × (trim_space a.state.node_key ≡ a.state.node_key)
    → profile_for_node st a.state.node_id ≡ some (pid, e.hash)
    → get st.profiles pid ≡ some e
    → (trim_space pid == []) ≡ false
    → (lower (trim_space e.hash) ≡ e.hash) × ((e.hash == []) ≡ false)
    → setup.codec.hex_digest e.raw ≡ e.hash
    → length e.raw ≤ max_body
    → is_some (generate_smart_dist_lua setup.docs e.raw) ≡ true
    → is_some (generate_dnsdist_lua setup.codec setup.docs e.raw) ≡ true
    → is_clean clean ≡ true
    → heard.heard ≡ true
    → IsShownSynced
        (listed floats now
          (round setup heard st (round setup clean st (rounds setup rs st (s, a)))).0
          st)
        a.state.node_id
        pid
unfolding round
synced-rounds setup floats now rs clean heard st s a pid e enrolled k trimmed assigned there named
      hashed digest short smart section is_good hears =
    let w0 = rounds setup rs st (s, a) in
    let (k0, same0) = rounds-same setup rs st (s, a) k in
    let enrolled0 = rounds-IsEnrolled setup rs st s a enrolled in
    let id0 : w0.1.state.node_id ≡ a.state.node_id = ap (λ i. i.1.0) same0 in
    let key0 : w0.1.state.node_key ≡ a.state.node_key = ap (λ i. i.1.1) same0 in
    let trimmed0 : (trim_space w0.1.state.node_id ≡ w0.1.state.node_id)
        × (trim_space w0.1.state.node_key ≡ w0.1.state.node_key) =
      (ap trim_space id0 ∙ trimmed.0 ∙ sym id0, ap trim_space key0 ∙ trimmed.1 ∙ sym key0) in
    let w1 = round setup clean st w0 in
    let hash1 =
      hash-round setup st pid e there named hashed.0 hashed.1 digest short smart section clean w0.0
        w0.1 enrolled0 trimmed0 (ap (profile_for_node st) id0 ∙ assigned) is_good in
    let id1 : w1.1.state.node_id ≡ a.state.node_id =
      ap (λ i. i.1.0) (identity-round setup clean st w0) ∙ id0 in
    subst (λ id. IsShownSynced (listed floats now (round setup heard st w1).0 st) id pid) id1
      (list_nodes-heard floats now heard w1.0 st w1.1 pid e.hash
        (round-IsEnrolled setup clean st w0.0 w0.1 enrolled0) (round-IsKeyed setup clean st w0 k0)
        (ap (profile_for_node st) id1 ∙ assigned) hashed.1 hash1 hears)
