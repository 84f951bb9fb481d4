-- ===== src/Panel/Agent/Enrolled.antt =====
-- An edge that its master knows (panel/cluster.go, panel/smartdist_agent.go): its key at the master, through
-- heartbeats.
use mathlib.Core.Path.{subst}
use dnsdist_edge.Prelude.{
  ℕ, ◌≡◌, refl, ap, sym, ◌∙◌, Bool, true, not, ◌&&◌, ◌||◌, Option, none, some, List, [], ◌∷◌, ◌==◌,
  nat_eq, if-both, if-true, Result, ok, arith, Bool-cases, Option-cases, inl, inr,
}
use dnsdist_edge.Text.{Text, text_eq, text_beq_iff}
use dnsdist_edge.Map.{Map, get, put, get-put}
use dnsdist_edge.Panel.SmartDist.{SmartDistProfileStore, profile_for_node}
use dnsdist_edge.Panel.Cluster.{
  ClusterError, beat_record, NodeRecord, ClusterStore, HeartbeatRequest, beat, refresh_node_status,
  process_heartbeat,
}
use dnsdist_edge.Panel.Cluster.Keyed.{nodes-save}
use dnsdist_edge.Panel.Agent.{
  EdgeClusterAgent, HeartbeatAnswer, unreachable, accepted, Setup, is_registered, heartbeat_request,
}
use dnsdist_edge.Panel.Api.{heartbeat_answer, heartbeat_response, handle_cluster_heartbeat}
use dnsdist_edge.Panel.Agent.Round.{RoundIo, master_turn, round, rounds}
use dnsdist_edge.Panel.Agent.Identity.{identity, identity-edge_turn}

abbrev pub key_in : Option NodeRecord → Option Text
key_in none = none
key_in (some rec) = some rec.key

-- The key that the master has for a node.
abbrev pub key_of : Map Text NodeRecord → Text → Option Text
key_of nodes id = key_in (get nodes id)

key_of-put :
    (nodes : Map Text NodeRecord) (node id : Text) (old new : NodeRecord)
    → get nodes node ≡ some old
    → new.key ≡ old.key
    → key_of (put nodes node new) id ≡ key_of nodes id
key_of-put nodes node id old new e same = elim (Bool-cases (node == id)) [
  | inl here ↦
      ap key_in (get-put nodes node id new)
      ∙ rw here (ap (λ k. some k) same)
      ∙ sym (ap key_in (ap (get nodes) (sym ((text_beq_iff node id).0 here)) ∙ e))
  | inr there ↦ ap key_in (get-put nodes node id new) ∙ rw there refl
]

key_of-beat_record :
    (written : Bool) (now : ℕ) (s : ClusterStore) (req : HeartbeatRequest) (ip id : Text)
    (found : Option NodeRecord)
    → get s.nodes req.node_id ≡ found
    → key_of (beat_record written now s req ip found).0.nodes id ≡ key_of s.nodes id
unfolding beat_record beat refresh_node_status
key_of-beat_record written now s req ip id none e = refl
key_of-beat_record written now s req ip id (some rec) e =
    let key : ClusterStore × Result ClusterError Unit → Option Text = λ w. key_of w.0.nodes id in
    let new = beat now rec req ip in
    if-both key (not (rec.key == req.node_key)) refl (
      ap (λ m. key_of m id) (nodes-save written (record s { nodes = put s.nodes req.node_id new }))
      ∙ key_of-put s.nodes req.node_id id rec new e refl)

key_of-process_heartbeat :
    (written : Bool) (now : ℕ) (s : ClusterStore) (req : HeartbeatRequest) (ip id : Text)
    → key_of (process_heartbeat written now s req ip).0.nodes id ≡ key_of s.nodes id
unfolding process_heartbeat
key_of-process_heartbeat written now s req ip id =
    key_of-beat_record written now s req ip id (get s.nodes req.node_id) refl

pub key_of-master_turn :
    (r : RoundIo) (s : ClusterStore) (st : SmartDistProfileStore) (a : EdgeClusterAgent) (id : Text)
    → key_of (master_turn r s st a).0.nodes id ≡ key_of s.nodes id
unfolding master_turn handle_cluster_heartbeat
key_of-master_turn r s st a id =
    let req = heartbeat_request a r.measured r.version in
    let key : ClusterStore × HeartbeatAnswer → Option Text = λ w. key_of w.0.nodes id in
    if-both key (is_registered a && r.heard)
      (key_of-process_heartbeat r.written r.now s req r.remote_ip id) refl

-- The condition to speak to the master, on an identity.
abbrev pub can_speak : Text × (Text × Text) → Bool
can_speak (url, (id, key)) = not (url == [] || id == [] || key == [])

abbrev IsKnown : Map Text NodeRecord → Text × (Text × Text) → Type 0
IsKnown nodes (url, (id, key)) = (can_speak (url, (id, key)) ≡ true) × (key_of nodes id ≡ some key)

-- The edge has what it needs to speak to its master, and its key is the one the master has for it.
abbrev pub IsEnrolled : ClusterStore → EdgeClusterAgent → Type 0
IsEnrolled s a = IsKnown s.nodes (identity a)

pub round-IsEnrolled :
    (setup : Setup) (r : RoundIo) (st : SmartDistProfileStore) (s : ClusterStore)
    (a : EdgeClusterAgent)
    → IsEnrolled s a
    → IsEnrolled (round setup r st (s, a)).0 (round setup r st (s, a)).1
unfolding round
round-IsEnrolled setup r st s a (registered, known) =
    let (after, reply) = master_turn r s st a in
    subst (λ i. IsKnown after.nodes i) (sym (identity-edge_turn setup r after st reply a))
      (registered, key_of-master_turn r s st a a.state.node_id ∙ known)

pub rounds-IsEnrolled :
    (setup : Setup) (rs : List RoundIo) (st : SmartDistProfileStore) (s : ClusterStore)
    (a : EdgeClusterAgent)
    → IsEnrolled s a
    → IsEnrolled (rounds setup rs st (s, a)).0 (rounds setup rs st (s, a)).1
unfolding rounds
rounds-IsEnrolled setup [] st s a h = h
rounds-IsEnrolled setup (r ∷ rs) st s a h =
    let next = round setup r st (s, a) in
    rounds-IsEnrolled setup rs st next.0 next.1 (round-IsEnrolled setup r st s a h)

beat_record-right :
    (written : Bool) (now : ℕ) (s : ClusterStore) (req : HeartbeatRequest) (ip : Text)
    (rec : NodeRecord)
    → rec.key ≡ req.node_key
    → ((beat_record written now s req ip (some rec)).1 ≡ ok tt)
      × ((beat_record written now s req ip (some rec)).0.nodes
          ≡ put s.nodes req.node_id (beat now rec req ip))
unfolding beat_record
beat_record-right written now s req ip rec same =
    rw ((text_beq_iff rec.key req.node_key).1 same) (
      refl,
      nodes-save written (record s { nodes = put s.nodes req.node_id (beat now rec req ip) }),
    )

-- The heartbeat of a node whose key is right is taken.
pub process_heartbeat-known :
    (written : Bool) (now : ℕ) (s : ClusterStore) (req : HeartbeatRequest) (ip : Text)
    → key_of s.nodes req.node_id ≡ some req.node_key
    → (rec : NodeRecord) × (get s.nodes req.node_id ≡ some rec)
      × ((process_heartbeat written now s req ip).1 ≡ ok tt)
      × ((process_heartbeat written now s req ip).0.nodes
          ≡ put s.nodes req.node_id (beat now rec req ip))
unfolding process_heartbeat
process_heartbeat-known written now s req ip known = elim (Option-cases (get s.nodes req.node_id)) [
  | inl e ↦ absurd (ground (arith, sym (ap key_in e) ∙ known))
  | inr (rec, e) ↦
      let same : some rec.key ≡ some req.node_key = sym (ap key_in e) ∙ known in
      let beaten = beat_record-right written now s req ip rec (ground arith) in
      (
        rec,
        e,
        ap (λ o. (beat_record written now s req ip o).1) e ∙ beaten.0,
        ap (λ o. (beat_record written now s req ip o).0.nodes) e ∙ beaten.1,
      )
]

-- What the master makes of the heartbeat of an enrolled edge that it hears.
pub master_turn-heard :
    (r : RoundIo) (s : ClusterStore) (st : SmartDistProfileStore) (a : EdgeClusterAgent)
    → IsEnrolled s a
    → r.heard ≡ true
    → (rec : NodeRecord) × (get s.nodes a.state.node_id ≡ some rec)
      × ((master_turn r s st a).0.nodes
          ≡ put s.nodes a.state.node_id
              (beat r.now rec (heartbeat_request a r.measured r.version) r.remote_ip))
      × ((master_turn r s st a).1
          ≡ accepted (some (heartbeat_response r.db_hash (profile_for_node st a.state.node_id))))
unfolding master_turn handle_cluster_heartbeat heartbeat_answer is_registered heartbeat_request
master_turn-heard r s st a (registered, known) heard =
    let req = heartbeat_request a r.measured r.version in
    let (rec, found, taken, nodes) =
      process_heartbeat-known r.written r.now s req r.remote_ip known in
    let nodes_of : ClusterStore × HeartbeatAnswer → Map Text NodeRecord = λ w. w.0.nodes in
    let reply_of : ClusterStore × HeartbeatAnswer → HeartbeatAnswer = λ w. w.1 in
    let turn =
      if-true {b = is_registered a && r.heard}
        (handle_cluster_heartbeat r.written r.now r.db_hash s st req r.remote_ip)
        (s, unreachable r.failure) (rw registered heard) in
    (
      rec,
      found,
      ap nodes_of turn ∙ nodes,
      ap reply_of turn ∙ ap (heartbeat_answer r.db_hash st a.state.node_id) taken,
    )
