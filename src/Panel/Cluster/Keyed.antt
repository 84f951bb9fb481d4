-- ===== src/Panel/Cluster/Keyed.antt =====
-- `ClusterStore` of panel/cluster.go: the records stand under their ids.
use dnsdist_edge.Prelude.{
  ℕ, ◌+◌, ◌*◌, ◌≡◌, refl, ap, sym, ◌∙◌, Bool, ltb, Option, none, some, List, [], ◌∷◌, ◌++◌, ◌==◌,
  is_some, if◌then◌else◌, arith, Bool-cases, inl, inr,
}
use mathlib.Core.Path.{subst}
use dnsdist_edge.Text.{Text, text_eq, text_beq_iff, trim_space}
use dnsdist_edge.Map.{Map, get, put, remove}
use dnsdist_edge.Panel.Cluster.{
  NodeRecord, ProfileSync, HeartbeatRequest, ClusterStore, save, refresh_node_status, refresh_all,
  drop_token, consume_token, validate_and_consume_token, generate_enrollment_token, enroll_node,
  new_node, node_prefix, token_prefix, is_positive, hour, beat, beat_record, process_heartbeat,
  delete_node,
}
use dnsdist_edge.Panel.Cluster.Listed.{IsKeyed}
use dnsdist_edge.Panel.Cluster.Requests.{
  Request, issue, consume, enroll, heartbeat, delete, tick, perform, perform_all,
}

pub put-IsKeyed :
    (nodes : Map Text NodeRecord) (id : Text) (n : NodeRecord)
    → (n.id ≡ id) × (n.profile_sync ≡ ProfileSync.untracked)
    → IsKeyed nodes
    → IsKeyed (put nodes id n)
unfolding put
put-IsKeyed [] id n h k = (h.0, h.1, tt)
put-IsKeyed ((j, m) ∷ nodes) id n h (a, b, k) = elim (Bool-cases (j == id)) [
  | inl same ↦ rw same (h.0, h.1, k)
  | inr other ↦ rw other (a, b, put-IsKeyed nodes id n h k)
]

remove-IsKeyed :
    (nodes : Map Text NodeRecord) (id : Text) → IsKeyed nodes → IsKeyed (remove nodes id)
unfolding remove
remove-IsKeyed [] id k = tt
remove-IsKeyed ((j, m) ∷ nodes) id (a, b, k) = elim (Bool-cases (j == id)) [
  | inl same ↦ rw same (remove-IsKeyed nodes id k)
  | inr other ↦ rw other (a, b, remove-IsKeyed nodes id k)
]

refresh_all-IsKeyed :
    (now : ℕ) (nodes : Map Text NodeRecord) → IsKeyed nodes → IsKeyed (refresh_all now nodes)
unfolding refresh_all refresh_node_status
refresh_all-IsKeyed now [] k = tt
refresh_all-IsKeyed now ((j, m) ∷ nodes) (a, b, k) = (a, b, refresh_all-IsKeyed now nodes k)

pub IsKeyed-get :
    (nodes : Map Text NodeRecord) (id : Text) (n : NodeRecord)
    → IsKeyed nodes
    → get nodes id ≡ some n
    → (n.id ≡ id) × (n.profile_sync ≡ ProfileSync.untracked)
unfolding get
IsKeyed-get [] id n k e = absurd (ground arith)
IsKeyed-get ((j, m) ∷ nodes) id n (a, b, k) e = elim (Bool-cases (j == id)) [
  | inl same ↦
      let found : m ≡ n = ground arith in
      (
        ap (λ (r : NodeRecord). r.id) (sym found) ∙ a ∙ (text_beq_iff j id).0 same,
        ap (λ (r : NodeRecord). r.profile_sync) (sym found) ∙ b,
      )
  | inr other ↦ IsKeyed-get nodes id n k (ground arith)
]

pub nodes-save : (written : Bool) (s : ClusterStore) → (save written s).0.nodes ≡ s.nodes
unfolding save
nodes-save written s = ground arith

save-IsKeyed :
    (written : Bool) (s : ClusterStore) → IsKeyed s.nodes → IsKeyed (save written s).0.nodes
save-IsKeyed written s k = subst IsKeyed (sym (nodes-save written s)) k

beat_record-IsKeyed :
    (written : Bool) (now : ℕ) (s : ClusterStore) (req : HeartbeatRequest) (ip : Text)
    (found : Option NodeRecord)
    → get s.nodes req.node_id ≡ found
    → IsKeyed s.nodes
    → IsKeyed (beat_record written now s req ip found).0.nodes
unfolding beat_record beat refresh_node_status
beat_record-IsKeyed written now s req ip none e k = k
beat_record-IsKeyed written now s req ip (some rec) e k =
    elim (Bool-cases (rec.key == req.node_key)) [
      | inr wrong ↦ rw wrong k
      | inl right ↦ rw right (
          let new = beat now rec req ip in
          save-IsKeyed written (record s { nodes = put s.nodes req.node_id new })
            (put-IsKeyed s.nodes req.node_id new (IsKeyed-get s.nodes req.node_id rec k e) k))
    ]

pub process_heartbeat-IsKeyed :
    (written : Bool) (now : ℕ) (s : ClusterStore) (req : HeartbeatRequest) (ip : Text)
    → IsKeyed s.nodes
    → IsKeyed (process_heartbeat written now s req ip).0.nodes
unfolding process_heartbeat
process_heartbeat-IsKeyed written now s req ip k =
    beat_record-IsKeyed written now s req ip (get s.nodes req.node_id) refl k

consume_token-IsKeyed :
    (written : Bool) (now : ℕ) (s : ClusterStore) (tok : Text) (entry : Option ℕ)
    → IsKeyed s.nodes
    → IsKeyed (consume_token written now s tok entry).0.nodes
unfolding consume_token drop_token
consume_token-IsKeyed written now s tok none k = k
consume_token-IsKeyed written now s tok (some exp) k = elim (Bool-cases (ltb exp now)) [
  | inl late ↦ rw late k
  | inr valid ↦ rw valid (save-IsKeyed written (drop_token s tok) k)
]

delete_node-IsKeyed :
    (written : Bool) (s : ClusterStore) (id : Text)
    → IsKeyed s.nodes
    → IsKeyed (delete_node written s id).0.nodes
unfolding delete_node
delete_node-IsKeyed written s id k = elim (Bool-cases (is_some (get s.nodes id))) [
  | inr missing ↦ rw missing k
  | inl there ↦
      rw there (
        save-IsKeyed written (record s { nodes = remove s.nodes id }) (remove-IsKeyed s.nodes id k))
]

-- Every request keeps each record under its own id.
pub perform-IsKeyed :
    (s : ClusterStore) (r : Request) → IsKeyed s.nodes → IsKeyed (perform s r).nodes
unfolding perform generate_enrollment_token validate_and_consume_token enroll_node new_node
    process_heartbeat
perform-IsKeyed s (issue written now random duration) k =
    save-IsKeyed written
      (record s {
        tokens =
            put s.tokens (token_prefix ++ random)
              (now + (if is_positive duration then duration else 24 * hour));
      })
      k
perform-IsKeyed s (consume written now raw) k =
    consume_token-IsKeyed written now s (trim_space raw) (get s.tokens (trim_space raw)) k
perform-IsKeyed s (enroll written now random key req ip) k =
    let id = node_prefix ++ random in
    let rec = new_node now id key req ip in
    save-IsKeyed written (record s { nodes = put s.nodes id rec })
      (put-IsKeyed s.nodes id rec (refl, refl) k)
perform-IsKeyed s (heartbeat written now req ip) k =
    process_heartbeat-IsKeyed written now s req ip k
perform-IsKeyed s (delete written id) k = delete_node-IsKeyed written s id k
perform-IsKeyed s (tick now) k = refresh_all-IsKeyed now s.nodes k

pub perform_all-IsKeyed :
    (s : ClusterStore) (requests : List Request)
    → IsKeyed s.nodes
    → IsKeyed (perform_all s requests).nodes
unfolding perform_all
perform_all-IsKeyed s [] k = k
perform_all-IsKeyed s (r ∷ requests) k =
    perform_all-IsKeyed (perform s r) requests (perform-IsKeyed s r k)
