-- ===== src/Panel/Cluster/Listed.antt =====
-- `ListNodes` of panel/cluster.go: the list against the store, and the aggregate against the list.
use dnsdist_edge.Prelude.{
  ℕ, ◌≡◌, refl, ap, ◌∙◌, Option, none, some, List, [], ◌∷◌, ◌==◌, if◌then◌else◌, Bool-cases, inl,
  inr,
}
use dnsdist_edge.Text.{Text, text_eq}
use dnsdist_edge.Map.{Map, get}
use dnsdist_edge.Panel.SmartDist.{SmartDistProfileStore, profile_for_node}
use dnsdist_edge.Panel.Cluster.{
  NodeRecord, ProfileSync, ClusterStore, refresh_node_status, refresh_all,
}
use dnsdist_edge.Panel.Cluster.Listing.{
  Floats, clones, sync_node, sync_nodes, with_profiles, list_nodes,
}

-- Each record stands under its own id, and carries no sync state of its own.
abbrev pub IsKeyed : Map Text NodeRecord → Type 0
IsKeyed [] = Unit
IsKeyed ((id, n) ∷ nodes) = (n.id ≡ id) × (n.profile_sync ≡ ProfileSync.untracked) × IsKeyed nodes

unfoldable pub find_node : List NodeRecord → Text → Option NodeRecord
find_node [] id = none
find_node (n ∷ list) id = if n.id == id then some n else find_node list id

-- A record as the list shows it.
unfoldable pub shown : ℕ → SmartDistProfileStore → NodeRecord → NodeRecord
shown now st n =
    sync_node (profile_for_node st n.id) (record (refresh_node_status now n) { key = [] })

abbrev pub shown_option : ℕ → SmartDistProfileStore → Option NodeRecord → Option NodeRecord
shown_option now st none = none
shown_option now st (some n) = some (shown now st n)

id-sync_node : (p : Option (Text × Text)) (n : NodeRecord) → (sync_node p n).id ≡ n.id
unfolding sync_node
id-sync_node none n = refl
id-sync_node (some (pid, hash)) n = refl

find_node-listed :
    (now : ℕ) (st : SmartDistProfileStore) (nodes : Map Text NodeRecord) (id : Text)
    → IsKeyed nodes
    → find_node (sync_nodes st (clones (refresh_all now nodes))) id
      ≡ shown_option now st (get nodes id)
unfolding find_node sync_nodes clones refresh_all get shown refresh_node_status
find_node-listed now st [] id h = refl
find_node-listed now st ((k, n) ∷ nodes) id (same, fresh, h) =
    let test : ((shown now st n).id == id) ≡ (k == id) =
      ap (λ i. i == id)
        (id-sync_node (profile_for_node st n.id) (record (refresh_node_status now n) { key = [] })
          ∙ same) in
    elim (Bool-cases (k == id)) [
      | inl here ↦ rw (test, here) refl
      | inr there ↦ rw (test, there) (find_node-listed now st nodes id h)
    ]

-- The list shows each node of the store once asked for by its id, with its state at this time, the sync state
-- of its profile and without its key, and it shows no other node.
pub find_node-list_nodes :
    (floats : Floats) (now : ℕ) (s : ClusterStore) (st : SmartDistProfileStore) (id : Text)
    → IsKeyed s.nodes
    → find_node (list_nodes floats now s (some st)).1.0 id ≡ shown_option now st (get s.nodes id)
unfolding list_nodes with_profiles
find_node-list_nodes floats now s st id h = find_node-listed now st s.nodes id h
