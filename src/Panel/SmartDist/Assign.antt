-- ===== src/Panel/SmartDist/Assign.antt =====
-- `AssignMany` and `Delete` of panel/smartdist_profile.go: what they leave to the nodes.
use dnsdist_edge.Prelude.{
  ℕ, ◌≡◌, refl, ap, ◌∙◌, Bool, true, false, some, List, [], ◌∷◌, ◌==◌, is_some, if◌then◌else◌, ok,
  arith, Bool-cases, Option-cases, inl, inr,
}
use dnsdist_edge.Text.{Text, text_eq, text_beq_iff}
use dnsdist_edge.Text.Sort.{mem}
use dnsdist_edge.Map.{get, get-remove}
use dnsdist_edge.Panel.SmartDist.Integrity.{get-is_assigned}
use dnsdist_edge.Panel.SmartDist.Rollback.{get-assign_all}
use dnsdist_edge.Panel.SmartDist.{
  SmartDistProfileStore, save_locked, kept_if, record_locked, persist_history, prev_of, assign_all,
  record_all, assign_many, delete_profile, profile_for_node,
}

abbrev HasSameNodes : SmartDistProfileStore → SmartDistProfileStore → Type 0
HasSameNodes s t = (s.assign ≡ t.assign) × (s.profiles ≡ t.profiles)

record_locked-same :
    (now : ℕ) (s : SmartDistProfileStore) (node from to : Text)
    → HasSameNodes (record_locked now s node from to) s
unfolding record_locked
record_locked-same now s node from to =
    (ground (arith, Bool-cases (from == to)), ground (arith, Bool-cases (from == to)))

record_all-same :
    (now : ℕ) (before s : SmartDistProfileStore) (nodes : List Text) (id : Text)
    → HasSameNodes (record_all now before s nodes id) s
unfolding record_all
record_all-same now before s [] id = (refl, refl)
record_all-same now before s (n ∷ nodes) id =
    let (a, p) =
      record_all-same now before (record_locked now s n (prev_of before n) id) nodes id in
    let (a', p') = record_locked-same now s n (prev_of before n) id in (a ∙ a', p ∙ p')

persist_history-same :
    (logged : Bool) (s : SmartDistProfileStore) → HasSameNodes (persist_history logged s) s
unfolding persist_history save_locked
persist_history-same true s = (refl, refl)
persist_history-same false s = (refl, refl)

assigned-same :
    (logged : Bool) (now : ℕ) (s : SmartDistProfileStore) (nodes : List Text) (id : Text)
    → HasSameNodes
        (persist_history logged (
          record_all now s
            (save_locked (record s { assign = assign_all s.assign nodes id }))
            nodes
            id))
        (record s { assign = assign_all s.assign nodes id })
unfolding save_locked
assigned-same logged now s nodes id =
    let begin = save_locked (record s { assign = assign_all s.assign nodes id }) in
    let (a, p) = persist_history-same logged (record_all now s begin nodes id) in
    let (a', p') = record_all-same now s begin nodes id in (a ∙ a', p ∙ p')

-- An assignment of many nodes that is answered without an error gives the profile to each of them, whether
-- its history was written or not, leaves every other node with what it had, and changes no profile.
pub assign_many-ok :
    (written logged : Bool) (now : ℕ) (s : SmartDistProfileStore) (nodes : List Text) (id : Text)
    {after : SmartDistProfileStore}
    → assign_many written logged now s nodes id ≡ (after, ok tt)
    → (is_some (get s.profiles id) ≡ true)
      × (after.profiles ≡ s.profiles)
      × ((node : Text)
          → get after.assign node ≡ (if mem node nodes then some id else get s.assign node))
unfolding assign_many
assign_many-ok false logged now s nodes id h =
    absurd (ground (arith, Bool-cases (is_some (get s.profiles id))))
assign_many-ok true logged now s nodes id {after} h =
    elim (Bool-cases (is_some (get s.profiles id))) [
      | inr missing ↦ absurd (ground arith)
      | inl there ↦
          let (a, p) = assigned-same logged now s nodes id in
          let whole : after
              ≡ persist_history logged (
                  record_all now s
                    (save_locked (record s { assign = assign_all s.assign nodes id })) nodes id) =
            ground arith in
          (
            there,
            ap (λ (t : SmartDistProfileStore). t.profiles) whole ∙ p,
            λ node.
                ap (λ (t : SmartDistProfileStore). get t.assign node) whole
                ∙ ap (λ m. get m node) a
                ∙ get-assign_all s.assign nodes id node,
          )
    ]

-- A profile is deleted only if no node has it: after a deletion without an error every node is still
-- answered as before.
pub delete_profile-safe :
    (written : Bool) (s : SmartDistProfileStore) (id : Text) {after : SmartDistProfileStore}
    → delete_profile written s id ≡ (after, ok tt)
    → (node : Text) → profile_for_node after node ≡ profile_for_node s node
unfolding delete_profile kept_if save_locked profile_for_node
delete_profile-safe written s id {after} h node = elim (Option-cases (get s.assign node)) [
  | inl free ↦ ground (arith, Bool-cases written)
  | inr (pid, known) ↦ ground (
    arith,
    Bool-cases written,
    get-remove s.profiles id pid,
    text_beq_iff id pid,
    get-is_assigned s.assign node pid known,
  )
]
