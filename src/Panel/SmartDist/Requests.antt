-- ===== src/Panel/SmartDist/Requests.antt =====
-- The store of panel/smartdist_profile.go under any sequence of requests.
use dnsdist_edge.Prelude.{
  ℕ, ◌≡◌, refl, Bool, true, false, not, ◌&&◌, Option, none, some, List, [], ◌∷◌, ◌++◌, ◌==◌, nat_eq,
  keep_last, length-keep_last-le, is_some, Result, err, arith, Bool-cases, Option-cases, inl, inr,
}
use dnsdist_edge.Text.{Text, text_eq}
use dnsdist_edge.Map.{Map, get, put, remove, get-put}
use dnsdist_edge.Panel.Profile.{Codec, parse_smart_dist_profile}
use dnsdist_edge.Panel.SmartDist.{
  SmartDistError, SmartDistAssignEvent, SmartDistEntry, SmartDistProfileStore, max_history,
  save_locked, restored, previous, restore_all, kept_if, put_profile, is_assigned, delete_profile,
  bounded, history_of, record_locked, persist_history, prev_of, reassigned, assign_node, assign_all,
  record_all, assign_many, profile_for_node,
}
use dnsdist_edge.Panel.SmartDist.Rollback.{
  IsSame, IsSame-refl, profiles-IsSame, assign-IsSame, put-HasSame, remove-HasSame,
  reassigned-HasSame, restore_all-HasSame, same-IsReferenced,
}
use dnsdist_edge.Panel.SmartDist.Integrity.{
  IsReferenced, IsBounded, IsWellFormed, put-IsReferenced, remove-IsReferenced,
  assign_all-IsReferenced, profiles-IsReferenced, unassigned-IsReferenced,
}

-- A request to the store, with the outcomes of its writes and the time.
pub data Request : Type 0 where
  put_request : Bool → Text → Request
  delete_request : Bool → Text → Request
  assign_request : Bool → Bool → ℕ → Text → Text → Request
  assign_many_request : Bool → Bool → ℕ → List Text → Text → Request

unfoldable pub perform :
    Codec → SmartDistProfileStore → Request → SmartDistProfileStore × Result SmartDistError Unit
perform codec s (put_request written raw) = put_profile codec written s raw
perform codec s (delete_request written id) = delete_profile written s id
perform codec s (assign_request written logged now node id) =
    assign_node written logged now s node id
perform codec s (assign_many_request written logged now nodes id) =
    assign_many written logged now s nodes id

abbrev pub empty_store : SmartDistProfileStore
empty_store = record { profiles = []; assign = []; history = []; file = none }

unfoldable pub perform_all : Codec → SmartDistProfileStore → List Request → SmartDistProfileStore
perform_all codec s [] = s
perform_all codec s (r ∷ requests) = perform_all codec (perform codec s r).0 requests

kept_if-IsWellFormed :
    (written : Bool) (before after : SmartDistProfileStore)
    → IsWellFormed before
    → IsWellFormed after
    → IsWellFormed (kept_if written before after).0
unfolding kept_if save_locked
kept_if-IsWellFormed true before after h k = k
kept_if-IsWellFormed false before after h k = h

persist_history-IsWellFormed :
    (written : Bool) (s : SmartDistProfileStore)
    → IsWellFormed s
    → IsWellFormed (persist_history written s)
unfolding persist_history save_locked
persist_history-IsWellFormed true s h = h
persist_history-IsWellFormed false s h = h

put-IsBounded :
    (history : Map Text (List SmartDistAssignEvent)) (node : Text) (h : List SmartDistAssignEvent)
    → IsBounded history
    → IsBounded (put history node (bounded h))
unfolding bounded
put-IsBounded history node h k other l known = ground (
  arith,
  get-put history node other (keep_last max_history h),
  length-keep_last-le max_history h,
  k other l,
)

record_locked-IsWellFormed :
    (now : ℕ) (s : SmartDistProfileStore) (node from to : Text)
    → IsWellFormed s
    → IsWellFormed (record_locked now s node from to)
unfolding record_locked
record_locked-IsWellFormed now s node from to (r, b) = elim (Bool-cases (from == to)) [
  | inl same ↦ rw same (r, b)
  | inr other ↦ rw other (
    r,
    put-IsBounded s.history node
        (history_of s node ++ record { at = now; from = from; to = to } ∷ []) b,
  )
]

record_all-IsWellFormed :
    (now : ℕ) (before s : SmartDistProfileStore) (nodes : List Text) (id : Text)
    → IsWellFormed s
    → IsWellFormed (record_all now before s nodes id)
unfolding record_all
record_all-IsWellFormed now before s [] id h = h
record_all-IsWellFormed now before s (node ∷ nodes) id h =
    record_all-IsWellFormed now before (record_locked now s node (prev_of before node) id) nodes id
      (record_locked-IsWellFormed now s node (prev_of before node) id h)

reassigned-IsReferenced :
    (assign : Map Text Text) (profiles : Map Text SmartDistEntry) (node id : Text)
    → (not (id == []) && not (is_some (get profiles id))) ≡ false
    → IsReferenced assign profiles
    → IsReferenced (reassigned assign node id) profiles
unfolding reassigned
reassigned-IsReferenced assign profiles node id allowed h = elim (Bool-cases (id == [])) [
  | inl released ↦ rw released (remove-IsReferenced assign profiles node h)
  | inr kept ↦ rw kept (
      put-IsReferenced assign profiles node id
        (ground (arith, Bool-cases (is_some (get profiles id)))) h)
]

put_profile-IsWellFormed :
    (codec : Codec) (written : Bool) (s : SmartDistProfileStore) (parsed : Option (Text × Text))
    (raw : Text)
    → parse_smart_dist_profile codec raw ≡ parsed
    → IsWellFormed s
    → IsWellFormed (put_profile codec written s raw).0
unfolding put_profile
put_profile-IsWellFormed codec written s none raw e h = rw (e, put_profile) h
put_profile-IsWellFormed codec written s (some (id, canon)) raw e h =
    let entry : SmartDistEntry = record { raw = canon; hash = codec.hex_digest canon } in
    let profiles = put s.profiles id entry in
    let rolled = restored profiles id (get s.profiles id) in
    rw (e, put_profile)
      (kept_if-IsWellFormed written (record s { profiles = rolled })
        (record s { profiles = profiles })
        (
          same-IsReferenced s.assign s.assign s.profiles rolled (λ j. refl)
              (put-HasSame s.profiles id entry) h.0,
          h.1,
        )
        (profiles-IsReferenced s.assign s.profiles id entry h.0, h.1))

delete_profile-IsWellFormed :
    (written : Bool) (s : SmartDistProfileStore) (id : Text)
    → IsWellFormed s
    → IsWellFormed (delete_profile written s id).0
unfolding delete_profile
delete_profile-IsWellFormed written s id h = elim (Bool-cases (is_some (get s.profiles id))) [
  | inr missing ↦ rw missing h
  | inl there ↦ rw there (elim (Bool-cases (is_assigned s.assign id)) [
    | inl used ↦ rw used h
    | inr free ↦ rw free (
        kept_if-IsWellFormed written
          (record s { profiles = restored (remove s.profiles id) id (get s.profiles id) })
          (record s { profiles = remove s.profiles id })
          (
            same-IsReferenced s.assign s.assign s.profiles
                (restored (remove s.profiles id) id (get s.profiles id)) (λ j. refl)
                (remove-HasSame s.profiles id) h.0,
            h.1,
          )
          (unassigned-IsReferenced s.assign s.profiles id free h.0, h.1))
  ])
]

assign_node-IsWellFormed :
    (written logged : Bool) (now : ℕ) (s : SmartDistProfileStore) (node id : Text)
    → IsWellFormed s
    → IsWellFormed (assign_node written logged now s node id).0
unfolding assign_node save_locked
assign_node-IsWellFormed false logged now s node id h =
    elim (Bool-cases (not (id == []) && not (is_some (get s.profiles id)))) [
      | inl missing ↦ rw missing h
      | inr allowed ↦ rw allowed (
        same-IsReferenced s.assign (restored (reassigned s.assign node id) node (get s.assign node))
            s.profiles s.profiles (reassigned-HasSame s.assign node id) (λ j. refl) h.0,
        h.1,
      )
    ]
assign_node-IsWellFormed true logged now s node id (r, b) =
    elim (Bool-cases (not (id == []) && not (is_some (get s.profiles id)))) [
      | inl missing ↦ rw missing (r, b)
      | inr allowed ↦ rw allowed (
          persist_history-IsWellFormed logged
            (record_locked now (save_locked (record s { assign = reassigned s.assign node id }))
              node (prev_of s node) id)
            (record_locked-IsWellFormed now
              (save_locked (record s { assign = reassigned s.assign node id })) node
              (prev_of s node) id
              (reassigned-IsReferenced s.assign s.profiles node id allowed r, b)))
    ]

assign_many-IsWellFormed :
    (written logged : Bool) (now : ℕ) (s : SmartDistProfileStore) (nodes : List Text) (id : Text)
    → IsWellFormed s
    → IsWellFormed (assign_many written logged now s nodes id).0
unfolding assign_many save_locked
assign_many-IsWellFormed false logged now s nodes id h =
    elim (Bool-cases (is_some (get s.profiles id))) [
      | inr missing ↦ rw missing h
      | inl there ↦ rw there (
        same-IsReferenced s.assign
            (restore_all (assign_all s.assign nodes id) (previous s.assign nodes [])) s.profiles
            s.profiles (restore_all-HasSame s.assign nodes id) (λ j. refl) h.0,
        h.1,
      )
    ]
assign_many-IsWellFormed true logged now s nodes id (r, b) =
    elim (Bool-cases (is_some (get s.profiles id))) [
      | inr missing ↦ rw missing (r, b)
      | inl there ↦ rw there (
          persist_history-IsWellFormed logged
            (record_all now s (save_locked (record s { assign = assign_all s.assign nodes id }))
              nodes id)
            (record_all-IsWellFormed now s
              (save_locked (record s { assign = assign_all s.assign nodes id })) nodes id
              (assign_all-IsReferenced s.assign s.profiles nodes id there r, b)))
    ]

-- Every request keeps each assigned profile in the store and each history within 50 events.
pub perform-IsWellFormed :
    (codec : Codec) (s : SmartDistProfileStore) (r : Request)
    → IsWellFormed s
    → IsWellFormed (perform codec s r).0
unfolding perform
perform-IsWellFormed codec s (put_request written raw) h =
    put_profile-IsWellFormed codec written s (parse_smart_dist_profile codec raw) raw refl h
perform-IsWellFormed codec s (delete_request written id) h =
    delete_profile-IsWellFormed written s id h
perform-IsWellFormed codec s (assign_request written logged now node id) h =
    assign_node-IsWellFormed written logged now s node id h
perform-IsWellFormed codec s (assign_many_request written logged now nodes id) h =
    assign_many-IsWellFormed written logged now s nodes id h

-- A request that is answered with an error leaves every profile, every assignment, the histories and the
-- file as they were, also where a change was made and had to be taken back.
pub perform-err :
    (codec : Codec) (s : SmartDistProfileStore) (r : Request) {after : SmartDistProfileStore}
    {e : SmartDistError}
    → perform codec s r ≡ (after, err e)
    → IsSame after s
unfolding perform put_profile delete_profile assign_node assign_many kept_if
perform-err codec s (put_request written raw) {after} h =
    elim (Option-cases (parse_smart_dist_profile codec raw)) [
      | inl bad ↦ IsSame-refl {after = after} {s = s} (ground arith)
      | inr ((id, canon), good) ↦
          let entry : SmartDistEntry = record { raw = canon; hash = codec.hex_digest canon } in
          profiles-IsSame s (restored (put s.profiles id entry) id (get s.profiles id))
            {after = after} (put-HasSame s.profiles id entry) (ground (arith, Bool-cases written))
    ]
perform-err codec s (delete_request written id) {after} h =
    elim (Bool-cases (is_some (get s.profiles id) && not (is_assigned s.assign id))) [
      | inr kept ↦ IsSame-refl {after = after} {s = s} (ground (arith, Bool-cases written))
      | inl goes ↦
          profiles-IsSame s (restored (remove s.profiles id) id (get s.profiles id)) {after = after}
            (remove-HasSame s.profiles id) (ground (arith, Bool-cases written))
    ]
perform-err codec s (assign_request written logged now node id) {after} h =
    elim (Bool-cases (not (id == []) && not (is_some (get s.profiles id)))) [
      | inl missing ↦ IsSame-refl {after = after} {s = s} (ground arith)
      | inr allowed ↦
          assign-IsSame s (restored (reassigned s.assign node id) node (get s.assign node))
            {after = after} (reassigned-HasSame s.assign node id)
            (ground (arith, Bool-cases written))
    ]
perform-err codec s (assign_many_request written logged now nodes id) {after} h =
    elim (Bool-cases (is_some (get s.profiles id))) [
      | inr missing ↦ IsSame-refl {after = after} {s = s} (ground arith)
      | inl there ↦
          assign-IsSame s (restore_all (assign_all s.assign nodes id) (previous s.assign nodes []))
            {after = after} (restore_all-HasSame s.assign nodes id)
            (ground (arith, Bool-cases written))
    ]

perform_all-IsWellFormed :
    (codec : Codec) (s : SmartDistProfileStore) (requests : List Request)
    → IsWellFormed s
    → IsWellFormed (perform_all codec s requests)
unfolding perform_all
perform_all-IsWellFormed codec s [] h = h
perform_all-IsWellFormed codec s (r ∷ requests) h =
    perform_all-IsWellFormed codec (perform codec s r).0 requests (perform-IsWellFormed codec s r h)

profile_for_node-found :
    (s : SmartDistProfileStore) (node pid : Text)
    → get s.assign node ≡ some pid
    → is_some (get s.profiles pid) ≡ true
    → (hash : Text) × (profile_for_node s node ≡ some (pid, hash))
unfolding profile_for_node
profile_for_node-found s node pid h there = elim (Option-cases (get s.profiles pid)) [
  | inl missing ↦ absurd (ground arith)
  | inr (e, found) ↦ (e.hash, ground arith)
]

-- After any requests to an empty store, a node that has an assignment is answered with that profile.
pub profile_for_node-assigned :
    (codec : Codec) (requests : List Request) (node pid : Text)
    → get (perform_all codec empty_store requests).assign node ≡ some pid
    → (hash : Text) × (profile_for_node (perform_all codec empty_store requests) node
        ≡ some (pid, hash))
profile_for_node-assigned codec requests node pid h =
    let (there, bound) = perform_all-IsWellFormed codec empty_store requests (
      (λ n p e. absurd (unfold get in ground arith)),
      (λ n l e. absurd (unfold get in ground arith)),
    ) in
    profile_for_node-found (perform_all codec empty_store requests) node pid h (there node pid h)
