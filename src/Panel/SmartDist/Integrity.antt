-- ===== src/Panel/SmartDist/Integrity.antt =====
-- The references from assignments to profiles in the store of panel/smartdist_profile.go.
use dnsdist_edge.Prelude.{
  ◌≤◌, ◌≡◌, true, false, some, List, [], ◌∷◌, ◌==◌, nat_eq, length, is_some, arith, Bool-cases,
}
use dnsdist_edge.Text.{Text, text_eq, text_beq_iff}
use dnsdist_edge.Text.Laws.{text_beq_refl}
use dnsdist_edge.Map.{Map, get, put, remove, get-put, get-remove}
use dnsdist_edge.Panel.SmartDist.{
  SmartDistAssignEvent, SmartDistEntry, SmartDistProfileStore, max_history, is_assigned, assign_all,
}

-- Every node that has a profile has one that exists.
abbrev pub IsReferenced : Map Text Text → Map Text SmartDistEntry → Type 0
IsReferenced assign profiles =
    (node pid : Text) → get assign node ≡ some pid → is_some (get profiles pid) ≡ true

-- The histories are bounded.
abbrev pub IsBounded : Map Text (List SmartDistAssignEvent) → Type 0
IsBounded history =
    (node : Text) (h : List SmartDistAssignEvent)
    → get history node ≡ some h
    → length h ≤ max_history

abbrev pub IsWellFormed : SmartDistProfileStore → Type 0
IsWellFormed s = IsReferenced s.assign s.profiles × IsBounded s.history

pub put-IsReferenced :
    (assign : Map Text Text) (profiles : Map Text SmartDistEntry) (node id : Text)
    → is_some (get profiles id) ≡ true
    → IsReferenced assign profiles
    → IsReferenced (put assign node id) profiles
put-IsReferenced assign profiles node id there h other pid e =
    ground (arith, get-put assign node other id, h other pid)

pub remove-IsReferenced :
    (assign : Map Text Text) (profiles : Map Text SmartDistEntry) (node : Text)
    → IsReferenced assign profiles
    → IsReferenced (remove assign node) profiles
remove-IsReferenced assign profiles node h other pid e =
    ground (arith, get-remove assign node other, h other pid)

pub assign_all-IsReferenced :
    (assign : Map Text Text) (profiles : Map Text SmartDistEntry) (nodes : List Text) (id : Text)
    → is_some (get profiles id) ≡ true
    → IsReferenced assign profiles
    → IsReferenced (assign_all assign nodes id) profiles
unfolding assign_all
assign_all-IsReferenced assign profiles [] id there h = h
assign_all-IsReferenced assign profiles (node ∷ nodes) id there h =
    assign_all-IsReferenced (put assign node id) profiles nodes id there
      (put-IsReferenced assign profiles node id there h)

pub profiles-IsReferenced :
    (assign : Map Text Text) (profiles : Map Text SmartDistEntry) (id : Text) (e : SmartDistEntry)
    → IsReferenced assign profiles
    → IsReferenced assign (put profiles id e)
profiles-IsReferenced assign profiles id e h node pid known =
    ground (arith, get-put profiles id pid e, h node pid known)

pub get-is_assigned :
    (assign : Map Text Text) (node id : Text)
    → get assign node ≡ some id
    → is_assigned assign id ≡ true
unfolding get is_assigned
get-is_assigned [] node id h = absurd (ground arith)
get-is_assigned ((other, pid) ∷ assign) node id h =
    ground (arith, Bool-cases (other == node), text_beq_refl id, get-is_assigned assign node id)

pub unassigned-IsReferenced :
    (assign : Map Text Text) (profiles : Map Text SmartDistEntry) (id : Text)
    → is_assigned assign id ≡ false
    → IsReferenced assign profiles
    → IsReferenced assign (remove profiles id)
unassigned-IsReferenced assign profiles id free h node pid known = ground (
  arith,
  get-remove profiles id pid,
  text_beq_iff id pid,
  h node pid known,
  get-is_assigned assign node pid known,
)
