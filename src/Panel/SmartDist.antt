-- ===== src/Panel/SmartDist.antt =====
-- `SmartDistProfileStore` of panel/smartdist_profile.go: profiles, the assignment of nodes to them and
-- its history. A write of the store's file succeeds or not, which comes as an argument; `file` is what the
-- file holds. The store has a path.
pub mod Integrity
pub mod Rollback
pub mod Requests
pub mod Assign
pub mod Reload
use dnsdist_edge.Prelude.{
  ℕ, suc, ◌+◌, Bool, true, false, not, ◌&&◌, ◌||◌, Option, none, some, List, [], ◌∷◌, ◌++◌, ◌==◌,
  nat_eq, ltb, leb, length, keep_last, is_some, if◌then◌else◌, Result, ok, err, ◌>>=◌,
}
use dnsdist_edge.Text.{Text, text_eq}
use dnsdist_edge.Map.{Map, get, put, remove}
use dnsdist_edge.Panel.Profile.{Codec, parse_smart_dist_profile}

abbrev pub max_history : ℕ
max_history = 50

pub data SmartDistError : Type 0 where
  invalid not_found in_use storage : SmartDistError

pub record SmartDistAssignEvent : Type 0 where
  pub at : ℕ
  pub from : Text
  pub to : Text

pub record SmartDistEntry : Type 0 where
  pub raw : Text
  pub hash : Text

pub record SmartDistDiskFormat : Type 0 where
  pub profiles : Map Text Text
  pub assign : Map Text Text
  pub history : Map Text (List SmartDistAssignEvent)

pub record SmartDistProfileStore : Type 0 where
  pub profiles : Map Text SmartDistEntry
  pub assign : Map Text Text
  pub history : Map Text (List SmartDistAssignEvent)
  pub file : Option SmartDistDiskFormat

unfoldable pub raw_texts : Map Text SmartDistEntry → Map Text Text
raw_texts [] = []
raw_texts ((id, e) ∷ profiles) = (id, e.raw) ∷ raw_texts profiles

-- saveLocked
unfoldable pub save_locked : SmartDistProfileStore → SmartDistProfileStore
save_locked s = record s {
  file = some (record { profiles = raw_texts s.profiles; assign = s.assign; history = s.history });
}

-- The value that a key had is put back: m[k] = prev if there was one, delete(m, k) if not.
unfoldable pub restored : {A : Type 0} → Map Text A → Text → Option A → Map Text A
restored m k none = remove m k
restored m k (some prev) = put m k prev

-- What a change leaves: `after` if it is written, and if not `rolled_back`, which the code makes of it.
unfoldable pub kept_if :
    Bool
    → SmartDistProfileStore
    → SmartDistProfileStore
    → SmartDistProfileStore × Result SmartDistError Unit
kept_if written rolled_back after =
    if written then (save_locked after, ok tt) else (rolled_back, err SmartDistError.storage)

-- Put
unfoldable pub put_profile :
    Codec → Bool → SmartDistProfileStore → Text → SmartDistProfileStore × Result SmartDistError Unit
put_profile codec written s raw = elim (parse_smart_dist_profile codec raw) [
  | none ↦ (s, err SmartDistError.invalid)
  | some (id, canon) ↦
      let profiles = put s.profiles id (record { raw = canon; hash = codec.hex_digest canon }) in
      kept_if written (record s { profiles = restored profiles id (get s.profiles id) })
        (record s { profiles = profiles })
]

-- Get
unfoldable pub get_profile : SmartDistProfileStore → Text → Option SmartDistEntry
get_profile s id = get s.profiles id

-- Whether some node has the profile.
unfoldable pub is_assigned : Map Text Text → Text → Bool
is_assigned [] id = false
is_assigned ((node, pid) ∷ assign) id = pid == id || is_assigned assign id

-- Delete
unfoldable pub delete_profile :
    Bool → SmartDistProfileStore → Text → SmartDistProfileStore × Result SmartDistError Unit
delete_profile written s id =
    if not (is_some (get s.profiles id))
    then (s, err SmartDistError.not_found)
    else if is_assigned s.assign id
    then (s, err SmartDistError.in_use)
    else let profiles = remove s.profiles id in
      kept_if written (record s { profiles = restored profiles id (get s.profiles id) })
        (record s { profiles = profiles })

-- The last entries of a history.
unfoldable pub bounded : List SmartDistAssignEvent → List SmartDistAssignEvent
bounded h = keep_last max_history h

unfoldable pub history_of : SmartDistProfileStore → Text → List SmartDistAssignEvent
history_of s node = elim (get s.history node) [ none ↦ [] | some h ↦ h ]

-- recordLocked
unfoldable pub record_locked :
    ℕ → SmartDistProfileStore → Text → Text → Text → SmartDistProfileStore
record_locked now s node from to = if from == to then s else record s {
  history =
      put s.history node
        (bounded (history_of s node ++ record { at = now; from = from; to = to } ∷ []));
}

-- persistHistoryLocked: a failure is only logged.
unfoldable pub persist_history : Bool → SmartDistProfileStore → SmartDistProfileStore
persist_history written s = if written then save_locked s else s

-- The previous assignment, "" if there was none.
unfoldable pub prev_of : SmartDistProfileStore → Text → Text
prev_of s node = elim (get s.assign node) [ none ↦ [] | some pid ↦ pid ]

-- s.assign with the node on the profile, or released for "".
unfoldable pub reassigned : Map Text Text → Text → Text → Map Text Text
reassigned assign node id = if id == [] then remove assign node else put assign node id

-- Assign; the second outcome is that of writing the history.
unfoldable pub assign_node :
    Bool
    → Bool
    → ℕ
    → SmartDistProfileStore
    → Text
    → Text
    → SmartDistProfileStore × Result SmartDistError Unit
assign_node written logged now s node id =
    if not (id == []) && not (is_some (get s.profiles id))
    then (s, err SmartDistError.not_found)
    else if written
    then (
      persist_history logged (
          record_locked now (save_locked (record s { assign = reassigned s.assign node id })) node
            (prev_of s node) id),
      ok tt,
    )
    else (
      record s { assign = restored (reassigned s.assign node id) node (get s.assign node) },
      err SmartDistError.storage,
    )

unfoldable pub assign_all : Map Text Text → List Text → Text → Map Text Text
assign_all assign [] id = assign
assign_all assign (node ∷ nodes) id = assign_all (put assign node id) nodes id

-- prev of AssignMany: what the nodes had, none for "\x00".
unfoldable pub previous :
    Map Text Text → List Text → Map Text (Option Text) → Map Text (Option Text)
previous assign [] prev = prev
previous assign (node ∷ nodes) prev = previous assign nodes (put prev node (get assign node))

unfoldable pub restore_all : Map Text Text → Map Text (Option Text) → Map Text Text
restore_all assign [] = assign
restore_all assign ((node, before) ∷ prev) = restore_all (restored assign node before) prev

-- The events of AssignMany; `before` is the store before it.
unfoldable pub record_all :
    ℕ → SmartDistProfileStore → SmartDistProfileStore → List Text → Text → SmartDistProfileStore
record_all now before s [] id = s
record_all now before s (node ∷ nodes) id =
    record_all now before (record_locked now s node (prev_of before node) id) nodes id

-- AssignMany
unfoldable pub assign_many :
    Bool
    → Bool
    → ℕ
    → SmartDistProfileStore
    → List Text
    → Text
    → SmartDistProfileStore × Result SmartDistError Unit
assign_many written logged now s nodes id =
    if not (is_some (get s.profiles id))
    then (s, err SmartDistError.not_found)
    else if written
    then (
      persist_history logged (
          record_all now s (save_locked (record s { assign = assign_all s.assign nodes id })) nodes
            id),
      ok tt,
    )
    else (
      record s { assign = restore_all (assign_all s.assign nodes id) (previous s.assign nodes []) },
      err SmartDistError.storage,
    )

-- ProfileForNode
unfoldable pub profile_for_node : SmartDistProfileStore → Text → Option (Text × Text)
profile_for_node s node = elim (get s.assign node) [
  | none ↦ none
  | some pid ↦ elim (get s.profiles pid) [ none ↦ none | some e ↦ some (pid, e.hash) ]
]

-- load: a profile that is not valid under its id is skipped, an assignment to no profile dropped.
unfoldable pub load_profile :
    Codec → Text → Option (Text × Text) → Map Text SmartDistEntry → Map Text SmartDistEntry
load_profile codec id none rest = rest
load_profile codec id (some (found, canon)) rest =
    if found == id then (id, record { raw = canon; hash = codec.hex_digest canon }) ∷ rest else rest

unfoldable pub load_profiles : Codec → Map Text Text → Map Text SmartDistEntry
load_profiles codec [] = []
load_profiles codec ((id, raw) ∷ profiles) =
    load_profile codec id (parse_smart_dist_profile codec raw) (load_profiles codec profiles)

unfoldable pub load_assign : Map Text SmartDistEntry → Map Text Text → Map Text Text
load_assign profiles [] = []
load_assign profiles ((node, pid) ∷ assign) =
    let rest = load_assign profiles assign in
    if is_some (get profiles pid) then (node, pid) ∷ rest else rest

unfoldable pub load_history :
    Map Text (List SmartDistAssignEvent) → Map Text (List SmartDistAssignEvent)
load_history [] = []
load_history ((node, h) ∷ history) = (node, bounded h) ∷ load_history history

unfoldable pub load_format : Codec → SmartDistDiskFormat → SmartDistProfileStore
load_format codec d =
    let profiles = load_profiles codec d.profiles in
    record {
      profiles = profiles;
      assign = load_assign profiles d.assign;
      history = load_history d.history;
      file = some d;
    }

-- newSmartDistProfileStore
unfoldable pub load : Codec → Option SmartDistDiskFormat → SmartDistProfileStore
load codec none = record { profiles = []; assign = []; history = []; file = none }
load codec (some d) = load_format codec d
