-- ===== src/Panel/Tests/Stores.antt =====
-- The theorems on the panel's stores at small stores.
use dnsdist_edge.Prelude.{
  ◌≡◌, refl, true, false, ◌||◌, none, some, List, [], ◌∷◌, ◌⊎◌, arith, is_some, if◌then◌else◌, ok,
  err,
}
use dnsdist_edge.Text.{
  Text, text_eq, text_beq, trim_space, trim_left, trim_right, is_space, trim_suffix, lower,
  lower_byte,
}
use dnsdist_edge.Text.Sort.{mem}
use dnsdist_edge.Map.{get, put, remove}
use dnsdist_edge.Panel.Profile.{
  Codec, every, is_id, is_id_byte, valid_dnsdist_section, valid_profile, checked,
  parse_smart_dist_profile,
}
use dnsdist_edge.Panel.SmartDist.{
  SmartDistError, SmartDistProfileStore, SmartDistEntry, put_profile, kept_if, restored,
  delete_profile, is_assigned, assign_many, assign_node, reassigned, profile_for_node, save_locked,
  raw_texts, persist_history, record_locked, bounded, history_of, prev_of,
}
use dnsdist_edge.Panel.SmartDist.{load}
use dnsdist_edge.Panel.SmartDist.Reload.{IsLoadable, profile_for_node-reload}
use dnsdist_edge.Panel.SmartDist.Integrity.{IsWellFormed}
use dnsdist_edge.Panel.SmartDist.Requests.{
  Request, put_request, delete_request, assign_request, perform, perform_all, empty_store,
  perform-IsWellFormed, perform-err, profile_for_node-assigned,
}
use dnsdist_edge.Panel.SmartDist.Rollback.{IsSame}
use dnsdist_edge.Panel.SmartDist.Assign.{assign_many-ok, delete_profile-safe}
use dnsdist_edge.Panel.LocalBlock.{
  LocalBlockError, LocalBlockStore, is_alnum, label_rest, is_label, backwards, valid_labels,
  normalize_local_block_domain, normalize_all, store_set, add, list_domains,
}
use dnsdist_edge.Panel.LocalBlock.{new_local_block_store}
use dnsdist_edge.Panel.LocalBlock.Restart.{change_all, restart-change_all}
use dnsdist_edge.Panel.LocalBlock.Changes.{
  Change, adding, removing, attempt, has_domains, attempt-err, mem-add,
}

-- "p", "n"
abbrev profile_id : Text
profile_id = b'p' ∷ []

abbrev node : Text
node = b'n' ∷ []

-- A text is the id of an empty profile of that name.
abbrev codec : Codec
codec = record {
  decode = λ t. some (record {
    id = t;
    name = t;
    smartdist = record { enabled = true; rules = [] };
    dnsdist = none;
  });
  marshal = λ p. p.id;
  is_addr4 = λ t. true;
  is_addr6 = λ t. true;
  is_prefix = λ t. true;
  is_addr_port = λ t. true;
  hex_digest = λ t. t;
}

abbrev entry : SmartDistEntry
entry = record { raw = profile_id; hash = profile_id }

abbrev store : SmartDistProfileStore
store = record empty_store { profiles = (profile_id, entry) ∷ [] }

store-IsWellFormed : IsWellFormed store
unfolding get
store-IsWellFormed = ((λ n p e. absurd (ground arith)), (λ n h e. absurd (ground arith)))

perform-IsWellFormed_example :
    IsWellFormed (perform codec store (assign_request true true 9 node profile_id)).0
perform-IsWellFormed_example =
    perform-IsWellFormed codec store (assign_request true true 9 node profile_id) store-IsWellFormed

unwritten :
    perform codec store (delete_request false profile_id) ≡ (store, err SmartDistError.storage)
unfolding perform delete_profile kept_if is_assigned restored get put remove text_beq
unwritten = refl

perform-err_example : IsSame store store
perform-err_example =
    perform-err codec store (delete_request false profile_id) {after = store}
      {e = SmartDistError.storage} unwritten

abbrev requests : List Request
requests = put_request true profile_id ∷ assign_request true true 9 node profile_id ∷ []

profile_for_node-assigned_example :
    (hash : Text) × (profile_for_node (perform_all codec empty_store requests) node
      ≡ some (profile_id, hash))
unfolding perform_all perform put_profile parse_smart_dist_profile checked valid_profile is_id every
    is_id_byte valid_dnsdist_section trim_space trim_left trim_right is_space kept_if save_locked
    raw_texts assign_node reassigned persist_history record_locked history_of bounded prev_of get
    put remove text_beq
profile_for_node-assigned_example = profile_for_node-assigned codec requests node profile_id refl

abbrev assigned : SmartDistProfileStore
assigned = (assign_many true false 9 store (node ∷ []) profile_id).0

assigned_ok : assign_many true false 9 store (node ∷ []) profile_id ≡ (assigned, ok tt)
unfolding assign_many get text_beq
assigned_ok = refl

assign_many-ok_example :
    (is_some (get store.profiles profile_id) ≡ true)
    × (assigned.profiles ≡ store.profiles)
    × ((n : Text)
        → get assigned.assign n
          ≡ (if mem n (node ∷ []) then some profile_id else get store.assign n))
assign_many-ok_example =
    assign_many-ok true false 9 store (node ∷ []) profile_id {after = assigned} assigned_ok

abbrev emptied : SmartDistProfileStore
emptied = (delete_profile true store profile_id).0

deleted_ok : delete_profile true store profile_id ≡ (emptied, ok tt)
unfolding delete_profile kept_if is_assigned get text_beq
deleted_ok = refl

delete_profile-safe_example : profile_for_node emptied node ≡ profile_for_node store node
delete_profile-safe_example =
    delete_profile-safe true store profile_id {after = emptied} deleted_ok node

-- The store with the node on the profile.
abbrev used_store : SmartDistProfileStore
used_store = record store { assign = (node, profile_id) ∷ [] }

used_store-IsLoadable : IsLoadable codec used_store
unfolding parse_smart_dist_profile checked valid_profile is_id every is_id_byte
    valid_dnsdist_section trim_space trim_left trim_right is_space text_beq get
used_store-IsLoadable = (((refl, refl), tt), (refl, tt))

profile_for_node-reload_example :
    profile_for_node (load codec (save_locked used_store).file) node
    ≡ profile_for_node used_store node
profile_for_node-reload_example =
    profile_for_node-reload codec used_store node used_store-IsLoadable

-- "b.id" and "A.ID"
abbrev listed : Text
listed = b'b' ∷ b'.' ∷ b'i' ∷ b'd' ∷ []

abbrev given : Text
given = b'A' ∷ b'.' ∷ b'I' ∷ b'D' ∷ []

abbrev normal : Text
normal = b'a' ∷ b'.' ∷ b'i' ∷ b'd' ∷ []

abbrev local_store : LocalBlockStore
local_store = record { domains = listed ∷ []; lines = listed ∷ [] }

attempt-err_example :
    (local_store ≡ local_store)
    × (((LocalBlockError.invalid ≡ LocalBlockError.invalid)
          × (has_domains (adding true (given ∷ (b'_' ∷ []) ∷ [])) ≡ false))
        ⊎ ((LocalBlockError.invalid ≡ LocalBlockError.write_failed) × (true ≡ false)))
unfolding attempt add normalize_all normalize_local_block_domain trim_space trim_left trim_right
    is_space trim_suffix lower lower_byte text_beq valid_labels backwards is_label label_rest
    is_alnum
attempt-err_example =
    attempt-err local_store (adding true (given ∷ (b'_' ∷ []) ∷ [])) {after = local_store}
      {e = LocalBlockError.invalid} refl

mem-add_example :
    mem normal (list_domains (add true local_store (given ∷ [])).0)
    ≡ (mem normal (normal ∷ []) || mem normal local_store.domains)
unfolding add store_set normalize_all normalize_local_block_domain trim_space trim_left trim_right
    is_space trim_suffix lower lower_byte text_beq valid_labels backwards is_label label_rest
    is_alnum
mem-add_example =
    mem-add true local_store (given ∷ []) (normal ∷ [])
      {after = (add true local_store (given ∷ [])).0} refl refl normal

abbrev changes : List Change
changes = adding true (given ∷ []) ∷ removing false given ∷ []

restart-change_all_example :
    mem normal
      (new_local_block_store
        (change_all (record { domains = []; lines = [] }) changes).lines).domains
    ≡ mem normal (change_all (record { domains = []; lines = [] }) changes).domains
restart-change_all_example = restart-change_all changes normal
