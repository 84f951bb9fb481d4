-- ===== src/Panel/LocalBlock/Changes.antt =====
-- `Add` and `Remove` of panel/localblock.go: what the list holds after them.
use dnsdist_edge.Prelude.{
  ◌⊎◌, ◌≡◌, refl, Bool, false, is_some, not, ◌&&◌, ◌||◌, some, List, [], ◌∷◌, ◌==◌, Result, ok, err,
  arith, Bool-cases, Option-cases,
}
use dnsdist_edge.Text.{Text, text_eq, text_beq_iff}
use dnsdist_edge.Text.Sort.{mem, set_insert, mem-set_insert, mem-sort}
use dnsdist_edge.Panel.LocalBlock.{
  LocalBlockError, LocalBlockStore, insert_all, normalize_local_block_domain, normalize_all,
  store_set, add, without, remove_domain, list_domains,
}

-- A change of the list, with the outcome of its write.
pub data Change : Type 0 where
  adding : Bool → List Text → Change
  removing : Bool → Text → Change

unfoldable pub attempt : LocalBlockStore → Change → LocalBlockStore × Result LocalBlockError Unit
attempt s (adding written input) = add written s input
attempt s (removing written domain) = remove_domain written s domain

-- Whether every domain of a change is one.
abbrev pub has_domains : Change → Bool
has_domains (adding written input) = is_some (normalize_all input)
has_domains (removing written domain) = is_some (normalize_local_block_domain domain)

abbrev pub is_written : Change → Bool
is_written (adding written input) = written
is_written (removing written domain) = written

-- An addition or a removal that fails leaves the list and its file as they were; it says that its input is
-- invalid only if one of its domains is, and that the write failed only if it did.
pub attempt-err :
    (s : LocalBlockStore) (c : Change) {after : LocalBlockStore} {e : LocalBlockError}
    → attempt s c ≡ (after, err e)
    → (after ≡ s)
      × (((e ≡ LocalBlockError.invalid) × (has_domains c ≡ false))
          ⊎ ((e ≡ LocalBlockError.write_failed) × (is_written c ≡ false)))
unfolding attempt add remove_domain store_set
attempt-err s (adding written input) h =
    ground (arith, Option-cases (normalize_all input), Bool-cases written)
attempt-err s (removing written domain) h =
    ground (arith, Option-cases (normalize_local_block_domain domain), Bool-cases written)

pub mem-insert_all :
    (z : Text) (ds set : List Text) → mem z (insert_all ds set) ≡ (mem z ds || mem z set)
unfolding insert_all mem
mem-insert_all z [] set = refl
mem-insert_all z (d ∷ ds) set =
    ground (arith, mem-insert_all z ds (set_insert d set), mem-set_insert z d set)

pub mem-without :
    (z d : Text) (set : List Text) → mem z (without d set) ≡ (not (z == d) && mem z set)
unfolding without mem
mem-without z d [] = ground arith
mem-without z d (x ∷ set) =
    ground (arith, mem-without z d set, text_beq_iff x d, text_beq_iff z x, text_beq_iff z d)

-- After an addition the list holds exactly what it held and the domains that were given, normalised.
pub mem-add :
    (written : Bool) (s : LocalBlockStore) (input ds : List Text) {after : LocalBlockStore}
    → normalize_all input ≡ some ds
    → add written s input ≡ (after, ok tt)
    → (z : Text) → mem z (list_domains after) ≡ (mem z ds || mem z s.domains)
unfolding add store_set list_domains
mem-add written s input ds {after} valid h z =
    ground (
      arith,
      Bool-cases written,
      mem-sort z (insert_all ds s.domains),
      mem-insert_all z ds s.domains,
    )

-- After a removal the list holds exactly what it held less the domain.
pub mem-remove_domain :
    (written : Bool) (s : LocalBlockStore) (domain d : Text) {after : LocalBlockStore}
    → normalize_local_block_domain domain ≡ some d
    → remove_domain written s domain ≡ (after, ok tt)
    → (z : Text) → mem z (list_domains after) ≡ (not (z == d) && mem z s.domains)
unfolding remove_domain store_set list_domains
mem-remove_domain written s domain d {after} valid h z =
    ground (arith, Bool-cases written, mem-sort z (without d s.domains), mem-without z d s.domains)
