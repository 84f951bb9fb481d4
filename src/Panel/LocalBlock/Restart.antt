-- ===== src/Panel/LocalBlock/Restart.antt =====
-- panel/localblock.go: `newLocalBlockStore` on the file that `writeLocked` wrote.
use dnsdist_edge.Prelude.{
  ℕ, ◌≡◌, refl, sym, ◌∙◌, Bool, true, false, not, ◌&&◌, ◌||◌, some, List, [], ◌∷◌, ◌==◌, nat_eq,
  arith, Bool-cases, Option-cases, inl, inr,
}
use dnsdist_edge.Text.{Text, text_eq, text_beq_iff, is_space, trim_left, trim_right, trim_space}
use dnsdist_edge.Text.Laws.{text_beq_refl}
use dnsdist_edge.Text.Sort.{mem, set_insert, mem-set_insert, mem-sort}
use dnsdist_edge.Panel.LocalBlock.{
  LocalBlockStore, is_alnum, label_rest, is_label, backwards, valid_labels, insert_all, read_lines,
  new_local_block_store, normalize_local_block_domain, normalize_all, store_set, add, without,
  remove_domain,
}
use dnsdist_edge.Panel.LocalBlock.Changes.{
  Change, adding, removing, attempt, mem-insert_all, mem-without,
}

unfoldable pub no_space : Text → Bool
no_space [] = true
no_space (c ∷ s) = not (is_space c) && no_space s

label_rest-no_space : (s : Text) → label_rest s ≡ true → no_space s ≡ true
unfolding label_rest no_space is_alnum is_space
label_rest-no_space [] h = refl
label_rest-no_space (c ∷ []) h = ground arith
label_rest-no_space (c ∷ d ∷ s) h = ground (arith, label_rest-no_space (d ∷ s))

is_label-no_space : (s : Text) → is_label s ≡ true → no_space s ≡ true
unfolding is_label no_space is_alnum is_space
is_label-no_space [] h = refl
is_label-no_space (c ∷ s) h = ground (arith, label_rest-no_space s)

no_space-backwards :
    (label s : Text) → no_space (backwards label s) ≡ (no_space label && no_space s)
unfolding backwards no_space
no_space-backwards [] s = refl
no_space-backwards (c ∷ label) s =
    ground (
      arith,
      no_space-backwards label (c ∷ s),
      Bool-cases (is_space c),
      Bool-cases (no_space label),
    )

label-no_space : (label : Text) → is_label (backwards label []) ≡ true → no_space label ≡ true
unfolding no_space
label-no_space label h = ground (
  arith,
  no_space-backwards label [],
  is_label-no_space (backwards label []),
  Bool-cases (no_space label),
)

dot_no_space : (c : ℕ) → (c == b'.') ≡ true → is_space c ≡ false
unfolding is_space
dot_no_space c h = ground arith

valid_labels-no_space :
    (label s : Text) → valid_labels label s ≡ true → (no_space s ≡ true) × (no_space label ≡ true)
unfolding valid_labels no_space
valid_labels-no_space label [] h = (refl, label-no_space label h)
valid_labels-no_space label (c ∷ s) h = elim (Bool-cases (c == b'.')) [
  | inl dot ↦
      let (rest, nothing) = valid_labels-no_space [] s (ground arith) in
      (ground (arith, dot_no_space c dot), label-no_space label (ground arith))
  | inr more ↦
      let (rest, here) = valid_labels-no_space (c ∷ label) s (ground arith) in
      (ground arith, ground arith)
]

trim_left-no_space : (s : Text) → no_space s ≡ true → trim_left s ≡ s
unfolding no_space trim_left
trim_left-no_space [] h = refl
trim_left-no_space (c ∷ s) h = ground arith

trim_right-no_space : (s : Text) → no_space s ≡ true → trim_right s ≡ s
unfolding no_space trim_right
trim_right-no_space [] h = refl
trim_right-no_space (c ∷ s) h = ground (arith, trim_right-no_space s)

-- A line that is read back as it is.
abbrev IsLine : Text → Type 0
IsLine d = (trim_space d ≡ d) × ((d == []) ≡ false)

normalize-IsLine :
    (value : Text) {d : Text} → normalize_local_block_domain value ≡ some d → IsLine d
unfolding normalize_local_block_domain trim_space
normalize-IsLine value {d} h =
    let v : valid_labels [] d ≡ true = ground arith in
    let (clean, nothing) = valid_labels-no_space [] d v in
    (rw (trim_left-no_space d clean) (trim_right-no_space d clean), ground arith)

-- Every domain of the set is read back as it is.
abbrev pub IsReadable : List Text → Type 0
IsReadable set = (x : Text) → mem x set ≡ true → (trim_space x ≡ x) × ((x == []) ≡ false)

normalize_all-IsReadable :
    (input : List Text) {ds : List Text} → normalize_all input ≡ some ds → IsReadable ds
unfolding normalize_all mem
normalize_all-IsReadable [] {ds} h x m = absurd (ground arith)
normalize_all-IsReadable (raw ∷ input) {ds} h x m =
    elim (Option-cases (normalize_local_block_domain raw)) [
      | inl bad ↦ absurd (ground arith)
      | inr (d, one) ↦ elim (Option-cases (normalize_all input)) [
        | inl bad ↦ absurd (ground arith)
        | inr (rest, all) ↦ ground (
          arith,
          text_beq_iff x d,
          normalize-IsLine raw {d = d} one,
          normalize_all-IsReadable input {ds = rest} all x,
        )
      ]
    ]

mem-read_lines :
    (z : Text) (lines set : List Text)
    → IsReadable lines
    → mem z (read_lines lines set) ≡ (mem z lines || mem z set)
unfolding read_lines mem
mem-read_lines z [] set h = refl
mem-read_lines z (x ∷ lines) set h =
    let (fixed, shown) = h x (ground (arith, text_beq_refl x)) in
    let later =
      mem-read_lines z lines (set_insert x set)
        (λ y m. h y (ground (arith, Bool-cases (y == x)))) in
    rw (fixed, shown)
      (later
        ∙ ground (arith, mem-set_insert z x set, Bool-cases (z == x), Bool-cases (mem z lines)))

unfoldable pub change : LocalBlockStore → Change → LocalBlockStore
change s c = (attempt s c).0

unfoldable pub change_all : LocalBlockStore → List Change → LocalBlockStore
change_all s [] = s
change_all s (c ∷ changes) = change_all (change s c) changes

-- In step: the domains can be read back, and the file lists exactly them.
abbrev pub IsInStep : LocalBlockStore → Type 0
IsInStep s = IsReadable s.domains × ((z : Text) → mem z s.lines ≡ mem z s.domains)

store_set-IsInStep :
    (written : Bool) (s : LocalBlockStore) (next : List Text)
    → IsReadable next
    → IsInStep s
    → IsInStep (store_set written s next).0
unfolding store_set
store_set-IsInStep true s next h k = (h, λ z. mem-sort z next)
store_set-IsInStep false s next h k = k

add-IsInStep :
    (written : Bool) (s : LocalBlockStore) (input : List Text)
    → IsInStep s
    → IsInStep (add written s input).0
unfolding add
add-IsInStep written s input (r, same) = elim (Option-cases (normalize_all input)) [
  | inl bad ↦ rw (bad, add) (r, same)
  | inr (ds, valid) ↦
      rw (valid, add)
        (store_set-IsInStep written s (insert_all ds s.domains)
          (λ x m. ground (
            arith,
            mem-insert_all x ds s.domains,
            normalize_all-IsReadable input {ds = ds} valid x,
            r x,
          ))
          (r, same))
]

remove_domain-IsInStep :
    (written : Bool) (s : LocalBlockStore) (domain : Text)
    → IsInStep s
    → IsInStep (remove_domain written s domain).0
unfolding remove_domain
remove_domain-IsInStep written s domain (r, same) =
    elim (Option-cases (normalize_local_block_domain domain)) [
      | inl bad ↦ rw (bad, remove_domain) (r, same)
      | inr (d, valid) ↦
          rw (valid, remove_domain)
            (store_set-IsInStep written s (without d s.domains)
              (λ x m. ground (arith, mem-without x d s.domains, r x)) (r, same))
    ]

change-IsInStep : (s : LocalBlockStore) (c : Change) → IsInStep s → IsInStep (change s c)
unfolding change attempt
change-IsInStep s (adding written input) (r, same) = add-IsInStep written s input (r, same)
change-IsInStep s (removing written domain) (r, same) =
    remove_domain-IsInStep written s domain (r, same)

change_all-IsInStep :
    (s : LocalBlockStore) (changes : List Change) → IsInStep s → IsInStep (change_all s changes)
unfolding change_all
change_all-IsInStep s [] h = h
change_all-IsInStep s (c ∷ changes) h =
    change_all-IsInStep (change s c) changes (change-IsInStep s c h)

-- After any additions and removals, whether they succeed or fail, a store that is started from the file
-- holds exactly the domains that the running store holds, if the list was empty to begin with.
pub restart-change_all :
    (changes : List Change) (z : Text)
    → mem z
        (new_local_block_store
          (change_all (record { domains = []; lines = [] }) changes).lines).domains
      ≡ mem z (change_all (record { domains = []; lines = [] }) changes).domains
unfolding new_local_block_store mem
restart-change_all changes z =
    let (r, same) =
      change_all-IsInStep (record { domains = []; lines = [] }) changes
        ((λ x m. absurd (ground arith)), λ y. refl) in
    let s = change_all (record { domains = []; lines = [] }) changes in
    ground (arith, mem-read_lines z s.lines [] (λ x m. r x (sym (same x) ∙ m)), same z)
