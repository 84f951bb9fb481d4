-- ===== src/Panel/LocalBlock.antt =====
-- panel/localblock.go: the local block list of a node. The file is the list of its lines; `written` is
-- whether the atomic write succeeds.
pub mod Changes
pub mod Restart
use dnsdist_edge.Prelude.{
  ℕ, suc, Bool, true, false, not, ◌&&◌, ◌||◌, Option, none, some, List, [], ◌∷◌, ◌==◌, nat_eq, ltb,
  leb, length, if◌then◌else◌, Result, ok, err, ◌>>=◌,
}
use dnsdist_edge.Text.{Text, text_eq, trim_space, lower, trim_suffix}
use dnsdist_edge.Text.Sort.{mem, sort, set_insert}

-- [a-z0-9]
unfoldable pub is_alnum : ℕ → Bool
is_alnum c = (leb b'a' c && leb c b'z') || (leb b'0' c && leb c b'9')

-- The rest of a label after its first byte: ([a-z0-9-]{0,61}[a-z0-9])?
unfoldable pub label_rest : Text → Bool
label_rest [] = true
label_rest (c ∷ []) = is_alnum c
label_rest (c ∷ d ∷ s) = (is_alnum c || c == b'-') && label_rest (d ∷ s)

-- localBlockLabelRe: a label of at most 63 bytes that begins and ends with a letter or a digit.
unfoldable pub is_label : Text → Bool
is_label [] = false
is_label (c ∷ s) = is_alnum c && leb (length s) 62 && label_rest s

-- Every label of strings.Split(d, "."); `label` is what was read of the current one, backwards.
unfoldable pub backwards : Text → Text → Text
backwards [] s = s
backwards (c ∷ label) s = backwards label (c ∷ s)

unfoldable pub valid_labels : Text → Text → Bool
valid_labels label [] = is_label (backwards label [])
valid_labels label (c ∷ s) =
    let here = valid_labels [] s in
    let on = valid_labels (c ∷ label) s in
    if c == b'.' then is_label (backwards label []) && here else on

-- normalizeLocalBlockDomain
unfoldable pub normalize_local_block_domain : Text → Option Text
normalize_local_block_domain value =
    let d = trim_suffix (lower (trim_space value)) (b'.' ∷ []) in
    if d == [] || ltb 253 (length d) then none else if valid_labels [] d then some d else none

pub data LocalBlockError : Type 0 where
  invalid write_failed : LocalBlockError

-- The set of domains, and the lines of the file.
pub record LocalBlockStore : Type 0 where
  pub domains : List Text
  pub lines : List Text

unfoldable pub insert_all : List Text → List Text → List Text
insert_all [] set = set
insert_all (d ∷ ds) set = insert_all ds (set_insert d set)

-- The loop over the lines of newLocalBlockStore.
unfoldable pub read_lines : List Text → List Text → List Text
read_lines [] set = set
read_lines (text ∷ lines) set =
    let d = trim_space text in
    if d == [] then read_lines lines set else read_lines lines (set_insert d set)

-- newLocalBlockStore
unfoldable pub new_local_block_store : List Text → LocalBlockStore
new_local_block_store lines = record { domains = read_lines lines []; lines = lines }

-- The validation of Add.
unfoldable pub normalize_all : List Text → Option (List Text)
normalize_all [] = some []
normalize_all (raw ∷ input) = elim (normalize_local_block_domain raw) [
  | none ↦ none
  | some d ↦ elim (normalize_all input) [ none ↦ none | some ds ↦ some (d ∷ ds) ]
]

-- writeLocked with the assignment of the new set.
unfoldable pub store_set :
    Bool → LocalBlockStore → List Text → LocalBlockStore × Result LocalBlockError Unit
store_set written s next =
    if written
    then (record { domains = next; lines = sort next }, ok tt)
    else (s, err LocalBlockError.write_failed)

unfoldable pub add :
    Bool → LocalBlockStore → List Text → LocalBlockStore × Result LocalBlockError Unit
add written s input = elim (normalize_all input) [
  | none ↦ (s, err LocalBlockError.invalid)
  | some ds ↦ store_set written s (insert_all ds s.domains)
]

unfoldable pub without : Text → List Text → List Text
without d [] = []
without d (x ∷ set) = let rest = without d set in if x == d then rest else x ∷ rest

unfoldable pub remove_domain :
    Bool → LocalBlockStore → Text → LocalBlockStore × Result LocalBlockError Unit
remove_domain written s domain = elim (normalize_local_block_domain domain) [
  | none ↦ (s, err LocalBlockError.invalid)
  | some d ↦ store_set written s (without d s.domains)
]

unfoldable pub list_domains : LocalBlockStore → List Text
list_domains s = sort s.domains
