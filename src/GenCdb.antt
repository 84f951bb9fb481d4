-- ===== src/GenCdb.antt =====
-- tools/gen-cdb-go/main.go: the command line generator of a CDB. Standard input is the list of its lines, or
-- none if reading it fails; the CDB is the list of its entries. Creating, writing and closing the file work
-- or not, which comes as arguments; a write that fails leaves the file without an index.
pub mod Outcome
use dnsdist_edge.Prelude.{
  ℕ, suc, ◌+◌, Bool, true, false, not, ◌&&◌, ◌||◌, Option, none, some, List, [], ◌∷◌, ◌++◌, ◌==◌,
  nat_eq, leb, ltb, length, if◌then◌else◌,
}
use dnsdist_edge.Text.{Text, text_eq, codes, trim_space, lower, has_prefix}
use dnsdist_edge.Rpz.Types.{Dns}
use dnsdist_edge.Panel.Cluster.Address.{split}
use dnsdist_edge.Panel.Builder.{trim_prefix}

abbrev pub max_name_len : ℕ
max_name_len = 253

abbrev pub max_label_len : ℕ
max_label_len = 63

-- strings.TrimRight(s, ".")
unfoldable pub trim_dots : Text → Text
trim_dots [] = []
trim_dots (c ∷ s) = let r = trim_dots s in if r == [] && c == b'.' then [] else c ∷ r

unfoldable pub normalize : Text → Text
normalize domain = trim_dots (lower (trim_space domain))

unfoldable pub valid_labels : List Text → Bool
valid_labels [] = true
valid_labels (label ∷ labels) =
    not (label == []) && leb (length label) max_label_len && valid_labels labels

-- The checks that both formats share, on a normalised name.
unfoldable pub is_valid : Text → Bool
is_valid d = not (d == []) && leb (length d) max_name_len && valid_labels (split b'.' d)

-- wireName
unfoldable pub wire_name : Dns → Text → Option (List ℕ)
wire_name dns domain =
    let d = normalize domain in if is_valid d then dns.pack_domain_name (d ++ codes ".") else none

-- keyFor
unfoldable pub key_for : Dns → Text → Bool → Option (List ℕ)
key_for dns domain wire =
    let d = normalize domain in
    if wire then wire_name dns domain else if is_valid d then some d else none

pub record Options : Type 0 where
  pub value : Text
  pub wire : Bool
  pub out : Text
  pub domains : List Text

-- What the arguments ask for: the help text, a value that is missing, or a run.
pub data Parsed : Type 0 where
  help missing_value : Parsed
  options : Options → Parsed

-- The loop over the arguments; `awaits` is set after --value.
unfoldable pub parse_args : Bool → Options → List Text → Parsed
parse_args awaits o [] = if awaits then missing_value else options o
parse_args awaits o (a ∷ args) =
    let with_value = parse_args false (record o { value = a }) args in
    let next_value = parse_args true o args in
    let inline = parse_args false (record o { value = trim_prefix a (codes "--value=") }) args in
    let plain = parse_args false (record o { wire = false }) args in
    let file = parse_args false (record o { out = a }) args in
    let domain = parse_args false (record o { domains = o.domains ++ a ∷ [] }) args in
    if awaits
    then with_value
    else if a == codes "-h" || a == codes "--help"
    then help
    else if a == codes "--value"
    then next_value
    else if has_prefix a (codes "--value=")
    then inline
    else if a == codes "--no-wire"
    then plain
    else if o.out == []
    then file
    else domain

abbrev pub defaults : Options
defaults = record { value = codes "x"; wire = true; out = []; domains = [] }

-- The lines of standard input that are not blank.
unfoldable pub given_lines : List Text → List Text
given_lines [] = []
given_lines (text ∷ lines) =
    let line = trim_space text in
    let rest = given_lines lines in if line == [] then rest else line ∷ rest

-- What the output file holds: nothing yet, a file without an index, or a CDB.
pub data File : Type 0 where
  missing broken : File
  cdb : List (List ℕ × Text) → File

-- Which operations on the output file work; the writes are numbered from 0.
pub record FileIo : Type 0 where
  pub created : Bool
  pub put : ℕ → Bool
  pub closed : Bool

-- The loop over the domains, after the entries that were written; none where a write fails.
unfoldable pub put_all :
    Dns → FileIo → Bool → Text → List (List ℕ × Text) → List Text → Option (List (List ℕ × Text))
put_all dns io wire value written [] = some written
put_all dns io wire value written (d ∷ domains) = elim (key_for dns d wire) [
  | none ↦ put_all dns io wire value written domains
  | some key ↦ elim (io.put (length written)) [
    | false ↦ none
    | true ↦ put_all dns io wire value (written ++ (key, value) ∷ []) domains
  ]
]

-- After the loop; a run without a valid domain leaves a file with no entries.
unfoldable pub close_file : FileIo → Option (List (List ℕ × Text)) → File × ℕ
close_file io none = (broken, 1)
close_file io (some written) =
    if length written == 0
    then (if io.closed then cdb [] else broken, 2)
    else if io.closed
    then (cdb written, 0)
    else (broken, 1)

unfoldable pub generate : Dns → FileIo → Options → File → Option (List Text) → File × ℕ
generate dns io o file none = (file, 2)
generate dns io o file (some domains) =
    if io.created then close_file io (put_all dns io o.wire o.value [] domains) else (file, 1)

-- The domains of the arguments, or of standard input where there are none.
unfoldable pub chosen : Options → Option (List Text) → Option (List Text)
chosen o none = if ltb 0 (length o.domains) then some o.domains else none
chosen o (some lines) =
    if ltb 0 (length o.domains) then some o.domains else some (given_lines lines)

unfoldable pub run_parsed : Dns → FileIo → File → Option (List Text) → Parsed → File × ℕ
run_parsed dns io file stdin help = (file, 0)
run_parsed dns io file stdin missing_value = (file, 2)
run_parsed dns io file stdin (options o) =
    if o.out == [] then (file, 2) else generate dns io o file (chosen o stdin)

-- run: the output file after it and the exit code.
unfoldable pub run : Dns → FileIo → File → Option (List Text) → List Text → File × ℕ
run dns io file stdin [] = (file, 2)
run dns io file stdin (a ∷ args) =
    run_parsed dns io file stdin (parse_args false defaults (a ∷ args))
