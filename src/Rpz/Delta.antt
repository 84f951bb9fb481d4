-- ===== src/Rpz/Delta.antt =====
-- `ApplyDeltaToFile` of tools/rpz-master/slave_client.go. A file is the list of its lines. Creating,
-- writing, syncing, closing and renaming the replacement either all succeed or the old file stays:
-- `written` says which.
pub mod Laws
pub mod Replay
use dnsdist_edge.Prelude.{
  ℕ, Bool, true, false, not, ◌||◌, Option, none, some, List, [], ◌∷◌, ◌++◌, leb, length, ◌==◌,
  Result, ok, err, ◌>>=◌, if◌then◌else◌,
}
use dnsdist_edge.Text.{Text, text_eq, trim_space, has_prefix}
use dnsdist_edge.Text.Sort.{mem, sort, set_insert}
use dnsdist_edge.Rpz.Types.{Dns, Delta, Error}
use dnsdist_edge.Rpz.Domain.{normalize_policy_domain}

-- The longest token of the scanner: scanner.Buffer(_, 1024*1024).
abbrev pub max_line : ℕ
max_line = 1048576

unfoldable pub is_skipped : Text → Bool
is_skipped line = line == [] || has_prefix line (b'#' ∷ [])

-- The loops that fill `add` and `deleted`.
unfoldable pub clean_set : Dns → List Text → List Text → Result Error (List Text)
clean_set dns seen [] = ok seen
clean_set dns seen (value ∷ values) = do
  clean ← normalize_policy_domain dns value
  clean_set dns (set_insert clean seen) values

-- delete(add, clean)
unfoldable pub set_remove : Text → List Text → List Text
set_remove x [] = []
set_remove x (y ∷ ys) = let rest = set_remove x ys in if x == y then rest else y ∷ rest

-- One line of the old file: the lines written so far, and what is still to be added.
unfoldable pub apply_line :
    Dns → List Text → List Text → List Text → Text → Result Error (List Text × List Text)
apply_line dns deleted out add text =
    let line = trim_space text in
    if leb max_line (length text)
    then err Error.line_too_long
    else if is_skipped line
    then ok (out, add)
    else do
      clean ← normalize_policy_domain dns line
      if mem clean deleted then ok (out, add) else ok (out ++ clean ∷ [], set_remove clean add)

unfoldable pub apply_lines :
    Dns → List Text → List Text → List Text → List Text → Result Error (List Text × List Text)
apply_lines dns deleted out add [] = ok (out, add)
apply_lines dns deleted out add (line ∷ lines) = do
  (out', add') ← apply_line dns deleted out add line
  apply_lines dns deleted out' add' lines

-- The added domains that the old file did not have and that are not deleted.
unfoldable pub remaining : List Text → List Text → List Text
remaining deleted [] = []
remaining deleted (d ∷ add) =
    let rest = remaining deleted add in if mem d deleted then rest else d ∷ rest

unfoldable pub old_lines :
    Dns → Bool → List Text → List Text → Option (List Text) → Result Error (List Text × List Text)
old_lines dns true deleted add raw = ok ([], add)
old_lines dns false deleted add none = err Error.no_raw_file
old_lines dns false deleted add (some lines) = apply_lines dns deleted [] add lines

-- The contents of the file after a success.
unfoldable pub apply_delta_to_file :
    Dns → Bool → Option (List Text) → Option Delta → Result Error (List Text)
apply_delta_to_file dns written raw none = err Error.delta_required
apply_delta_to_file dns written raw (some delta) = do
  add ← clean_set dns [] delta.added
  deleted ← clean_set dns [] delta.deleted
  (out, add') ← old_lines dns delta.full deleted add raw
  if written then ok (out ++ sort (remaining deleted add')) else err Error.io_failed
