-- ===== src/Rpz/Publication.antt =====
-- tools/rpz-master/builder.go: compiling the raw file to a CDB and publishing a delta. `Disk` is what is
-- on disk; the outcomes of the file operations that can fail come as an argument, and the digest of a CDB
-- file is the parameter `digest`.
pub mod Atomic
use dnsdist_edge.Prelude.{
  ℕ, suc, ◌+◌, ◌*◌, ◌%◌, Bool, true, false, not, ◌&&◌, Option, none, some, List, [], ◌∷◌, ◌++◌,
  nat_eq, ◌==◌, leb, length, keep_last, Result, ok, err, ◌>>=◌, if◌then◌else◌,
}
use dnsdist_edge.Text.{Text, text_eq, trim_space}
use dnsdist_edge.Rpz.Serial.{u32_mod, serial_greater}
use dnsdist_edge.Rpz.Types.{Dns, Delta, State, Error}
use dnsdist_edge.Rpz.Domain.{dot, normalize_policy_domain}
use dnsdist_edge.Rpz.Delta.{max_line, is_skipped, apply_delta_to_file}
use dnsdist_edge.Rpz.Sync.{Envelope, sync_ixfr}

-- The keys of a CDB, in the order in which they were put.
abbrev pub Cdb : Type 0
Cdb = List (List ℕ)

pub record BuildResult : Type 0 where
  pub total_entries : ℕ
  pub sha256 : Text

pub record Disk : Type 0 where
  pub raw : Option (List Text)
  pub cdb : Option Cdb
  pub manifest : Option BuildResult

-- Which file operations succeed: writing the staged raw file, staging the CDB with its manifest, the
-- three renames of PublishDelta in their order (the last two are also those of CompileDomainsToCDB where
-- it compiles in place), and saving the state.
pub record Io : Type 0 where
  pub stage_raw : Bool
  pub stage_cdb : Bool
  pub rename_raw : Bool
  pub rename_cdb : Bool
  pub rename_manifest : Bool
  pub save_state : Bool

unfoldable pub packed : Option (List ℕ) → Result Error (List ℕ)
packed none = err Error.pack_failed
packed (some key) = ok key

-- One line of the loop of CompileDomainsToCDB: the keys it puts.
unfoldable pub compile_line : Dns → Text → Result Error Cdb
compile_line dns text =
    if leb max_line (length text)
    then err Error.line_too_long
    else if is_skipped (trim_space text)
    then ok []
    else do
      domain ← normalize_policy_domain dns (trim_space text)
      key ← packed (dns.pack_domain_name (domain ++ dot))
      ok (key ∷ [])

unfoldable pub compile_lines : Dns → List Text → Result Error Cdb
compile_lines dns [] = ok []
compile_lines dns (text ∷ lines) = do
  here ← compile_line dns text
  rest ← compile_lines dns lines
  ok (here ++ rest)

unfoldable pub compile_raw : Dns → Option (List Text) → Result Error Cdb
compile_raw dns none = err Error.no_raw_file
compile_raw dns (some lines) = compile_lines dns lines

-- CompileDomainsToCDB up to its renames, which its callers do.
unfoldable pub compile_domains_to_cdb :
    Dns → (Cdb → Text) → Bool → Option (List Text) → Result Error (Cdb × BuildResult)
compile_domains_to_cdb dns digest written raw = do
  cdb ← compile_raw dns raw
  if written
      then ok (cdb, record { total_entries = length cdb; sha256 = digest cdb })
      else err Error.io_failed

-- The staged raw file: the one that the transfer wrote, or the current one with the delta applied.
unfoldable pub staged_lines :
    Dns → Bool → Option (List Text) → Delta → Option (List Text) → Result Error (List Text)
staged_lines dns written raw delta none = apply_delta_to_file dns written raw (some delta)
staged_lines dns written raw delta (some lines) =
    if delta.full then ok lines else apply_delta_to_file dns written raw (some delta)

-- The renames of PublishDelta; a failure leaves what was renamed before it.
unfoldable pub rename_staged :
    Io → Disk → List Text → Cdb → BuildResult → Disk × Result Error BuildResult
rename_staged io disk lines cdb result =
    if not io.rename_raw
    then (disk, err Error.io_failed)
    else if not io.rename_cdb
    then (record disk { raw = some lines }, err Error.io_failed)
    else if not io.rename_manifest
    then (record disk { raw = some lines; cdb = some cdb }, err Error.io_failed)
    else (record { raw = some lines; cdb = some cdb; manifest = some result }, ok result)

-- After the stage: compile, then rename.
unfoldable pub publish_lines :
    Dns → (Cdb → Text) → Io → Disk → Result Error (List Text) → Disk × Result Error BuildResult
publish_lines dns digest io disk (err e) = (disk, err e)
publish_lines dns digest io disk (ok lines) =
    elim (compile_domains_to_cdb dns digest io.stage_cdb (some lines)) [
      | err e ↦ (disk, err e)
      | ok (cdb, result) ↦ rename_staged io disk lines cdb result
    ]

-- PublishDelta
unfoldable pub publish_delta :
    Dns → (Cdb → Text) → Io → Disk → Delta → Disk × Result Error BuildResult
publish_delta dns digest io disk delta =
    publish_lines dns digest io disk (staged_lines dns io.stage_raw disk.raw delta delta.staged_raw)
