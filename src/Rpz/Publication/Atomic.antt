-- ===== src/Rpz/Publication/Atomic.antt =====
-- What a publication leaves on disk, whether it succeeds or not.
use dnsdist_edge.Prelude.{
  ◌≡◌, refl, true, Option, some, List, arith, length, Result, ok, err, Result-cases, Bool-cases,
  inl, inr,
}
use dnsdist_edge.Text.{Text}
use dnsdist_edge.Rpz.Types.{Dns, Delta, Error}
use dnsdist_edge.Rpz.Publication.{
  Cdb, BuildResult, Disk, Io, compile_raw, compile_domains_to_cdb, staged_lines, rename_staged,
  publish_lines, publish_delta,
}

-- The raw file holds `lines`, and the CDB and the manifest are what these lines compile to.
pub record IsPublished (dns : Dns) (digest : Cdb → Text) (disk : Disk) (lines : List Text)
    (result : BuildResult) : Type 0 where
  pub cdb : Cdb
  pub compiled : compile_raw dns (some lines) ≡ ok cdb
  pub on_disk : disk ≡ record { raw = some lines; cdb = some cdb; manifest = some result }
  pub described : result ≡ record { total_entries = length cdb; sha256 = digest cdb }

module _ (dns : Dns) (digest : Cdb → Text) (io : Io) where
  pub compiled-result :
      (raw : Option (List Text)) {cdb : Cdb} {result : BuildResult}
      → compile_domains_to_cdb dns digest io.stage_cdb raw ≡ ok (cdb, result)
      → (compile_raw dns raw ≡ ok cdb)
        × (result ≡ record { total_entries = length cdb; sha256 = digest cdb })
  unfolding compile_domains_to_cdb
  compiled-result raw h = elim (Result-cases (compile_raw dns raw)) [
    | inl (cdb, e) ↦ ground (arith, Bool-cases io.stage_cdb)
    | inr (e, p) ↦ absurd (ground arith)
  ]

  rename_staged-ok :
      (disk : Disk) (lines : List Text) (cdb : Cdb) (result : BuildResult) {after : Disk}
      {r : BuildResult}
      → rename_staged io disk lines cdb result ≡ (after, ok r)
      → (after ≡ record { raw = some lines; cdb = some cdb; manifest = some result }) × (r ≡ result)
  unfolding rename_staged
  rename_staged-ok disk lines cdb result h =
      ground
        (arith, Bool-cases io.rename_raw, Bool-cases io.rename_cdb, Bool-cases io.rename_manifest)

  publish_lines-ok :
      (disk : Disk) (staged : Result Error (List Text)) {after : Disk} {result : BuildResult}
      → publish_lines dns digest io disk staged ≡ (after, ok result)
      → (lines : List Text) × (staged ≡ ok lines) × IsPublished dns digest after lines result
  unfolding publish_lines
  publish_lines-ok disk (err e) h = absurd (ground arith)
  publish_lines-ok disk (ok lines) {after} {result} h =
      elim (Result-cases (compile_domains_to_cdb dns digest io.stage_cdb (some lines))) [
        | inl ((cdb, built), e) ↦
            let (after_is, same) =
              rename_staged-ok disk lines cdb built {after = after} {r = result} (ground arith) in
            let (compiled, described) = compiled-result (some lines) e in
            (lines, refl, record { cdb = cdb; compiled = compiled; on_disk = cc; described = cc })
        | inr (e, p) ↦ absurd (ground arith)
      ]

  -- A successful publication leaves the staged lines as the raw file, and the CDB and the manifest that
  -- they compile to.
  pub publish_delta-IsPublished :
      (disk : Disk) (delta : Delta) {after : Disk} {result : BuildResult}
      → publish_delta dns digest io disk delta ≡ (after, ok result)
      → (lines : List Text) × (staged_lines dns io.stage_raw disk.raw delta delta.staged_raw
          ≡ ok lines)
        × IsPublished dns digest after lines result
  unfolding publish_delta
  publish_delta-IsPublished disk delta h =
      publish_lines-ok disk (staged_lines dns io.stage_raw disk.raw delta delta.staged_raw) h

  publish_lines-err :
      (disk : Disk) (staged : Result Error (List Text)) {after : Disk} {e : Error}
      → io.rename_cdb ≡ true
      → io.rename_manifest ≡ true
      → publish_lines dns digest io disk staged ≡ (after, err e)
      → after ≡ disk
  unfolding publish_lines rename_staged
  publish_lines-err disk (err x) r m h = ground arith
  publish_lines-err disk (ok lines) r m h =
      elim (Result-cases (compile_domains_to_cdb dns digest io.stage_cdb (some lines))) [
        | inl ((cdb, built), e) ↦ ground (arith, Bool-cases io.rename_raw)
        | inr (e, p) ↦ ground arith
      ]

  -- A publication that fails at the first rename or before it leaves the disk as it was.
  pub publish_delta-atomic :
      (disk : Disk) (delta : Delta) {after : Disk} {e : Error}
      → io.rename_cdb ≡ true
      → io.rename_manifest ≡ true
      → publish_delta dns digest io disk delta ≡ (after, err e)
      → after ≡ disk
  unfolding publish_delta
  publish_delta-atomic disk delta r m h =
      publish_lines-err disk (staged_lines dns io.stage_raw disk.raw delta delta.staged_raw) r m h
