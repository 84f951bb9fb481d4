-- ===== src/Rpz/App/Outcome.antt =====
-- What the caller of `App.Sync` may conclude from its result.
use mathlib.Core.Path.{subst}
use dnsdist_edge.Prelude.{
  ℕ, ◌≤◌, ◌<◌, ◌≡◌, refl, sym, ap, ◌∙◌, true, false, Option, none, some, List, [], arith, ◌==◌,
  nat_eq, Result, ok, err, Result-cases, Bool-cases, inl, inr, ◌⊎◌,
}
use dnsdist_edge.Text.{Text, text_eq}
use dnsdist_edge.Rpz.Serial.{half_range, u32_mod, serial_greater}
use dnsdist_edge.Rpz.Types.{Dns, Delta, Error}
use dnsdist_edge.Rpz.Sync.{Envelope, sync_ixfr}
use dnsdist_edge.Rpz.Publication.{Cdb, BuildResult, Disk, Io, publish_delta}
use dnsdist_edge.Rpz.App.{
  Config, Upstream, World, synced_state, commit_sync, publish_sync, local_serial, sync_from, sync,
}
use dnsdist_edge.Rpz.Publication.Atomic.{
  IsPublished, publish_delta-IsPublished, publish_delta-atomic,
}

-- What an error leaves: the state, and where the later steps do not fail, the disk too.
abbrev pub IsUntouched : Io → World → World → Type 0
IsUntouched io w after =
    (after.state ≡ w.state)
    × (io.rename_cdb ≡ true
        → io.rename_manifest ≡ true
        → io.save_state ≡ true
        → after.disk ≡ w.disk)

-- A world that a sync moved to `serial`: the raw file, the CDB and the manifest belong together, and the
-- state describes them.
pub record IsSynced (dns : Dns) (digest : Cdb → Text) (serial : ℕ) (after : World) : Type 0 where
  pub lines : List Text
  pub result : BuildResult
  pub published : IsPublished dns digest after.disk lines result
  pub at_serial : after.state.serial ≡ serial
  pub counted : after.state.total_domains ≡ result.total_entries
  pub hashed : after.state.cdb_sha256 ≡ result.sha256

module _ (dns : Dns) (digest : Cdb → Text) (cfg : Config) (io : Io) (now : ℕ) where
  commit_sync-err :
      (w : World) (delta : Delta) (serial : ℕ) (outcome : Disk × Result Error BuildResult)
      {after : World} {e : Error}
      → ((disk : Disk) (x : Error)
          → outcome ≡ (disk, err x)
          → io.rename_cdb ≡ true
          → io.rename_manifest ≡ true
          → disk ≡ w.disk)
      → commit_sync io w delta serial now outcome ≡ (after, err e)
      → IsUntouched io w after
  unfolding commit_sync
  commit_sync-err w delta serial (disk, err x) atomic h =
      (cc, λ c m s. ap (λ p. p.0.disk) (sym h) ∙ atomic disk x refl c m)
  commit_sync-err w delta serial (disk, ok result) atomic h = elim (Bool-cases io.save_state) [
    | inl saved ↦ absurd (ground arith)
    | inr unsaved ↦ (ground arith, λ c m s. absurd (ground arith))
  ]

  publish_sync-err :
      (w : World) (serial : ℕ) (received : Result Error (Option Delta)) {after : World} (e : Error)
      → publish_sync dns digest io w serial now received ≡ (after, err e)
      → IsUntouched io w after
  unfolding publish_sync
  publish_sync-err w serial (err x) e h = (cc, λ c m s. cc)
  publish_sync-err w serial (ok none) e h = absurd (ground arith)
  publish_sync-err w serial (ok (some delta)) e h =
      commit_sync-err w delta serial (publish_delta dns digest io w.disk delta)
        (λ disk x e c m. publish_delta-atomic dns digest io w.disk delta c m e) h

  sync_from-err :
      (w : World) (envelopes : List Envelope) (answer : Result Error ℕ) {after : World} (e : Error)
      → sync_from dns digest cfg io w now envelopes answer ≡ (after, err e)
      → IsUntouched io w after
  unfolding sync_from
  sync_from-err w envelopes (err x) e h = (cc, λ c m s. cc)
  sync_from-err w envelopes (ok serial) {after} e h =
      elim (Bool-cases (serial_greater serial (local_serial w))) [
        | inr older ↦ absurd (ground arith)
        | inl newer ↦
            publish_sync-err w serial
              (sync_ixfr dns io.stage_raw cfg.zone cfg.max_transfer_records (local_serial w) serial
                now envelopes)
              {after = after} e (ground arith)
      ]

  -- A sync that reports an error leaves the state as it was. If neither a rename after the first nor the
  -- saving of the state failed, it leaves the disk as it was too.
  pub sync-err :
      (up : Upstream) (w : World) {after : World} (e : Error)
      → sync dns digest cfg io up now w ≡ (after, err e)
      → IsUntouched io w after
  unfolding sync
  sync-err up w {after} e h = elim (Bool-cases (cfg.upstream_master == [])) [
    | inl unset ↦ (ground arith, λ c m s. ground arith)
    | inr configured ↦ sync_from-err w up.envelopes up.serial {after = after} e (ground arith)
  ]

  commit_sync-ok :
      (w : World) (delta : Delta) (serial : ℕ) (outcome : Disk × Result Error BuildResult)
      {after : World}
      → ((disk : Disk) (result : BuildResult)
          → outcome ≡ (disk, ok result)
          → (lines : List Text) × IsPublished dns digest disk lines result)
      → commit_sync io w delta serial now outcome ≡ (after, ok tt)
      → IsSynced dns digest serial after
  unfolding commit_sync synced_state
  commit_sync-ok w delta serial (disk, err x) good h = absurd (ground arith)
  commit_sync-ok w delta serial (disk, ok result) {after} good h = elim (Bool-cases io.save_state) [
    | inr unsaved ↦ absurd (ground arith)
    | inl saved ↦
        let (lines, published) = good disk result refl in
        let whole : after.disk ≡ disk = ground arith in
        record {
          lines = lines;
          result = result;
          published = subst (λ d. IsPublished dns digest d lines result) (sym whole) published;
          at_serial = ground arith;
          counted = ground arith;
          hashed = ground arith;
        }
  ]

  publish_sync-ok :
      (w : World) (serial : ℕ) (received : Result Error (Option Delta)) {after : World}
      → publish_sync dns digest io w serial now received ≡ (after, ok tt)
      → (after ≡ w) ⊎ IsSynced dns digest serial after
  unfolding publish_sync
  publish_sync-ok w serial (err x) h = absurd (ground arith)
  publish_sync-ok w serial (ok none) h = inl cc
  publish_sync-ok w serial (ok (some delta)) h = inr (
      commit_sync-ok w delta serial (publish_delta dns digest io w.disk delta)
        (λ disk result e.
          let (lines, staged, published) = publish_delta-IsPublished dns digest io w.disk delta e in
          (lines, published))
        h)

  -- A sync without an error has changed nothing, or it has moved to the serial of the upstream, which is
  -- newer than the local one, with the raw file, the CDB, the manifest and the state in step.
  pub sync-ok :
      (up : Upstream) (w : World) {after : World}
      → sync dns digest cfg io up now w ≡ (after, ok tt)
      → (after ≡ w)
        ⊎ ((serial : ℕ) × (up.serial ≡ ok serial)
            × (serial_greater serial (local_serial w) ≡ true)
            × IsSynced dns digest serial after)
  unfolding sync sync_from
  sync-ok up w {after} h = elim (Result-cases up.serial) [
    | inr (e, failed) ↦ absurd (ground (arith, Bool-cases (cfg.upstream_master == [])))
    | inl (serial, known) ↦ elim (Bool-cases (cfg.upstream_master == [])) [
      | inl unset ↦ absurd (ground arith)
      | inr set ↦ elim (Bool-cases (serial_greater serial (local_serial w))) [
        | inr older ↦ inl (ground arith)
        | inl newer ↦
            elim (publish_sync-ok w serial
              (sync_ixfr dns io.stage_raw cfg.zone cfg.max_transfer_records (local_serial w) serial
                now up.envelopes)
              {after = after} (ground arith)) [
                | inl same ↦ inl same
                | inr synced ↦ inr (serial, known, newer, synced)
              ]
      ]
    ]
  ]

  -- Without a local serial (the first start, or a raw file that is gone), a sync against an upstream
  -- whose serial is 2^31 or more changes nothing and reports no error.
  pub sync-high_serial :
      (up : Upstream) (w : World) (serial : ℕ)
      → (cfg.upstream_master == []) ≡ false
      → up.serial ≡ ok serial
      → local_serial w ≡ 0
      → half_range ≤ serial
      → serial < u32_mod
      → sync dns digest cfg io up now w ≡ (w, ok tt)
  unfolding sync sync_from serial_greater
  sync-high_serial up w serial set known first high fits = ground arith
