-- ===== src/Rpz/App.antt =====
-- tools/rpz-master/main.go: the App's synchronisation, its builds and its bootstrap, on the state and the
-- disk of Rpz.Publication.
pub mod Invariant
pub mod Outcome
pub mod Start
use dnsdist_edge.Prelude.{
  ℕ, suc, ◌+◌, ◌*◌, ◌%◌, Bool, true, false, not, ◌&&◌, Option, none, some, List, [], ◌∷◌, ◌++◌,
  nat_eq, ◌==◌, leb, length, keep_last, Result, ok, err, ◌>>=◌, if◌then◌else◌,
}
use dnsdist_edge.Text.{Text, text_eq, trim_space}
use dnsdist_edge.Rpz.Serial.{u32_mod, serial_greater}
use dnsdist_edge.Rpz.Types.{Dns, Delta, State, Error}
use dnsdist_edge.Rpz.Domain.{dot, normalize_policy_domain}
use dnsdist_edge.Rpz.Delta.{max_line, is_skipped, apply_delta_to_file}
use dnsdist_edge.Rpz.Sync.{Envelope, sync_ixfr}
use dnsdist_edge.Rpz.Publication.{
  BuildResult, Cdb, Disk, Io, compile_domains_to_cdb, compile_line, compile_lines, compile_raw,
  packed, publish_delta, publish_lines, rename_staged, staged_lines,
}

pub record Config : Type 0 where
  pub source_mode : Text
  pub zone : Text
  pub upstream_master : Text
  pub max_transfer_records : ℕ

-- The upstream as Sync meets it: the serial of its SOA, or that the query failed, and the envelopes of
-- the transfer.
pub record Upstream : Type 0 where
  pub serial : Result Error ℕ
  pub envelopes : List Envelope

abbrev pub history_limit : ℕ
history_limit = 20

-- The deltas kept after a sync.
unfoldable pub remember : List Delta → Delta → List Delta
remember deltas delta =
    if delta.full
    then deltas
    else keep_last history_limit (deltas ++ record delta { staged_raw = none } ∷ [])

unfoldable pub synced_state : State → Delta → ℕ → ℕ → BuildResult → State
synced_state st delta serial now result = record {
  serial = serial;
  last_update = now;
  total_domains = result.total_entries;
  cdb_sha256 = result.sha256;
  deltas = remember st.deltas delta;
}

pub record World : Type 0 where
  pub state : State
  pub disk : Disk

-- The end of Sync: the new state takes effect once it is saved.
unfoldable pub commit_sync :
    Io → World → Delta → ℕ → ℕ → Disk × Result Error BuildResult → World × Result Error Unit
commit_sync io w delta serial now (disk, err e) = (record w { disk = disk }, err e)
commit_sync io w delta serial now (disk, ok result) =
    if io.save_state
    then (record { state = synced_state w.state delta serial now result; disk = disk }, ok tt)
    else (record w { disk = disk }, err Error.io_failed)

unfoldable pub publish_sync :
    Dns
    → (Cdb → Text)
    → Io
    → World
    → ℕ
    → ℕ
    → Result Error (Option Delta)
    → World × Result Error Unit
publish_sync dns digest io w serial now (err e) = (w, err e)
publish_sync dns digest io w serial now (ok none) = (w, ok tt)
publish_sync dns digest io w serial now (ok (some delta)) =
    commit_sync io w delta serial now (publish_delta dns digest io w.disk delta)

-- The local serial that Sync works with: 0 if the raw file is gone.
unfoldable pub local_serial : World → ℕ
local_serial w = elim w.disk.raw [ none ↦ 0 | some lines ↦ w.state.serial ]

unfoldable pub sync_from :
    Dns
    → (Cdb → Text)
    → Config
    → Io
    → World
    → ℕ
    → List Envelope
    → Result Error ℕ
    → World × Result Error Unit
sync_from dns digest cfg io w now envelopes (err e) = (w, err e)
sync_from dns digest cfg io w now envelopes (ok serial) =
    if not (serial_greater serial (local_serial w))
    then (w, ok tt)
    else publish_sync dns digest io w serial now (
        sync_ixfr dns io.stage_raw cfg.zone cfg.max_transfer_records (local_serial w) serial now
          envelopes)

-- App.Sync
unfoldable pub sync :
    Dns → (Cdb → Text) → Config → Io → Upstream → ℕ → World → World × Result Error Unit
sync dns digest cfg io up now w =
    if cfg.upstream_master == []
    then (w, err Error.not_configured)
    else sync_from dns digest cfg io w now up.envelopes up.serial

abbrev pub rpz_slave : Text
rpz_slave = b'r' ∷ b'p' ∷ b'z' ∷ b'-' ∷ b's' ∷ b'l' ∷ b'a' ∷ b'v' ∷ b'e' ∷ []

-- now.Year()*1000000 + int(now.Month())*10000 + now.Day()*100 + 1
pub record Date : Type 0 where
  pub year : ℕ
  pub month : ℕ
  pub day : ℕ

unfoldable pub date_serial : Date → ℕ
date_serial d = (d.year * 1000000 + d.month * 10000 + d.day * 100 + 1) % u32_mod

-- The state after buildCDB and Bootstrap: the first serial of a feed master is made from the date.
unfoldable pub built_state : Config → State → ℕ → Date → BuildResult → State
built_state cfg st now date result = record st {
  serial =
      if st.serial == 0 && not (cfg.source_mode == rpz_slave) then date_serial date else st.serial;
  last_update = now;
  total_domains = result.total_entries;
  cdb_sha256 = result.sha256;
}

unfoldable pub commit_build :
    Config → Io → World → ℕ → Date → Result Error (Cdb × BuildResult) → World × Result Error Unit
commit_build cfg io w now date (err e) = (w, err e)
commit_build cfg io w now date (ok (cdb, result)) =
    let disk = record w.disk { cdb = some cdb; manifest = some result } in
    if not io.rename_cdb
    then (w, err Error.io_failed)
    else if not io.rename_manifest
    then (record w { disk = record w.disk { cdb = some cdb } }, err Error.io_failed)
    else if io.save_state
    then (record { state = built_state cfg w.state now date result; disk = disk }, ok tt)
    else (record w { disk = disk }, err Error.io_failed)

-- buildCDB
unfoldable pub build_cdb :
    Dns → (Cdb → Text) → Config → Io → ℕ → Date → World → World × Result Error Unit
build_cdb dns digest cfg io now date w =
    commit_build cfg io w now date (compile_domains_to_cdb dns digest io.stage_cdb w.disk.raw)

-- Bootstrap: `download` is what the source URL delivers, if it does.
unfoldable pub bootstrap_raw : Disk → Bool → Option (List Text) → Result Error Disk
bootstrap_raw disk has_url download = elim disk.raw [
  | some lines ↦ ok disk
  | none ↦ if not has_url then err Error.not_configured else elim download [
    | none ↦ err Error.io_failed
    | some lines ↦ ok (record disk { raw = some lines })
  ]
]

unfoldable pub bootstrap :
    Dns
    → (Cdb → Text)
    → Config
    → Io
    → Bool
    → Option (List Text)
    → ℕ
    → Date
    → World
    → World × Result Error Unit
bootstrap dns digest cfg io has_url download now date w =
    elim (bootstrap_raw w.disk has_url download) [
      | err e ↦ (w, err e)
      | ok disk ↦ build_cdb dns digest cfg io now date (record w { disk = disk })
    ]
