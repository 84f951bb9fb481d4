-- ===== src/Rpz/App/Start.antt =====
-- The start of the daemon: `QueryUpstreamSOA` of tools/rpz-master/slave_client.go, and `Serve` of
-- tools/rpz-master/main.go up to the servers that it starts.

use dnsdist_edge.Prelude.{
  ℕ, ◌≡◌, refl, sym, ap, ◌∙◌, Bool, true, not, ◌||◌, ◌&&◌, Option, none, some, List, [], ◌∷◌, arith,
  ◌==◌, nat_eq, is_some, Result, ok, err, Result-cases, Option-cases, Bool-cases, inl, inr, ◌⊎◌,
  if◌then◌else◌,
}
use dnsdist_edge.Text.{Text, text_eq, equal_fold}
use dnsdist_edge.Rpz.Types.{Dns, Rr, soa, rr, Error}
use dnsdist_edge.Rpz.Sync.{Envelope}
use dnsdist_edge.Rpz.Publication.{Cdb, BuildResult, Io, compile_raw, compile_domains_to_cdb}
use dnsdist_edge.Rpz.Publication.Atomic.{IsPublished, compiled-result}
use dnsdist_edge.Rpz.App.{
  Config, World, Date, sync, build_cdb, commit_build, bootstrap, bootstrap_raw,
}
use dnsdist_edge.Rpz.App.Outcome.{sync-ok}

-- What client.Exchange returns.
pub record Response : Type 0 where
  pub truncated : Bool
  pub rcode : ℕ
  pub answers : List Rr

-- The first SOA of the zone in an answer.
unfoldable pub zone_soa : Text → List Rr → Result Error ℕ
zone_soa zone [] = err Error.no_zone_soa
zone_soa zone (rr owner t rdata ∷ answers) = zone_soa zone answers
zone_soa zone (soa owner serial ∷ answers) =
    let rest = zone_soa zone answers in if equal_fold owner zone then ok serial else rest

-- QueryUpstreamSOA, where `response` is none if the exchange failed.
unfoldable pub query_upstream_soa : Dns → Config → Option Response → Result Error ℕ
query_upstream_soa dns cfg response =
    if cfg.upstream_master == [] then err Error.not_configured else elim response [
      | none ↦ err Error.query_failed
      | some r ↦
          if r.truncated || not (r.rcode == 0)
          then err Error.unusable_response
          else zone_soa (dns.fqdn cfg.zone) r.answers
    ]

-- What the start meets: whether the state of the two files can be read, the file operations and the times
-- of the transfer and of the build, the bootstrap URL with what it delivers, and the upstream's answer and
-- transfer.
pub record Start : Type 0 where
  pub stat_raw : Bool
  pub stat_cdb : Bool
  pub transfer_io : Io
  pub build_io : Io
  pub transferred_at : ℕ
  pub built_at : ℕ
  pub date : Date
  pub has_url : Bool
  pub download : Option (List Text)
  pub response : Option Response
  pub envelopes : List Envelope

-- Sync on the first start.
unfoldable pub first_sync : Dns → (Cdb → Text) → Config → Start → World → World × Result Error Unit
first_sync dns digest cfg s w =
    sync dns digest cfg s.transfer_io
      (record { serial = query_upstream_soa dns cfg s.response; envelopes = s.envelopes })
      s.transferred_at w

-- The first transfer, with the bootstrap URL in its place where it fails.
unfoldable pub or_bootstrap :
    Dns → (Cdb → Text) → Config → Start → World × Result Error Unit → World × Result Error Unit
or_bootstrap dns digest cfg s (w, ok done) = (w, ok done)
or_bootstrap dns digest cfg s (w, err e) =
    if not s.has_url
    then (w, err e)
    else bootstrap dns digest cfg s.build_io s.has_url s.download s.built_at s.date w

-- Serve up to NewRPZServerWithMutex.
unfoldable pub prepare : Dns → (Cdb → Text) → Config → Start → World → World × Result Error Unit
prepare dns digest cfg s w = if not s.stat_raw then (w, err Error.io_failed) else elim w.disk.raw [
  | none ↦ or_bootstrap dns digest cfg s (first_sync dns digest cfg s w)
  | some lines ↦ if not s.stat_cdb then (w, err Error.io_failed) else elim w.disk.cdb [
    | none ↦ build_cdb dns digest cfg s.build_io s.built_at s.date w
    | some cdb ↦ (w, ok tt)
  ]
]

-- The raw file is there, and the CDB and the manifest are what it compiles to.
abbrev pub IsBuilt : Dns → (Cdb → Text) → World → Type 0
IsBuilt dns digest w =
    (lines : List Text) × (result : BuildResult) × IsPublished dns digest w.disk lines result

module _ (dns : Dns) (digest : Cdb → Text) (cfg : Config) where
  commit_build-ok :
      (io : Io) (now : ℕ) (date : Date) (w : World) (compiled : Result Error (Cdb × BuildResult))
      {after : World}
      → commit_build cfg io w now date compiled ≡ (after, ok tt)
      → (built : Cdb × BuildResult) × (compiled ≡ ok built)
        × (after.disk ≡ record w.disk { cdb = some built.0; manifest = some built.1 })
  unfolding commit_build
  commit_build-ok io now date w (err e) h = absurd (ground arith)
  commit_build-ok io now date w (ok (cdb, result)) h = (
    (cdb, result),
    refl,
    ground
        (arith, Bool-cases io.rename_cdb, Bool-cases io.rename_manifest, Bool-cases io.save_state),
  )

  compiled-some :
      (written : Bool) (raw : Option (List Text)) {built : Cdb × BuildResult}
      → compile_domains_to_cdb dns digest written raw ≡ ok built
      → (lines : List Text) × (raw ≡ some lines)
  unfolding compile_domains_to_cdb compile_raw
  compiled-some written none h = absurd (ground arith)
  compiled-some written (some lines) h = (lines, refl)

  build_cdb-ok :
      (io : Io) (now : ℕ) (date : Date) (w : World) {after : World}
      → build_cdb dns digest cfg io now date w ≡ (after, ok tt)
      → IsBuilt dns digest after
  unfolding build_cdb
  build_cdb-ok io now date w {after} h =
      let ((cdb, result), e, whole) =
        commit_build-ok io now date w (compile_domains_to_cdb dns digest io.stage_cdb w.disk.raw)
          {after = after} h in
      let (lines, present) = compiled-some io.stage_cdb w.disk.raw e in
      let (compiled, described) = compiled-result dns digest io w.disk.raw e in
      (
        lines,
        result,
        record {
          cdb = cdb;
          compiled = ap (compile_raw dns) (sym present) ∙ compiled;
          on_disk =
              whole ∙ ap (λ r. record { raw = r; cdb = some cdb; manifest = some result }) present;
          described = described;
        },
      )

  bootstrap-ok :
      (io : Io) (has_url : Bool) (download : Option (List Text)) (now : ℕ) (date : Date) (w : World)
      {after : World}
      → bootstrap dns digest cfg io has_url download now date w ≡ (after, ok tt)
      → IsBuilt dns digest after
  unfolding bootstrap
  bootstrap-ok io has_url download now date w {after} h =
      elim (Result-cases (bootstrap_raw w.disk has_url download)) [
        | inr (e, failed) ↦ absurd (ground arith)
        | inl (disk, fetched) ↦
            build_cdb-ok io now date (record w { disk = disk }) {after = after} (ground arith)
      ]

  or_bootstrap-ok :
      (s : Start) (synced : World × Result Error Unit) {after : World}
      → or_bootstrap dns digest cfg s synced ≡ (after, ok tt)
      → IsBuilt dns digest after ⊎ (synced ≡ (after, ok tt))
  unfolding or_bootstrap
  or_bootstrap-ok s (w, ok done) h = inr h
  or_bootstrap-ok s (w, err e) {after} h = elim (Bool-cases s.has_url) [
    | inr unset ↦ absurd (ground arith)
    | inl set ↦ inl (
        bootstrap-ok s.build_io s.has_url s.download s.built_at s.date w {after = after}
          (ground arith))
  ]

  first_sync-ok :
      (s : Start) (w : World) {after : World}
      → first_sync dns digest cfg s w ≡ (after, ok tt)
      → IsBuilt dns digest after ⊎ (after ≡ w)
  unfolding first_sync
  first_sync-ok s w {after} h =
      elim (sync-ok dns digest cfg s.transfer_io s.transferred_at
        (record { serial = query_upstream_soa dns cfg s.response; envelopes = s.envelopes }) w
        {after = after} h) [
          | inl same ↦ inr same
          | inr (serial, told, newer, synced) ↦ inl (synced.lines, synced.result, synced.published)
        ]

  -- A start that gets as far as the servers leaves the raw file with the CDB and the manifest that it
  -- compiles to, or it changes nothing: the raw file and the CDB were there, or the raw file is absent
  -- and the first sync has reported no error.
  pub prepare-ok :
      (s : Start) (w : World) {after : World}
      → prepare dns digest cfg s w ≡ (after, ok tt)
      → IsBuilt dns digest after
        ⊎ ((after ≡ w)
            × ((is_some w.disk.raw && is_some w.disk.cdb ≡ true)
                ⊎ ((w.disk.raw ≡ none) × (first_sync dns digest cfg s w ≡ (w, ok tt)))))
  unfolding prepare
  prepare-ok s w {after} h = elim (Bool-cases s.stat_raw) [
    | inr unread ↦ absurd (ground arith)
    | inl read ↦ elim (Option-cases w.disk.raw) [
      | inl absent ↦
          elim (or_bootstrap-ok s (first_sync dns digest cfg s w) {after = after} (ground arith)) [
            | inl built ↦ inl built
            | inr done ↦ elim (first_sync-ok s w {after = after} done) [
              | inl built ↦ inl built
              | inr same ↦ inr (same, inr (absent, done ∙ ap (λ v. (v, ok tt)) same))
            ]
          ]
      | inr (lines, present) ↦ elim (Option-cases w.disk.cdb) [
        | inl missing ↦ inl (
            build_cdb-ok s.build_io s.built_at s.date w {after = after}
              (ground (arith, Bool-cases s.stat_cdb)))
        | inr (cdb, found) ↦ inr (
          ground (arith, Bool-cases s.stat_cdb),
          inl (ap (λ r. is_some r && is_some w.disk.cdb) present ∙ ap is_some found),
        )
      ]
    ]
  ]
