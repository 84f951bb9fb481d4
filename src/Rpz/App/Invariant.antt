-- ===== src/Rpz/App/Invariant.antt =====
-- What `App.Sync` keeps and what it changes.
use mathlib.Core.Path.{subst}
use dnsdist_edge.Prelude.{
  ℕ, zero, suc, ◌-◌, ◌≤◌, ◌≡◌, refl, sym, ap, if◌then◌else◌, Bool, true, false, not, ◌&&◌, Option,
  none, some, List, [], ◌∷◌, ◌++◌, arith, ◌==◌, nat_eq, length, drop, keep_last,
  length-keep_last-le, All, Result, ok, err, ◌>>=◌, Result-cases, Bool-cases, inl, inr, ◌⊎◌,
}
use dnsdist_edge.Text.{Text, text_eq, lower, equal_fold}
use dnsdist_edge.Text.Sort.{mem}
use dnsdist_edge.Rpz.Serial.{serial_greater}
use dnsdist_edge.Rpz.Types.{Dns, Rr, soa, rr, Delta, State, Error}
use dnsdist_edge.Rpz.Transfer.{parse_transfer_records}
use dnsdist_edge.Rpz.Transfer.Loop.{parse-disjoint}
use dnsdist_edge.Rpz.Sync.{
  Envelope, gather, read_head, process_all, process_envelopes, stream_axfr, check_serial,
  check_optional, is_ixfr_response, effective_limit, sync_head, sync_ixfr,
}
use dnsdist_edge.Rpz.Sync.Laws.{start}
use dnsdist_edge.Rpz.Publication.{Cdb, BuildResult, Disk, Io, publish_delta}
use dnsdist_edge.Rpz.App.{
  Config, Upstream, World, history_limit, remember, synced_state, commit_sync, publish_sync,
  local_serial, sync_from, sync,
}

-- An incremental delta leads to a newer serial and names no domain on both sides.
abbrev pub IsIncremental : Delta → Type 0
IsIncremental delta =
    (delta.full ≡ false)
    × (serial_greater delta.to_serial delta.from_serial ≡ true)
    × ((x : Text) → (mem x delta.added && mem x delta.deleted) ≡ false)

-- The kept history: at most 20 deltas, all of them incremental.
abbrev pub IsHistory : List Delta → Type 0
IsHistory deltas = (length deltas ≤ history_limit) × All IsIncremental deltas

module _ {ℓ κ} {A : Type ℓ} (P : A → Type κ) where
  All-append : (xs : List A) {y : A} → All P xs → P y → All P (xs ++ y ∷ [])
  All-append [] h p = (p, tt)
  All-append (x ∷ xs) (q, h) p = (q, All-append xs h p)

  All-drop : (n : ℕ) (xs : List A) → All P xs → All P (drop n xs)
  All-drop zero xs h = h
  All-drop (suc n) [] h = tt
  All-drop (suc n) (x ∷ xs) (q, h) = All-drop n xs h

-- What a received delta satisfies.
abbrev IsReceived : Delta → Type 0
IsReceived delta =
    (delta.full ≡ true)
    ⊎ ((serial_greater delta.to_serial delta.from_serial ≡ true)
        × ((x : Text) → (mem x delta.added && mem x delta.deleted) ≡ false))

remember-partial :
    (deltas : List Delta) (delta : Delta)
    → delta.full ≡ false
    → remember deltas delta
      ≡ keep_last history_limit (deltas ++ record delta { staged_raw = none } ∷ [])
unfolding remember
remember-partial deltas delta partial =
    ap
      (λ b.
        if b
        then deltas
        else keep_last history_limit (deltas ++ record delta { staged_raw = none } ∷ []))
      partial

remember-full :
    (deltas : List Delta) (delta : Delta) → delta.full ≡ true → remember deltas delta ≡ deltas
unfolding remember
remember-full deltas delta full =
    ap
      (λ b.
        if b
        then deltas
        else keep_last history_limit (deltas ++ record delta { staged_raw = none } ∷ []))
      full

pub remember-IsHistory :
    (deltas : List Delta) (delta : Delta)
    → IsReceived delta
    → IsHistory deltas
    → IsHistory (remember deltas delta)
remember-IsHistory deltas delta (inl full) h =
    subst IsHistory (sym (remember-full deltas delta full)) h
remember-IsHistory deltas delta (inr (newer, apart)) (short, kept) = elim (Bool-cases delta.full) [
  | inl full ↦ subst IsHistory (sym (remember-full deltas delta full)) (short, kept)
  | inr partial ↦
      let extended = deltas ++ record delta { staged_raw = none } ∷ [] in
      subst IsHistory (sym (remember-partial deltas delta partial)) (
        length-keep_last-le history_limit extended,
        All-drop IsIncremental (length extended - history_limit) extended
            (All-append IsIncremental deltas kept (partial, newer, apart)),
      )
]

module _ (dns : Dns) (written : Bool) (zone : Text) where
  gathered-IsReceived :
      (upstream local now : ℕ) (rrs : List Rr) (delta : Delta)
      → (do parsed ← parse_transfer_records dns rrs zone local now; check_optional upstream parsed)
        ≡ ok (some delta)
      → IsReceived delta
  unfolding check_optional check_serial
  gathered-IsReceived upstream local now rrs delta h =
      elim (Result-cases (parse_transfer_records dns rrs zone local now)) [
        | inl (none, e) ↦ absurd (ground arith)
        | inl (some parsed, e) ↦
            let (from, kind, apart) = parse-disjoint dns rrs zone local now {delta = parsed} e in
            ground (arith, Bool-cases (not (upstream == 0) && not (parsed.to_serial == upstream)))
        | inr (e, p) ↦ absurd (ground arith)
      ]

  stream_axfr-full :
      (local now first limit : ℕ) (lower_zone : Text) (head : List Rr) (envelopes : List Envelope)
      {delta : Delta}
      → stream_axfr dns written lower_zone local now first limit head envelopes ≡ ok delta
      → delta.full ≡ true
  unfolding stream_axfr
  stream_axfr-full local now first limit lower_zone head envelopes h =
      elim (Result-cases (process_all dns lower_zone first limit head start)) [
        | inl (st, e) ↦
            elim (Result-cases (process_envelopes dns lower_zone first limit envelopes st)) [
              | inl (st', p) ↦ ground (arith, Bool-cases st'.got_last, Bool-cases written)
              | inr (x, p) ↦ absurd (ground arith)
            ]
        | inr (x, e) ↦ absurd (ground arith)
      ]

  streamed-IsReceived :
      (upstream local now first limit : ℕ) (head : List Rr) (envelopes : List Envelope)
      {delta : Delta}
      → (do
        streamed ←
            stream_axfr dns written (lower (dns.fqdn zone)) local now first limit head envelopes
        check_serial upstream streamed)
        ≡ ok (some delta)
      → delta.full ≡ true
  unfolding check_serial
  streamed-IsReceived upstream local now first limit head envelopes h =
      elim (Result-cases
        (stream_axfr dns written (lower (dns.fqdn zone)) local now first limit head envelopes)) [
          | inl (streamed, e) ↦ ground (
            arith,
            stream_axfr-full local now first limit (lower (dns.fqdn zone)) head envelopes
                {delta = streamed} e,
            Bool-cases (not (upstream == 0) && not (streamed.to_serial == upstream)),
          )
          | inr (x, e) ↦ absurd (ground arith)
        ]

  sync_head-IsReceived :
      (limit local upstream now : ℕ) (head : List Rr) (envelopes : List Envelope) (delta : Delta)
      → sync_head dns written zone limit local upstream now head envelopes ≡ ok (some delta)
      → IsReceived delta
  unfolding sync_head
  sync_head-IsReceived limit local upstream now [] envelopes delta h = absurd (ground arith)
  sync_head-IsReceived limit local upstream now (rr o t d ∷ head) envelopes delta h =
      absurd (ground arith)
  sync_head-IsReceived limit local upstream now (soa owner first ∷ []) envelopes delta h =
      absurd (ground arith)
  sync_head-IsReceived limit local upstream now (soa owner first ∷ second ∷ head) envelopes delta
        h =
      elim (Bool-cases (equal_fold owner (lower (dns.fqdn zone)))) [
        | inr foreign ↦ absurd (ground arith)
        | inl own ↦ elim (Bool-cases (is_ixfr_response (soa owner first ∷ second ∷ head))) [
          | inr full ↦ inl (
              streamed-IsReceived upstream local now first limit (second ∷ head) envelopes
                {delta = delta} (ground arith))
          | inl partial ↦
              elim (Result-cases (gather limit (soa owner first ∷ second ∷ head) envelopes)) [
                | inl (rrs, e) ↦ gathered-IsReceived upstream local now rrs delta (ground arith)
                | inr (x, e) ↦ absurd (ground arith)
              ]
        ]
      ]

  sync_ixfr-IsReceived :
      (configured local upstream now : ℕ) (envelopes : List Envelope) (delta : Delta)
      → sync_ixfr dns written zone configured local upstream now envelopes ≡ ok (some delta)
      → IsReceived delta
  unfolding sync_ixfr
  sync_ixfr-IsReceived configured local upstream now envelopes delta h =
      elim (Result-cases (read_head [] envelopes)) [
        | inl ((head, rest), e) ↦
            sync_head-IsReceived (effective_limit configured) local upstream now head rest delta
              (ground arith)
        | inr (e, p) ↦ absurd (ground arith)
      ]

-- The state that a sync keeps: a short history of incremental deltas.
abbrev pub IsWellFormed : State → Type 0
IsWellFormed st = IsHistory st.deltas

module _ (dns : Dns) (digest : Cdb → Text) (cfg : Config) (io : Io) (now : ℕ) where
  commit_sync-IsWellFormed :
      (w : World) (delta : Delta) (serial : ℕ) (outcome : Disk × Result Error BuildResult)
      → IsReceived delta
      → IsWellFormed w.state
      → IsWellFormed (commit_sync io w delta serial now outcome).0.state
  unfolding commit_sync synced_state
  commit_sync-IsWellFormed w delta serial (disk, err e) received h = h
  commit_sync-IsWellFormed w delta serial (disk, ok result) received h =
      elim (Bool-cases io.save_state) [
        | inl saved ↦ rw saved (remember-IsHistory w.state.deltas delta received h)
        | inr failed ↦ rw failed h
      ]

  publish_sync-IsWellFormed :
      (w : World) (serial : ℕ) (received : Result Error (Option Delta))
      → ((delta : Delta) → received ≡ ok (some delta) → IsReceived delta)
      → IsWellFormed w.state
      → IsWellFormed (publish_sync dns digest io w serial now received).0.state
  unfolding publish_sync
  publish_sync-IsWellFormed w serial (err e) good h = h
  publish_sync-IsWellFormed w serial (ok none) good h = h
  publish_sync-IsWellFormed w serial (ok (some delta)) good h =
      commit_sync-IsWellFormed w delta serial (publish_delta dns digest io w.disk delta)
        (good delta refl) h

  sync_from-IsWellFormed :
      (w : World) (envelopes : List Envelope) (answer : Result Error ℕ)
      → IsWellFormed w.state
      → IsWellFormed (sync_from dns digest cfg io w now envelopes answer).0.state
  unfolding sync_from
  sync_from-IsWellFormed w envelopes (err e) h = h
  sync_from-IsWellFormed w envelopes (ok serial) h =
      elim (Bool-cases (serial_greater serial (local_serial w))) [
        | inr older ↦ rw older h
        | inl newer ↦ rw newer (
            publish_sync-IsWellFormed w serial
              (sync_ixfr dns io.stage_raw cfg.zone cfg.max_transfer_records (local_serial w) serial
                now envelopes)
              (λ delta e.
                sync_ixfr-IsReceived dns io.stage_raw cfg.zone cfg.max_transfer_records
                  (local_serial w) serial now envelopes delta e)
              h)
      ]

  -- Every sync, failed or not, leaves at most 20 deltas in the history, and each of them leads to a newer
  -- serial and adds no domain that it deletes.
  pub sync-IsWellFormed :
      (up : Upstream) (w : World)
      → IsWellFormed w.state
      → IsWellFormed (sync dns digest cfg io up now w).0.state
  unfolding sync
  sync-IsWellFormed up w h = elim (Bool-cases (cfg.upstream_master == [])) [
    | inl unset ↦ rw unset h
    | inr configured ↦ rw configured (sync_from-IsWellFormed w up.envelopes up.serial h)
  ]
