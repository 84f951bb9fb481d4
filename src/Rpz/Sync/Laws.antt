-- ===== src/Rpz/Sync/Laws.antt =====
-- What `SyncIXFR` makes of a transfer by the records it delivers.
use mathlib.Core.Path.{subst}
use dnsdist_edge.Prelude.{
  ℕ, ◌≤◌, ◌≡◌, ◌≢◌, sym, ◌∙◌, ap, Bool, true, false, some, List, [], ◌∷◌, ◌++◌, map, arith, nat_eq,
  length, inl, inr, ok, Result-cases,
}
use dnsdist_edge.Text.{Text}
use dnsdist_edge.Text.Laws.{equal_fold_refl}
use dnsdist_edge.Rpz.Types.{Dns, Rr, soa, Delta}
use dnsdist_edge.Rpz.Domain.Laws.{IsZone}
use dnsdist_edge.Rpz.Transfer.{parse_transfer_records}
use dnsdist_edge.Rpz.Sync.{
  records, Staging, process_all, read_head, stream_axfr, is_ixfr_response, effective_limit,
  check_serial, check_optional, sync_head, sync_ixfr,
}
use dnsdist_edge.Rpz.Sync.Channel.{
  all_records, gather-records, read_head-records, process_all-append, process_envelopes-records,
}

two_records :
    (l r : List Rr) (a b : Rr) (rest : List Rr)
    → 2 ≤ length l
    → l ++ r ≡ a ∷ b ∷ rest
    → (l' : List Rr) × (l ≡ a ∷ b ∷ l') × (l' ++ r ≡ rest)
two_records [] r a b rest h e = absurd (omega arith)
two_records (x ∷ []) r a b rest h e = absurd (omega arith)
two_records (x ∷ y ∷ l) r a b rest h e = (l, cc, ground arith)

abbrev pub start : Staging
start = record { total = 0; got_last = false; lines = [] }

-- The delta of a full transfer.
abbrev pub full_delta : ℕ → ℕ → ℕ → List Text → Delta
full_delta local first now lines = record {
  from_serial = local;
  to_serial = first;
  timestamp = now;
  full = true;
  added = [];
  deleted = [];
  staged_raw = some lines;
}

-- The head that SyncIXFR reads begins with the first two records.
opened :
    (a b : Rr) (rest : List Rr) (envelopes : List (List Rr))
    → all_records envelopes ≡ a ∷ b ∷ rest
    → (tail : List Rr) × (left : List (List Rr)) × (read_head [] (map records envelopes)
        ≡ ok (a ∷ b ∷ tail, map records left))
      × (tail ++ all_records left ≡ rest)
opened a b rest envelopes all =
    let (head, left, e, same, two) = read_head-records [] envelopes in
    let (tail, shape, whole) =
      two_records head (all_records left) a b rest (two (rw all (omega arith))) (same ∙ all) in
    (tail, left, rw shape at e, whole)

module _ (dns : Dns) (written : Bool) (zone : Text) (zoned : IsZone dns zone) where
  sync_head-ixfr :
      (limit local upstream now first second : ℕ) (tail : List Rr) (left : List (List Rr))
      (delta : Delta)
      → second ≢ first
      → length ((soa zone first ∷ soa zone second ∷ tail) ++ all_records left) ≤ limit
      → parse_transfer_records dns
          ((soa zone first ∷ soa zone second ∷ tail) ++ all_records left)
          zone
          local
          now
        ≡ ok (some delta)
      → sync_head dns written zone limit local upstream now
          (soa zone first ∷ soa zone second ∷ tail)
          (map records left)
        ≡ check_serial upstream delta
  unfolding sync_head is_ixfr_response check_optional
  sync_head-ixfr limit local upstream now first second tail left delta differ fits parse =
      rw (zoned.qualified, zoned.lowered)
        (ground (
          arith,
          equal_fold_refl zone,
          gather-records limit (soa zone first ∷ soa zone second ∷ tail) left fits,
        ))

  -- A delivered IXFR answer within the limit is parsed, and its serial compared.
  pub sync-ixfr_records :
      (configured local upstream now first second : ℕ) (rest : List Rr) (envelopes : List (List Rr))
      (delta : Delta)
      → all_records envelopes ≡ soa zone first ∷ soa zone second ∷ rest
      → second ≢ first
      → length (soa zone first ∷ soa zone second ∷ rest) ≤ effective_limit configured
      → parse_transfer_records dns (soa zone first ∷ soa zone second ∷ rest) zone local now
        ≡ ok (some delta)
      → sync_ixfr dns written zone configured local upstream now (map records envelopes)
        ≡ check_serial upstream delta
  unfolding sync_ixfr
  sync-ixfr_records configured local upstream now first second rest envelopes delta all differ fits
        parse =
      let (tail, left, e, whole) = opened (soa zone first) (soa zone second) rest envelopes all in
      let both = ap (λ l. soa zone first ∷ soa zone second ∷ l) whole in
      rw e (
        sync_head-ixfr (effective_limit configured) local upstream now first second tail left delta
          differ (subst (λ l. length l ≤ effective_limit configured) (sym both) fits)
          (subst (λ l. parse_transfer_records dns l zone local now ≡ ok (some delta)) (sym both)
            parse))

  stream_axfr-records :
      (local now first limit : ℕ) (head : List Rr) (left : List (List Rr)) (st : Staging)
      → process_all dns zone first limit (head ++ all_records left) start ≡ ok st
      → st.got_last ≡ true
      → written ≡ true
      → stream_axfr dns written zone local now first limit head (map records left)
        ≡ ok (full_delta local first now st.lines)
  unfolding stream_axfr
  stream_axfr-records local now first limit head left st staged closed stored =
      elim (Result-cases (process_all dns zone first limit head start)) [
        | inl (mid, e) ↦ ground (
          arith,
          process_all-append dns zone first limit head (all_records left) start,
          process_envelopes-records dns zone first limit left mid,
        )
        | inr (x, e) ↦
            absurd (
              ground (arith, process_all-append dns zone first limit head (all_records left) start))
      ]

  sync_head-axfr :
      (limit local upstream now first : ℕ) (second : Rr) (tail : List Rr) (left : List (List Rr))
      (st : Staging)
      → is_ixfr_response (soa zone first ∷ second ∷ tail) ≡ false
      → process_all dns zone first limit ((second ∷ tail) ++ all_records left) start ≡ ok st
      → st.got_last ≡ true
      → written ≡ true
      → sync_head dns written zone limit local upstream now
          (soa zone first ∷ second ∷ tail)
          (map records left)
        ≡ check_serial upstream (full_delta local first now st.lines)
  unfolding sync_head
  sync_head-axfr limit local upstream now first second tail left st not_ixfr staged closed stored =
      rw (zoned.qualified, zoned.lowered)
        (ground (
          arith,
          equal_fold_refl zone,
          stream_axfr-records local now first limit (second ∷ tail) left st staged closed stored,
        ))

  -- A delivered AXFR answer that is accepted is streamed, and its serial compared.
  pub sync-axfr_records :
      (configured local upstream now first : ℕ) (second : Rr) (rest : List Rr)
      (envelopes : List (List Rr)) (st : Staging)
      → all_records envelopes ≡ soa zone first ∷ second ∷ rest
      → ((tail : List Rr) → is_ixfr_response (soa zone first ∷ second ∷ tail) ≡ false)
      → process_all dns zone first (effective_limit configured) (second ∷ rest) start ≡ ok st
      → st.got_last ≡ true
      → written ≡ true
      → sync_ixfr dns written zone configured local upstream now (map records envelopes)
        ≡ check_serial upstream (full_delta local first now st.lines)
  unfolding sync_ixfr
  sync-axfr_records configured local upstream now first second rest envelopes st all not_ixfr staged
        closed stored =
      let (tail, left, e, whole) = opened (soa zone first) second rest envelopes all in
      rw e (
        sync_head-axfr (effective_limit configured) local upstream now first second tail left st
          (not_ixfr tail)
          (subst
            (λ l.
              process_all dns zone first (effective_limit configured) (second ∷ l) start ≡ ok st)
            (sym whole) staged)
          closed stored)
