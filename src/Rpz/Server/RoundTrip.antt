-- ===== src/Rpz/Server/RoundTrip.antt =====
-- The envelopes of tools/rpz-master/dns_server.go as SyncIXFR of slave_client.go reads them.
use dnsdist_edge.Prelude.{
  ℕ, suc, ◌+◌, ◌≤◌, ◌≡◌, refl, ap, ◌∙◌, true, false, some, List, [], ◌∷◌, ◌++◌, map, arith, nat_eq,
  length, All, ok,
}
use mathlib.Core.List.{append_assoc, append-nil}
use dnsdist_edge.Text.{Text}
use dnsdist_edge.Text.Laws.{equal_fold_refl}
use dnsdist_edge.Rpz.Types.{Dns, DnsLaws, Rr, soa}
use dnsdist_edge.Rpz.Domain.Laws.{IsPolicyDomain, IsZone, policy_rr, policy_owner-policy_rr}
use dnsdist_edge.Rpz.Sync.{
  Staging, records, stage_soa, stage_record, stage_line, process, process_all, is_ixfr_response,
  effective_limit, check_serial, sync_ixfr,
}
use dnsdist_edge.Rpz.Sync.Laws.{start, full_delta, sync-axfr_records}
use dnsdist_edge.Rpz.Server.{axfr_envelopes}
use dnsdist_edge.Rpz.Server.Stream.{IsStored, axfr_envelopes-records}

module _ (dns : Dns) (laws : DnsLaws dns) (zone : Text) (zoned : IsZone dns zone)
    (target : Text) where
  process-policy_rr :
      (first limit : ℕ) (d : Text) (st : Staging)
      → IsPolicyDomain dns d
      → suc st.total ≤ limit
      → st.got_last ≡ false
      → process dns zone first limit (policy_rr zone target d) st
        ≡ ok (record { total = suc st.total; got_last = false; lines = st.lines ++ d ∷ [] })
  unfolding process stage_record stage_line policy_rr
  process-policy_rr first limit d st p room unclosed =
      ground (arith, policy_owner-policy_rr dns laws zone zoned target d p)

  process_all-zone :
      (first limit : ℕ) (ds : List Text) (st : Staging)
      → All (IsStored dns) ds
      → suc (st.total + length ds) ≤ limit
      → st.got_last ≡ false
      → process_all dns zone first limit (map (policy_rr zone target) ds ++ soa zone first ∷ []) st
        ≡ ok
            (record { total = suc (st.total + length ds); got_last = true; lines = st.lines ++ ds })
  unfolding process_all process stage_record stage_soa
  process_all-zone first limit [] st h room unclosed =
      ground (arith, equal_fold_refl zone, append-nil st.lines)
  process_all-zone first limit (d ∷ ds) st h room unclosed =
      let next : Staging = record {
        total = suc st.total;
        got_last = false;
        lines = st.lines ++ d ∷ [];
      } in
      let step = process-policy_rr first limit d st h.0.policy (omega arith) unclosed in
      let rest = process_all-zone first limit ds next h.1 (omega arith) refl in
      rw step (ground (arith, rest, append_assoc st.lines (d ∷ []) ds))

  not_ixfr-zone :
      (first : ℕ) (ds : List Text)
      → (second : Rr) × (rest : List Rr) × (map (policy_rr zone target) ds ++ soa zone first ∷ []
          ≡ second ∷ rest)
        × ((tail : List Rr) → is_ixfr_response (soa zone first ∷ second ∷ tail) ≡ false)
  unfolding is_ixfr_response policy_rr
  not_ixfr-zone first [] = (soa zone first, [], refl, λ tail. ground arith)
  not_ixfr-zone first (d ∷ ds) = (
    policy_rr zone target d,
    map (policy_rr zone target) ds ++ soa zone first ∷ [],
    refl,
    λ tail. refl,
  )

  -- A slave reads the server's full transfer as the lines of the server's file.
  pub sync-axfr_envelopes :
      (configured local now serial : ℕ) (lines : List Text)
      → All (IsStored dns) lines
      → suc (length lines) ≤ effective_limit configured
      → sync_ixfr dns true zone configured local serial now
          (map records (axfr_envelopes zone target serial lines))
        ≡ ok (some (full_delta local serial now lines))
  sync-axfr_envelopes configured local now serial lines h room =
      let (second, rest, shape, not_ixfr) = not_ixfr-zone serial lines in
      let all = axfr_envelopes-records dns zone target serial lines h in
      let st : Staging = record { total = suc (length lines); got_last = true; lines = lines } in
      let limit = effective_limit configured in
      let staged : process_all dns zone serial limit
            (map (policy_rr zone target) lines ++ soa zone serial ∷ []) start
          ≡ ok st =
        ground (arith, process_all-zone serial limit lines start h (omega arith) refl) in
      sync-axfr_records dns true zone zoned configured local serial now serial second rest
        (axfr_envelopes zone target serial lines) st (all ∙ ap (λ l. soa zone serial ∷ l) shape)
        not_ixfr (rw shape at staged) refl refl
      ∙ unfold check_serial in ground arith
