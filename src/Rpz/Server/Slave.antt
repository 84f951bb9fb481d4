-- ===== src/Rpz/Server/Slave.antt =====
-- What a slave of this server has after a transfer that the server's handlers answer.
use mathlib.Core.Path.{subst}
use dnsdist_edge.Rpz.Transfer.{parse_transfer_records}
use dnsdist_edge.Prelude.{
  ℕ, suc, ◌≤◌, ◌<◌, ◌≡◌, ◌≢◌, refl, ap, sym, ltb, ◌∙◌, Bool, true, not, ◌&&◌, ◌||◌, some, List, [],
  ◌∷◌, map, arith, nat_eq, length, All, ok, Option-cases, inl, inr,
}
use dnsdist_edge.Text.{Text}
use dnsdist_edge.Text.Sort.{mem}
use dnsdist_edge.Rpz.Serial.{u32_mod, serial_greater, serial_greater_irrefl}
use dnsdist_edge.Rpz.Types.{Dns, DnsLaws, Rr, soa, Delta}
use dnsdist_edge.Rpz.Domain.Laws.{IsPolicyDomain, IsZone}
use dnsdist_edge.Rpz.Transfer.Diffs.{replay, mark_diffs}
use dnsdist_edge.Rpz.Transfer.Chain.{ixfr_answer, after_soa, parsed, parse-chain, parsed-replay}
use dnsdist_edge.Rpz.Sync.{
  records, effective_limit, check_serial, sync_ixfr, ixfr, sync_request, transfer_request,
}
use dnsdist_edge.Rpz.Sync.Channel.{all_records}
use dnsdist_edge.Rpz.Sync.Laws.{full_delta, sync-ixfr_records}
use dnsdist_edge.Rpz.Server.{
  Server, Request, transfer, dotted, axfr_envelopes, ixfr_envelopes, handle_axfr, handle_ixfr,
  client_serial, matched_delta,
}
use dnsdist_edge.Rpz.Server.Stream.{
  IsStored, diff_of, axfr_envelopes-records, ixfr_envelopes-records,
}
use dnsdist_edge.Rpz.Server.Wire.{
  Wire, WireLaws, is_host_name, AreHosts, ArePlain, map-carry, axfr-ArePlain, ixfr-ArePlain,
}
use dnsdist_edge.Rpz.Server.RoundTrip.{sync-axfr_envelopes}

-- A delta that is found leads from the client's serial to the current one.
matched_delta-serials :
    (client current : ℕ) (deltas : List Delta) (d : Delta)
    → matched_delta client current deltas ≡ some d
    → (d.from_serial ≡ client) × (d.to_serial ≡ current)
unfolding matched_delta
matched_delta-serials client current [] d h = absurd (ground arith)
matched_delta-serials client current (e ∷ deltas) d h =
    elim (Option-cases (matched_delta client current deltas)) [
      | inl older ↦ ground arith
      | inr (newer, found) ↦ matched_delta-serials client current deltas d (ground arith)
    ]

module _ (dns : Dns) (laws : DnsLaws dns) (wire : Wire) (wire_laws : WireLaws wire) (zone : Text)
    (zoned : IsZone dns zone) (zone_plain : is_host_name zone ≡ true) where
  -- While a transfer slot is free, a full transfer of a file of stored domains is sent, and a slave
  -- whose record limit allows it reads back exactly the lines of that file and the server's serial. The
  -- names of the zone, of the target and of the domains need no escape, and every message can be packed.
  pub slave-handle_axfr :
      (s : Server) (lines : List Text) (configured local now : ℕ)
      → s.raw ≡ some lines
      → s.busy < s.max_transfers
      → ltb s.state.serial u32_mod ≡ true
      → is_host_name (dotted s.cname_target) ≡ true
      → AreHosts lines
      → All
          (λ (rrs : List Rr). wire.packs rrs ≡ true)
          (axfr_envelopes zone (dotted s.cname_target) s.state.serial lines)
      → All (IsStored dns) lines
      → suc (length lines) ≤ effective_limit configured
      → (envelopes : List (List Rr)) × (handle_axfr s zone ≡ transfer envelopes)
        × (sync_ixfr dns true zone configured local s.state.serial now (map wire.carry envelopes)
            ≡ ok (some (full_delta local s.state.serial now lines)))
  unfolding handle_axfr
  slave-handle_axfr s lines configured local now r slot bound host hosts fits h room =
      let target = dotted s.cname_target in
      let sent = axfr_envelopes zone target s.state.serial lines in
      let plain =
        subst ArePlain (sym (axfr_envelopes-records dns zone target s.state.serial lines h))
          (axfr-ArePlain zone target zone_plain host s.state.serial lines bound hosts) in
      (
        sent,
        ground arith,
        ap (sync_ixfr dns true zone configured local s.state.serial now)
              (map-carry wire wire_laws sent fits plain)
            ∙ sync-axfr_envelopes dns laws zone zoned target configured local now s.state.serial
                lines h room,
      )

  sync-ixfr_envelopes :
      (target : Text) (configured client now : ℕ) (d : Delta)
      → serial_greater d.to_serial client ≡ true
      → client ≢ d.to_serial
      → All (IsPolicyDomain dns) d.added
      → All (IsPolicyDomain dns) d.deleted
      → length (all_records (ixfr_envelopes zone target client d)) ≤ effective_limit configured
      → sync_ixfr dns true zone configured client d.to_serial now
          (map records (ixfr_envelopes zone target client d))
        ≡ ok (some (parsed client d.to_serial now (mark_diffs (diff_of client d ∷ []) [])))
  sync-ixfr_envelopes target configured client now d newer differ ha hd room =
      let shape = ixfr_envelopes-records dns zone target client d ha hd in
      let diff = diff_of client d in
      let rest = after_soa zone target (diff ∷ []) d.to_serial in
      let whole : all_records (ixfr_envelopes zone target client d)
          ≡ soa zone d.to_serial ∷ soa zone client ∷ rest =
        unfold ixfr_answer in shape in
      let parse : parse_transfer_records dns (soa zone d.to_serial ∷ soa zone client ∷ rest) zone
            client now
          ≡ ok (some (parsed client d.to_serial now (mark_diffs (diff ∷ []) []))) =
        unfold ixfr_answer in
        parse-chain dns laws zone zoned target client d.to_serial now diff [] (refl, newer, refl)
          (record { deletes = hd; adds = ha }, tt) newer in
      sync-ixfr_records dns true zone zoned configured client d.to_serial now d.to_serial client
        rest (ixfr_envelopes zone target client d)
        (parsed client d.to_serial now (mark_diffs (diff ∷ []) [])) whole differ (rw whole at room)
        parse
      ∙ unfold check_serial parsed in ground arith

  -- A slave whose serial is smaller and older than the server's, so that serials do not wrap around
  -- between them, and from which one stored delta leads to the server's serial, asks for an incremental
  -- transfer and is sent that delta while a slot is free; within its record limit it reads a delta
  -- between the two serials that, on every domain, does what the stored one does. The names of the zone,
  -- of the target and of the domains need no escape, and every message can be packed.
  pub slave-handle_ixfr :
      (s : Server) (r : Request) (d : Delta) (configured now : ℕ)
      → s.busy < s.max_transfers
      → client_serial r.ns ≢ 0
      → client_serial r.ns < s.state.serial
      → s.state.serial < u32_mod
      → serial_greater s.state.serial (client_serial r.ns) ≡ true
      → matched_delta (client_serial r.ns) s.state.serial s.state.deltas ≡ some d
      → All (IsPolicyDomain dns) d.added
      → All (IsPolicyDomain dns) d.deleted
      → is_host_name (dotted s.cname_target) ≡ true
      → AreHosts d.added
      → AreHosts d.deleted
      → All
          (λ (rrs : List Rr). wire.packs rrs ≡ true)
          (ixfr_envelopes zone (dotted s.cname_target) (client_serial r.ns) d)
      → length (all_records (ixfr_envelopes zone (dotted s.cname_target) (client_serial r.ns) d))
        ≤ effective_limit configured
      → (envelopes : List (List Rr)) × (delta : Delta) × (sync_request
            (client_serial r.ns)
            s.state.serial
          ≡ ixfr (client_serial r.ns))
        × (handle_ixfr s r zone ≡ transfer envelopes)
        × (sync_ixfr dns true zone configured
              (client_serial r.ns)
              s.state.serial
              now
              (map wire.carry envelopes)
            ≡ ok (some delta))
        × (delta.from_serial ≡ client_serial r.ns)
        × (delta.to_serial ≡ s.state.serial)
        × ((x : Text) (present : Bool)
            → ((present && not (mem x delta.deleted)) || mem x delta.added)
              ≡ ((present && not (mem x d.deleted)) || mem x d.added))
  unfolding handle_ixfr sync_request transfer_request
  slave-handle_ixfr s r d configured now slot known below bound newer found ha hd host come gone
        fits room =
      let client = client_serial r.ns in
      let target = dotted s.cname_target in
      let (from, to) = matched_delta-serials client s.state.serial s.state.deltas d found in
      let newer' : serial_greater d.to_serial client ≡ true = rw to newer in
      let differ : client ≢ d.to_serial =
        λ e. ground (arith, serial_greater_irrefl client (omega arith)) in
      let delta = parsed client d.to_serial now (mark_diffs (diff_of client d ∷ []) []) in
      let plain = subst ArePlain (sym (ixfr_envelopes-records dns zone target client d ha hd)) (
        ixfr-ArePlain zone target zone_plain host (diff_of client d) d.to_serial (ground arith)
          (ground arith) (ground arith) gone come) in
      (
        ixfr_envelopes zone target client d,
        delta,
        ground arith,
        ground arith,
        ap (sync_ixfr dns true zone configured client s.state.serial now)
              (map-carry wire wire_laws (ixfr_envelopes zone target client d) fits plain)
            ∙ subst
                (λ u.
                  sync_ixfr dns true zone configured client u now
                    (map records (ixfr_envelopes zone target client d))
                  ≡ ok (some delta))
                to (sync-ixfr_envelopes target configured client now d newer' differ ha hd room),
        unfold parsed in refl,
        unfold parsed in to,
        λ x present.
            parsed-replay client d.to_serial now (diff_of client d ∷ []) x present
            ∙ unfold replay in refl,
      )
