-- ===== src/Rpz/Tests/Serving.antt =====
-- The theorems on serving transfers, at a small server.
use dnsdist_edge.Prelude.{
  ℕ, leb, length, if◌then◌else◌, ◌≡◌, refl, Bool, true, false, not, ◌&&◌, ◌||◌, none, some, List,
  [], ◌∷◌, map, arith, nat_eq, ok,
}
use dnsdist_edge.Text.{
  Text, text_eq, text_beq, trim_space, trim_right, trim_left, is_space, has_suffix, has_prefix,
  lower, lower_byte,
}
use dnsdist_edge.Text.Sort.{mem}
use dnsdist_edge.Rpz.Serial.{serial_greater}
use dnsdist_edge.Rpz.Types.{Rr, soa, Delta, State}
use dnsdist_edge.Rpz.Delta.{is_skipped}
use dnsdist_edge.Rpz.Server.{
  v4, Request, Server, transfer, dotted, handle_axfr, axfr_envelopes, axfr_body, flush,
  client_serial, matched_delta, ixfr_envelopes, handle_ixfr, serve_dns, serve_question, answer,
  transfer_authorized, transfer_allowed, contains, delta_envelopes,
}
use dnsdist_edge.Rpz.Server.Stream.{IsStored}
use dnsdist_edge.Rpz.Server.Wire.{Wire, WireLaws, is_host_name, is_host_byte}
use dnsdist_edge.Rpz.Server.Slave.{slave-handle_axfr, slave-handle_ixfr}
use dnsdist_edge.Rpz.Server.Access.{IsGranted, serve_dns-transfer}
use dnsdist_edge.Rpz.Sync.{failed, records, effective_limit, sync_ixfr, ixfr, sync_request}
use dnsdist_edge.Rpz.Sync.Channel.{all_records}
use dnsdist_edge.Rpz.Sync.Laws.{full_delta}
use dnsdist_edge.Rpz.Tests.{
  dns, laws, zone, zone-IsZone, domain_a, domain_b, domain_a-IsPolicyDomain,
  domain_b-IsPolicyDomain,
}

domain_a-IsStored : IsStored dns domain_a
unfolding is_skipped has_prefix text_beq
domain_a-IsStored = record { policy = domain_a-IsPolicyDomain; shown = refl }

domain_b-IsStored : IsStored dns domain_b
unfolding is_skipped has_prefix text_beq
domain_b-IsStored = record { policy = domain_b-IsPolicyDomain; shown = refl }

-- From serial 4 to serial 5, a.id goes and b.id comes.
abbrev stored_delta : Delta
stored_delta = record {
  from_serial = 4;
  to_serial = 5;
  timestamp = 6;
  full = false;
  added = domain_b ∷ [];
  deleted = domain_a ∷ [];
  staged_raw = none;
}

abbrev served_state : State
served_state = record {
  serial = 5;
  last_update = 6;
  total_domains = 2;
  cdb_sha256 = [];
  deltas = stored_delta ∷ [];
}

-- Transfers to 10.0.0.0/8, one of two slots taken.
abbrev server : Server
server = record {
  zone = zone;
  cname_target = zone;
  tsig_key = [];
  tsig_algorithm = [];
  transfer_acl = record { base = v4 167772160; bits = 8 } ∷ [];
  max_transfers = 2;
  state = served_state;
  raw = some (domain_b ∷ domain_a ∷ []);
  busy = 1;
}

-- An IXFR question of a slave at serial 4, from 10.0.0.2.
abbrev request : Request
request = record {
  question = (zone, 251) ∷ [];
  ns = soa zone 4 ∷ [];
  remote = some (v4 167772162);
  tsig = none;
  verified = false;
}

-- A network that carries messages of at most 300 records.
abbrev wire : Wire
wire = record {
  packs = λ rrs. leb (length rrs) 300;
  carry = λ rrs. if leb (length rrs) 300 then records rrs else failed;
}

wire_laws : WireLaws wire
wire_laws = record { carry-packs = λ rrs fits plain. rw fits refl }

slave-handle_axfr_example :
    (envelopes : List (List Rr)) × (handle_axfr server zone ≡ transfer envelopes)
    × (sync_ixfr dns true zone 100 0 5 9 (map wire.carry envelopes)
        ≡ ok (some (full_delta 0 5 9 (domain_b ∷ domain_a ∷ []))))
unfolding effective_limit is_host_name is_host_byte dotted has_suffix text_beq axfr_envelopes
    axfr_body flush is_skipped trim_space trim_right trim_left is_space has_prefix
slave-handle_axfr_example =
    slave-handle_axfr dns laws wire wire_laws zone zone-IsZone refl server
      (domain_b ∷ domain_a ∷ []) 100 0 9 refl (omega arith) refl refl (refl, (refl, tt))
      (refl, (refl, (refl, tt))) (domain_b-IsStored, (domain_a-IsStored, tt)) (omega arith)

slave-handle_ixfr_example :
    (envelopes : List (List Rr)) × (delta : Delta) × (sync_request (client_serial request.ns) 5
      ≡ ixfr (client_serial request.ns))
    × (handle_ixfr server request zone ≡ transfer envelopes)
    × (sync_ixfr dns true zone 100 (client_serial request.ns) 5 9 (map wire.carry envelopes)
        ≡ ok (some delta))
    × (delta.from_serial ≡ client_serial request.ns)
    × (delta.to_serial ≡ 5)
    × ((x : Text) (present : Bool)
        → ((present && not (mem x delta.deleted)) || mem x delta.added)
          ≡ ((present && not (mem x stored_delta.deleted)) || mem x stored_delta.added))
unfolding effective_limit client_serial serial_greater matched_delta ixfr_envelopes delta_envelopes
    all_records is_host_name is_host_byte dotted has_suffix text_beq
slave-handle_ixfr_example =
    slave-handle_ixfr dns laws wire wire_laws zone zone-IsZone refl server request stored_delta 100
      9 (omega arith) (ground arith) (ground arith) (omega arith) refl refl
      (domain_b-IsPolicyDomain, tt) (domain_a-IsPolicyDomain, tt) refl (refl, tt) (refl, tt)
      (refl, (refl, (refl, (refl, (refl, tt))))) (omega arith)

serve_dns-transfer_example :
    (qname : Text) × (qtype : ℕ) × (more : List (Text × ℕ)) × (request.question
      ≡ (qname, qtype) ∷ more)
    × IsGranted dns server request qname qtype
unfolding serve_dns serve_question answer transfer_authorized transfer_allowed contains handle_ixfr
    client_serial serial_greater matched_delta dotted has_suffix lower lower_byte text_beq
serve_dns-transfer_example =
    serve_dns-transfer dns server request (ixfr_envelopes zone zone 4 stored_delta) refl
