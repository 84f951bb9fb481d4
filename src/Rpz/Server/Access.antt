-- ===== src/Rpz/Server/Access.antt =====
-- Who is sent zone data.
use dnsdist_edge.Prelude.{
  ℕ, ◌<◌, ◌≡◌, refl, ◌⊎◌, inl, inr, true, List, [], ◌∷◌, arith, nat_eq, Option-cases,
}
use dnsdist_edge.Text.{Text, text_eq, text_beq_iff, lower}
use dnsdist_edge.Rpz.Types.{Dns, Rr}
use dnsdist_edge.Rpz.Server.{
  Server, Request, transfer, dotted, type_axfr, type_ixfr, transfer_allowed, tsig_matches,
  transfer_authorized, handle_axfr, handle_ixfr, client_serial, matched_delta, answer,
  serve_question, serve_dns,
}

handle_axfr-slot :
    (s : Server) (zone : Text) (envelopes : List (List Rr))
    → handle_axfr s zone ≡ transfer envelopes
    → s.busy < s.max_transfers
unfolding handle_axfr
handle_axfr-slot s zone envelopes h = ground arith

handle_ixfr-slot :
    (s : Server) (r : Request) (zone : Text) (envelopes : List (List Rr))
    → handle_ixfr s r zone ≡ transfer envelopes
    → s.busy < s.max_transfers
unfolding handle_ixfr
handle_ixfr-slot s r zone envelopes h =
    elim (Option-cases (matched_delta (client_serial r.ns) s.state.serial s.state.deltas)) [
      | inl miss ↦ handle_axfr-slot s zone envelopes (ground arith)
      | inr (d, hit) ↦ ground arith
    ]

answer-transfer :
    (dns : Dns) (s : Server) (r : Request) (zone : Text) (qtype : ℕ) (envelopes : List (List Rr))
    → answer dns s r zone qtype ≡ transfer envelopes
    → ((qtype ≡ type_axfr) ⊎ (qtype ≡ type_ixfr))
      × (transfer_authorized dns s r ≡ true)
      × (s.busy < s.max_transfers)
unfolding answer
answer-transfer dns s r zone qtype envelopes h =
    ground (arith, handle_axfr-slot s zone envelopes, handle_ixfr-slot s r zone envelopes)

-- An authorized request comes from an address of the access list and, where a key is configured,
-- carries a verified signature with that key and algorithm.
authorized-parts :
    (dns : Dns) (s : Server) (r : Request)
    → transfer_authorized dns s r ≡ true
    → (transfer_allowed s.transfer_acl r.remote ≡ true)
      × ((s.tsig_key ≡ []) ⊎ (tsig_matches dns s r.tsig r.verified ≡ true))
unfolding transfer_authorized
authorized-parts dns s r h = ground (arith, text_beq_iff s.tsig_key [])

-- What a request must satisfy to be sent zone data.
pub record IsGranted (dns : Dns) (s : Server) (r : Request) (qname : Text) (qtype : ℕ)
    : Type 0 where
  pub in_zone : lower qname ≡ dotted (lower s.zone)
  pub kind : (qtype ≡ type_axfr) ⊎ (qtype ≡ type_ixfr)
  pub slot : s.busy < s.max_transfers
  pub address : transfer_allowed s.transfer_acl r.remote ≡ true
  pub signature : (s.tsig_key ≡ []) ⊎ (tsig_matches dns s r.tsig r.verified ≡ true)

serve_question-transfer :
    (dns : Dns) (s : Server) (r : Request) (qs : List (Text × ℕ)) (envelopes : List (List Rr))
    → serve_question dns s r qs ≡ transfer envelopes
    → (qname : Text) × (qtype : ℕ) × (more : List (Text × ℕ)) × (qs ≡ (qname, qtype) ∷ more)
      × IsGranted dns s r qname qtype
unfolding serve_question
serve_question-transfer dns s r [] envelopes h = absurd (ground arith)
serve_question-transfer dns s r ((qname, qtype) ∷ more) envelopes h =
    let zone = dotted (lower s.zone) in
    let same : lower qname ≡ zone = ground (arith, text_beq_iff (lower qname) zone) in
    let (kind, authorized, slot) = answer-transfer dns s r zone qtype envelopes (ground arith) in
    let (address, signature) = authorized-parts dns s r authorized in
    (
      qname,
      qtype,
      more,
      refl,
      record { in_zone = same; kind = kind; slot = slot; address = address; signature = signature },
    )

-- Zone data is sent only in answer to an AXFR or IXFR question for the configured zone, while a
-- transfer slot is free, to an address in the access list and, where a TSIG key is configured,
-- under a verified signature by that key and algorithm.
pub serve_dns-transfer :
    (dns : Dns) (s : Server) (r : Request) (envelopes : List (List Rr))
    → serve_dns dns s r ≡ transfer envelopes
    → (qname : Text) × (qtype : ℕ) × (more : List (Text × ℕ)) × (r.question ≡ (qname, qtype) ∷ more)
      × IsGranted dns s r qname qtype
unfolding serve_dns
serve_dns-transfer dns s r envelopes h = serve_question-transfer dns s r r.question envelopes h
