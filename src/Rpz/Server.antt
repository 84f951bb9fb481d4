-- ===== src/Rpz/Server.antt =====
-- tools/rpz-master/dns_server.go: the authoritative server for the policy zone. A request comes with
-- what the handler reads of the connection; a reply is the message written, or the envelopes handed to
-- the transfer.
pub mod Stream
pub mod RoundTrip
pub mod Wire
pub mod Slave
pub mod Access
use dnsdist_edge.Prelude.{
  ℕ, ◌+◌, ◌-◌, ◌/◌, ◌^◌, Bool, true, false, not, ◌&&◌, ◌||◌, Option, none, some, List, [], ◌∷◌,
  ◌++◌, nat_eq, ◌==◌, ltb, leb, length, if◌then◌else◌,
}
use dnsdist_edge.Text.{Text, text_eq, codes, trim_space, trim_suffix, lower, equal_fold, has_suffix}
use dnsdist_edge.Rpz.Serial.{serial_greater}
use dnsdist_edge.Rpz.Types.{Dns, Rr, soa, rr, type_cname, type_soa, Delta, State}
use dnsdist_edge.Rpz.Domain.{dot}
use dnsdist_edge.Rpz.Delta.{max_line, is_skipped}

abbrev pub type_ixfr : ℕ
type_ixfr = 251

abbrev pub type_axfr : ℕ
type_axfr = 252

-- An address as net.IP holds it, an IPv4 one in 32 bits, and a network of `transferACL`.
pub data Ip : Type 0 where
  v4 v6 : ℕ → Ip

pub record Network : Type 0 where
  pub base : Ip
  pub bits : ℕ

-- net.IPNet.Contains: the address has the family of the network and its leading bits.
unfoldable pub contains : Network → Ip → Bool
contains network ip = elim network.base [
  | v4 b ↦ elim ip [
    | v4 a ↦ a / 2 ^ (32 - network.bits) == b / 2 ^ (32 - network.bits)
    | v6 a ↦ false
  ]
  | v6 b ↦ elim ip [
    | v4 a ↦ false
    | v6 a ↦ a / 2 ^ (128 - network.bits) == b / 2 ^ (128 - network.bits)
  ]
]

pub record Tsig : Type 0 where
  pub key : Text
  pub algorithm : Text

-- `verified` is w.TsigStatus() == nil.
pub record Request : Type 0 where
  pub question : List (Text × ℕ)
  pub ns : List Rr
  pub remote : Option Ip
  pub tsig : Option Tsig
  pub verified : Bool

pub record Server : Type 0 where
  pub zone : Text
  pub cname_target : Text
  pub tsig_key : Text
  pub tsig_algorithm : Text
  pub transfer_acl : List Network
  pub max_transfers : ℕ
  pub state : State
  -- The lines of the raw domain file, and the transfer slots that are taken.
  pub raw : Option (List Text)
  pub busy : ℕ

pub data Reply : Type 0 where
  format_error refused not_implemented server_failure : Reply
  soa_answer : Text → ℕ → Reply
  transfer : List (List Rr) → Reply

unfoldable pub transfer_allowed : List Network → Option Ip → Bool
transfer_allowed [] ip = false
transfer_allowed (network ∷ acl) none = transfer_allowed acl none
transfer_allowed (network ∷ acl) (some ip) = contains network ip || transfer_allowed acl (some ip)

unfoldable pub tsig_matches : Dns → Server → Option Tsig → Bool → Bool
tsig_matches dns s none verified = false
tsig_matches dns s (some tsig) verified =
    equal_fold tsig.key (dns.fqdn s.tsig_key)
    && equal_fold tsig.algorithm (dns.fqdn s.tsig_algorithm)
    && verified

unfoldable pub transfer_authorized : Dns → Server → Request → Bool
transfer_authorized dns s r =
    if not (transfer_allowed s.transfer_acl r.remote)
    then false
    else if s.tsig_key == []
    then true
    else tsig_matches dns s r.tsig r.verified

-- A name with a dot at its end.
unfoldable pub dotted : Text → Text
dotted s = if has_suffix s dot then s else s ++ dot

-- The record of one line of the raw file.
unfoldable pub line_record : Text → Text → Text → Rr
line_record zone target text =
    rr (trim_suffix (lower (trim_space text)) dot ++ b'.' ∷ zone) type_cname target

abbrev pub chunk_size : ℕ
chunk_size = 200

unfoldable pub flush : List Rr → List (List Rr)
flush [] = []
flush (r ∷ chunk) = (r ∷ chunk) ∷ []

-- The producer's loop over the lines: the envelopes, and whether the scanner reached the end.
unfoldable pub axfr_body : Text → Text → List Rr → List Text → List (List Rr) × Bool
axfr_body zone target chunk [] = (flush chunk, true)
axfr_body zone target chunk (text ∷ lines) = elim (leb max_line (length text)) [
  | true ↦ (flush chunk, false)
  | false ↦ elim (is_skipped (trim_space text)) [
    | true ↦ axfr_body zone target chunk lines
    | false ↦
        let chunk' = chunk ++ line_record zone target text ∷ [] in
        elim (leb chunk_size (length chunk')) [
          | true ↦
              let (envelopes, done) = axfr_body zone target [] lines in (chunk' ∷ envelopes, done)
          | false ↦ axfr_body zone target chunk' lines
        ]
  ]
]

-- The closing SOA is sent only after a complete scan.
unfoldable pub axfr_envelopes : Text → Text → ℕ → List Text → List (List Rr)
axfr_envelopes zone target serial lines =
    let (envelopes, done) = axfr_body zone target [] lines in
    (soa zone serial ∷ []) ∷ (envelopes ++ (if done then (soa zone serial ∷ []) ∷ [] else []))

unfoldable pub handle_axfr : Server → Text → Reply
handle_axfr s zone = if not (ltb s.busy s.max_transfers) then server_failure else elim s.raw [
  | none ↦ server_failure
  | some lines ↦ transfer (axfr_envelopes zone (dotted s.cname_target) s.state.serial lines)
]

-- The serial of the first SOA of the authority section, or 0.
unfoldable pub client_serial : List Rr → ℕ
client_serial [] = 0
client_serial (soa owner serial ∷ ns) = serial
client_serial (rr owner t rdata ∷ ns) = client_serial ns

-- The newest stored delta between the two serials.
unfoldable pub matched_delta : ℕ → ℕ → List Delta → Option Delta
matched_delta client current [] = none
matched_delta client current (d ∷ deltas) = elim (matched_delta client current deltas) [
  | some newer ↦ some newer
  | none ↦ if d.from_serial == client && d.to_serial == current then some d else none
]

unfoldable pub delta_record : Text → Text → Text → Rr
delta_record zone target domain = rr (trim_suffix domain dot ++ b'.' ∷ zone) type_cname target

-- for _, dom := range ... { ch <- &dns.Envelope{RR: []dns.RR{rr}} }
unfoldable pub delta_envelopes : Text → Text → List Text → List (List Rr)
delta_envelopes zone target [] = []
delta_envelopes zone target (d ∷ domains) =
    (delta_record zone target d ∷ []) ∷ delta_envelopes zone target domains

unfoldable pub ixfr_envelopes : Text → Text → ℕ → Delta → List (List Rr)
ixfr_envelopes zone target client d =
    (soa zone d.to_serial ∷ soa zone client ∷ [])
    ∷ (delta_envelopes zone target d.deleted
        ++ (soa zone d.to_serial ∷ [])
          ∷ (delta_envelopes zone target d.added ++ (soa zone d.to_serial ∷ []) ∷ []))

unfoldable pub handle_ixfr : Server → Request → Text → Reply
handle_ixfr s r zone =
    let client = client_serial r.ns in
    if not (client == 0) && not (serial_greater s.state.serial client)
    then soa_answer zone s.state.serial
    else elim (matched_delta client s.state.serial s.state.deltas) [
      | none ↦ handle_axfr s zone
      | some d ↦
          if not (ltb s.busy s.max_transfers)
          then server_failure
          else transfer (ixfr_envelopes zone (dotted s.cname_target) client d)
    ]

unfoldable pub answer : Dns → Server → Request → Text → ℕ → Reply
answer dns s r zone qtype =
    if qtype == type_soa
    then soa_answer zone s.state.serial
    else if qtype == type_axfr
    then (if not (transfer_authorized dns s r) then refused else handle_axfr s zone)
    else if qtype == type_ixfr
    then (if not (transfer_authorized dns s r) then refused else handle_ixfr s r zone)
    else not_implemented

unfoldable pub serve_question : Dns → Server → Request → List (Text × ℕ) → Reply
serve_question dns s r [] = format_error
serve_question dns s r ((qname, qtype) ∷ more) =
    let zone = dotted (lower s.zone) in
    if not (lower qname == zone) then refused else answer dns s r zone qtype

-- ServeDNS
unfoldable pub serve_dns : Dns → Server → Request → Reply
serve_dns dns s r = serve_question dns s r r.question
