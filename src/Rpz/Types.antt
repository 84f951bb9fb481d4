-- ===== src/Rpz/Types.antt =====
-- The data of tools/rpz-master: resource records and errors of transfers (slave_client.go), and
-- `Delta` and `State` (config.go). What the code takes from github.com/miekg/dns is the record `Dns`.
use dnsdist_edge.Prelude.{ℕ, ◌≡◌, ◌≢◌, Bool, true, Option, List, [], ◌∷◌, ◌++◌}
use dnsdist_edge.Text.{Text}

-- dns.Fqdn, the second result of dns.IsDomainName, dns.IsSubDomain (the parent first), and the bytes
-- that dns.PackDomainName writes, or none if it fails.
pub record Dns : Type 0 where
  pub fqdn : Text → Text
  pub is_domain_name : Text → Bool
  pub is_sub_domain : Text → Text → Bool
  pub pack_domain_name : Text → Option (List ℕ)

-- No byte is a backslash, so that no dot is escaped.
unfoldable pub IsPlain : Text → Type 0
IsPlain [] = Unit
IsPlain (c ∷ s) = (c ≢ b'\\') × IsPlain s

-- Documented behaviour of the library: a name that ends in a fully qualified name is one, and a name
-- under a zone is in the zone.
pub record DnsLaws (dns : Dns) : Type 0 where
  pub fqdn-append : (d z : Text) → dns.fqdn z ≡ z → dns.fqdn (d ++ b'.' ∷ z) ≡ d ++ b'.' ∷ z
  pub is_sub_domain-append :
      (d z : Text)
      → IsPlain d
      → dns.is_domain_name z ≡ true
      → dns.is_sub_domain z (d ++ b'.' ∷ z) ≡ true

-- A resource record: an SOA with its owner and serial, or any other with owner, type and data.
pub data Rr : Type 0 where
  soa : Text → ℕ → Rr
  rr : Text → ℕ → Text → Rr

-- rr.Header().Name and rr.Header().Rrtype, with the numbers of dns.TypeSOA and so on.
unfoldable pub name : Rr → Text
name (soa owner serial) = owner
name (rr owner rrtype rdata) = owner

abbrev pub type_a : ℕ
type_a = 1

abbrev pub type_cname : ℕ
type_cname = 5

abbrev pub type_soa : ℕ
type_soa = 6

abbrev pub type_aaaa : ℕ
type_aaaa = 28

unfoldable pub rrtype_of : Rr → ℕ
rrtype_of (soa owner serial) = type_soa
rrtype_of (rr owner rrtype rdata) = rrtype

pub data Error : Type 0 where
  domain_length domain_invalid owner_outside_zone : Error
  empty_transfer no_opening_soa truncated_after_soa no_closing_soa : Error
  ixfr_wrong_start ixfr_not_newer bad_from_soa truncated_delete bad_to_soa truncated_add : Error
  bad_next_soa trailing_record past_target index_out_of_range out_of_fuel : Error
  stream_error over_limit soa_outside_zone record_after_closing serial_mismatch : Error
  delta_required line_too_long no_raw_file pack_failed io_failed not_configured : Error
  query_failed unusable_response no_zone_soa : Error

-- `staged` holds the lines of the file that `StagedRaw` names.
pub record Delta : Type 0 where
  pub from_serial : ℕ
  pub to_serial : ℕ
  pub timestamp : ℕ
  pub full : Bool
  pub added : List Text
  pub deleted : List Text
  pub staged_raw : Option (List Text)

pub record State : Type 0 where
  pub serial : ℕ
  pub last_update : ℕ
  pub total_domains : ℕ
  pub cdb_sha256 : Text
  pub deltas : List Delta
