-- ===== src/Rpz/Domain.antt =====
-- `normalizePolicyDomain` and `policyOwners` of tools/rpz-master/slave_client.go.
pub mod Laws
pub mod Normal
use dnsdist_edge.Prelude.{
  ℕ, Bool, true, false, not, ◌||◌, Option, none, some, List, [], ◌∷◌, ltb, nat_eq, ◌==◌, length,
  Result, ok, err, ◌>>=◌, if◌then◌else◌,
}
use dnsdist_edge.Text.{Text, text_eq, text_beq, trim_space, trim_suffix, lower}
use dnsdist_edge.Text.Sort.{sort, set_insert}
use dnsdist_edge.Rpz.Types.{
  Dns, Rr, name, rrtype_of, type_a, type_cname, type_aaaa, Error, domain_length, domain_invalid,
  owner_outside_zone,
}

abbrev pub dot : Text
dot = b'.' ∷ []

unfoldable pub normalize_policy_domain : Dns → Text → Result Error Text
normalize_policy_domain dns value =
    let clean = lower (trim_suffix (trim_space value) dot) in
    if clean == [] || ltb 253 (length clean)
    then err domain_length
    else if dns.is_domain_name (dns.fqdn clean)
    then ok clean
    else err domain_invalid

unfoldable pub is_policy_type : ℕ → Bool
is_policy_type t = t == type_cname || t == type_a || t == type_aaaa

-- One round of the loop of `policyOwners`: the domain that the record puts into the set, if any.
unfoldable pub policy_owner : Dns → Text → Rr → Result Error (Option Text)
policy_owner dns zone record_ =
    let owner = lower (dns.fqdn (name record_)) in
    if not (dns.is_sub_domain zone owner)
    then err owner_outside_zone
    else if owner == zone
    then ok none
    else if not (is_policy_type (rrtype_of record_))
    then ok none
    else do
      clean ← normalize_policy_domain dns (trim_suffix (trim_suffix owner zone) dot)
      ok (some clean)

unfoldable pub note : Option Text → List Text → List Text
note none seen = seen
note (some domain) seen = set_insert domain seen

unfoldable pub collect_owners : Dns → Text → List Text → List Rr → Result Error (List Text)
collect_owners dns zone seen [] = ok seen
collect_owners dns zone seen (r ∷ records) = do
  found ← policy_owner dns zone r
  collect_owners dns zone (note found seen) records

unfoldable pub policy_owners : Dns → List Rr → Text → Result Error (List Text)
policy_owners dns records zone = do seen ← collect_owners dns zone [] records; ok (sort seen)
