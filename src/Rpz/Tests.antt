-- ===== src/Rpz/Tests.antt =====
-- The theorems on tools/rpz-master at concrete zones, files and transfers. `dns` stands for the library:
-- names of letters and dots, with the suffix for the subdomain test and the text itself as wire form.
mod Serving
mod Updates
mod Configured
mod Started
use dnsdist_edge.Prelude.{
  ℕ, ◌+◌, ◌≤◌, ◌<◌, ◌≡◌, ◌≢◌, refl, Bool, true, false, not, ◌&&◌, ◌||◌, Option, none, some, List,
  [], ◌∷◌, ◌++◌, map, arith, ◌==◌, nat_eq, leb, ltb, length, All, ◌↔◌, ◌⊎◌, inl, inr, Result, ok,
  err, Bool-cases, sym, ◌∙◌, ap, ◌%◌, ◌-◌, if◌then◌else◌,
}
use mathlib.Core.List.{append_assoc}
use dnsdist_edge.Text.{
  Text, text_eq, text_beq, has_suffix, has_prefix, trim_suffix, trim_space, trim_left, trim_right,
  is_space, lower, lower_byte, equal_fold,
}
use dnsdist_edge.Text.Laws.{text_beq_refl}
use dnsdist_edge.Text.Sort.{mem, sort, insert_sorted, set_insert, text_leb}
use dnsdist_edge.Map.{get, put, remove}
use dnsdist_edge.Rpz.Serial.{
  u32_mod, half_range, serial_greater, serial_greater_irrefl, serial_greater_asymm,
  serial_greater-add,
}
use dnsdist_edge.Rpz.Types.{
  Dns, DnsLaws, IsPlain, name, rrtype_of, Rr, soa, rr, Delta, State, Error,
}
use dnsdist_edge.Rpz.Domain.{
  dot, policy_owners, collect_owners, note, policy_owner, is_policy_type, normalize_policy_domain,
}
use dnsdist_edge.Rpz.Domain.Laws.{IsPolicyDomain, IsZone, policy_rr}
use dnsdist_edge.Rpz.Transfer.{
  parse_transfer_records, parse_zone_records, parse_rest, parse_ixfr, ixfr_loop, diff_step,
  delete_section, to_section, add_section, finish, is_soa_at, before_soa, from_soa, mark,
  domains_with,
}
use dnsdist_edge.Rpz.Transfer.Loop.{parse_transfer_records-NotFuel, parse-disjoint}
use dnsdist_edge.Rpz.Transfer.Diffs.{Diff, replay}
use dnsdist_edge.Rpz.Transfer.Chain.{
  IsChain, HasPolicyDomains, ixfr_answer, diff_records, after_soa, parse-ixfr_answer,
}
use dnsdist_edge.Rpz.Delta.{is_skipped, apply_delta_to_file}
use dnsdist_edge.Rpz.Delta.Laws.{listed, IsNormal, mem-apply_delta}
use dnsdist_edge.Rpz.Delta.Replay.{apply-ixfr_answer}
use dnsdist_edge.Rpz.Server.{
  Ip, v4, v6, Network, Tsig, Request, Server, Reply, transfer, dotted, axfr_envelopes, handle_axfr,
  client_serial, matched_delta, ixfr_envelopes, handle_ixfr, serve_dns,
}
use dnsdist_edge.Rpz.Server.Stream.{IsStored}
use dnsdist_edge.Rpz.Server.Slave.{slave-handle_axfr, slave-handle_ixfr}
use dnsdist_edge.Rpz.Server.Access.{IsGranted, serve_dns-transfer}
use dnsdist_edge.Rpz.Sync.{Envelope, records, effective_limit, sync_ixfr}
use dnsdist_edge.Rpz.Sync.Channel.{all_records}
use dnsdist_edge.Rpz.Sync.Laws.{full_delta}

abbrev pub dns : Dns
dns = record {
  fqdn = λ s. if has_suffix s dot then s else s ++ dot;
  is_domain_name = λ s. not (s == []);
  is_sub_domain = λ z s. has_suffix s z;
  pack_domain_name = λ s. some s;
}

has_suffix-append : (a s : Text) → has_suffix (a ++ s) s ≡ true
unfolding has_suffix text_beq
has_suffix-append [] [] = refl
has_suffix-append [] (c ∷ s) = ground (arith, text_beq_refl (c ∷ s))
has_suffix-append (c ∷ a) s = ground (arith, has_suffix-append a s)

has_suffix-longer : (a s t : Text) → has_suffix s t ≡ true → has_suffix (a ++ s) t ≡ true
unfolding has_suffix
has_suffix-longer [] s t h = h
has_suffix-longer (c ∷ a) s t h = ground (arith, has_suffix-longer a s t h)

no_dot_added : (z : Text) → z ++ dot ≢ z
no_dot_added [] h = absurd (ground arith)
no_dot_added (c ∷ z) h = no_dot_added z (ground arith)

dotted_zone : (z : Text) → dns.fqdn z ≡ z → has_suffix z dot ≡ true
dotted_zone z h = elim (Bool-cases (has_suffix z dot)) [
  | inl ends ↦ ends
  | inr undotted ↦ absurd (no_dot_added z (ground arith))
]

pub laws : DnsLaws dns
laws = record {
  fqdn-append = λ d z h.
      let ends =
        has_suffix-longer d (b'.' ∷ z) dot (has_suffix-longer dot z dot (dotted_zone z h)) in
      ground (arith, ends);
  is_sub_domain-append = λ d z p v.
      ap (λ s. has_suffix s z) (sym (append_assoc d dot z)) ∙ has_suffix-append (d ++ dot) z;
}

-- "rpz.", "a.id", "b.id", "c.id"
abbrev pub zone : Text
zone = b'r' ∷ b'p' ∷ b'z' ∷ b'.' ∷ []

abbrev pub domain_a : Text
domain_a = b'a' ∷ b'.' ∷ b'i' ∷ b'd' ∷ []

abbrev pub domain_b : Text
domain_b = b'b' ∷ b'.' ∷ b'i' ∷ b'd' ∷ []

abbrev pub domain_c : Text
domain_c = b'c' ∷ b'.' ∷ b'i' ∷ b'd' ∷ []

-- An operator's comment line.
abbrev pub comment : Text
comment = b'#' ∷ b' ' ∷ b'x' ∷ []

pub zone-IsZone : IsZone dns zone
unfolding has_suffix text_beq lower lower_byte
zone-IsZone = record { qualified = refl; lowered = refl; valid = refl }

pub domain_a-IsPolicyDomain : IsPolicyDomain dns domain_a
unfolding normalize_policy_domain trim_space trim_right trim_left is_space trim_suffix text_beq
    has_suffix lower lower_byte IsPlain
domain_a-IsPolicyDomain = record {
  normal = refl;
  plain = (ground arith, (ground arith, (ground arith, (ground arith, tt))));
}

pub domain_b-IsPolicyDomain : IsPolicyDomain dns domain_b
unfolding normalize_policy_domain trim_space trim_right trim_left is_space trim_suffix text_beq
    has_suffix lower lower_byte IsPlain
domain_b-IsPolicyDomain = record {
  normal = refl;
  plain = (ground arith, (ground arith, (ground arith, (ground arith, tt))));
}

-- Two diffs: 1 to 2 brings a.id, 2 to 3 takes it away again and brings b.id.
abbrev first_diff : Diff
first_diff = record { from = 1; to = 2; deletes = []; adds = domain_a ∷ [] }

abbrev second_diff : Diff
second_diff = record { from = 2; to = 3; deletes = domain_a ∷ []; adds = domain_b ∷ [] }

chained : IsChain 1 3 first_diff (second_diff ∷ [])
unfolding serial_greater
chained = (refl, refl, ground arith, refl, (refl, refl, refl))

policy_domains : All (HasPolicyDomains dns) (first_diff ∷ second_diff ∷ [])
policy_domains = (
  record { deletes = tt; adds = (domain_a-IsPolicyDomain, tt) },
  (record { deletes = (domain_a-IsPolicyDomain, tt); adds = (domain_b-IsPolicyDomain, tt) }, tt),
)

apply-ixfr_answer_example :
    (delta : Delta) × (out : List Text) × (parse_transfer_records dns
        (ixfr_answer zone zone first_diff (second_diff ∷ []) 3)
        zone
        1
        7
      ≡ ok (some delta))
    × (apply_delta_to_file dns true (some (comment ∷ domain_c ∷ [])) (some delta) ≡ ok out)
    × ((x : Text) → mem x out ≡ replay x (first_diff ∷ second_diff ∷ []) (mem x (domain_c ∷ [])))
unfolding serial_greater listed is_skipped normalize_policy_domain trim_space trim_right trim_left
    is_space trim_suffix text_beq has_suffix has_prefix lower lower_byte
apply-ixfr_answer_example =
    apply-ixfr_answer dns laws zone zone-IsZone zone 1 3 7 first_diff (second_diff ∷ [])
      (comment ∷ domain_c ∷ []) (domain_c ∷ []) chained policy_domains refl refl

parse_transfer_records-NotFuel_example :
    parse_transfer_records dns (ixfr_answer zone zone first_diff (second_diff ∷ []) 3) zone 1 7
    ≢ err Error.out_of_fuel
parse_transfer_records-NotFuel_example =
    parse_transfer_records-NotFuel dns (ixfr_answer zone zone first_diff (second_diff ∷ []) 3) zone
      1 7

abbrev small_delta : Delta
small_delta = record {
  from_serial = 1;
  to_serial = 2;
  timestamp = 7;
  full = false;
  added = domain_a ∷ [];
  deleted = [];
  staged_raw = none;
}

small_parsed :
    parse_transfer_records dns (ixfr_answer zone zone first_diff [] 2) zone 1 7
    ≡ ok (some small_delta)
unfolding parse_transfer_records parse_zone_records parse_rest parse_ixfr ixfr_loop diff_step
    delete_section to_section add_section finish is_soa_at before_soa from_soa mark domains_with
    ixfr_answer diff_records after_soa policy_owners collect_owners note policy_owner is_policy_type
    name rrtype_of policy_rr normalize_policy_domain trim_space trim_right trim_left is_space
    trim_suffix text_beq has_suffix has_prefix lower lower_byte equal_fold serial_greater sort
    insert_sorted set_insert text_leb get put remove mem
small_parsed = refl

parse-disjoint_example :
    (small_delta.from_serial ≡ 1)
    × ((small_delta.full ≡ true) ⊎ (serial_greater small_delta.to_serial 1 ≡ true))
    × ((x : Text) → (mem x small_delta.added && mem x small_delta.deleted) ≡ false)
parse-disjoint_example =
    parse-disjoint dns (ixfr_answer zone zone first_diff [] 2) zone 1 7 {delta = small_delta}
      small_parsed
