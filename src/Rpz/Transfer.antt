-- ===== src/Rpz/Transfer.antt =====
-- `parseTransferRecords` of tools/rpz-master/slave_client.go: reading an AXFR or IXFR answer.
-- A position in `records` is the suffix of the list that begins there.
pub mod Diffs
pub mod Loop
pub mod Chain
use dnsdist_edge.Prelude.{
  ℕ, zero, suc, Bool, true, false, not, ◌&&◌, Option, none, some, List, [], ◌∷◌, nat_eq, ◌==◌,
  length, Eq, Result, ok, err, ◌>>=◌, if◌then◌else◌,
}
use dnsdist_edge.Text.{Text, text_eq, text_beq, equal_fold, lower}
use dnsdist_edge.Text.Sort.{sort}
use dnsdist_edge.Map.{Map, put}
use dnsdist_edge.Rpz.Serial.{serial_greater}
use dnsdist_edge.Rpz.Types.{Dns, Rr, soa, rr, Delta, Error}
use dnsdist_edge.Rpz.Domain.{policy_owners}

-- changes := make(map[string]bool)
abbrev pub Changes : Type 0
Changes = Map Text Bool

-- for _, domain := range domains { changes[domain] = present }
unfoldable pub mark : Bool → List Text → Changes → Changes
mark present [] changes = changes
mark present (d ∷ domains) changes = mark present domains (put changes d present)

-- The domains that `changes` maps to `present`.
unfoldable pub domains_with : Bool → Changes → List Text
domains_with present [] = []
domains_with present ((d, p) ∷ changes) =
    let rest = domains_with present changes in
    if (if present then p else not p) then d ∷ rest else rest

-- The records before the next SOA, and those from it on.
unfoldable pub before_soa : List Rr → List Rr
before_soa [] = []
before_soa (soa owner serial ∷ records) = []
before_soa (rr owner t rdata ∷ records) = rr owner t rdata ∷ before_soa records

unfoldable pub from_soa : List Rr → List Rr
from_soa [] = []
from_soa (soa owner serial ∷ records) = soa owner serial ∷ records
from_soa (rr owner t rdata ∷ records) = from_soa records

unfoldable pub is_soa_at : Text → ℕ → Rr → Bool
is_soa_at zone serial (soa owner s) = equal_fold owner zone && s == serial
is_soa_at zone serial (rr owner t rdata) = false

-- The add section after a to-SOA; the result holds the serial reached and the records from the next
-- SOA on.
unfoldable pub add_section :
    Dns → Text → ℕ → Changes → List Rr → Result Error (ℕ × Changes × List Rr)
add_section dns zone to changes records = elim (from_soa records) [
  | [] ↦ err Error.truncated_add
  | next ∷ rest ↦ do
    added ← policy_owners dns (before_soa records) zone
    if is_soa_at zone to next
        then ok (to, mark true added changes, next ∷ rest)
        else err Error.bad_next_soa
]

unfoldable pub to_section :
    Dns → Text → ℕ → Changes → List Rr → Rr → List Rr → Result Error (ℕ × Changes × List Rr)
to_section dns zone from changes deletes (soa owner to) rest =
    if equal_fold owner zone && serial_greater to from
    then (do
      deleted ← policy_owners dns deletes zone
      add_section dns zone to (mark false deleted changes) rest)
    else err Error.bad_to_soa
to_section dns zone from changes deletes (rr owner t rdata) rest = err Error.bad_to_soa

unfoldable pub delete_section :
    Dns → Text → ℕ → Changes → List Rr → Result Error (ℕ × Changes × List Rr)
delete_section dns zone from changes records = elim (from_soa records) [
  | [] ↦ err Error.truncated_delete
  | to ∷ rest ↦ to_section dns zone from changes (before_soa records) to rest
]

-- One round of the loop up to its last checks: from-SOA, deletes, to-SOA, adds, next SOA.
unfoldable pub diff_step : Dns → Text → ℕ → Changes → List Rr → Result Error (ℕ × Changes × List Rr)
diff_step dns zone expected changes [] = err Error.index_out_of_range
diff_step dns zone expected changes (from ∷ rest) =
    if is_soa_at zone expected from
    then delete_section dns zone expected changes rest
    else err Error.bad_from_soa

-- i++; if i != len(records) { return error }
unfoldable pub finish : Changes → List Rr → Result Error Changes
finish changes [] = err Error.index_out_of_range
finish changes (closing ∷ []) = ok changes
finish changes (closing ∷ extra ∷ rest) = err Error.trailing_record

unfoldable pub ixfr_loop : Dns → Text → ℕ → ℕ → ℕ → Changes → List Rr → Result Error Changes
ixfr_loop dns zone target zero expected changes records = err Error.out_of_fuel
ixfr_loop dns zone target (suc fuel) expected changes records = do
  (to, changes', rest) ← diff_step dns zone expected changes records
  elim (to == target) [
    | true ↦ finish changes' rest
    | false ↦ elim (serial_greater target to) [
      | true ↦ ixfr_loop dns zone target fuel to changes' rest
      | false ↦ err Error.past_target
    ]
  ]

-- The IXFR part, from the second SOA on.
unfoldable pub parse_ixfr : Dns → Text → ℕ → ℕ → ℕ → List Rr → Result Error (Option Delta)
parse_ixfr dns zone target current now records = do
  changes ← ixfr_loop dns zone target (suc (length records)) current [] records
  ok (
      some (record {
        from_serial = current;
        to_serial = target;
        timestamp = now;
        full = false;
        added = sort (domains_with true changes);
        deleted = sort (domains_with false changes);
        staged_raw = none;
      }))

-- records[:len(records)-1] and records[len(records)-1] of `r ∷ records`.
unfoldable pub all_but_last : Rr → List Rr → List Rr
all_but_last r [] = []
all_but_last r (s ∷ records) = r ∷ all_but_last s records

unfoldable pub last : Rr → List Rr → Rr
last r [] = r
last r (s ∷ records) = last s records

-- The AXFR part: the records after the first, the last of which must be the same SOA.
unfoldable pub parse_axfr : Dns → Text → ℕ → ℕ → ℕ → Rr → List Rr → Result Error (Option Delta)
parse_axfr dns zone serial current now second rest =
    if not (is_soa_at zone serial (last second rest)) then err Error.no_closing_soa else do
      added ← policy_owners dns (all_but_last second rest) zone
      ok (
          some (record {
            from_serial = current;
            to_serial = serial;
            timestamp = now;
            full = true;
            added = added;
            deleted = [];
            staged_raw = none;
          }))

-- The second record tells an IXFR answer from an AXFR answer.
unfoldable pub parse_rest : Dns → Text → ℕ → ℕ → ℕ → Rr → List Rr → Result Error (Option Delta)
parse_rest dns zone serial current now (rr owner t rdata) rest =
    parse_axfr dns zone serial current now (rr owner t rdata) rest
parse_rest dns zone serial current now (soa owner second) rest =
    if not (equal_fold owner zone && second == current)
    then err Error.ixfr_wrong_start
    else if not (serial_greater serial current)
    then err Error.ixfr_not_newer
    else parse_ixfr dns zone serial current now (soa owner second ∷ rest)

unfoldable pub parse_zone_records : Dns → List Rr → Text → ℕ → ℕ → Result Error (Option Delta)
parse_zone_records dns [] zone current now = err Error.empty_transfer
parse_zone_records dns (rr owner t rdata ∷ rest) zone current now = err Error.no_opening_soa
parse_zone_records dns (soa owner serial ∷ []) zone current now =
    if not (equal_fold owner zone)
    then err Error.no_opening_soa
    else if current == serial
    then ok none
    else err Error.truncated_after_soa
parse_zone_records dns (soa owner serial ∷ second ∷ rest) zone current now =
    if not (equal_fold owner zone)
    then err Error.no_opening_soa
    else parse_rest dns zone serial current now second rest

-- `now` is the reading of the clock.
unfoldable pub parse_transfer_records : Dns → List Rr → Text → ℕ → ℕ → Result Error (Option Delta)
parse_transfer_records dns records zone current now =
    parse_zone_records dns records (lower (dns.fqdn zone)) current now
