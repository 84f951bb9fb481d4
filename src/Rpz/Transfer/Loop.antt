-- ===== src/Rpz/Transfer/Loop.antt =====
-- The loop of `parseTransferRecords` in tools/rpz-master/slave_client.go: its rounds and its checks.
use dnsdist_edge.Prelude.{
  ℕ, zero, suc, ◌≤◌, ◌<◌, ◌≡◌, ◌≢◌, ◌⊎◌, refl, ap, Bool, true, false, ◌&&◌, Option, some, List, [],
  ◌∷◌, arith, ◌==◌, nat_eq, length, Bool-cases, inl, inr, Result, ok, err, Result-cases, ◌>>=◌,
}
use mathlib.Core.Path.{subst}
use dnsdist_edge.Text.{Text, text_eq, lower}
use dnsdist_edge.Text.Sort.{mem, mem-sort}
use dnsdist_edge.Map.{get}
use dnsdist_edge.Map.Distinct.{Distinct}
use dnsdist_edge.Rpz.Serial.{serial_greater}
use dnsdist_edge.Rpz.Types.{Dns, Rr, soa, rr, Delta, Error}
use dnsdist_edge.Rpz.Domain.{
  normalize_policy_domain, policy_owner, note, collect_owners, policy_owners,
}
use dnsdist_edge.Rpz.Transfer.{
  Changes, mark, domains_with, before_soa, from_soa, add_section, to_section, delete_section,
  diff_step, finish, ixfr_loop, parse_ixfr, parse_axfr, parse_rest, all_but_last,
  parse_zone_records, parse_transfer_records,
}
use dnsdist_edge.Rpz.Transfer.Diffs.{is_marked, mark-Distinct, mem-domains_with}

abbrev NotFuel : {A : Type 0} → Result Error A → Type 0
NotFuel m = m ≢ err Error.out_of_fuel

NotFuel-bind :
    {A B : Type 0} (m : Result Error A) (f : A → Result Error B)
    → NotFuel m
    → ((a : A) → m ≡ ok a → NotFuel (f a))
    → NotFuel (m >>= f)
NotFuel-bind (ok a) f hm hf = hf a refl
NotFuel-bind (err e) f hm hf = ground arith

policy_owner-NotFuel : (dns : Dns) (zone : Text) (r : Rr) → NotFuel (policy_owner dns zone r)
unfolding policy_owner normalize_policy_domain
policy_owner-NotFuel dns zone r = ground arith

collect_owners-NotFuel :
    (dns : Dns) (zone : Text) (seen : List Text) (records : List Rr)
    → NotFuel (collect_owners dns zone seen records)
unfolding collect_owners
collect_owners-NotFuel dns zone seen [] = ground arith
collect_owners-NotFuel dns zone seen (r ∷ records) =
    NotFuel-bind (policy_owner dns zone r) _ (policy_owner-NotFuel dns zone r)
      λ o e. collect_owners-NotFuel dns zone (note o seen) records

policy_owners-NotFuel :
    (dns : Dns) (records : List Rr) (zone : Text) → NotFuel (policy_owners dns records zone)
unfolding policy_owners
policy_owners-NotFuel dns records zone =
    NotFuel-bind (collect_owners dns zone [] records) _ (collect_owners-NotFuel dns zone [] records)
      λ seen e. ground arith

length-from_soa : (records : List Rr) → length (from_soa records) ≤ length records
unfolding from_soa
length-from_soa [] = omega arith
length-from_soa (soa n s ∷ records) = omega arith
length-from_soa (rr n t d ∷ records) = omega (arith, length-from_soa records)

module _ (dns : Dns) (zone : Text) where
  add_section-NotFuel :
      (to : ℕ) (changes : Changes) (records : List Rr)
      → NotFuel (add_section dns zone to changes records)
  unfolding add_section
  add_section-NotFuel to changes records =
      ground (arith, policy_owners-NotFuel dns (before_soa records) zone)

  delete_section-NotFuel :
      (from : ℕ) (changes : Changes) (records : List Rr)
      → NotFuel (delete_section dns zone from changes records)
  unfolding delete_section to_section
  delete_section-NotFuel from changes records =
      grind (arith, policy_owners-NotFuel dns (before_soa records) zone, add_section-NotFuel)

  diff_step-NotFuel :
      (expected : ℕ) (changes : Changes) (records : List Rr)
      → NotFuel (diff_step dns zone expected changes records)
  unfolding diff_step
  diff_step-NotFuel expected changes [] = ground arith
  diff_step-NotFuel expected changes (r ∷ records) =
      ground (arith, delete_section-NotFuel expected changes records)

  add_section-ok :
      (to : ℕ) (changes : Changes) (records : List Rr) {to' : ℕ} {changes' : Changes}
      {rest : List Rr}
      → add_section dns zone to changes records ≡ ok (to', changes', rest)
      → (to' ≡ to)
        × (length rest ≤ length records)
        × (added : List Text) × (changes' ≡ mark true added changes)
  unfolding add_section
  add_section-ok to changes records h =
      elim (Result-cases (policy_owners dns (before_soa records) zone)) [
        | inl (added, e) ↦
            (ground arith, ground (arith, length-from_soa records), added, ground arith)
        | inr (e, p) ↦ absurd (ground arith)
      ]

  to_section-ok :
      (from : ℕ) (changes : Changes) (deletes : List Rr) (to_rr : Rr) (records : List Rr) {to : ℕ}
      {changes' : Changes} {rest : List Rr}
      → to_section dns zone from changes deletes to_rr records ≡ ok (to, changes', rest)
      → (length rest ≤ length records)
        × (serial_greater to from ≡ true)
        × (added : List Text) × (deleted : List Text) × (changes'
            ≡ mark true added (mark false deleted changes))
  unfolding to_section
  to_section-ok from changes deletes (rr n t d) records h = absurd (ground arith)
  to_section-ok from changes deletes (soa n to) records {to = reached} {changes' = changes'}
        {rest = rest} h =
      elim (Result-cases (policy_owners dns deletes zone)) [
        | inl (deleted, e) ↦
            let deleted_changes = mark false deleted changes in
            let (same, shorter, added, marked) =
              add_section-ok to deleted_changes records {to' = reached} {changes' = changes'}
                {rest = rest} (ground arith) in
            (shorter, ground arith, added, deleted, marked)
        | inr (e, p) ↦ absurd (ground arith)
      ]

  -- What a round that succeeds has done: it moved to a newer serial and consumed records.
  diff_step-progress :
      (expected : ℕ) (changes : Changes) (records : List Rr) {to : ℕ} {changes' : Changes}
      {rest : List Rr}
      → diff_step dns zone expected changes records ≡ ok (to, changes', rest)
      → (length rest < length records)
        × (serial_greater to expected ≡ true)
        × (Distinct changes → Distinct changes')
  unfolding diff_step delete_section
  diff_step-progress expected changes [] h = absurd (ground arith)
  diff_step-progress expected changes (r ∷ records) {to = to} {changes' = changes'} {rest = rest}
        h =
      go (from_soa records) refl
    where
      go :
          (l : List Rr)
          → from_soa records ≡ l
          → (length rest < length (r ∷ records))
            × (serial_greater to expected ≡ true)
            × (Distinct changes → Distinct changes')
      go [] e = absurd (ground arith)
      go (to_rr ∷ after) e =
          let (shorter, newer, added, deleted, marked) =
            to_section-ok expected changes (before_soa records) to_rr after {to = to}
              {changes' = changes'} {rest = rest} (ground arith) in
          (
            omega (arith, length-from_soa records, ap (length {A = Rr}) e),
            newer,
            λ once.
                rw marked (mark-Distinct true added _ (mark-Distinct false deleted changes once)),
          )

  ixfr_loop-NotFuel :
      (target fuel expected : ℕ) (changes : Changes) (records : List Rr)
      → length records < fuel
      → NotFuel (ixfr_loop dns zone target fuel expected changes records)
  unfolding ixfr_loop finish
  ixfr_loop-NotFuel target zero expected changes records room = absurd (omega arith)
  ixfr_loop-NotFuel target (suc fuel) expected changes records room =
      NotFuel-bind (diff_step dns zone expected changes records) _
        (diff_step-NotFuel expected changes records)
        λ (to, changes', rest) e.
          let (shorter, _, _) = diff_step-progress expected changes records e in
          let later = ixfr_loop-NotFuel target fuel to changes' rest (omega arith) in ground arith

  -- A loop that succeeds leaves each domain once in the map, and the target is newer than the serial
  -- it started from, or one that was reached from it.
  ixfr_loop-Distinct :
      (target fuel expected : ℕ) (changes : Changes) (records : List Rr) {out : Changes}
      → Distinct changes
      → ixfr_loop dns zone target fuel expected changes records ≡ ok out
      → Distinct out
  unfolding ixfr_loop finish
  ixfr_loop-Distinct target zero expected changes records once h = absurd (ground arith)
  ixfr_loop-Distinct target (suc fuel) expected changes records {out} once h =
      elim (Result-cases (diff_step dns zone expected changes records)) [
        | inl ((to, changes', rest), e) ↦
            let keeps = (diff_step-progress expected changes records e).2 once in
            elim (Bool-cases (to == target)) [
              | inl done ↦ subst (λ (c : Changes). Distinct c) (ground arith) keeps
              | inr more ↦ ixfr_loop-Distinct target fuel to changes' rest keeps (ground arith)
            ]
        | inr (e, p) ↦ absurd (ground arith)
      ]

module _ (dns : Dns) (zone : Text) (serial current now : ℕ) where
  parse_axfr-NotFuel :
      (r : Rr) (records : List Rr) → NotFuel (parse_axfr dns zone serial current now r records)
  unfolding parse_axfr
  parse_axfr-NotFuel r records =
      ground (arith, policy_owners-NotFuel dns (all_but_last r records) zone)

  parse_ixfr-NotFuel :
      (records : List Rr) → NotFuel (parse_ixfr dns zone serial current now records)
  unfolding parse_ixfr
  parse_ixfr-NotFuel records = ground (
    arith,
    ixfr_loop-NotFuel dns zone serial (suc (length records)) current [] records (omega arith),
  )

  parse_rest-NotFuel :
      (r : Rr) (records : List Rr) → NotFuel (parse_rest dns zone serial current now r records)
  unfolding parse_rest
  parse_rest-NotFuel (rr n t d) records = parse_axfr-NotFuel (rr n t d) records
  parse_rest-NotFuel (soa n s) records = ground (arith, parse_ixfr-NotFuel (soa n s ∷ records))

-- Reading an answer never stops for want of rounds: one round for each record is enough.
pub parse_transfer_records-NotFuel :
    (dns : Dns) (records : List Rr) (zone : Text) (current now : ℕ)
    → parse_transfer_records dns records zone current now ≢ err Error.out_of_fuel
unfolding parse_transfer_records parse_zone_records
parse_transfer_records-NotFuel dns [] zone current now = ground arith
parse_transfer_records-NotFuel dns (rr n t d ∷ records) zone current now = ground arith
parse_transfer_records-NotFuel dns (soa n s ∷ []) zone current now = ground arith
parse_transfer_records-NotFuel dns (soa n s ∷ r ∷ records) zone current now =
    ground (arith, parse_rest-NotFuel dns (lower (dns.fqdn zone)) s current now r records)

both_marked : (o : Option Bool) → (is_marked true o && is_marked false o) ≡ false
both_marked o = ground arith

module _ (dns : Dns) (zone : Text) (serial current now : ℕ) where
  parse_ixfr-disjoint :
      (records : List Rr) {delta : Delta}
      → parse_ixfr dns zone serial current now records ≡ ok (some delta)
      → (delta.from_serial ≡ current)
        × (delta.to_serial ≡ serial)
        × ((x : Text) → (mem x delta.added && mem x delta.deleted) ≡ false)
  unfolding parse_ixfr
  parse_ixfr-disjoint records {delta} h =
      elim (Result-cases (ixfr_loop dns zone serial (suc (length records)) current [] records)) [
        | inl (changes, e) ↦
            let once =
              ixfr_loop-Distinct dns zone serial (suc (length records)) current [] records tt e in
            (
              ground arith,
              ground arith,
              λ x. ground (
                arith,
                mem-sort x (domains_with true changes),
                mem-sort x (domains_with false changes),
                mem-domains_with x true changes once,
                mem-domains_with x false changes once,
                both_marked (get changes x),
              ),
            )
        | inr (e, p) ↦ absurd (ground arith)
      ]

  parse_rest-disjoint :
      (r : Rr) (records : List Rr) {delta : Delta}
      → parse_rest dns zone serial current now r records ≡ ok (some delta)
      → (delta.from_serial ≡ current)
        × (delta.to_serial ≡ serial)
        × ((delta.full ≡ true) ⊎ (serial_greater delta.to_serial current ≡ true))
        × ((x : Text) → (mem x delta.added && mem x delta.deleted) ≡ false)
  unfolding parse_rest
  parse_rest-disjoint (rr n t d) records {delta} h =
      unfold parse_axfr mem in (ground arith, ground arith, inl (ground arith), λ x. ground arith)
  parse_rest-disjoint (soa n s) records {delta} h =
      let (from, to, apart) =
        parse_ixfr-disjoint (soa n s ∷ records) {delta = delta} (ground arith) in
      (from, to, inr (ground arith), apart)

-- A delta that is read starts at the local serial; an incremental one ends at a newer serial; and no
-- domain is both added and deleted.
pub parse-disjoint :
    (dns : Dns) (records : List Rr) (zone : Text) (current now : ℕ) {delta : Delta}
    → parse_transfer_records dns records zone current now ≡ ok (some delta)
    → (delta.from_serial ≡ current)
      × ((delta.full ≡ true) ⊎ (serial_greater delta.to_serial current ≡ true))
      × ((x : Text) → (mem x delta.added && mem x delta.deleted) ≡ false)
unfolding parse_transfer_records parse_zone_records
parse-disjoint dns [] zone current now h = absurd (ground arith)
parse-disjoint dns (rr n t d ∷ records) zone current now h = absurd (ground arith)
parse-disjoint dns (soa n s ∷ []) zone current now h = absurd (ground arith)
parse-disjoint dns (soa n s ∷ r ∷ records) zone current now {delta} h =
    let (from, to, newer, apart) =
      parse_rest-disjoint dns (lower (dns.fqdn zone)) s current now r records {delta = delta}
        (ground arith) in
    (from, newer, apart)
