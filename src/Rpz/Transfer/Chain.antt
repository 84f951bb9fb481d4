-- ===== src/Rpz/Transfer/Chain.antt =====
-- `parseTransferRecords` of tools/rpz-master/slave_client.go on the IXFR answer of a chain of diffs.
use dnsdist_edge.Prelude.{
  ℕ, zero, suc, ◌≤◌, ◌≡◌, ◌≢◌, refl, Bool, true, false, not, ◌&&◌, ◌||◌, none, some, List, [], ◌∷◌,
  ◌++◌, map, arith, nat_eq, length, length-append, All, ok,
}
use dnsdist_edge.Text.{Text, text_eq}
use dnsdist_edge.Text.Laws.{equal_fold_refl}
use dnsdist_edge.Text.Sort.{mem, sort, mem-sort}
use dnsdist_edge.Map.{get}
use dnsdist_edge.Rpz.Serial.{serial_greater}
use dnsdist_edge.Rpz.Types.{Dns, DnsLaws, Rr, soa, Delta}
use dnsdist_edge.Rpz.Domain.Laws.{
  IsPolicyDomain, IsZone, policy_rr, domain_set, policy_owners-policy_rr,
}
use dnsdist_edge.Rpz.Transfer.{
  Changes, mark, domains_with, before_soa, from_soa, is_soa_at, add_section, to_section,
  delete_section, diff_step, finish, ixfr_loop, parse_ixfr, parse_rest, parse_zone_records,
  parse_transfer_records,
}
use dnsdist_edge.Rpz.Transfer.Diffs.{
  Diff, replay, mark_diffs, mark_diffs-Distinct, verdict-mark_diffs, mem-domains_with,
}

-- The diffs lead from the serial `current` to `target`, each to a newer serial that does not pass it.
abbrev pub IsChain : ℕ → ℕ → Diff → List Diff → Type 0
IsChain current target d [] =
    (d.from ≡ current) × (serial_greater d.to d.from ≡ true) × (d.to ≡ target)
IsChain current target d (e ∷ diffs) =
    (d.from ≡ current)
    × (serial_greater d.to d.from ≡ true)
    × (d.to ≢ target)
    × (serial_greater target d.to ≡ true)
    × IsChain d.to target e diffs

-- Every domain that the diff names is one the program can store.
pub record HasPolicyDomains (dns : Dns) (d : Diff) : Type 0 where
  pub deletes : All (IsPolicyDomain dns) d.deletes
  pub adds : All (IsPolicyDomain dns) d.adds

-- The answer's records after the first: for each diff its from-SOA, deletes, to-SOA and adds, and at
-- the end the SOA of the target.
pub next_serial : List Diff → ℕ → ℕ
next_serial [] target = target
next_serial (d ∷ diffs) target = d.from

unfoldable pub diff_records : Text → Text → Diff → List Rr → List Rr
diff_records zone cname d rest =
    map (policy_rr zone cname) d.deletes
    ++ soa zone d.to ∷ (map (policy_rr zone cname) d.adds ++ rest)

unfoldable pub after_soa : Text → Text → List Diff → ℕ → List Rr
unfolding diff_records next_serial
after_soa zone cname [] target = []
after_soa zone cname (d ∷ diffs) target =
    diff_records zone cname d
      (soa zone (next_serial diffs target) ∷ after_soa zone cname diffs target)

-- The whole answer.
unfoldable pub ixfr_answer : Text → Text → Diff → List Diff → ℕ → List Rr
unfolding after_soa
ixfr_answer zone cname d diffs target =
    soa zone target ∷ soa zone d.from ∷ after_soa zone cname (d ∷ diffs) target

get-none : (x : Text) → get {V = Bool} [] x ≡ none
unfolding get
get-none x = refl

next_from :
    (current target : ℕ) (d : Diff) (diffs : List Diff)
    → IsChain current target d diffs
    → d.from ≡ current
next_from current target d [] c = c.0
next_from current target d (e ∷ diffs) c = c.0

before_soa-policy_rr :
    (zone cname : Text) (ds : List Text) (s : ℕ) (rest : List Rr)
    → before_soa (map (policy_rr zone cname) ds ++ soa zone s ∷ rest)
      ≡ map (policy_rr zone cname) ds
unfolding before_soa policy_rr
before_soa-policy_rr zone cname [] s rest = refl
before_soa-policy_rr zone cname (d ∷ ds) s rest = rw (before_soa-policy_rr zone cname ds s rest)

from_soa-policy_rr :
    (zone cname : Text) (ds : List Text) (s : ℕ) (rest : List Rr)
    → from_soa (map (policy_rr zone cname) ds ++ soa zone s ∷ rest) ≡ soa zone s ∷ rest
unfolding from_soa policy_rr
from_soa-policy_rr zone cname [] s rest = refl
from_soa-policy_rr zone cname (d ∷ ds) s rest = from_soa-policy_rr zone cname ds s rest

is_soa_at_self : (zone : Text) (s : ℕ) → is_soa_at zone s (soa zone s) ≡ true
unfolding is_soa_at
is_soa_at_self zone s = ground (arith, equal_fold_refl zone)

-- The delta that is read from a map of changes.
unfoldable pub parsed : ℕ → ℕ → ℕ → Changes → Delta
parsed current target now changes = record {
  from_serial = current;
  to_serial = target;
  timestamp = now;
  full = false;
  added = sort (domains_with true changes);
  deleted = sort (domains_with false changes);
  staged_raw = none;
}

-- On every domain that delta does what the diffs do one after another.
pub parsed-replay :
    (current target now : ℕ) (diffs : List Diff) (x : Text) (present : Bool)
    → ((present && not (mem x (parsed current target now (mark_diffs diffs [])).deleted))
        || mem x (parsed current target now (mark_diffs diffs [])).added)
      ≡ replay x diffs present
unfolding parsed
parsed-replay current target now diffs x present =
    let changes = mark_diffs diffs [] in
    let once = mark_diffs-Distinct diffs [] tt in
    ground (
      arith,
      mem-sort x (domains_with true changes),
      mem-sort x (domains_with false changes),
      mem-domains_with x true changes once,
      mem-domains_with x false changes once,
      verdict-mark_diffs x diffs [] present,
      get-none x,
    )

module _ (dns : Dns) (laws : DnsLaws dns) (zone : Text) (zoned : IsZone dns zone)
    (cname : Text) where
  add_section-diff :
      (to : ℕ) (changes : Changes) (adds : List Text) (rest : List Rr)
      → All (IsPolicyDomain dns) adds
      → add_section dns zone to changes (map (policy_rr zone cname) adds ++ soa zone to ∷ rest)
        ≡ ok (to, mark true (domain_set adds) changes, soa zone to ∷ rest)
  unfolding add_section
  add_section-diff to changes adds rest h = ground (
    arith,
    from_soa-policy_rr zone cname adds to rest,
    before_soa-policy_rr zone cname adds to rest,
    policy_owners-policy_rr dns laws zone zoned cname adds h,
    is_soa_at_self zone to,
  )

  diff_step-diff :
      (d : Diff) (changes : Changes) (rest : List Rr)
      → HasPolicyDomains dns d
      → serial_greater d.to d.from ≡ true
      → diff_step dns zone d.from changes
          (soa zone d.from ∷ diff_records zone cname d (soa zone d.to ∷ rest))
        ≡ ok (
          d.to,
          mark true (domain_set d.adds) (mark false (domain_set d.deletes) changes),
          soa zone d.to ∷ rest,
        )
  unfolding diff_step delete_section to_section diff_records
  diff_step-diff d changes rest h newer =
      let after = map (policy_rr zone cname) d.adds ++ soa zone d.to ∷ rest in
      ground (
        arith,
        is_soa_at_self zone d.from,
        from_soa-policy_rr zone cname d.deletes d.to after,
        before_soa-policy_rr zone cname d.deletes d.to after,
        equal_fold_refl zone,
        policy_owners-policy_rr dns laws zone zoned cname d.deletes h.deletes,
        add_section-diff d.to (mark false (domain_set d.deletes) changes) d.adds rest h.adds,
      )

  ixfr_loop-chain :
      (fuel current target : ℕ) (changes : Changes) (d : Diff) (diffs : List Diff)
      → IsChain current target d diffs
      → All (HasPolicyDomains dns) (d ∷ diffs)
      → length diffs ≤ fuel
      → ixfr_loop dns zone target
          (suc fuel)
          d.from
          changes
          (soa zone d.from ∷ after_soa zone cname (d ∷ diffs) target)
        ≡ ok (mark_diffs (d ∷ diffs) changes)
  unfolding ixfr_loop after_soa mark_diffs finish
  ixfr_loop-chain fuel current target changes d [] c h room =
      ground (arith, diff_step-diff d changes [] h.0 c.1)
  ixfr_loop-chain zero current target changes d (e ∷ diffs) c h room = absurd (omega arith)
  ixfr_loop-chain (suc fuel) current target changes d (e ∷ diffs) c h room =
      let changes' = mark true (domain_set d.adds) (mark false (domain_set d.deletes) changes) in
      ground (
        arith,
        diff_step-diff d changes (after_soa zone cname (e ∷ diffs) target) h.0 c.1,
        ixfr_loop-chain fuel d.to target changes' e diffs c.4 h.1 (omega arith),
        next_from d.to target e diffs c.4,
      )

  room_for_diffs :
      (d : Diff) (diffs : List Diff) (target : ℕ)
      → length diffs ≤ length (after_soa zone cname (d ∷ diffs) target)
  unfolding after_soa
  room_for_diffs d [] target = omega arith
  room_for_diffs d (e ∷ diffs) target =
      let rest = soa zone e.from ∷ after_soa zone cname (e ∷ diffs) target in
      omega (
        arith,
        room_for_diffs e diffs target,
        length-append (map (policy_rr zone cname) d.deletes)
            (soa zone d.to ∷ (map (policy_rr zone cname) d.adds ++ rest)),
        length-append (map (policy_rr zone cname) d.adds) rest,
      )

  pub parse-chain :
      (current target now : ℕ) (d : Diff) (diffs : List Diff)
      → IsChain current target d diffs
      → All (HasPolicyDomains dns) (d ∷ diffs)
      → serial_greater target current ≡ true
      → parse_transfer_records dns (ixfr_answer zone cname d diffs target) zone current now
        ≡ ok (some (parsed current target now (mark_diffs (d ∷ diffs) [])))
  unfolding parse_transfer_records parse_zone_records parse_rest parse_ixfr ixfr_answer parsed
  parse-chain current target now d diffs c h newer =
      rw (zoned.qualified, zoned.lowered)
        (ground (
          arith,
          equal_fold_refl zone,
          next_from current target d diffs c,
          ixfr_loop-chain (suc (length (after_soa zone cname (d ∷ diffs) target))) current target []
              d diffs c h (omega (arith, room_for_diffs d diffs target)),
        ))

  -- An answer with any chain of diffs to a newer serial is read as one delta between the two serials
  -- which, on every domain, does what the diffs do one after another.
  pub parse-ixfr_answer :
      (current target now : ℕ) (d : Diff) (diffs : List Diff)
      → IsChain current target d diffs
      → All (HasPolicyDomains dns) (d ∷ diffs)
      → serial_greater target current ≡ true
      → (delta : Delta) × (parse_transfer_records dns
            (ixfr_answer zone cname d diffs target)
            zone
            current
            now
          ≡ ok (some delta))
        × (delta.from_serial ≡ current)
        × (delta.to_serial ≡ target)
        × (delta.full ≡ false)
        × ((x : Text) (present : Bool)
            → ((present && not (mem x delta.deleted)) || mem x delta.added)
              ≡ replay x (d ∷ diffs) present)
  unfolding parsed
  parse-ixfr_answer current target now d diffs c h newer = (
    parsed current target now (mark_diffs (d ∷ diffs) []),
    parse-chain current target now d diffs c h newer,
    refl,
    refl,
    refl,
    parsed-replay current target now (d ∷ diffs),
  )
