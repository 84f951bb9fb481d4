-- ===== src/Rpz/Delta/Replay.antt =====
-- From the records of an IXFR answer to the raw file (tools/rpz-master/slave_client.go).
use dnsdist_edge.Prelude.{
  ℕ, ◌≡◌, refl, Bool, true, false, some, List, [], ◌∷◌, ◌++◌, arith, ◌==◌, is_some, All, ok,
  Result-cases, inl, inr, Bool-cases,
}
use dnsdist_edge.Text.{Text, text_eq, text_beq_iff, trim_space}
use dnsdist_edge.Text.Sort.{mem, sort, mem-sort}
use dnsdist_edge.Map.{get}
use dnsdist_edge.Map.Distinct.{Distinct}
use dnsdist_edge.Rpz.Serial.{serial_greater}
use dnsdist_edge.Rpz.Types.{Dns, DnsLaws, Delta}
use dnsdist_edge.Rpz.Domain.{normalize_policy_domain}
use dnsdist_edge.Rpz.Domain.Laws.{IsPolicyDomain, IsZone, domain_set, mem-domain_set}
use dnsdist_edge.Rpz.Transfer.{Changes, mark, domains_with, parse_transfer_records}
use dnsdist_edge.Rpz.Transfer.Diffs.{
  Diff, replay, mark_diffs, get-mark, mark_diffs-Distinct, mem-domains_with,
}
use dnsdist_edge.Rpz.Transfer.Chain.{
  IsChain, HasPolicyDomains, ixfr_answer, parsed, parse-chain, parsed-replay,
}
use dnsdist_edge.Rpz.Transfer.Loop.{parse-disjoint}
use dnsdist_edge.Rpz.Delta.{
  set_remove, remaining, apply_line, apply_lines, old_lines, is_skipped, apply_delta_to_file,
}
use dnsdist_edge.Rpz.Delta.Laws.{listed, IsNormal, mem-clean_set, mem-apply_delta}

All-IsNormal : (dns : Dns) (ds : List Text) → All (IsPolicyDomain dns) ds → IsNormal dns ds
unfolding mem
All-IsNormal dns [] h x m = absurd (ground arith)
All-IsNormal dns (d ∷ ds) h x m = elim (Bool-cases (x == d)) [
  | inl same ↦ rw ((text_beq_iff x d).0 same) h.0.normal
  | inr other ↦ All-IsNormal dns ds h.1 x (ground arith)
]

-- Every domain that the map of changes names is normal.
abbrev Normal : Dns → Changes → Type 0
Normal dns changes =
    (x : Text) → is_some (get changes x) ≡ true → normalize_policy_domain dns x ≡ ok x

mark-Normal :
    (dns : Dns) (present : Bool) (ds : List Text) (changes : Changes)
    → IsNormal dns ds
    → Normal dns changes
    → Normal dns (mark present ds changes)
mark-Normal dns present ds changes hd hc x m = elim (Bool-cases (mem x ds)) [
  | inl here ↦ hd x here
  | inr there ↦ hc x (ground (arith, get-mark present ds changes x))
]

domain_set-IsNormal :
    (dns : Dns) (ds : List Text) → All (IsPolicyDomain dns) ds → IsNormal dns (domain_set ds)
domain_set-IsNormal dns ds h x m = All-IsNormal dns ds h x (rw mem-domain_set at m)

mark_diffs-Normal :
    (dns : Dns) (diffs : List Diff) (changes : Changes)
    → All (HasPolicyDomains dns) diffs
    → Normal dns changes
    → Normal dns (mark_diffs diffs changes)
unfolding mark_diffs
mark_diffs-Normal dns [] changes h hc = hc
mark_diffs-Normal dns (d ∷ diffs) changes h hc = mark_diffs-Normal dns diffs _ h.1 (
    mark-Normal dns true (domain_set d.adds) _ (domain_set-IsNormal dns d.adds h.0.adds) (
      mark-Normal dns false (domain_set d.deletes) changes
        (domain_set-IsNormal dns d.deletes h.0.deletes) hc))

domains_with-IsNormal :
    (dns : Dns) (present : Bool) (changes : Changes)
    → Distinct changes
    → Normal dns changes
    → IsNormal dns (domains_with present changes)
domains_with-IsNormal dns present changes once h x m =
    h x (ground (arith, mem-domains_with x present changes once))

-- Where the old file can be read, the loop over it succeeds: one line, then all.
apply_line-total :
    (dns : Dns) (deleted lines out add cleans : List Text) (text : Text)
    → listed dns (text ∷ lines) ≡ ok cleans
    → (next : List Text × List Text) × (apply_line dns deleted out add text ≡ ok next)
      × (rest : List Text) × (listed dns lines ≡ ok rest)
unfolding apply_line listed
apply_line-total dns deleted lines out add cleans text h =
    elim (Bool-cases (is_skipped (trim_space text))) [
      | inl skip ↦ ((out, add), ground arith, cleans, ground arith)
      | inr keep ↦ elim (Result-cases (normalize_policy_domain dns (trim_space text))) [
        | inr (e, p) ↦ absurd (ground arith)
        | inl (clean, e) ↦ elim (Result-cases (listed dns lines)) [
          | inr (e', p) ↦ absurd (ground arith)
          | inl (rest, r) ↦ elim (Bool-cases (mem clean deleted)) [
            | inl gone ↦ ((out, add), ground arith, rest, r)
            | inr stays ↦ ((out ++ clean ∷ [], set_remove clean add), ground arith, rest, r)
          ]
        ]
      ]
    ]

apply_lines-total :
    (dns : Dns) (deleted lines out add cleans : List Text)
    → listed dns lines ≡ ok cleans
    → (last : List Text × List Text) × (apply_lines dns deleted out add lines ≡ ok last)
unfolding apply_lines
apply_lines-total dns deleted [] out add cleans h = ((out, add), refl)
apply_lines-total dns deleted (text ∷ lines) out add cleans h =
    let ((out', add'), e, rest, r) = apply_line-total dns deleted lines out add cleans text h in
    let (end, e') = apply_lines-total dns deleted lines out' add' rest r in (end, rw e e')

apply_delta-total :
    (dns : Dns) (lines cleans : List Text) (delta : Delta)
    → delta.full ≡ false
    → IsNormal dns delta.added
    → IsNormal dns delta.deleted
    → listed dns lines ≡ ok cleans
    → (out : List Text) × (apply_delta_to_file dns true (some lines) (some delta) ≡ ok out)
unfolding apply_delta_to_file old_lines
apply_delta-total dns lines cleans delta incremental na nd h =
    let (add, ea, _) = mem-clean_set dns [] delta.added na in
    let (deleted, ed, _) = mem-clean_set dns [] delta.deleted nd in
    let ((kept, todo), e) = apply_lines-total dns deleted lines [] add cleans h in
    (kept ++ sort (remaining deleted todo), ground arith)

parsed-IsNormal :
    (dns : Dns) (current target now : ℕ) (diffs : List Diff)
    → All (HasPolicyDomains dns) diffs
    → IsNormal dns (parsed current target now (mark_diffs diffs [])).added
      × IsNormal dns (parsed current target now (mark_diffs diffs [])).deleted
unfolding parsed
parsed-IsNormal dns current target now diffs h =
    let changes = mark_diffs diffs [] in
    let once = mark_diffs-Distinct diffs [] tt in
    let normal = mark_diffs-Normal dns diffs [] h (λ x m. absurd (unfold get in ground arith)) in
    (
      λ x m. domains_with-IsNormal dns true changes once normal x (rw mem-sort at m),
      λ x m. domains_with-IsNormal dns false changes once normal x (rw mem-sort at m),
    )

module _ (dns : Dns) (laws : DnsLaws dns) (zone : Text) (zoned : IsZone dns zone)
    (cname : Text) where
  -- An IXFR answer with any chain of diffs to a newer serial is read, and its delta is applied to any
  -- raw file that can be read; each domain is then in the file exactly if replaying the diffs one
  -- after another from the old file leaves it listed.
  pub apply-ixfr_answer :
      (current target now : ℕ) (d : Diff) (diffs : List Diff) (lines cleans : List Text)
      → IsChain current target d diffs
      → All (HasPolicyDomains dns) (d ∷ diffs)
      → serial_greater target current ≡ true
      → listed dns lines ≡ ok cleans
      → (delta : Delta) × (out : List Text) × (parse_transfer_records dns
            (ixfr_answer zone cname d diffs target)
            zone
            current
            now
          ≡ ok (some delta))
        × (apply_delta_to_file dns true (some lines) (some delta) ≡ ok out)
        × ((x : Text) → mem x out ≡ replay x (d ∷ diffs) (mem x cleans))
  apply-ixfr_answer current target now d diffs lines cleans c h newer l =
      let delta = parsed current target now (mark_diffs (d ∷ diffs) []) in
      let read = parse-chain dns laws zone zoned cname current target now d diffs c h newer in
      let (na, nd) = parsed-IsNormal dns current target now (d ∷ diffs) h in
      let (out, e) = apply_delta-total dns lines cleans delta (unfold parsed in refl) na nd l in
      let (cleans', l', holds) =
        mem-apply_delta dns true lines delta {out = out} (unfold parsed in refl) na nd e in
      (
        delta,
        out,
        read,
        e,
        λ x. ground (
          arith,
          holds x,
          l,
          l',
          parsed-replay current target now (d ∷ diffs) x (mem x cleans),
          (parse-disjoint dns (ixfr_answer zone cname d diffs target) zone current now
                {delta = delta} read).2
              x,
        ),
      )
