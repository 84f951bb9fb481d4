-- ===== src/Rpz/Domain/Laws.antt =====
-- The owners of records that stand for domains under a zone.
use dnsdist_edge.Prelude.{
  ℕ, ◌≡◌, refl, ap, true, false, ◌||◌, some, List, [], ◌∷◌, ◌++◌, map, arith, length, length-append,
  All, ok, Bool-cases, inl, inr, sym,
}
use dnsdist_edge.Text.{
  Text, text_eq, text_beq, text_beq_iff, trim_space, trim_suffix, lower, lower_byte,
}
use dnsdist_edge.Text.Laws.{trim_suffix-append, lower_idem, lower-append, text_beq_longer}
use dnsdist_edge.Text.Sort.{mem, sort, set_insert, mem-set_insert, mem-sort}
use mathlib.Core.List.{foldl, append_assoc}
use dnsdist_edge.Rpz.Types.{Dns, DnsLaws, IsPlain, Rr, rr, name, rrtype_of, type_cname}
use dnsdist_edge.Rpz.Domain.{
  dot, normalize_policy_domain, policy_owner, is_policy_type, note, collect_owners, policy_owners,
}

-- A domain as the program stores it: normalising leaves it alone, and no dot in it is escaped.
pub record IsPolicyDomain (dns : Dns) (d : Text) : Type 0 where
  pub normal : normalize_policy_domain dns d ≡ ok d
  pub plain : IsPlain d

-- A zone as the program compares it.
pub record IsZone (dns : Dns) (zone : Text) : Type 0 where
  pub qualified : dns.fqdn zone ≡ zone
  pub lowered : lower zone ≡ zone
  pub valid : dns.is_domain_name zone ≡ true

-- The CNAME record of a domain under the zone.
unfoldable pub policy_rr : Text → Text → Text → Rr
policy_rr zone target d = rr (d ++ b'.' ∷ zone) type_cname target

-- A normalised text is in lower case.
pub lower-normalize : (dns : Dns) (v d : Text) → normalize_policy_domain dns v ≡ ok d → lower d ≡ d
unfolding normalize_policy_domain
lower-normalize dns v d h = ground (arith, lower_idem (trim_suffix (trim_space v) dot))

text_beq-append_cons : (d s : Text) (c : ℕ) → text_beq (d ++ c ∷ s) s ≡ false
text_beq-append_cons [] s c = text_beq_longer c [] s
text_beq-append_cons (b ∷ d) s c = elim (Bool-cases (text_beq (b ∷ d ++ c ∷ s) s)) [
  | inl same ↦ absurd (
      omega (
        arith,
        ap (length {A = ℕ}) ((text_beq_iff (b ∷ d ++ c ∷ s) s).0 same),
        length-append d (c ∷ s),
      ))
  | inr other ↦ other
]

trim-zoned : (d zone : Text) → trim_suffix (trim_suffix (d ++ b'.' ∷ zone) zone) dot ≡ d
trim-zoned d zone =
    let e : d ++ b'.' ∷ zone ≡ (d ++ dot) ++ zone = sym (append_assoc d dot zone) in
    rw (e, trim_suffix-append (d ++ dot) zone) (trim_suffix-append d dot)

-- The given domains, each once, sorted.
unfoldable pub domain_set : List Text → List Text
domain_set ds = sort (foldl (λ s d. set_insert d s) [] ds)

mem-foldl_insert :
    (x : Text) (seen ds : List Text)
    → mem x (foldl (λ s d. set_insert d s) seen ds) ≡ (mem x ds || mem x seen)
unfolding mem
mem-foldl_insert x seen [] = refl
mem-foldl_insert x seen (d ∷ ds) =
    ground (arith, mem-foldl_insert x (set_insert d seen) ds, mem-set_insert x d seen)

pub mem-domain_set : (x : Text) (ds : List Text) → mem x (domain_set ds) ≡ mem x ds
unfolding domain_set mem
mem-domain_set x ds =
    let insert = λ (s : List Text) (d : Text). set_insert d s in
    ground (arith, mem-sort x (foldl insert [] ds), mem-foldl_insert x [] ds)

module _ (dns : Dns) (laws : DnsLaws dns) (zone : Text) (zoned : IsZone dns zone) where
  owner-policy_rr :
      (target d : Text)
      → lower d ≡ d
      → lower (dns.fqdn (name (policy_rr zone target d))) ≡ d ++ b'.' ∷ zone
  unfolding name policy_rr lower_byte
  owner-policy_rr target d low =
      rw (laws.fqdn-append d zone zoned.qualified, lower-append d (b'.' ∷ zone), low)
        (unfold lower in ap (λ z. d ++ b'.' ∷ z) zoned.lowered)

  -- The record of a policy domain puts exactly that domain into the set.
  pub policy_owner-policy_rr :
      (target d : Text)
      → IsPolicyDomain dns d
      → policy_owner dns zone (policy_rr zone target d) ≡ ok (some d)
  unfolding policy_owner is_policy_type rrtype_of
  policy_owner-policy_rr target d p =
      rw
        (
          owner-policy_rr target d (lower-normalize dns d d p.normal),
          laws.is_sub_domain-append d zone p.plain zoned.valid,
          text_beq-append_cons d zone b'.',
          trim-zoned d zone,
          p.normal,
        )
        (unfold policy_rr in refl)

  collect_owners-policy_rr :
      (target : Text) (seen ds : List Text)
      → All (IsPolicyDomain dns) ds
      → collect_owners dns zone seen (map (policy_rr zone target) ds)
        ≡ ok (foldl (λ s d. set_insert d s) seen ds)
  unfolding collect_owners note
  collect_owners-policy_rr target seen [] h = refl
  collect_owners-policy_rr target seen (d ∷ ds) h =
      rw (policy_owner-policy_rr target d h.0)
        (collect_owners-policy_rr target (set_insert d seen) ds h.1)

  -- The records of policy domains have exactly those domains as policy owners, sorted.
  pub policy_owners-policy_rr :
      (target : Text) (ds : List Text)
      → All (IsPolicyDomain dns) ds
      → policy_owners dns (map (policy_rr zone target) ds) zone ≡ ok (domain_set ds)
  unfolding policy_owners domain_set
  policy_owners-policy_rr target ds h = rw (collect_owners-policy_rr target [] ds h)
