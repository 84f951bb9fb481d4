-- ===== src/Rpz/Sync/Channel.antt =====
-- A transfer whose envelopes all arrive is read as the sequence of its records, however the records
-- are divided among the envelopes.
use mathlib.Core.List.{append_assoc, append-nil}
use dnsdist_edge.Prelude.{
  ℕ, ◌≤◌, ◌≡◌, refl, sym, ◌∙◌, ap, List, [], ◌∷◌, ◌++◌, map, arith, length, length-append, ltb,
  Bool-cases, inl, inr, ok, Result-cases, ◌>>=◌,
}
use dnsdist_edge.Text.{Text}
use dnsdist_edge.Rpz.Types.{Dns, Rr}
use dnsdist_edge.Rpz.Sync.{
  records, Staging, process, process_all, process_envelopes, read_head, gather,
}

unfoldable pub all_records : List (List Rr) → List Rr
all_records [] = []
all_records (rrs ∷ envelopes) = rrs ++ all_records envelopes

pub all_records-append :
    (xs ys : List (List Rr)) → all_records (xs ++ ys) ≡ all_records xs ++ all_records ys
unfolding all_records
all_records-append [] ys = refl
all_records-append (x ∷ xs) ys = simp (all_records-append xs ys, append_assoc)

pub gather-records :
    (limit : ℕ) (rrs : List Rr) (envelopes : List (List Rr))
    → length (rrs ++ all_records envelopes) ≤ limit
    → gather limit rrs (map records envelopes) ≡ ok (rrs ++ all_records envelopes)
unfolding gather all_records
gather-records limit rrs [] h = ap ok (sym (append-nil rrs))
gather-records limit rrs (more ∷ envelopes) h =
    let regroup : (rrs ++ more) ++ all_records envelopes ≡ rrs ++ (more ++ all_records envelopes) =
      append_assoc rrs more (all_records envelopes) in
    let fits = gather-records limit (rrs ++ more) envelopes (rw regroup h) in
    ground (
      arith,
      fits,
      regroup,
      length-append rrs more,
      length-append (rrs ++ more) (all_records envelopes),
    )

-- The head that is read and the envelopes that are left hold all the records.
pub read_head-records :
    (head : List Rr) (envelopes : List (List Rr))
    → (head' : List Rr) × (rest : List (List Rr)) × (read_head head (map records envelopes)
        ≡ ok (head', map records rest))
      × (head' ++ all_records rest ≡ head ++ all_records envelopes)
      × (2 ≤ length (head ++ all_records envelopes) → 2 ≤ length head')
unfolding read_head all_records
read_head-records head [] = (head, [], refl, refl, λ h. rw append-nil at h)
read_head-records head (more ∷ envelopes) = elim (Bool-cases (ltb (length head) 2)) [
  | inl short ↦
      let (head', rest, e, same, two) = read_head-records (head ++ more) envelopes in
      let regroup : (head ++ more) ++ all_records envelopes
          ≡ head ++ (more ++ all_records envelopes) =
        append_assoc head more (all_records envelopes) in
      (head', rest, ground arith, same ∙ regroup, λ h. two (rw regroup h))
  | inr enough ↦ (head, more ∷ envelopes, ground arith, refl, λ h. ground arith)
]

pub process_all-append :
    (dns : Dns) (zone : Text) (first limit : ℕ) (xs ys : List Rr) (st : Staging)
    → process_all dns zone first limit (xs ++ ys) st
      ≡ (process_all dns zone first limit xs st >>= λ st'. process_all dns zone first limit ys st')
unfolding process_all
process_all-append dns zone first limit [] ys st = refl
process_all-append dns zone first limit (x ∷ xs) ys st =
    elim (Result-cases (process dns zone first limit x st)) [
      | inl (st', e) ↦ ground (arith, process_all-append dns zone first limit xs ys st')
      | inr (x', e) ↦ ground arith
    ]

pub process_envelopes-records :
    (dns : Dns) (zone : Text) (first limit : ℕ) (envelopes : List (List Rr)) (st : Staging)
    → process_envelopes dns zone first limit (map records envelopes) st
      ≡ process_all dns zone first limit (all_records envelopes) st
unfolding process_envelopes all_records
process_envelopes-records dns zone first limit [] st = unfold process_all in refl
process_envelopes-records dns zone first limit (rrs ∷ envelopes) st =
    elim (Result-cases (process_all dns zone first limit rrs st)) [
      | inl (st', e) ↦ ground (
        arith,
        process_all-append dns zone first limit rrs (all_records envelopes) st,
        process_envelopes-records dns zone first limit envelopes st',
      )
      | inr (x, e) ↦
          ground (arith, process_all-append dns zone first limit rrs (all_records envelopes) st)
    ]
