-- ===== src/Rpz/Delta/Laws.antt =====
-- What is in the file after a delta.
use dnsdist_edge.Prelude.{
  ◌≡◌, refl, Bool, true, false, not, ◌&&◌, ◌||◌, some, List, [], ◌∷◌, ◌++◌, arith, leb, length,
  ◌==◌, Result, ok, err, Result-cases, ◌>>=◌, inl, inr, if◌then◌else◌, Bool-cases,
}
use dnsdist_edge.Text.{Text, text_eq, text_beq_iff, trim_space}
use dnsdist_edge.Text.Sort.{mem, sort, set_insert, mem-append, mem-set_insert, mem-sort}
use dnsdist_edge.Rpz.Types.{Dns, Delta, Error}
use dnsdist_edge.Rpz.Domain.{normalize_policy_domain}
use dnsdist_edge.Rpz.Delta.{
  max_line, is_skipped, clean_set, set_remove, apply_line, apply_lines, remaining, old_lines,
  apply_delta_to_file,
}

-- The domains that a raw file lists, read line by line.
unfoldable pub listed : Dns → List Text → Result Error (List Text)
listed dns [] = ok []
listed dns (text ∷ lines) =
    if leb max_line (length text)
    then err Error.line_too_long
    else if is_skipped (trim_space text)
    then listed dns lines
    else do
      clean ← normalize_policy_domain dns (trim_space text)
      rest ← listed dns lines
      ok (clean ∷ rest)

-- A list whose domains normalising leaves alone.
abbrev pub IsNormal : Dns → List Text → Type 0
IsNormal dns ds = (x : Text) → mem x ds ≡ true → normalize_policy_domain dns x ≡ ok x

mem-set_remove :
    (z x : Text) (xs : List Text) → mem z (set_remove x xs) ≡ (not (z == x) && mem z xs)
unfolding set_remove mem
mem-set_remove z x [] = ground arith
mem-set_remove z x (y ∷ ys) =
    ground (arith, mem-set_remove z x ys, text_beq_iff x y, text_beq_iff z x, text_beq_iff z y)

mem-remaining :
    (z : Text) (deleted add : List Text)
    → mem z (remaining deleted add) ≡ (mem z add && not (mem z deleted))
unfolding remaining mem
mem-remaining z deleted [] = refl
mem-remaining z deleted (d ∷ add) = ground (arith, mem-remaining z deleted add, text_beq_iff z d)

module _ (dns : Dns) (deleted : List Text) where
  -- What the loop over the old file has written and has left to add.
  record Applied (cleans out add out' add' : List Text) : Type 0 where
    written : (z : Text) → mem z out' ≡ (mem z out || (mem z cleans && not (mem z deleted)))
    left : (z : Text) → mem z add' ≡ (mem z add && not (mem z cleans && not (mem z deleted)))

  -- What one line writes, as a list of at most one domain.
  line_domains : Text → Result Error (List Text)
  line_domains text =
      if leb max_line (length text)
      then err Error.line_too_long
      else if is_skipped (trim_space text)
      then ok []
      else do clean ← normalize_policy_domain dns (trim_space text); ok (clean ∷ [])

  apply_line-ok :
      (text : Text) (out add out' add' : List Text)
      → apply_line dns deleted out add text ≡ ok (out', add')
      → (cleans : List Text) × (line_domains text ≡ ok cleans) × Applied cleans out add out' add'
  unfolding apply_line line_domains mem
  apply_line-ok text out add out' add' h = elim (Bool-cases (is_skipped (trim_space text))) [
    | inl skip ↦
        ([], ground arith, record { written = λ z. ground arith; left = λ z. ground arith })
    | inr keep ↦ elim (Result-cases (normalize_policy_domain dns (trim_space text))) [
      | inl (clean, e) ↦ (
        clean ∷ [],
        ground arith,
        record {
          written = λ z. ground (arith, mem-append z out (clean ∷ []), text_beq_iff z clean);
          left = λ z. ground (arith, mem-set_remove z clean add, text_beq_iff z clean);
        },
      )
      | inr (e, p) ↦ absurd (ground arith)
    ]
  ]

  listed-cons :
      (text : Text) (lines here rest : List Text)
      → line_domains text ≡ ok here
      → listed dns lines ≡ ok rest
      → listed dns (text ∷ lines) ≡ ok (here ++ rest)
  unfolding listed line_domains
  listed-cons text lines here rest h k = ground arith

  apply_lines-ok :
      (lines out add out' add' : List Text)
      → apply_lines dns deleted out add lines ≡ ok (out', add')
      → (cleans : List Text) × (listed dns lines ≡ ok cleans) × Applied cleans out add out' add'
  unfolding apply_lines mem
  apply_lines-ok [] out add out' add' h =
      ([], unfold listed in refl, record { written = λ z. ground arith; left = λ z. ground arith })
  apply_lines-ok (text ∷ lines) out add out' add' h =
      elim (Result-cases (apply_line dns deleted out add text)) [
        | inl ((mid, todo), e) ↦
            let (here, line, first) = apply_line-ok text out add mid todo e in
            let (rest, more, then_) = apply_lines-ok lines mid todo out' add' (ground arith) in
            (
              here ++ rest,
              listed-cons text lines here rest line more,
              record {
                written =
                    λ z. ground (arith, first.written z, then_.written z, mem-append z here rest);
                left = λ z. ground (arith, first.left z, then_.left z, mem-append z here rest);
              },
            )
        | inr (e, p) ↦ absurd (ground arith)
      ]

-- A set of normal domains is kept as it is.
pub mem-clean_set :
    (dns : Dns) (seen ds : List Text)
    → IsNormal dns ds
    → (out : List Text) × (clean_set dns seen ds ≡ ok out)
      × ((z : Text) → mem z out ≡ (mem z ds || mem z seen))
unfolding clean_set mem
mem-clean_set dns seen [] h = (seen, refl, λ z. refl)
mem-clean_set dns seen (d ∷ ds) h =
    let normal : normalize_policy_domain dns d ≡ ok d = h d (ground (arith, text_beq_iff d d)) in
    let (out, e, holds) = mem-clean_set dns (set_insert d seen) ds (λ x m. h x (ground arith)) in
    (out, rw normal e, λ z. ground (arith, holds z, mem-set_insert z d seen))

-- After an incremental delta over normal domains has been applied, the lines of the file are exactly the
-- domains that the old file listed or the delta adds, less those that the delta deletes. A line for an added
-- domain that begins with # is among them, although readers skip it.
pub mem-apply_delta :
    (dns : Dns) (written : Bool) (lines : List Text) (delta : Delta) {out : List Text}
    → delta.full ≡ false
    → IsNormal dns delta.added
    → IsNormal dns delta.deleted
    → apply_delta_to_file dns written (some lines) (some delta) ≡ ok out
    → (cleans : List Text) × (listed dns lines ≡ ok cleans)
      × ((z : Text)
          → mem z out ≡ ((mem z cleans || mem z delta.added) && not (mem z delta.deleted)))
unfolding apply_delta_to_file old_lines
mem-apply_delta dns written lines delta {out} incremental na nd h =
    let (add, ea, ha) = mem-clean_set dns [] delta.added na in
    let (deleted, ed, hd) = mem-clean_set dns [] delta.deleted nd in
    elim (Result-cases (apply_lines dns deleted [] add lines)) [
      | inl ((kept, todo), e) ↦
          let (cleans, l, a) = apply_lines-ok dns deleted lines [] add kept todo e in
          (
            cleans,
            l,
            λ z.
                unfold mem in
                ground (
                  arith,
                  a.written z,
                  a.left z,
                  ha z,
                  hd z,
                  mem-append z kept (sort (remaining deleted todo)),
                  mem-sort z (remaining deleted todo),
                  mem-remaining z deleted todo,
                ),
          )
      | inr (e, p) ↦ absurd (ground arith)
    ]
