-- ===== src/Text/Laws.antt =====
-- Laws of the text operations.
use mathlib.Core.List.{map-append}
use dnsdist_edge.Prelude.{
  ℕ, ◌≡◌, refl, ap, true, false, [], ◌∷◌, ◌++◌, arith, Eq, ◌==◌, length, length-append, Bool-cases,
  inl, inr,
}
use dnsdist_edge.Text.{
  Text, text_beq, text_beq_iff, text_eq, lower_byte, lower, equal_fold, trim_suffix,
}

pub beq_refl {ℓ} : {A : Type ℓ} ⦃e : Eq A⦄ (a : A) → (a == a) ≡ true
beq_refl ⦃e⦄ a = (e.beq_iff a a).1 refl

pub text_beq_refl : (a : Text) → text_beq a a ≡ true
text_beq_refl a = (text_beq_iff a a).1 refl

pub text_beq_longer : (c : ℕ) (a s : Text) → text_beq (c ∷ a ++ s) s ≡ false
text_beq_longer c a s = elim (Bool-cases (text_beq (c ∷ a ++ s) s)) [
  | inl same ↦
      absurd (
        omega
          (arith, ap (length {A = ℕ}) ((text_beq_iff (c ∷ a ++ s) s).0 same), length-append a s))
  | inr other ↦ other
]

-- A suffix that was appended is trimmed off.
pub trim_suffix-append : (a s : Text) → trim_suffix (a ++ s) s ≡ a
unfolding trim_suffix
trim_suffix-append [] [] = refl
trim_suffix-append [] (c ∷ s) = ground (arith, text_beq_refl (c ∷ s))
trim_suffix-append (c ∷ a) s = ground (arith, text_beq_longer c a s, trim_suffix-append a s)

pub lower_byte_idem : (c : ℕ) → lower_byte (lower_byte c) ≡ lower_byte c
unfolding lower_byte
lower_byte_idem c = ground arith

pub lower_idem : (s : Text) → lower (lower s) ≡ lower s
unfolding lower
lower_idem [] = refl
lower_idem (c ∷ s) = cc (lower_byte_idem c, lower_idem s)

pub lower-append : (a b : Text) → lower (a ++ b) ≡ lower a ++ lower b
unfolding lower
lower-append a b = map-append lower_byte a b

pub equal_fold_refl : (a : Text) → equal_fold a a ≡ true
unfolding equal_fold
equal_fold_refl a = text_beq_refl (lower a)
