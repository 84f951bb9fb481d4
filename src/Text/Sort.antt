-- ===== src/Text/Sort.antt =====
-- Sets of texts as lists, and sort.Strings.
use dnsdist_edge.Prelude.{
  ◌≡◌, refl, Bool, true, false, ◌&&◌, ◌||◌, List, [], ◌∷◌, ◌++◌, arith, ltb, ◌==◌, nat_eq,
  if◌then◌else◌,
}
use dnsdist_edge.Text.{Text, text_beq_iff, text_eq}

-- Membership, as a test.
unfoldable pub mem : Text → List Text → Bool
mem x [] = false
mem x (y ∷ ys) = x == y || mem x ys

-- Byte-wise lexicographic order.
unfoldable pub text_leb : Text → Text → Bool
text_leb [] t = true
text_leb (c ∷ s) [] = false
text_leb (c ∷ s) (d ∷ t) = ltb c d || (c == d && text_leb s t)

unfoldable pub insert_sorted : Text → List Text → List Text
insert_sorted x [] = x ∷ []
insert_sorted x (y ∷ ys) = if text_leb x y then x ∷ y ∷ ys else y ∷ insert_sorted x ys

-- sort.Strings
unfoldable pub sort : List Text → List Text
sort [] = []
sort (x ∷ xs) = insert_sorted x (sort xs)

-- Adding a key to a map[string]struct{}.
unfoldable pub set_insert : Text → List Text → List Text
set_insert x xs = if mem x xs then xs else xs ++ x ∷ []

pub mem-append : (z : Text) (xs ys : List Text) → mem z (xs ++ ys) ≡ (mem z xs || mem z ys)
unfolding mem
mem-append z [] ys = refl
mem-append z (x ∷ xs) ys = ground (arith, mem-append z xs ys)

pub mem-set_insert : (z x : Text) (xs : List Text) → mem z (set_insert x xs) ≡ (z == x || mem z xs)
unfolding set_insert mem
mem-set_insert z x xs = ground (arith, mem-append z xs (x ∷ []), text_beq_iff z x)

mem-insert_sorted :
    (z x : Text) (xs : List Text) → mem z (insert_sorted x xs) ≡ (z == x || mem z xs)
unfolding insert_sorted mem
mem-insert_sorted z x [] = refl
mem-insert_sorted z x (y ∷ ys) = ground (arith, mem-insert_sorted z x ys)

-- Sorting keeps the members.
pub mem-sort : (z : Text) (xs : List Text) → mem z (sort xs) ≡ mem z xs
unfolding sort mem
mem-sort z [] = refl
mem-sort z (x ∷ xs) = ground (arith, mem-insert_sorted z x (sort xs), mem-sort z xs)
