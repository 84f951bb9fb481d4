-- ===== src/Text/Trim.antt =====
-- The lengths of trimmed texts, for normalizePolicyDomain of tools/rpz-master/slave_client.go.
use dnsdist_edge.Prelude.{ℕ, suc, ◌≤◌, ◌≡◌, refl, ap, [], ◌∷◌, arith, length, ◌∙◌}
use dnsdist_edge.Text.{Text, text_eq, trim_left, trim_right, trim_space, trim_suffix, lower}

length-trim_left : (s : Text) → length (trim_left s) ≤ length s
unfolding trim_left
length-trim_left [] = omega arith
length-trim_left (c ∷ s) = ground (arith, length-trim_left s)

length-trim_right : (s : Text) → length (trim_right s) ≤ length s
unfolding trim_right
length-trim_right [] = omega arith
length-trim_right (c ∷ s) = ground (arith, length-trim_right s)

length-trim_suffix : (s suffix : Text) → length (trim_suffix s suffix) ≤ length s
unfolding trim_suffix
length-trim_suffix [] suffix = omega arith
length-trim_suffix (c ∷ s) suffix = ground (arith, length-trim_suffix s suffix)

length-lower : (s : Text) → length (lower s) ≡ length s
unfolding lower
length-lower [] = refl
length-lower (c ∷ s) = ap suc (unfold lower in length-lower s)

trim_left_same : (s : Text) → length s ≤ length (trim_left s) → trim_left s ≡ s
unfolding trim_left
trim_left_same [] h = refl
trim_left_same (c ∷ s) h = ground (arith, length-trim_left s)

trim_right_same : (s : Text) → length s ≤ length (trim_right s) → trim_right s ≡ s
unfolding trim_right
trim_right_same [] h = refl
trim_right_same (c ∷ s) h = ground (arith, trim_right_same s)

trim_suffix_same :
    (s suffix : Text) → length s ≤ length (trim_suffix s suffix) → trim_suffix s suffix ≡ s
unfolding trim_suffix
trim_suffix_same [] suffix h = refl
trim_suffix_same (c ∷ s) suffix h = ground (arith, trim_suffix_same s suffix)

-- A text that trimming spaces, a suffix and upper case leaves alone is left alone by each of them.
pub trim-fixed :
    (s suffix : Text)
    → lower (trim_suffix (trim_space s) suffix) ≡ s
    → (trim_space s ≡ s) × (trim_suffix s suffix ≡ s)
unfolding trim_space
trim-fixed s suffix h =
    let t = trim_space s in
    let total : length s ≤ length (trim_suffix t suffix) =
      omega (arith, ap (length {A = ℕ}) h, length-lower (trim_suffix t suffix)) in
    let l = trim_left_same s (
      omega (
        arith,
        length-trim_suffix t suffix,
        length-trim_right (trim_left s),
        length-trim_left s,
      )) in
    let r : trim_space s ≡ s =
      trim_right_same (trim_left s) (omega (arith, length-trim_suffix t suffix, length-trim_left s))
      ∙ l in
    (r, trim_suffix_same s suffix (rw r at total))
