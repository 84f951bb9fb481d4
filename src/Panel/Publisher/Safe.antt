-- ===== src/Panel/Publisher/Safe.antt =====
-- panel/cdbpublisher.go: what can be published.
use dnsdist_edge.Prelude.{
  ℕ, zero, suc, ◌≡◌, inl, inr, refl, ap, sym, ◌∙◌, Bool, true, false, Option, none, some, [], ◌∷◌,
  ◌==◌, nat_eq, if◌then◌else◌, if-true, if-false, ok, err, arith, Bool-cases,
}
use dnsdist_edge.Text.{Text, text_eq, text_beq_iff, codes}
use dnsdist_edge.Panel.Cluster.Address.{contains}
use dnsdist_edge.Panel.Publisher.{
  CdbError, Files, Found, absent, broken, found, is_hex, hex_then_db, addressed_after,
  cdb_name_allowed, cdb_active_name, cdb_within_dir, regular_only, within_real, resolve_in,
  resolve_name, resolve_cdb_path,
}

contains-hex_then_db : (n : ℕ) (s : Text) → hex_then_db n s ≡ true → contains b'/' s ≡ false
unfolding hex_then_db contains is_hex
contains-hex_then_db zero s h = ap (contains b'/') ((text_beq_iff s (codes ".db")).0 h) ∙ refl
contains-hex_then_db (suc n) [] h = absurd (ground arith)
contains-hex_then_db (suc n) (c ∷ s) h = ground (arith, contains-hex_then_db n s)

contains-addressed_after :
    (prefix s : Text)
    → contains b'/' prefix ≡ false
    → addressed_after prefix s ≡ true
    → contains b'/' s ≡ false
unfolding addressed_after contains
contains-addressed_after [] s p h = contains-hex_then_db 64 s h
contains-addressed_after (p ∷ prefix) [] no_slash h = refl
contains-addressed_after (p ∷ prefix) (c ∷ s) no_slash h =
    ground (arith, contains-addressed_after prefix s)

contains-cdb_name_allowed :
    (name : Text) → cdb_name_allowed name ≡ true → contains b'/' name ≡ false
unfolding cdb_name_allowed contains
contains-cdb_name_allowed name h = elim (Bool-cases (name == codes "trust.db")) [
  | inl trust ↦ ap (contains b'/') ((text_beq_iff name (codes "trust.db")).0 trust) ∙ refl
  | inr not_trust ↦ elim (Bool-cases (name == codes "blacklist.db")) [
    | inl black ↦ ap (contains b'/') ((text_beq_iff name (codes "blacklist.db")).0 black) ∙ refl
    | inr not_black ↦ ground (
      arith,
      contains-addressed_after (codes "trust.") name refl,
      contains-addressed_after (codes "blacklist.") name refl,
    )
  ]
]

-- A path that may be given out for a name: what the name in the directory leads to.
abbrev pub IsPublished : Files → Text → Text → Text → Type 0
IsPublished fs dir name path =
    (real_dir : Text) × (fs.eval_symlinks dir ≡ found real_dir)
    × (fs.eval_symlinks (fs.join dir name) ≡ found path)
    × (cdb_within_dir fs real_dir path ≡ true)
    × (fs.is_regular path ≡ found true)

regular_only-ok :
    (path out : Text) (stat : Found Bool)
    → regular_only path stat ≡ ok out
    → (path ≡ out) × (stat ≡ found true)
unfolding regular_only
regular_only-ok path out absent h = absurd (ground arith)
regular_only-ok path out broken h = absurd (ground arith)
regular_only-ok path out (found true) h = (ground arith, refl)
regular_only-ok path out (found false) h = absurd (ground arith)

within_real-ok :
    (fs : Files) (real_dir path : Text) (resolved : Found Text)
    → within_real fs real_dir resolved ≡ ok path
    → (resolved ≡ found path)
      × (cdb_within_dir fs real_dir path ≡ true)
      × (fs.is_regular path ≡ found true)
unfolding within_real
within_real-ok fs real_dir path absent h = absurd (ground arith)
within_real-ok fs real_dir path broken h = absurd (ground arith)
within_real-ok fs real_dir path (found p) h = elim (Bool-cases (cdb_within_dir fs real_dir p)) [
  | inr outside ↦
      let refused = if-false (regular_only p (fs.is_regular p)) (err CdbError.forbidden) outside in
      absurd (ground (arith, sym refused ∙ h))
  | inl inside ↦
      let kept = if-true (regular_only p (fs.is_regular p)) (err CdbError.forbidden) inside in
      let (same, regular) = regular_only-ok p path (fs.is_regular p) (sym kept ∙ h) in
      (
        ap (λ q. found q) same,
        sym (ap (cdb_within_dir fs real_dir) same) ∙ inside,
        sym (ap fs.is_regular same) ∙ regular,
      )
]

resolve_in-ok :
    (fs : Files) (dir name path : Text) (real : Found Text)
    → fs.eval_symlinks dir ≡ real
    → resolve_in fs (fs.join dir name) real ≡ ok path
    → IsPublished fs dir name path
unfolding resolve_in
resolve_in-ok fs dir name path absent e h = absurd (ground arith)
resolve_in-ok fs dir name path broken e h = absurd (ground arith)
resolve_in-ok fs dir name path (found real_dir) e h =
    let (resolved, inside, regular) =
      within_real-ok fs real_dir path (fs.eval_symlinks (fs.join dir name)) h in
    (real_dir, e, resolved, inside, regular)

resolve_name-ok :
    (fs : Files) (dir path : Text) (name : Option Text)
    → resolve_name fs dir name ≡ ok path
    → (n : Text) × (name ≡ some n) × (contains b'/' n ≡ false) × IsPublished fs dir n path
unfolding resolve_name
resolve_name-ok fs dir path none h = absurd (ground arith)
resolve_name-ok fs dir path (some n) h =
    let here = fs.join dir n in
    elim (Bool-cases (cdb_name_allowed n)) [
      | inr refused ↦ absurd (ground arith)
      | inl allowed ↦ elim (Bool-cases (cdb_within_dir fs dir here)) [
        | inr outside ↦ absurd (ground arith)
        | inl inside ↦ (
          n,
          refl,
          contains-cdb_name_allowed n allowed,
          resolve_in-ok fs dir n path (fs.eval_symlinks dir) refl (ground arith),
        )
      ]
    ]

-- A path is given out only for a name without a slash, the one that was asked for or that of the active file
-- if none was; it is what that name in the directory leads to after symbolic links, and it is a regular file
-- inside what the directory leads to.
pub resolve_cdb_path-ok :
    (fs : Files) (dir name path : Text)
    → resolve_cdb_path fs dir name ≡ ok path
    → (n : Text) × ((if name == [] then cdb_active_name fs dir else some name) ≡ some n)
      × (contains b'/' n ≡ false)
      × IsPublished fs dir n path
unfolding resolve_cdb_path
resolve_cdb_path-ok fs dir name path h =
    resolve_name-ok fs dir path (if name == [] then cdb_active_name fs dir else some name) h
