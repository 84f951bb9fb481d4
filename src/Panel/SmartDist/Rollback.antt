-- ===== src/Panel/SmartDist/Rollback.antt =====
-- What panel/smartdist_profile.go puts back where the store's file cannot be written.
use dnsdist_edge.Prelude.{
  ◌≡◌, refl, sym, ap, ◌∙◌, false, Option, none, some, List, [], ◌∷◌, ◌==◌, is_some, if◌then◌else◌,
  arith, Bool-cases, inl, inr,
}
use dnsdist_edge.Text.{Text, text_eq, text_beq_iff}
use dnsdist_edge.Text.Sort.{mem}
use dnsdist_edge.Map.{Map, get, put, remove, get-put, get-remove}
use dnsdist_edge.Map.Distinct.{Distinct, put-Distinct}
use dnsdist_edge.Panel.SmartDist.{
  SmartDistEntry, SmartDistProfileStore, restored, reassigned, assign_all, previous, restore_all,
}
use dnsdist_edge.Panel.SmartDist.Integrity.{IsReferenced}

-- Maps that hold the same, in whatever order.
abbrev pub HasSame : {A : Type 0} → Map Text A → Map Text A → Type 0
HasSame m n = (k : Text) → get m k ≡ get n k

pub get-restored :
    {A : Type 0} (m : Map Text A) (k : Text) (prev : Option A) (j : Text)
    → get (restored m k prev) j ≡ (if k == j then prev else get m j)
unfolding restored
get-restored m k none j = get-remove m k j
get-restored m k (some v) j = get-put m k j v

-- A map that differs at one key is as before after the value of that key was put back.
pub restored-HasSame :
    {A : Type 0} (m changed : Map Text A) (k : Text)
    → ((j : Text) → (k == j) ≡ false → get changed j ≡ get m j)
    → HasSame (restored changed k (get m k)) m
restored-HasSame m changed k same j = elim (Bool-cases (k == j)) [
  | inl here ↦ get-restored changed k (get m k) j ∙ rw here (ap (get m) ((text_beq_iff k j).0 here))
  | inr other ↦ get-restored changed k (get m k) j ∙ rw other (same j other)
]

pub put-HasSame :
    {A : Type 0} (m : Map Text A) (k : Text) (v : A) → HasSame (restored (put m k v) k (get m k)) m
put-HasSame m k v = restored-HasSame m (put m k v) k (λ j other. get-put m k j v ∙ rw other refl)

pub remove-HasSame :
    {A : Type 0} (m : Map Text A) (k : Text) → HasSame (restored (remove m k) k (get m k)) m
remove-HasSame m k = restored-HasSame m (remove m k) k (λ j other. get-remove m k j ∙ rw other refl)

get-reassigned :
    (assign : Map Text Text) (node id j : Text)
    → (node == j) ≡ false
    → get (reassigned assign node id) j ≡ get assign j
unfolding reassigned
get-reassigned assign node id j other =
    ground (arith, Bool-cases (id == []), get-remove assign node j, get-put assign node j id)

pub get-assign_all :
    (assign : Map Text Text) (nodes : List Text) (id node : Text)
    → get (assign_all assign nodes id) node ≡ (if mem node nodes then some id else get assign node)
unfolding assign_all mem
get-assign_all assign [] id node = refl
get-assign_all assign (n ∷ nodes) id node = ground (
  arith,
  get-assign_all (put assign n id) nodes id node,
  get-put assign n node id,
  text_beq_iff n node,
  text_beq_iff node n,
)

pub reassigned-HasSame :
    (assign : Map Text Text) (node id : Text)
    → HasSame (restored (reassigned assign node id) node (get assign node)) assign
reassigned-HasSame assign node id =
    restored-HasSame assign (reassigned assign node id) node (get-reassigned assign node id)

get-previous :
    (assign : Map Text Text) (nodes : List Text) (prev : Map Text (Option Text)) (node : Text)
    → get (previous assign nodes prev) node
      ≡ (if mem node nodes then some (get assign node) else get prev node)
unfolding previous mem
get-previous assign [] prev node = refl
get-previous assign (n ∷ nodes) prev node = ground (
  arith,
  get-previous assign nodes (put prev n (get assign n)) node,
  get-put prev n node (get assign n),
  text_beq_iff n node,
  text_beq_iff node n,
)

previous-Distinct :
    (assign : Map Text Text) (nodes : List Text) (prev : Map Text (Option Text))
    → Distinct prev
    → Distinct (previous assign nodes prev)
unfolding previous
previous-Distinct assign [] prev h = h
previous-Distinct assign (n ∷ nodes) prev h =
    previous-Distinct assign nodes (put prev n (get assign n))
      (put-Distinct prev n (get assign n) h)

-- The value that putting back leaves at a key, where nothing was remembered for it or something was.
abbrev or_kept : Option (Option Text) → Option Text → Option Text
or_kept none kept = kept
or_kept (some before) kept = before

get-restore_all :
    (assign : Map Text Text) (prev : Map Text (Option Text)) (node : Text)
    → Distinct prev
    → get (restore_all assign prev) node ≡ or_kept (get prev node) (get assign node)
unfolding restore_all get
get-restore_all assign [] node h = refl
get-restore_all assign ((n, before) ∷ prev) node (fresh, h) = elim (Bool-cases (n == node)) [
  | inr other ↦
      get-restore_all (restored assign n before) prev node h
      ∙ rw (other, get-restored assign n before node, other) refl
  | inl here ↦
      get-restore_all (restored assign n before) prev node h
      ∙ rw
          (
            here,
            ap (get prev) (sym ((text_beq_iff n node).0 here)) ∙ fresh,
            get-restored assign n before node,
            here,
          )
          refl
]

pub restore_all-HasSame :
    (assign : Map Text Text) (nodes : List Text) (id : Text)
    → HasSame (restore_all (assign_all assign nodes id) (previous assign nodes [])) assign
unfolding get
restore_all-HasSame assign nodes id node =
    let known = get-previous assign nodes [] node in
    let changed = get-assign_all assign nodes id node in
    get-restore_all (assign_all assign nodes id) (previous assign nodes []) node
      (previous-Distinct assign nodes [] tt)
    ∙ elim (Bool-cases (mem node nodes)) [
      | inl given ↦ rw (known, given) refl
      | inr other ↦ rw (known, other, changed, other) refl
    ]

pub same-IsReferenced :
    (assign assign' : Map Text Text) (profiles profiles' : Map Text SmartDistEntry)
    → HasSame assign' assign
    → HasSame profiles' profiles
    → IsReferenced assign profiles
    → IsReferenced assign' profiles'
same-IsReferenced assign assign' profiles profiles' a p h node pid known =
    ap is_some (p pid) ∙ h node pid (sym (a node) ∙ known)

-- A store that answers as another, with the same history and the same file.
pub record IsSame (after s : SmartDistProfileStore) : Type 0 where
  pub profiles : HasSame after.profiles s.profiles
  pub assign : HasSame after.assign s.assign
  pub history : after.history ≡ s.history
  pub file : after.file ≡ s.file

pub IsSame-refl : {after s : SmartDistProfileStore} → after ≡ s → IsSame after s
IsSame-refl {after} {s} h = record {
  profiles = λ k. ap (λ (t : SmartDistProfileStore). get t.profiles k) h;
  assign = λ k. ap (λ (t : SmartDistProfileStore). get t.assign k) h;
  history = ap (λ (t : SmartDistProfileStore). t.history) h;
  file = ap (λ (t : SmartDistProfileStore). t.file) h;
}

-- Stores that have the same but for the order of their profiles, or of their assignments.
pub profiles-IsSame :
    (s : SmartDistProfileStore) (profiles : Map Text SmartDistEntry) {after : SmartDistProfileStore}
    → HasSame profiles s.profiles
    → after ≡ record s { profiles = profiles }
    → IsSame after s
profiles-IsSame s profiles same h = record {
  profiles = λ k. ap (λ (t : SmartDistProfileStore). get t.profiles k) h ∙ same k;
  assign = λ k. ap (λ (t : SmartDistProfileStore). get t.assign k) h;
  history = ap (λ (t : SmartDistProfileStore). t.history) h;
  file = ap (λ (t : SmartDistProfileStore). t.file) h;
}

pub assign-IsSame :
    (s : SmartDistProfileStore) (assign : Map Text Text) {after : SmartDistProfileStore}
    → HasSame assign s.assign
    → after ≡ record s { assign = assign }
    → IsSame after s
assign-IsSame s assign same h = record {
  profiles = λ k. ap (λ (t : SmartDistProfileStore). get t.profiles k) h;
  assign = λ k. ap (λ (t : SmartDistProfileStore). get t.assign k) h ∙ same k;
  history = ap (λ (t : SmartDistProfileStore). t.history) h;
  file = ap (λ (t : SmartDistProfileStore). t.file) h;
}
