-- ===== src/Panel/SqlStore/Views.antt =====
-- The rows of panel/storage.go and the records of panel/cluster.go, up to what a row does not hold.
use dnsdist_edge.Prelude.{
  ℕ, ◌≡◌, refl, ap, sym, ◌∙◌, Option, none, some, [], ◌∷◌, ◌==◌, is_some, arith, Bool-cases, inl,
  inr,
}
use dnsdist_edge.Text.{Text, text_eq}
use dnsdist_edge.Map.{Map, get, put, remove}
use dnsdist_edge.Panel.Cluster.{Status, NodeRecord, refresh_node_status, refresh_all}
use dnsdist_edge.Panel.SqlStore.{row_of}

-- A record without what the table has no column for, and without the status, which both stores work out
-- again when they list.
unfoldable pub view : NodeRecord → NodeRecord
view n = record (row_of n) { status = Status.offline }

unfoldable pub views : Map Text NodeRecord → Map Text NodeRecord
views [] = []
views ((id, n) ∷ nodes) = (id, view n) ∷ views nodes

abbrev pub view_option : Option NodeRecord → Option NodeRecord
view_option none = none
view_option (some n) = some (view n)

pub get-views :
    (nodes : Map Text NodeRecord) (id : Text) → get (views nodes) id ≡ view_option (get nodes id)
unfolding views get
get-views [] id = refl
get-views ((j, n) ∷ nodes) id = elim (Bool-cases (j == id)) [
  | inl here ↦ rw here refl
  | inr there ↦ rw there (get-views nodes id)
]

pub views-put :
    (nodes : Map Text NodeRecord) (id : Text) (n : NodeRecord)
    → views (put nodes id n) ≡ put (views nodes) id (view n)
unfolding views put
views-put [] id n = refl
views-put ((j, m) ∷ nodes) id n = elim (Bool-cases (j == id)) [
  | inl here ↦ rw here refl
  | inr there ↦ rw there (ap (λ l. (j, view m) ∷ l) (views-put nodes id n))
]

pub views-remove :
    (nodes : Map Text NodeRecord) (id : Text) → views (remove nodes id) ≡ remove (views nodes) id
unfolding views remove
views-remove [] id = refl
views-remove ((j, m) ∷ nodes) id = elim (Bool-cases (j == id)) [
  | inl here ↦ rw here (views-remove nodes id)
  | inr there ↦ rw there (ap (λ l. (j, view m) ∷ l) (views-remove nodes id))
]

pub views-refresh_all :
    (now : ℕ) (nodes : Map Text NodeRecord) → views (refresh_all now nodes) ≡ views nodes
unfolding views refresh_all refresh_node_status view row_of
views-refresh_all now [] = refl
views-refresh_all now ((j, m) ∷ nodes) = ap (λ l. (j, view m) ∷ l) (views-refresh_all now nodes)

pub remove-absent : (m : Map Text ℕ) (k : Text) → get m k ≡ none → remove m k ≡ m
unfolding get remove
remove-absent [] k h = refl
remove-absent ((j, w) ∷ m) k h = ground (arith, remove-absent m k)

pub view-row_of : (n : NodeRecord) → view (row_of n) ≡ view n
unfolding view row_of
view-row_of n = refl

is_some-view_option : (o : Option NodeRecord) → is_some (view_option o) ≡ is_some o
is_some-view_option none = refl
is_some-view_option (some n) = refl

pub get-same :
    (a b : Map Text NodeRecord) (id : Text)
    → views a ≡ views b
    → view_option (get a id) ≡ view_option (get b id)
get-same a b id same = sym (get-views a id) ∙ ap (λ m. get m id) same ∙ get-views b id

pub is_some-same :
    (a b : Map Text NodeRecord) (id : Text)
    → views a ≡ views b
    → is_some (get a id) ≡ is_some (get b id)
is_some-same a b id same =
    sym (is_some-view_option (get a id))
    ∙ ap is_some (get-same a b id same)
    ∙ is_some-view_option (get b id)

pub put-same :
    (a b : Map Text NodeRecord) (id : Text) (n m : NodeRecord)
    → views a ≡ views b
    → view n ≡ view m
    → views (put a id n) ≡ views (put b id m)
put-same a b id n m same viewed =
    views-put a id n
    ∙ ap (λ t. put t id (view n)) same
    ∙ ap (put (views b) id) viewed
    ∙ sym (views-put b id m)
