-- ===== src/Panel/SqlStore/Same.antt =====
-- Requests to the SQLite store of panel/storage.go and to the file store of panel/cluster.go: the answers of both,
-- and the requests about tokens.
use mathlib.Core.Path.{subst}
use dnsdist_edge.Prelude.{
  ℕ, ◌+◌, ◌*◌, ◌≡◌, ◌≢◌, refl, ap, sym, ◌∙◌, Bool, true, false, Option, none, some, [], ◌++◌, ◌==◌,
  ltb, is_some, if◌then◌else◌, Result, ok, err, arith, Bool-cases, inl, inr,
}
use dnsdist_edge.Text.{Text, text_eq, text_beq, text_beq_iff, trim_space}
use dnsdist_edge.Map.{get, put, remove, get-put, get-remove}
use dnsdist_edge.Panel.Cluster.{
  NodeRecord, ClusterStore, RegisterRequest, save, hour, is_positive, token_prefix, node_prefix,
  new_node, generate_enrollment_token, consume_token, drop_token, validate_and_consume_token,
  enroll_node, process_heartbeat, delete_node,
}
use dnsdist_edge.Panel.Cluster.Keyed.{nodes-save}
use dnsdist_edge.Panel.Cluster.Requests.{
  Request, issue, consume, enroll, heartbeat, delete, tick, perform, tokens-save,
}
use dnsdist_edge.Panel.SqlStore.Views.{views, view-row_of, is_some-same, put-same, remove-absent}
use dnsdist_edge.Panel.SqlStore.{
  SqlClusterStore, row_of, sql_generate_token, sql_consume_row, sql_consume_token, sql_enroll_node,
  sql_process_heartbeat, sql_delete_node,
}

unfoldable pub sql_perform : SqlClusterStore → Request → SqlClusterStore
sql_perform q (issue written now random duration) =
    (sql_generate_token true now random duration q).0
sql_perform q (consume written now tok) = (sql_consume_token true true now q tok).0
sql_perform q (enroll written now random key req ip) =
    (sql_enroll_node true now random key q req ip).0
sql_perform q (heartbeat written now req ip) = (sql_process_heartbeat true true now q req ip).0
sql_perform q (delete written id) = (sql_delete_node true q id).0
sql_perform q (tick now) = q

-- What the one who asked is told, as both stores can tell it.
pub data Answer : Type 0 where
  token : Text → Answer
  valid done : Bool → Answer
  node : Option NodeRecord → Answer
  silence : Answer

abbrev pub is_ok {ℓ} : {E A : Type ℓ} → Result E A → Bool
is_ok (ok a) = true
is_ok (err e) = false

abbrev pub ok_value {ℓ} : {E A : Type ℓ} → Result E A → Option A
ok_value (ok a) = some a
ok_value (err e) = none

unfoldable pub answer : ClusterStore → Request → Answer
answer s (issue written now random duration) =
    token (generate_enrollment_token written now random duration s).1
answer s (consume written now tok) = valid (validate_and_consume_token written now s tok).1
answer s (enroll written now random key req ip) =
    node (some (enroll_node written now random key s req ip).1)
answer s (heartbeat written now req ip) = done (is_ok (process_heartbeat written now s req ip).1)
answer s (delete written id) = done (is_ok (delete_node written s id).1)
answer s (tick now) = silence

unfoldable pub sql_answer : SqlClusterStore → Request → Answer
sql_answer q (issue written now random duration) =
    token (sql_generate_token true now random duration q).1
sql_answer q (consume written now tok) = valid (sql_consume_token true true now q tok).1
sql_answer q (enroll written now random key req ip) =
    node (ok_value (sql_enroll_node true now random key q req ip).1)
sql_answer q (heartbeat written now req ip) =
    done (is_ok (sql_process_heartbeat true true now q req ip).1)
sql_answer q (delete written id) = done (is_ok (sql_delete_node true q id).1)
sql_answer q (tick now) = silence

-- The two stores hold the same.
abbrev pub IsSame : ClusterStore → SqlClusterStore → Type 0
IsSame s q =
    (q.cluster_tokens ≡ s.tokens)
    × (views q.cluster_nodes ≡ views s.nodes)
    × (get s.tokens [] ≡ none)

-- Random names that are not taken, no token that is used at the instant in which it expires, and a file
-- that can be written where a node is deleted.
abbrev pub IsOrdinary : ClusterStore → Request → Type 0
IsOrdinary s (issue written now random duration) = get s.tokens (token_prefix ++ random) ≡ none
IsOrdinary s (consume written now tok) = get s.tokens (trim_space tok) ≢ some now
IsOrdinary s (enroll written now random key req ip) = get s.nodes (node_prefix ++ random) ≡ none
IsOrdinary s (heartbeat written now req ip) = Unit
IsOrdinary s (delete written id) = written ≡ true
IsOrdinary s (tick now) = Unit

abbrev pub IsStep : ClusterStore → SqlClusterStore → Request → Type 0
IsStep s q r = IsSame (perform s r) (sql_perform q r) × (answer s r ≡ sql_answer q r)

is_some-none : {A : Type 0} (o : Option A) → o ≡ none → is_some o ≡ false
is_some-none o e = rw e refl

-- A file store whose tokens and nodes are these, before it is saved.
pub save-IsSame :
    (written : Bool) (s : ClusterStore) (q : SqlClusterStore)
    → IsSame s q
    → IsSame (save written s).0 q
save-IsSame written s q (tokens, nodes, no_empty) = (
  tokens ∙ sym (tokens-save written s),
  nodes ∙ ap views (sym (nodes-save written s)),
  ap (λ m. get m []) (tokens-save written s) ∙ no_empty,
)

pub issue-same :
    (written : Bool) (now : ℕ) (random : Text) (duration : ℕ) (s : ClusterStore)
    (q : SqlClusterStore)
    → IsSame s q
    → get s.tokens (token_prefix ++ random) ≡ none
    → IsStep s q (issue written now random duration)
unfolding perform sql_perform answer sql_answer generate_enrollment_token sql_generate_token get
    text_beq
issue-same written now random duration s q (tokens, nodes, no_empty) free =
    let tok = token_prefix ++ random in
    let exp = now + (if is_positive duration then duration else 24 * hour) in
    let unused : is_some (get q.cluster_tokens tok) ≡ false =
      ap (λ m. is_some (get m tok)) tokens ∙ is_some-none (get s.tokens tok) free in
    (
      rw unused (
          save-IsSame written (record s { tokens = put s.tokens tok exp })
            (record q { cluster_tokens = put q.cluster_tokens tok exp })
            (ap (λ m. put m tok exp) tokens, nodes, get-put s.tokens tok [] exp ∙ no_empty)),
      refl,
    )

pub enroll-same :
    (written : Bool) (now : ℕ) (random key : Text) (req : RegisterRequest) (ip : Text)
    (s : ClusterStore) (q : SqlClusterStore)
    → IsSame s q
    → get s.nodes (node_prefix ++ random) ≡ none
    → IsStep s q (enroll written now random key req ip)
unfolding perform sql_perform answer sql_answer enroll_node sql_enroll_node
enroll-same written now random key req ip s q (tokens, nodes, no_empty) free =
    let id = node_prefix ++ random in
    let rec = new_node now id key req ip in
    let unused : is_some (get q.cluster_nodes id) ≡ false =
      is_some-same q.cluster_nodes s.nodes id nodes ∙ is_some-none (get s.nodes id) free in
    (
      rw (unused, sql_perform)
          (save-IsSame written (record s { nodes = put s.nodes id rec })
            (record q { cluster_nodes = put q.cluster_nodes id (row_of rec) })
            (
              tokens,
              put-same q.cluster_nodes s.nodes id (row_of rec) rec nodes (view-row_of rec),
              no_empty,
            )),
      rw unused refl,
    )

consume_entry-IsSame :
    (written : Bool) (now : ℕ) (tok : Text) (s : ClusterStore) (q : SqlClusterStore)
    (entry : Option ℕ)
    → IsSame s q
    → get s.tokens tok ≡ entry
    → entry ≢ some now
    → IsSame (consume_token written now s tok entry).0 (sql_consume_row true now q tok entry).0
      × ((consume_token written now s tok entry).1 ≡ (sql_consume_row true now q tok entry).1)
unfolding consume_token sql_consume_row drop_token
consume_entry-IsSame written now tok s q none (tokens, nodes, no_empty) e off =
    let same = remove-absent s.tokens tok e in
    ((tokens ∙ sym same, nodes, ap (λ m. get m []) same ∙ no_empty), refl)
consume_entry-IsSame written now tok s q (some exp) (tokens, nodes, no_empty) e off =
    let dropped : IsSame (drop_token s tok)
        (record q { cluster_tokens = remove q.cluster_tokens tok }) =
      (
        ap (λ m. remove m tok) tokens,
        nodes,
        ground (arith, get-remove s.tokens tok [], Bool-cases (tok == [])),
      ) in
    let differs : exp ≢ now = λ same. off (ap (λ x. some x) same) in
    elim (Bool-cases (ltb exp now)) [
      | inl late ↦ rw late (dropped, ground arith)
      | inr in_time ↦ rw in_time (
        save-IsSame written (drop_token s tok)
            (record q { cluster_tokens = remove q.cluster_tokens tok }) dropped,
        ground arith,
      )
    ]

pub consume-same :
    (written : Bool) (now : ℕ) (raw : Text) (s : ClusterStore) (q : SqlClusterStore)
    → IsSame s q
    → get s.tokens (trim_space raw) ≢ some now
    → IsStep s q (consume written now raw)
unfolding perform sql_perform answer sql_answer validate_and_consume_token sql_consume_token
    sql_consume_row
consume-same written now raw s q same off =
    let t = trim_space raw in
    let entry = get s.tokens t in
    let (stores, answers) = consume_entry-IsSame written now t s q entry same refl off in
    elim (Bool-cases (t == [])) [
      | inl empty ↦
          let none_there : entry ≡ none =
            ap (get s.tokens) ((text_beq_iff t []).0 empty) ∙ same.2 in
          let row = ap (sql_consume_row true now q t) none_there in
          (
            rw (empty, sql_perform)
                (subst (λ w. IsSame (consume_token written now s t entry).0 w.0) row stores),
            rw (empty, sql_answer) (ap (λ b. valid b) (answers ∙ ap (λ w. w.1) row)),
          )
      | inr given ↦
          let row = ap (λ m. sql_consume_row true now q t (get m t)) (sym same.0) in
          (
            rw (given, sql_perform)
                (subst (λ w. IsSame (consume_token written now s t entry).0 w.0) row stores),
            rw (given, sql_answer) (ap (λ b. valid b) (answers ∙ ap (λ w. w.1) row)),
          )
    ]
