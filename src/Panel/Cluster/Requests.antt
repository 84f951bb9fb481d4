-- ===== src/Panel/Cluster/Requests.antt =====
-- The critical sections of `ClusterStore` of panel/cluster.go in any order: RegisterNode is two of them, so that
-- others may come between.
use dnsdist_edge.Prelude.{
  ℕ, ◌+◌, ◌*◌, ◌≤◌, ltb, ◌≡◌, refl, ap, sym, ◌∙◌, Bool, true, false, not, Option, none, some, List,
  [], ◌∷◌, ◌++◌, ◌==◌, is_some, if◌then◌else◌, if-both, Result, arith, Bool-cases, Option-cases,
  inl, inr,
}
use dnsdist_edge.Text.{Text, text_eq, text_beq_iff, trim_space}
use dnsdist_edge.Map.{Map, get, put, remove, get-put, get-remove}
use dnsdist_edge.Panel.Cluster.{
  NodeRecord, ClusterError, RegisterRequest, HeartbeatRequest, ClusterStore, save, refresh_all,
  token_prefix, is_positive, hour, generate_enrollment_token, drop_token, consume_token,
  validate_and_consume_token, enroll_node, new_node, node_prefix, beat, beat_record,
  process_heartbeat, delete_node,
}

-- A critical section with its arguments. The tick is that of the clock of initClusterStore and of ListNodes.
pub data Request : Type 0 where
  issue : Bool → ℕ → Text → ℕ → Request
  consume : Bool → ℕ → Text → Request
  enroll : Bool → ℕ → Text → Text → RegisterRequest → Text → Request
  heartbeat : Bool → ℕ → HeartbeatRequest → Text → Request
  delete : Bool → Text → Request
  tick : ℕ → Request

unfoldable pub perform : ClusterStore → Request → ClusterStore
perform s (issue written now random duration) =
    (generate_enrollment_token written now random duration s).0
perform s (consume written now tok) = (validate_and_consume_token written now s tok).0
perform s (enroll written now random key req ip) = (enroll_node written now random key s req ip).0
perform s (heartbeat written now req ip) = (process_heartbeat written now s req ip).0
perform s (delete written id) = (delete_node written s id).0
perform s (tick now) = record s { nodes = refresh_all now s.nodes }

unfoldable pub perform_all : ClusterStore → List Request → ClusterStore
perform_all s [] = s
perform_all s (r ∷ requests) = perform_all (perform s r) requests

abbrev pub one_if : Bool → ℕ
one_if true = 1
one_if false = 0

-- Whether a request hands out a token, and whether it accepts it.
unfoldable pub issues : Text → Request → Bool
issues tok (issue written now random duration) = token_prefix ++ random == tok
issues tok r = false

unfoldable pub accepts : ClusterStore → Text → Request → Bool
accepts s tok (consume written now raw) =
    if trim_space raw == tok then (validate_and_consume_token written now s raw).1 else false
accepts s tok r = false

-- How often a token is handed out, and how often it is accepted.
unfoldable pub issued : Text → List Request → ℕ
issued tok [] = 0
issued tok (r ∷ requests) = one_if (issues tok r) + issued tok requests

unfoldable pub accepted : ClusterStore → Text → List Request → ℕ
accepted s tok [] = 0
accepted s tok (r ∷ requests) = one_if (accepts s tok r) + accepted (perform s r) tok requests

abbrev pub held : ClusterStore → Text → ℕ
held s tok = one_if (is_some (get s.tokens tok))

pub tokens-save : (written : Bool) (s : ClusterStore) → (save written s).0.tokens ≡ s.tokens
unfolding save
tokens-save written s =
    let tokens : ClusterStore × Result ClusterError Unit → Map Text ℕ = λ w. w.0.tokens in
    if-both tokens (s.file_path == []) refl (if-both tokens written refl refl)

held-drop_token :
    (s : ClusterStore) (t tok : Text)
    → held (drop_token s t) tok ≡ (if t == tok then 0 else held s tok)
unfolding drop_token
held-drop_token s t tok = elim (Bool-cases (t == tok)) [
  | inl same ↦ ap (λ o. one_if (is_some o)) (get-remove s.tokens t tok) ∙ rw same refl
  | inr other ↦ ap (λ o. one_if (is_some o)) (get-remove s.tokens t tok) ∙ rw other refl
]

held-save :
    (written : Bool) (s : ClusterStore) (tok : Text) → held (save written s).0 tok ≡ held s tok
held-save written s tok = ap (λ m. one_if (is_some (get m tok))) (tokens-save written s)

consume_token-held :
    (written : Bool) (now : ℕ) (s : ClusterStore) (t tok : Text) (entry : Option ℕ)
    → get s.tokens t ≡ entry
    → let (after, valid) = consume_token written now s t entry in
      one_if (if t == tok then valid else false) + held after tok ≤ held s tok
unfolding consume_token
consume_token-held written now s t tok none e =
    ground (arith, held-drop_token s t tok, Bool-cases (t == tok))
consume_token-held written now s t tok (some exp) e = elim (Bool-cases (t == tok)) [
  | inr other ↦ ground (
    arith,
    held-drop_token s t tok,
    held-save written (drop_token s t) tok,
    Bool-cases (ltb exp now),
  )
  | inl same ↦
      let here : held s tok ≡ 1 =
        ap (λ o. one_if (is_some o)) (ap (get s.tokens) (sym ((text_beq_iff t tok).0 same)) ∙ e) in
      ground (
        arith,
        here,
        held-drop_token s t tok,
        held-save written (drop_token s t) tok,
        Bool-cases (ltb exp now),
      )
]

tokens-beat_record :
    (written : Bool) (now : ℕ) (s : ClusterStore) (req : HeartbeatRequest) (ip : Text)
    (found : Option NodeRecord)
    → (beat_record written now s req ip found).0.tokens ≡ s.tokens
unfolding beat_record
tokens-beat_record written now s req ip none = refl
tokens-beat_record written now s req ip (some rec) =
    let tokens : ClusterStore × Result ClusterError Unit → Map Text ℕ = λ w. w.0.tokens in
    if-both tokens (not (rec.key == req.node_key)) refl
      (tokens-save written (record s { nodes = put s.nodes req.node_id (beat now rec req ip) }))

tokens-delete_node :
    (written : Bool) (s : ClusterStore) (id : Text) → (delete_node written s id).0.tokens ≡ s.tokens
unfolding delete_node
tokens-delete_node written s id =
    let tokens : ClusterStore × Result ClusterError Unit → Map Text ℕ = λ w. w.0.tokens in
    if-both tokens (not (is_some (get s.nodes id))) refl
      (tokens-save written (record s { nodes = remove s.nodes id }))

held-issue :
    (s : ClusterStore) (t tok : Text) (exp : ℕ)
    → one_if (is_some (get (put s.tokens t exp) tok)) ≤ held s tok + one_if (t == tok)
held-issue s t tok exp =
    ground
      (arith, get-put s.tokens t tok exp, Bool-cases (t == tok), Option-cases (get s.tokens tok))

perform-held :
    (s : ClusterStore) (tok : Text) (r : Request)
    → one_if (accepts s tok r) + held (perform s r) tok ≤ held s tok + one_if (issues tok r)
unfolding perform accepts issues generate_enrollment_token validate_and_consume_token enroll_node
    process_heartbeat
perform-held s tok (issue written now random duration) =
    let t = token_prefix ++ random in
    let exp = now + (if is_positive duration then duration else 24 * hour) in
    omega (
      arith,
      held-save written (record s { tokens = put s.tokens t exp }) tok,
      held-issue s t tok exp,
    )
perform-held s tok (consume written now raw) = omega (
  arith,
  consume_token-held written now s (trim_space raw) tok (get s.tokens (trim_space raw)) refl,
)
perform-held s tok (enroll written now random key req ip) =
    let id = node_prefix ++ random in
    omega (
      arith,
      held-save written (record s { nodes = put s.nodes id (new_node now id key req ip) }) tok,
    )
perform-held s tok (heartbeat written now req ip) = omega (
  arith,
  ap (λ m. one_if (is_some (get m tok)))
      (tokens-beat_record written now s req ip (get s.nodes req.node_id)),
)
perform-held s tok (delete written id) =
    omega (arith, ap (λ m. one_if (is_some (get m tok))) (tokens-delete_node written s id))
perform-held s tok (tick now) = omega arith

-- However requests come, a token is accepted at most as often as it has been handed out: once, unless the
-- random numbers repeat it. A token that the store holds at the beginning counts as handed out.
pub accepted-issued :
    (s : ClusterStore) (tok : Text) (requests : List Request)
    → accepted s tok requests + held (perform_all s requests) tok ≤ held s tok + issued tok requests
unfolding accepted issued perform_all
accepted-issued s tok [] = omega arith
accepted-issued s tok (r ∷ requests) =
    omega (arith, perform-held s tok r, accepted-issued (perform s r) tok requests)
