-- ===== src/Panel/Agent/Install.antt =====
-- `syncSmartDistProfile` of panel/smartdist_agent.go where every file operation works.
use dnsdist_edge.Prelude.{
  ℕ, ◌≡◌, refl, ap, sym, ◌∙◌, Bool, true, false, ◌&&◌, some, [], ◌∷◌, ◌==◌, nat_eq, ◌≤◌, suc, zero,
  length, take, is_some, if-both, if-true, Result, ok, err, arith, Bool-cases, Option-cases, inl,
  inr,
}
use dnsdist_edge.Text.{Text, text_eq, text_beq_iff, trim_space, lower}
use dnsdist_edge.Panel.Lua.{generate_smart_dist_lua, generate_dnsdist_lua}
use dnsdist_edge.Panel.Apply.{
  ApplyIo, ProfileFiles, ApplyError, apply_dnsdist_profile, replace_active, keep_old, activate,
  read_active, is_text,
}
use dnsdist_edge.Panel.Agent.{
  EdgeClusterAgent, EdgeAgentState, answered, AgentError, SyncIo, Setup, max_body, save_state,
  set_profile_hash, close_install, install_dnsdist, install_lua, install_profile, take_answer,
  sync_smart_dist_profile, is_registered,
}

-- The file operations and restarts of an application that goes well.
unfoldable pub applies : ApplyIo → Bool
applies io = io.new_written && io.config_accepted && io.lkg_saved && io.renamed && io.restarted

apply_dnsdist_profile-clean :
    (io : ApplyIo) (enabled : Bool) (files : ProfileFiles) (lua : Text)
    → applies io ≡ true
    → (apply_dnsdist_profile io enabled files (some lua)).1 ≡ ok tt
unfolding applies apply_dnsdist_profile replace_active keep_old activate
apply_dnsdist_profile-clean io enabled files lua h = elim (Option-cases (read_active io files)) [
  | inl e ↦ ground arith
  | inr (old, e) ↦ ground (arith, Bool-cases (is_text (some old) lua))
]

take-all : (n : ℕ) (s : Text) → length s ≤ n → take n s ≡ s
take-all zero [] h = refl
take-all zero (c ∷ s) h = absurd (omega arith)
take-all (suc n) [] h = refl
take-all (suc n) (c ∷ s) h = ap (λ t. c ∷ t) (take-all n s (omega arith))

pub state-save_state :
    (written : Bool) (a : EdgeClusterAgent) → (save_state written a).state ≡ a.state
unfolding save_state
state-save_state written a =
    let state : EdgeClusterAgent → EdgeAgentState = λ b. b.state in
    if-both state (a.state_file == []) refl (if-both state written refl refl)

abbrev pub hash_of : EdgeClusterAgent × Result AgentError Unit → Text
hash_of w = w.0.state.profile_hash

hash_of-close_install :
    (io : SyncIo) (a : EdgeClusterAgent) (hash : Text) (applied : Result ApplyError Unit)
    → applied ≡ ok tt
    → hash_of (close_install io a hash applied) ≡ hash
unfolding close_install set_profile_hash
hash_of-close_install io a hash (err e) h = absurd (ground arith)
hash_of-close_install io a hash (ok u) h =
    ap (λ (st : EdgeAgentState). st.profile_hash)
      (state-save_state io.state_saved
        (record a { state = record (a.state) { profile_hash = hash } }))

module _ (setup : Setup) (raw hash : Text) (digest : setup.codec.hex_digest raw ≡ hash)
    (short : length raw ≤ max_body)
    (smart : is_some (generate_smart_dist_lua setup.docs raw) ≡ true)
    (section : is_some (generate_dnsdist_lua setup.codec setup.docs raw) ≡ true) where
  hash_of-install_dnsdist :
      (io : SyncIo) (a : EdgeClusterAgent)
      → applies io.apply ≡ true
      → hash_of (install_dnsdist setup io a raw hash) ≡ hash
  unfolding install_dnsdist
  hash_of-install_dnsdist io a clean =
      elim (Option-cases (generate_dnsdist_lua setup.codec setup.docs raw)) [
        | inl failed ↦ absurd (ground (arith, failed, section))
        | inr (lua, made) ↦
            let applied =
              apply_dnsdist_profile io.apply setup.restarts a.files
                (generate_dnsdist_lua setup.codec setup.docs raw) in
            hash_of-close_install io (record a { files = applied.0 }) hash applied.1
              (ap (λ o. (apply_dnsdist_profile io.apply setup.restarts a.files o).1) made
                ∙ apply_dnsdist_profile-clean io.apply setup.restarts a.files lua clean)
      ]

  hash_of-install_lua :
      (io : SyncIo) (a : EdgeClusterAgent)
      → io.lua_written ≡ true
      → applies io.apply ≡ true
      → hash_of (install_lua setup io a raw hash (generate_smart_dist_lua setup.docs raw)) ≡ hash
  unfolding install_lua
  hash_of-install_lua io a written clean =
      elim (Option-cases (generate_smart_dist_lua setup.docs raw)) [
        | inl failed ↦ absurd (ground (arith, failed, smart))
        | inr (lua, made) ↦
            let loaded = record a { profile_lua = some lua } in
            ap (λ o. hash_of (install_lua setup io a raw hash o)) made
            ∙ ap hash_of (
                if-true (install_dnsdist setup io loaded raw hash) (a, err AgentError.write_failed)
                  written)
            ∙ hash_of-install_dnsdist io loaded clean
      ]

  hash_of-take_answer :
      (io : SyncIo) (a : EdgeClusterAgent)
      → io.lua_written ≡ true
      → applies io.apply ≡ true
      → hash_of (take_answer setup io a (answered 200 (some raw)) hash) ≡ hash
  unfolding take_answer install_profile
  hash_of-take_answer io a written clean =
      rw (take-all max_body raw short, (text_beq_iff (setup.codec.hex_digest raw) hash).1 digest)
        (hash_of-install_lua io a written clean)

  pub hash_of-sync :
      (io : SyncIo) (a : EdgeClusterAgent) (pid : Text)
      → (trim_space pid == []) ≡ false
      → lower (trim_space hash) ≡ hash
      → (hash == []) ≡ false
      → is_registered a ≡ true
      → io.lua_written ≡ true
      → applies io.apply ≡ true
      → hash_of (sync_smart_dist_profile setup io (answered 200 (some raw)) a pid hash) ≡ hash
  unfolding sync_smart_dist_profile
  hash_of-sync io a pid named normal given registered written clean =
      elim (Bool-cases (hash == a.state.profile_hash)) [
        | inl same ↦
            rw (named, normal, given, same) (sym ((text_beq_iff hash a.state.profile_hash).0 same))
        | inr other ↦
            rw (named, normal, given, other, registered) (hash_of-take_answer io a written clean)
      ]
