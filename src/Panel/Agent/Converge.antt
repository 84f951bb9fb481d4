-- ===== src/Panel/Agent/Converge.antt =====
-- The profile of an edge over its heartbeats: `sendHeartbeat` of panel/cluster.go and `syncSmartDistProfile` of
-- panel/smartdist_agent.go against the handlers of the master.
use dnsdist_edge.Prelude.{
  ◌≡◌, refl, ap, sym, ◌∙◌, Bool, true, false, ◌&&◌, none, some, [], ◌==◌, nat_eq, ◌≤◌, length,
  is_some, if◌then◌else◌, if-true, if-false, err, arith, Option-cases, inl, inr,
}
use dnsdist_edge.Text.{Text, text_eq, text_beq_iff, trim_space, lower}
use dnsdist_edge.Map.{get}
use dnsdist_edge.Panel.SmartDist.{
  SmartDistProfileStore, SmartDistEntry, get_profile, profile_for_node,
}
use dnsdist_edge.Panel.Lua.{generate_smart_dist_lua, generate_dnsdist_lua}
use dnsdist_edge.Panel.Cluster.{ClusterStore, verify_node_key, has_key}
use dnsdist_edge.Panel.Agent.{
  EdgeClusterAgent, lost, answered, unreachable, accepted, AgentError, SyncIo, Setup, max_body,
  decoded, save_state, is_registered, hear_answer, send_heartbeat,
}
use dnsdist_edge.Panel.Api.{
  heartbeat_response, verify_edge_node, profile_body, handle_cluster_profile_fetch,
}
use dnsdist_edge.Panel.Agent.Install.{applies, hash_of, hash_of-sync}
use dnsdist_edge.Panel.Agent.Round.{RoundIo, master_turn, edge_turn, round}
use dnsdist_edge.Panel.Agent.Identity.{identity-save_state}
use dnsdist_edge.Panel.Agent.Enrolled.{
  can_speak, key_of, key_in, IsEnrolled, master_turn-heard, key_of-master_turn,
}

-- A heartbeat in which every message arrives and every file operation works.
unfoldable pub is_clean : RoundIo → Bool
is_clean r = r.heard && r.replied && r.fetch_replied && r.sync.lua_written && applies r.sync.apply

profile_body-there :
    (st : SmartDistProfileStore) (pid hash : Text) (e : SmartDistEntry)
    → get st.profiles pid ≡ some e
    → profile_body st (some (pid, hash)) ≡ answered 200 (some e.raw)
unfolding profile_body get_profile
profile_body-there st pid hash e there =
    ap (λ o. elim o [ none ↦ answered 404 (some []) | some e ↦ answered 200 (some e.raw) ]) there

-- A node with its key is sent the profile that it has.
handle_cluster_profile_fetch-known :
    (s : ClusterStore) (st : SmartDistProfileStore) (id key pid hash : Text) (e : SmartDistEntry)
    → key_of s.nodes id ≡ some key
    → (trim_space id ≡ id) × (trim_space key ≡ key)
    → ((id == []) ≡ false) × ((key == []) ≡ false)
    → profile_for_node st id ≡ some (pid, hash)
    → get st.profiles pid ≡ some e
    → handle_cluster_profile_fetch s st id key ≡ answered 200 (some e.raw)
unfolding handle_cluster_profile_fetch verify_edge_node verify_node_key profile_body get_profile
    has_key
handle_cluster_profile_fetch-known s st id key pid hash e known trimmed given assigned there =
    elim (Option-cases (get s.nodes id)) [
      | inl missing ↦ absurd (ground (arith, sym (ap key_in missing) ∙ known))
      | inr (rec, found) ↦
          let same : some rec.key ≡ some key = sym (ap key_in found) ∙ known in
          let right : rec.key ≡ key = ground arith in
          rw
            (
              trimmed.0,
              trimmed.1,
              given.0,
              given.1,
              found,
              right,
              given.1,
              (text_beq_iff key key).1 refl,
              assigned,
            )
            (profile_body-there st pid hash e there)
    ]

module _ (setup : Setup) (st : SmartDistProfileStore) (pid : Text) (e : SmartDistEntry)
    (there : get st.profiles pid ≡ some e) (named : (trim_space pid == []) ≡ false)
    (normal : lower (trim_space e.hash) ≡ e.hash) (given : (e.hash == []) ≡ false)
    (digest : setup.codec.hex_digest e.raw ≡ e.hash) (short : length e.raw ≤ max_body)
    (smart : is_some (generate_smart_dist_lua setup.docs e.raw) ≡ true)
    (section : is_some (generate_dnsdist_lua setup.codec setup.docs e.raw) ≡ true) where
  hash_of-hear_answer :
      (saved : Bool) (stamp : Text) (io : SyncIo) (a : EdgeClusterAgent) (db_hash : Text)
      → is_registered a ≡ true
      → io.lua_written ≡ true
      → applies io.apply ≡ true
      → hash_of (
          hear_answer setup saved stamp io
            (answered 200 (some e.raw))
            a
            (accepted (some (heartbeat_response db_hash (some (pid, e.hash))))))
        ≡ e.hash
  unfolding hear_answer decoded heartbeat_response is_registered
  hash_of-hear_answer saved stamp io a db_hash registered written clean =
      let beaten = record a {
        state = record (a.state) { last_heartbeat = stamp; last_error = [] };
      } in
      hash_of-sync setup e.raw e.hash digest short smart section io (save_state saved beaten) pid
        named normal given (ap can_speak (identity-save_state saved beaten) ∙ registered) written
        clean

  hash-edge_turn :
      (r : RoundIo) (s : ClusterStore) (a : EdgeClusterAgent) (db_hash : Text)
      → IsEnrolled s a
      → (trim_space a.state.node_id ≡ a.state.node_id)
        × (trim_space a.state.node_key ≡ a.state.node_key)
      → profile_for_node st a.state.node_id ≡ some (pid, e.hash)
      → is_clean r ≡ true
      → (edge_turn setup r s st
          (accepted (some (heartbeat_response db_hash (some (pid, e.hash)))))
          a).state.profile_hash
        ≡ e.hash
  unfolding edge_turn send_heartbeat is_clean is_registered
  hash-edge_turn r s a db_hash (registered, known) trimmed assigned clean =
      let fetched =
        handle_cluster_profile_fetch-known s st a.state.node_id a.state.node_key pid e.hash e known
          trimmed (ground arith, ground arith) assigned there in
      let replied : r.replied ≡ true = ground arith in
      let sent : r.fetch_replied ≡ true = ground arith in
      ap hash_of (
        if-false (a, err AgentError.unregistered)
          (hear_answer setup r.saved r.stamp r.sync
            (if r.fetch_replied
              then handle_cluster_profile_fetch s st a.state.node_id a.state.node_key
              else lost)
            a
            (if r.replied
              then accepted (some (heartbeat_response db_hash (some (pid, e.hash))))
              else unreachable r.failure))
          (ground arith))
      ∙ ap
          (λ f. hash_of (
            hear_answer setup r.saved r.stamp r.sync f a (
              if r.replied
              then accepted (some (heartbeat_response db_hash (some (pid, e.hash))))
              else unreachable r.failure)))
          (if-true _ lost sent ∙ fetched)
      ∙ ap (λ p. hash_of (hear_answer setup r.saved r.stamp r.sync (answered 200 (some e.raw)) a p))
          (if-true _ (unreachable r.failure) replied)
      ∙ hash_of-hear_answer r.saved r.stamp r.sync a db_hash registered (ground arith)
          (ground arith)

  -- A heartbeat in which nothing fails leaves the edge with the hash of its profile.
  pub hash-round :
      (r : RoundIo) (s : ClusterStore) (a : EdgeClusterAgent)
      → IsEnrolled s a
      → (trim_space a.state.node_id ≡ a.state.node_id)
        × (trim_space a.state.node_key ≡ a.state.node_key)
      → profile_for_node st a.state.node_id ≡ some (pid, e.hash)
      → is_clean r ≡ true
      → (round setup r st (s, a)).1.state.profile_hash ≡ e.hash
  unfolding round is_clean
  hash-round r s a (registered, known) trimmed assigned clean =
      let (rec, found, nodes, reply) =
        master_turn-heard r s st a (registered, known) (ground arith) in
      let after = (master_turn r s st a).0 in
      ap (λ p. (edge_turn setup r after st p a).state.profile_hash)
        (reply ∙ ap (λ o. accepted (some (heartbeat_response r.db_hash o))) assigned)
      ∙ hash-edge_turn r after a r.db_hash
          (registered, key_of-master_turn r s st a a.state.node_id ∙ known) trimmed assigned clean
