-- ===== src/Panel/Agent/Identity.antt =====
-- The identity of an edge at its master (panel/cluster.go, panel/smartdist_agent.go): who it is for the master
-- and with which key, through heartbeats.

use dnsdist_edge.Prelude.{
  ◌≡◌, refl, ◌∙◌, Bool, not, Option, none, some, [], ◌==◌, nat_eq, ◌++◌, take, if-both,
  if◌then◌else◌, Result, ok, err, arith, Bool-cases,
}
use dnsdist_edge.Text.{Text, text_eq, trim_space, lower, codes}
use dnsdist_edge.Panel.SmartDist.{SmartDistProfileStore}
use dnsdist_edge.Panel.Lua.{generate_smart_dist_lua, generate_dnsdist_lua}
use dnsdist_edge.Panel.Apply.{ApplyError, apply_dnsdist_profile}
use dnsdist_edge.Panel.Cluster.{ClusterStore}
use dnsdist_edge.Panel.Agent.{
  EdgeClusterAgent, Fetched, lost, answered, HeartbeatAnswer, unreachable, rejected, accepted,
  SyncIo, Setup, AgentError, hear_answer, install_lua, close_install, decoded, save_state,
  set_profile_hash, max_body, smart_dist_disabled_lua, install_dnsdist, install_profile,
  take_answer, disable_profile, sync_smart_dist_profile, is_registered, note_error, send_heartbeat,
}
use dnsdist_edge.Panel.Api.{handle_cluster_profile_fetch}
use dnsdist_edge.Panel.Agent.Round.{RoundIo, edge_turn}

-- The master's address, the node's id and its key.
abbrev pub identity : EdgeClusterAgent → Text × (Text × Text)
identity a = (a.master_url, (a.state.node_id, a.state.node_key))

abbrev outcome : EdgeClusterAgent × Result AgentError Unit → Text × (Text × Text)
outcome w = identity w.0

pub identity-save_state :
    (written : Bool) (a : EdgeClusterAgent) → identity (save_state written a) ≡ identity a
unfolding save_state
identity-save_state written a = ground (arith, Bool-cases (a.state_file == []), Bool-cases written)

pub identity-set_profile_hash :
    (written : Bool) (a : EdgeClusterAgent) (h : Text)
    → identity (set_profile_hash written a h) ≡ identity a
unfolding set_profile_hash
identity-set_profile_hash written a h =
    identity-save_state written (record a { state = record (a.state) { profile_hash = h } })

identity-close_install :
    (io : SyncIo) (a : EdgeClusterAgent) (hash : Text) (applied : Result ApplyError Unit)
    → identity (close_install io a hash applied).0 ≡ identity a
unfolding close_install
identity-close_install io a hash (ok u) = identity-set_profile_hash io.state_saved a hash
identity-close_install io a hash (err e) = refl

identity-install_lua :
    (setup : Setup) (io : SyncIo) (a : EdgeClusterAgent) (body want : Text) (lua : Option Text)
    → identity (install_lua setup io a body want lua).0 ≡ identity a
unfolding install_lua install_dnsdist
identity-install_lua setup io a body want none = refl
identity-install_lua setup io a body want (some lua) =
    let (files, applied) =
      apply_dnsdist_profile io.apply setup.restarts a.files
        (generate_dnsdist_lua setup.codec setup.docs body) in
    if-both outcome io.lua_written
      (identity-close_install io (record a { profile_lua = some lua; files = files }) want applied)
      refl

identity-take_answer :
    (setup : Setup) (io : SyncIo) (a : EdgeClusterAgent) (fetched : Fetched) (want : Text)
    → identity (take_answer setup io a fetched want).0 ≡ identity a
unfolding take_answer install_profile
identity-take_answer setup io a lost want = refl
identity-take_answer setup io a (answered status none) want =
    if-both outcome (status == 200) refl refl
identity-take_answer setup io a (answered status (some body)) want =
    let cut = take max_body body in
    if-both outcome (status == 200)
      (if-both outcome (setup.codec.hex_digest cut == want)
        (identity-install_lua setup io a cut want (generate_smart_dist_lua setup.docs cut)) refl)
      refl

identity-sync :
    (setup : Setup) (io : SyncIo) (fetched : Fetched) (a : EdgeClusterAgent) (pid hash : Text)
    → identity (sync_smart_dist_profile setup io fetched a pid hash).0 ≡ identity a
unfolding sync_smart_dist_profile disable_profile
identity-sync setup io fetched a pid hash =
    let want = lower (trim_space hash) in
    if-both outcome (trim_space pid == [])
      (if-both outcome io.lua_written
        (identity-set_profile_hash io.state_saved
          (record a { profile_lua = some smart_dist_disabled_lua }) [])
        refl)
      (if-both outcome (want == []) refl (
        if-both outcome (want == a.state.profile_hash) refl (
          if-both outcome (not (is_registered a)) refl
            (identity-take_answer setup io a fetched want))))

identity-hear_answer :
    (setup : Setup) (saved : Bool) (stamp : Text) (io : SyncIo) (fetched : Fetched)
    (a : EdgeClusterAgent) (reply : HeartbeatAnswer)
    → identity (hear_answer setup saved stamp io fetched a reply).0 ≡ identity a
unfolding hear_answer note_error
identity-hear_answer setup saved stamp io fetched a (unreachable message) =
    identity-save_state saved
      (record a { state = record (a.state) { last_error = codes "heartbeat gagal: " ++ message } })
identity-hear_answer setup saved stamp io fetched a (rejected message) =
    identity-save_state saved (record a {
      state = record (a.state) { last_error = codes "heartbeat ditolak: " ++ message };
    })
identity-hear_answer setup saved stamp io fetched a (accepted resp) =
    let beaten = record a {
      state = record (a.state) { last_heartbeat = stamp; last_error = [] };
    } in
    identity-sync setup io fetched (save_state saved beaten) (decoded resp).profile_id
      (decoded resp).profile_hash
    ∙ identity-save_state saved beaten

pub identity-edge_turn :
    (setup : Setup) (r : RoundIo) (s : ClusterStore) (st : SmartDistProfileStore)
    (reply : HeartbeatAnswer) (a : EdgeClusterAgent)
    → identity (edge_turn setup r s st reply a) ≡ identity a
unfolding edge_turn send_heartbeat
identity-edge_turn setup r s st reply a = if-both outcome (not (is_registered a)) refl (
    identity-hear_answer setup r.saved r.stamp r.sync
      (if r.fetch_replied
        then handle_cluster_profile_fetch s st a.state.node_id a.state.node_key
        else lost)
      a (if r.replied then reply else unreachable r.failure))
