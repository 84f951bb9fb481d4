-- ===== src/Panel/Agent.antt =====
-- `EdgeClusterAgent` of panel/cluster.go and panel/smartdist_agent.go: an edge that registers at its master,
-- sends heartbeats and takes over its profile. What the network answers, what the file operations give,
-- the host name and random names are arguments.
mod Types
pub mod Register
pub mod Round
pub mod Identity
pub mod Enrolled
pub mod Install
pub mod Converge
pub mod Synced
pub use Types.*
use dnsdist_edge.Prelude.{
  ℕ, Bool, true, false, not, ◌&&◌, ◌||◌, Option, none, some, List, [], ◌∷◌, ◌++◌, ◌==◌, nat_eq,
  take, if◌then◌else◌, Result, ok, err,
}
use dnsdist_edge.Text.{Text, text_eq, codes, trim_space, lower}
use dnsdist_edge.Panel.Profile.{Codec}
use dnsdist_edge.Panel.Lua.{
  Documents, newline, smart_dist_head, generate_smart_dist_lua, generate_dnsdist_lua,
}
use dnsdist_edge.Panel.Apply.{ProfileFiles, ApplyIo, ApplyError, apply_dnsdist_profile}
use dnsdist_edge.Panel.Cluster.{Telemetry, HeartbeatRequest}

-- saveState
unfoldable pub save_state : Bool → EdgeClusterAgent → EdgeClusterAgent
save_state written a =
    if a.state_file == [] then a else if written then record a { saved = some a.state } else a

unfoldable pub set_profile_hash : Bool → EdgeClusterAgent → Text → EdgeClusterAgent
set_profile_hash written a h =
    save_state written (record a { state = record (a.state) { profile_hash = h } })

-- The condition to speak to the master.
unfoldable pub is_registered : EdgeClusterAgent → Bool
is_registered a = not (a.master_url == [] || a.state.node_id == [] || a.state.node_key == [])

abbrev pub smart_dist_disabled_lua : Text
smart_dist_disabled_lua = smart_dist_head ++ codes "SMARTDIST_ENABLED = false" ++ newline

-- The limit of io.LimitReader: 8 << 20.
abbrev pub max_body : ℕ
max_body = 8388608

-- What follows the application of the dnsdist section.
unfoldable pub close_install :
    SyncIo
    → EdgeClusterAgent
    → Text
    → Result ApplyError Unit
    → EdgeClusterAgent × Result AgentError Unit
close_install io a hash (err e) = (a, err AgentError.apply_failed)
close_install io a hash (ok u) = (set_profile_hash io.state_saved a hash, ok tt)

unfoldable pub install_dnsdist :
    Setup → SyncIo → EdgeClusterAgent → Text → Text → EdgeClusterAgent × Result AgentError Unit
install_dnsdist setup io a body hash =
    let (files, applied) =
      apply_dnsdist_profile io.apply setup.restarts a.files
        (generate_dnsdist_lua setup.codec setup.docs body) in
    close_install io (record a { files = files }) hash applied

-- The files that follow from a verified body, and the hash if all are in place.
unfoldable pub install_lua :
    Setup
    → SyncIo
    → EdgeClusterAgent
    → Text
    → Text
    → Option Text
    → EdgeClusterAgent × Result AgentError Unit
install_lua setup io a body want none = (a, err AgentError.bad_profile)
install_lua setup io a body want (some lua) =
    if io.lua_written
    then install_dnsdist setup io (record a { profile_lua = some lua }) body want
    else (a, err AgentError.write_failed)

unfoldable pub install_profile :
    Setup → SyncIo → EdgeClusterAgent → Text → Text → EdgeClusterAgent × Result AgentError Unit
install_profile setup io a body want =
    if setup.codec.hex_digest body == want
    then install_lua setup io a body want (generate_smart_dist_lua setup.docs body)
    else (a, err AgentError.wrong_digest)

-- What is done with the answer to the GET.
unfoldable pub take_answer :
    Setup → SyncIo → EdgeClusterAgent → Fetched → Text → EdgeClusterAgent × Result AgentError Unit
take_answer setup io a lost want = (a, err AgentError.fetch_failed)
take_answer setup io a (answered status none) want =
    if status == 200 then (a, err AgentError.read_failed) else (a, err AgentError.bad_status)
take_answer setup io a (answered status (some body)) want =
    if status == 200
    then install_profile setup io a (take max_body body) want
    else (a, err AgentError.bad_status)

unfoldable pub disable_profile :
    SyncIo → EdgeClusterAgent → EdgeClusterAgent × Result AgentError Unit
disable_profile io a =
    if io.lua_written
    then (
      set_profile_hash io.state_saved (record a { profile_lua = some smart_dist_disabled_lua }) [],
      ok tt,
    )
    else (a, err AgentError.write_failed)

-- syncSmartDistProfileInner
unfoldable pub sync_smart_dist_profile :
    Setup
    → SyncIo
    → Fetched
    → EdgeClusterAgent
    → Text
    → Text
    → EdgeClusterAgent × Result AgentError Unit
sync_smart_dist_profile setup io fetched a profile_id hash =
    let want = lower (trim_space hash) in
    if trim_space profile_id == []
    then disable_profile io a
    else if want == []
    then (a, err AgentError.no_hash)
    else if want == a.state.profile_hash
    then (a, ok tt)
    else if not (is_registered a)
    then (a, err AgentError.unregistered)
    else take_answer setup io a fetched want

-- The heartbeat of sendHeartbeat; the telemetry but for the applied hash is measured.
unfoldable pub heartbeat_request : EdgeClusterAgent → Telemetry → Text → HeartbeatRequest
heartbeat_request a measured version = record {
  node_id = a.state.node_id;
  node_key = a.state.node_key;
  name = a.state.name;
  reported_ip = [];
  version = version;
  telemetry = record measured { applied_profile_hash = a.state.profile_hash };
}

abbrev pub no_response : HeartbeatResponse
no_response = record { master_db_hash = []; profile_id = []; profile_hash = [] }

-- A body that cannot be decoded leaves hbResp empty.
unfoldable pub decoded : Option HeartbeatResponse → HeartbeatResponse
decoded none = no_response
decoded (some resp) = resp

unfoldable pub note_error : Bool → EdgeClusterAgent → Text → EdgeClusterAgent
note_error written a message =
    save_state written (record a { state = record (a.state) { last_error = message } })

-- sendHeartbeat of a registered agent, from the answer on; `stamp` is the time as text and `saved` whether
-- the state is written.
unfoldable pub hear_answer :
    Setup
    → Bool
    → Text
    → SyncIo
    → Fetched
    → EdgeClusterAgent
    → HeartbeatAnswer
    → EdgeClusterAgent × Result AgentError Unit
hear_answer setup saved stamp io fetched a (unreachable message) =
    (note_error saved a (codes "heartbeat gagal: " ++ message), err AgentError.connection)
hear_answer setup saved stamp io fetched a (rejected message) =
    (note_error saved a (codes "heartbeat ditolak: " ++ message), err AgentError.refused)
hear_answer setup saved stamp io fetched a (accepted resp) =
    let beaten =
      save_state saved
        (record a { state = record (a.state) { last_heartbeat = stamp; last_error = [] } }) in
    (
      (sync_smart_dist_profile setup io fetched beaten (decoded resp).profile_id
          (decoded resp).profile_hash).0,
      ok tt,
    )

-- sendHeartbeat
unfoldable pub send_heartbeat :
    Setup
    → Bool
    → Text
    → SyncIo
    → HeartbeatAnswer
    → Fetched
    → EdgeClusterAgent
    → EdgeClusterAgent × Result AgentError Unit
send_heartbeat setup saved stamp io reply fetched a =
    if not (is_registered a)
    then (a, err AgentError.unregistered)
    else hear_answer setup saved stamp io fetched a reply
