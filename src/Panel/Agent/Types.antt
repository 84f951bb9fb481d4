-- ===== src/Panel/Agent/Types.antt =====
-- The data of `EdgeClusterAgent` in panel/cluster.go, and what an edge meets: answers of its master, outcomes of
-- file operations.
use dnsdist_edge.Prelude.{ℕ, Bool, Option}
use dnsdist_edge.Text.{Text}
use dnsdist_edge.Panel.Profile.{Codec}
use dnsdist_edge.Panel.Lua.{Documents}
use dnsdist_edge.Panel.Apply.{ProfileFiles, ApplyIo}

pub record EdgeAgentState : Type 0 where
  pub node_id : Text
  pub node_key : Text
  pub master_url : Text
  pub name : Text
  pub last_heartbeat : Text
  pub last_error : Text
  pub profile_hash : Text

-- The agent with its files: `saved` at stateFile, `profile_lua` at smartDistProfilePath, `files` those of
-- the dnsdist profile.
pub record EdgeClusterAgent : Type 0 where
  pub state_file : Text
  pub master_url : Text
  pub enroll_tok : Text
  pub node_name : Text
  pub state : EdgeAgentState
  pub saved : Option EdgeAgentState
  pub profile_lua : Option Text
  pub files : ProfileFiles

pub data AgentError : Type 0 where
  unregistered no_hash fetch_failed bad_status read_failed wrong_digest bad_profile write_failed :
      AgentError
  apply_failed connection refused no_url undecodable : AgentError

-- A body that is a file, with the status before it; the body is none if reading it fails.
pub data Fetched : Type 0 where
  lost : Fetched
  answered : ℕ → Option Text → Fetched

pub record HeartbeatResponse : Type 0 where
  pub master_db_hash : Text
  pub profile_id : Text
  pub profile_hash : Text

-- The outcomes of a sync: of writing the Lua file, of applying the dnsdist section, and of saving the state.
pub record SyncIo : Type 0 where
  pub lua_written : Bool
  pub apply : ApplyIo
  pub state_saved : Bool

-- What an agent is run with: -dnsdist-restart and its parsers.
pub record Setup : Type 0 where
  pub codec : Codec
  pub docs : Documents
  pub restarts : Bool

-- The answer to a heartbeat: no connection, a status that is not 200 with the error of its body, or 200
-- with the body if it can be decoded.
pub data HeartbeatAnswer : Type 0 where
  unreachable rejected : Text → HeartbeatAnswer
  accepted : Option HeartbeatResponse → HeartbeatAnswer
