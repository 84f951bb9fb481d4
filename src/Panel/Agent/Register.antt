-- ===== src/Panel/Agent/Register.antt =====
-- `Register` and `run` of `EdgeClusterAgent` in panel/cluster.go: how an edge comes to be known to its master.
-- The runner that Register starts is not part of the state.
use dnsdist_edge.Prelude.{
  Bool, not, ◌&&◌, Option, none, some, [], ◌∷◌, ◌++◌, ◌==◌, nat_eq, if◌then◌else◌, Result, ok, err,
}
use dnsdist_edge.Text.{Text, text_eq, codes, trim_space}
use dnsdist_edge.Panel.Cluster.{or_else}
use dnsdist_edge.Panel.Agent.{
  EdgeClusterAgent, AgentError, Fetched, HeartbeatAnswer, SyncIo, Setup, save_state, note_error,
  send_heartbeat,
}

-- strings.TrimRight(s, "/")
unfoldable pub trim_slashes : Text → Text
trim_slashes [] = []
trim_slashes (c ∷ s) = let r = trim_slashes s in if r == [] && c == b'/' then [] else c ∷ r

unfoldable pub clean_url : Text → Text
clean_url url = trim_slashes (trim_space url)

pub record RegisterResponse : Type 0 where
  pub node_id : Text
  pub node_key : Text
  pub name : Text

-- The answer to a registration, as for a heartbeat.
pub data RegisterAnswer : Type 0 where
  no_connection denied : Text → RegisterAnswer
  granted : Option RegisterResponse → RegisterAnswer

-- The first heartbeat of a registered edge, with all that it meets.
pub record FirstBeat : Type 0 where
  pub saved : Bool
  pub stamp : Text
  pub sync : SyncIo
  pub reply : HeartbeatAnswer
  pub fetched : Fetched

-- The state that a registration leaves.
unfoldable pub adopt : Bool → EdgeClusterAgent → Text → RegisterResponse → EdgeClusterAgent
adopt saved a url r = save_state saved (record a {
  master_url = url;
  state = record (a.state) {
    master_url = url;
    node_id = r.node_id;
    node_key = r.node_key;
    name = r.name;
    last_error = [];
  };
})

-- The name that Register asks for; `host` is "" where os.Hostname fails.
unfoldable pub register_name : EdgeClusterAgent → Text → Text → Text → Text
register_name a name host random =
    or_else name (or_else a.node_name (or_else host (codes "edge-" ++ random)))

unfoldable pub take_registration :
    Setup
    → Bool
    → FirstBeat
    → EdgeClusterAgent
    → Text
    → RegisterAnswer
    → EdgeClusterAgent × Result AgentError Unit
take_registration setup saved first a url (no_connection message) =
    (note_error saved a (codes "koneksi master gagal: " ++ message), err AgentError.connection)
take_registration setup saved first a url (denied message) =
    (note_error saved a (codes "pendaftaran ditolak: " ++ message), err AgentError.refused)
take_registration setup saved first a url (granted none) = (a, err AgentError.undecodable)
take_registration setup saved first a url (granted (some r)) = (
  (send_heartbeat setup first.saved first.stamp first.sync first.reply first.fetched
      (adopt saved a url r)).0,
  ok tt,
)

-- Register
unfoldable pub register :
    Setup
    → Bool
    → FirstBeat
    → EdgeClusterAgent
    → Text
    → RegisterAnswer
    → EdgeClusterAgent × Result AgentError Unit
register setup saved first a target_url reply =
    let url = clean_url target_url in
    if url == []
    then (a, err AgentError.no_url)
    else take_registration setup saved first a url reply

-- Whether the edge has an id and a key.
unfoldable pub is_enrolled : EdgeClusterAgent → Bool
is_enrolled a = not (a.state.node_id == []) && not (a.state.node_key == [])

unfoldable pub can_register : EdgeClusterAgent → Bool
can_register a = not (a.enroll_tok == []) && not (a.master_url == [])

-- A tick of run: an edge that is not enrolled tries to register, another sends a heartbeat.
unfoldable pub run_tick :
    Setup → Bool → FirstBeat → RegisterAnswer → EdgeClusterAgent → EdgeClusterAgent
run_tick setup saved beat answer a =
    if is_enrolled a
    then (send_heartbeat setup beat.saved beat.stamp beat.sync beat.reply beat.fetched a).0
    else if can_register a
    then (register setup saved beat a a.master_url answer).0
    else a

-- loadState
unfoldable pub load_state : EdgeClusterAgent → EdgeClusterAgent
load_state a = elim a.saved [
  | none ↦ a
  | some st ↦ record a { state = st; master_url = or_else a.master_url st.master_url }
]
