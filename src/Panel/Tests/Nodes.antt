-- ===== src/Panel/Tests/Nodes.antt =====
-- The theorems on nodes and their master at small stores.
use dnsdist_edge.Prelude.{
  ◌+◌, ◌≤◌, ◌≡◌, refl, true, false, none, some, List, [], ◌∷◌, nat_eq, arith,
}
use dnsdist_edge.Text.{
  text_eq, text_beq, trim_space, trim_left, trim_right, is_space, lower, lower_byte,
}
use dnsdist_edge.Map.{get}
use dnsdist_edge.Panel.Profile.{SmartDistProfile, SmartDistSettings}
use dnsdist_edge.Panel.SmartDist.{SmartDistProfileStore, SmartDistEntry, profile_for_node}
use dnsdist_edge.Panel.Lua.{
  generate_smart_dist_lua, settings_lua, rules_lua, generate_dnsdist_lua,
  generate_dnsdist_lua_from_struct,
}
use dnsdist_edge.Panel.Apply.{
  ApplyIo, ProfileFiles, apply_dnsdist_profile, is_text, read_active, replace_active, keep_old,
  activate, roll_back, restart_old,
}
use dnsdist_edge.Panel.Apply.Rollback.{apply_dnsdist_profile-err}
use dnsdist_edge.Panel.Cluster.{
  NodeRecord, Status, ProfileSync, no_telemetry, ClusterStore, HeartbeatRequest,
}
use dnsdist_edge.Panel.Cluster.Listing.{Floats, list_nodes}
use dnsdist_edge.Panel.Cluster.Counted.{HasCounts}
use dnsdist_edge.Panel.Cluster.Aggregate.{active, HasSums, list_nodes-aggregate}
use dnsdist_edge.Panel.Cluster.Requests.{
  Request, issue, consume, heartbeat, delete, perform_all, accepted, issued, held, accepted-issued,
}
use dnsdist_edge.Panel.SqlStore.{SqlClusterStore}
use dnsdist_edge.Panel.Agent.{EdgeClusterAgent, Setup}
use dnsdist_edge.Panel.Agent.Round.{RoundIo, round, rounds}
use dnsdist_edge.Panel.Agent.Install.{applies}
use dnsdist_edge.Panel.Agent.Converge.{is_clean}
use dnsdist_edge.Panel.Agent.Synced.{listed, IsShownSynced, synced-rounds}

-- A profile "p" with the body "x", and a digest that is "a" for every text.
abbrev entry : SmartDistEntry
entry = record { raw = b'x' ∷ []; hash = b'a' ∷ [] }

abbrev settings : SmartDistSettings
settings = record { enabled = true; rules = [] }

abbrev profile : SmartDistProfile
profile = record { id = b'p' ∷ []; name = b'p' ∷ []; smartdist = settings; dnsdist = none }

abbrev setup : Setup
setup = record {
  codec = record {
    decode = λ t. none;
    marshal = λ q. [];
    is_addr4 = λ t. true;
    is_addr6 = λ t. true;
    is_prefix = λ t. true;
    is_addr_port = λ t. true;
    hex_digest = λ t. b'a' ∷ [];
  };
  docs = record { settings = λ t. some settings; profile = λ t. some profile };
  restarts = true;
}

abbrev floats : Floats
floats = record { plus = λ a b. a + b; mean = λ sum n. sum }

-- The node "n" with the key "k" has the profile.
abbrev profiles : SmartDistProfileStore
profiles = record {
  profiles = (b'p' ∷ [], entry) ∷ [];
  assign = (b'n' ∷ [], b'p' ∷ []) ∷ [];
  history = [];
  file = none;
}

abbrev node_record : NodeRecord
node_record = record {
  id = b'n' ∷ [];
  key = b'k' ∷ [];
  name = b'n' ∷ [];
  ip = [];
  version = [];
  status = Status.online;
  first_seen_at = 1;
  last_seen_at = 1;
  telemetry = no_telemetry;
  profile_id = [];
  profile_sync = ProfileSync.untracked;
}

abbrev store : ClusterStore
store = record {
  file_path = [];
  tokens = (b't' ∷ [], 9) ∷ [];
  nodes = (b'n' ∷ [], node_record) ∷ [];
  file = none;
}

abbrev edge : EdgeClusterAgent
edge = record {
  state_file = [];
  master_url = b'm' ∷ [];
  enroll_tok = [];
  node_name = [];
  state = record {
    node_id = b'n' ∷ [];
    node_key = b'k' ∷ [];
    master_url = b'm' ∷ [];
    name = b'n' ∷ [];
    last_heartbeat = [];
    last_error = [];
    profile_hash = [];
  };
  saved = none;
  profile_lua = none;
  files = record { active = none; fresh = none; lkg = none };
}

abbrev good_apply : ApplyIo
good_apply = record {
  readable = true;
  new_written = true;
  config_accepted = true;
  lkg_saved = true;
  renamed = true;
  restarted = true;
  rolled_back = true;
  restarted_again = true;
  torn = none;
}

abbrev good_round : RoundIo
good_round = record {
  now = 5;
  written = true;
  db_hash = [];
  remote_ip = [];
  measured = no_telemetry;
  version = [];
  stamp = [];
  failure = [];
  heard = true;
  replied = true;
  fetch_replied = true;
  saved = true;
  sync = record { lua_written = true; apply = good_apply; state_saved = true };
}

-- A heartbeat whose answer is lost.
abbrev lost_round : RoundIo
lost_round = record good_round { replied = false }

synced-rounds_example :
    IsShownSynced
      (listed floats 7
        (round setup good_round profiles (
          round setup good_round profiles
            (rounds setup (lost_round ∷ []) profiles (store, edge)))).0
        profiles)
      (b'n' ∷ [])
      (b'p' ∷ [])
unfolding get text_beq trim_space trim_left trim_right is_space lower lower_byte profile_for_node
    generate_smart_dist_lua settings_lua rules_lua generate_dnsdist_lua
    generate_dnsdist_lua_from_struct is_clean applies
synced-rounds_example =
    synced-rounds setup floats 7 (lost_round ∷ []) good_round good_round profiles store edge
      (b'p' ∷ []) entry (refl, refl) (refl, refl, tt) (refl, refl) refl refl refl (refl, refl) refl
      (omega arith) refl refl refl refl

-- A token "t" is held; it is used, handed out again under another name, and used once more.
abbrev uses : List Request
uses = consume true 3 (b't' ∷ []) ∷ issue true 4 (b'u' ∷ []) 5 ∷ consume true 5 (b't' ∷ []) ∷ []

accepted-issued_example :
    accepted store (b't' ∷ []) uses + held (perform_all store uses) (b't' ∷ [])
    ≤ held store (b't' ∷ []) + issued (b't' ∷ []) uses
accepted-issued_example = accepted-issued store (b't' ∷ []) uses

abbrev table : SqlClusterStore
table = record { cluster_tokens = store.tokens; cluster_nodes = store.nodes }

abbrev beat_request : HeartbeatRequest
beat_request = record {
  node_id = b'n' ∷ [];
  node_key = b'k' ∷ [];
  name = [];
  reported_ip = [];
  version = [];
  telemetry = no_telemetry;
}

abbrev calls : List Request
calls = heartbeat true 3 beat_request [] ∷ consume true 3 (b't' ∷ []) ∷ delete true (b'n' ∷ []) ∷ []

-- A restart that fails where an old profile is active.
abbrev old_files : ProfileFiles
old_files = record { active = some (b'o' ∷ []); fresh = none; lkg = none }

apply_dnsdist_profile-err_example :
    (apply_dnsdist_profile
      (record good_apply { restarted = false })
      true
      old_files
      (some (b'x' ∷ []))).0.active
    ≡ old_files.active
unfolding apply_dnsdist_profile is_text read_active replace_active keep_old activate roll_back
    restart_old text_beq
apply_dnsdist_profile-err_example =
    apply_dnsdist_profile-err (record good_apply { restarted = false }) true old_files
      (some (b'x' ∷ [])) refl refl refl

list_nodes-aggregate_example :
    let (list, agg) = (list_nodes floats 7 store (some profiles)).1 in
    HasCounts agg list × HasSums floats agg (active list)
list_nodes-aggregate_example = list_nodes-aggregate floats 7 store profiles (refl, refl, tt)
