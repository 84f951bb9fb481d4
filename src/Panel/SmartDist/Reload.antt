-- ===== src/Panel/SmartDist/Reload.antt =====
-- `load` of panel/smartdist_profile.go on the file that `saveLocked` wrote.

use dnsdist_edge.Prelude.{◌≡◌, refl, true, some, [], ◌∷◌, is_some, arith, All}
use dnsdist_edge.Text.{Text, text_eq}
use dnsdist_edge.Text.Laws.{text_beq_refl}
use dnsdist_edge.Map.{Map, get}
use dnsdist_edge.Panel.Profile.{Codec, parse_smart_dist_profile}
use dnsdist_edge.Panel.SmartDist.{
  SmartDistEntry, SmartDistProfileStore, raw_texts, save_locked, profile_for_node, load_profile,
  load_profiles, load_assign, load_format, load,
}

-- An entry that Put stores: its text is read back as itself under its id, and has its hash.
abbrev pub IsCanonical : Codec → Text × SmartDistEntry → Type 0
IsCanonical codec (id, e) =
    (parse_smart_dist_profile codec e.raw ≡ some (id, e.raw)) × (codec.hex_digest e.raw ≡ e.hash)

-- An assignment to a profile that exists.
abbrev pub Refers : Map Text SmartDistEntry → Text × Text → Type 0
Refers profiles (node, pid) = is_some (get profiles pid) ≡ true

load_profiles-raw_texts :
    (codec : Codec) (profiles : Map Text SmartDistEntry)
    → All (IsCanonical codec) profiles
    → load_profiles codec (raw_texts profiles) ≡ profiles
unfolding load_profiles raw_texts load_profile
load_profiles-raw_texts codec [] h = refl
load_profiles-raw_texts codec ((id, e) ∷ profiles) ((read, hash), h) =
    ground (arith, text_beq_refl id, load_profiles-raw_texts codec profiles h)

load_assign-same :
    (profiles : Map Text SmartDistEntry) (assign : Map Text Text)
    → All (Refers profiles) assign
    → load_assign profiles assign ≡ assign
unfolding load_assign
load_assign-same profiles [] h = refl
load_assign-same profiles ((n, pid) ∷ assign) (here, h) =
    ground (arith, load_assign-same profiles assign h)

-- A store that can be loaded again.
abbrev pub IsLoadable : Codec → SmartDistProfileStore → Type 0
IsLoadable codec s = All (IsCanonical codec) s.profiles × All (Refers s.profiles) s.assign

-- What a saved store answers to a node is what the store loaded from its file answers, if every profile
-- is canonical and every assignment is to a profile that exists.
pub profile_for_node-reload :
    (codec : Codec) (s : SmartDistProfileStore) (node : Text)
    → IsLoadable codec s
    → profile_for_node (load codec (save_locked s).file) node ≡ profile_for_node s node
unfolding load load_format save_locked profile_for_node
profile_for_node-reload codec s node (canonical, refers) = ground (
  arith,
  load_profiles-raw_texts codec s.profiles canonical,
  load_assign-same s.profiles s.assign refers,
)
