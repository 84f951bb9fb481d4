-- ===== src/Panel/Lua.antt =====
-- panel/smartdist_lua.go and panel/smartdist_dnsdist_lua.go: the Lua files that an edge makes of a profile.
-- `Documents` stands for encoding/json: `settings` decodes the smartdist section alone, `profile` the whole.
pub mod Quote
mod Runes
unfoldable pub use Runes.*
use dnsdist_edge.Prelude.{
  ℕ, zero, suc, ◌+◌, ◌/◌, ◌%◌, Bool, true, false, not, ◌&&◌, ◌||◌, Option, none, some, List, [],
  ◌∷◌, ◌++◌, ◌==◌, nat_eq, ltb, leb, length, if◌then◌else◌,
}
use dnsdist_edge.Text.{Text, text_eq, codes}
use dnsdist_edge.Panel.Profile.{
  ℤ, pos, negsuc, Codec, SmartDistRuleSpec, SmartDistSettings, DnsdistUpstream, DnsdistSettings,
  SmartDistProfile, valid_dnsdist_section, type_ip_set, type_cname, type_alias,
}

pub record Documents : Type 0 where
  pub settings : Text → Option SmartDistSettings
  pub profile : Text → Option SmartDistProfile

abbrev pub newline : Text
newline = 10 ∷ []

abbrev pub quote : ℕ
quote = 34

abbrev pub backslash : ℕ
backslash = 92

-- The digit of a number below ten.
abbrev pub digit : ℕ → ℕ
digit n = 48 + n

-- What luaQuote writes for the first byte of a rune.
unfoldable pub quote_byte : ℕ → Text
quote_byte c =
    if c == backslash
    then backslash ∷ backslash ∷ []
    else if c == quote
    then backslash ∷ quote ∷ []
    else if c == 10
    then backslash ∷ b'n' ∷ []
    else if c == 13
    then backslash ∷ b'r' ∷ []
    else if ltb c 32 || c == 127
    then backslash ∷ digit (c / 100) ∷ digit ((c / 10) % 10) ∷ digit (c % 10) ∷ []
    else c ∷ []

-- The loop over the runes, with so many bytes left of the current one.
unfoldable pub quote_bytes : ℕ → Text → Text
quote_bytes left [] = quote ∷ []
quote_bytes (suc left) (c ∷ s) = c ∷ quote_bytes left s
quote_bytes zero (c ∷ s) = elim (tail_length (c ∷ s)) [
  | none ↦ rune_error ++ quote_bytes 0 s
  | some n ↦ quote_byte c ++ quote_bytes n s
]

-- luaQuote
unfoldable pub lua_quote : Text → Text
lua_quote s = quote ∷ quote_bytes 0 s

-- strings.Join(xs, ", ")
unfoldable pub joined : List Text → Text
joined [] = []
joined (x ∷ []) = x
joined (x ∷ y ∷ xs) = x ++ codes ", " ++ joined (y ∷ xs)

unfoldable pub lua_quotes : List Text → List Text
lua_quotes [] = []
lua_quotes (x ∷ xs) = lua_quote x ∷ lua_quotes xs

-- luaStrList
unfoldable pub lua_str_list : List Text → Text
lua_str_list xs = codes "{" ++ joined (lua_quotes xs) ++ codes "}"

-- The line of a rule; none for a type that is not known.
unfoldable pub rule_lua : SmartDistRuleSpec → Option Text
rule_lua r =
    if r.rule_type == type_ip_set
    then some (
        codes "smartdns_ip_set("
        ++ lua_quote r.name
        ++ codes ", "
        ++ lua_quote r.file
        ++ codes ")"
        ++ newline)
    else if r.rule_type == type_cname
    then some (
        codes "smartdns_cname("
        ++ lua_quote r.pattern
        ++ codes ", "
        ++ lua_quote r.target
        ++ codes ")"
        ++ newline)
    else if not (r.rule_type == type_alias)
    then none
    else if not (r.exclude == [])
    then some (
        codes "smartdns_ip_rules_alias("
        ++ lua_quote r.ip_set
        ++ codes ", "
        ++ lua_str_list r.targets
        ++ codes ", "
        ++ lua_quote r.exclude
        ++ codes ")"
        ++ newline)
    else some (
        codes "smartdns_ip_rules_alias("
        ++ lua_quote r.ip_set
        ++ codes ", "
        ++ lua_str_list r.targets
        ++ codes ")"
        ++ newline)

unfoldable pub rules_lua : List SmartDistRuleSpec → Option Text
rules_lua [] = some []
rules_lua (r ∷ rules) = elim (rule_lua r) [
  | none ↦ none
  | some line ↦ elim (rules_lua rules) [ none ↦ none | some rest ↦ some (line ++ rest) ]
]

unfoldable pub bool_lua : Bool → Text
bool_lua true = codes "true"
bool_lua false = codes "false"

abbrev pub smart_dist_head : Text
smart_dist_head =
    codes "-- SmartDist profile (auto-generated by panel agent, do not edit)" ++ newline

unfoldable pub settings_lua : SmartDistSettings → Option Text
settings_lua d = elim (rules_lua d.rules) [
  | none ↦ none
  | some rules ↦
      some
        (smart_dist_head ++ codes "SMARTDIST_ENABLED = " ++ bool_lua d.enabled ++ newline ++ rules)
]

-- generateSmartDistLua
unfoldable pub generate_smart_dist_lua : Documents → Text → Option Text
generate_smart_dist_lua docs raw = elim (docs.settings raw) [
  | none ↦ none
  | some d ↦ settings_lua d
]

-- The decimal digits, before what follows; as fuel twenty rounds, for 64 bits have nineteen digits.
unfoldable pub decimal_before : ℕ → ℕ → Text → Text
decimal_before zero n rest = rest
decimal_before (suc fuel) n rest =
    let more = decimal_before fuel (n / 10) (digit (n % 10) ∷ rest) in
    if ltb n 10 then digit n ∷ rest else more

-- %d of an int
unfoldable pub decimal : ℤ → Text
decimal (pos n) = decimal_before 20 n []
decimal (negsuc n) = b'-' ∷ decimal_before 20 (suc n) []

-- luaInt
unfoldable pub lua_int : Text → Option ℤ → Text
lua_int name none = []
lua_int name (some v) = name ++ codes " = " ++ decimal v ++ newline

-- A line for a list that is not empty.
unfoldable pub list_lua : Text → List Text → Text
list_lua name xs =
    if ltb 0 (length xs) then name ++ codes " = " ++ lua_str_list xs ++ newline else []

unfoldable pub upstream_lua : DnsdistUpstream → Text
upstream_lua u =
    codes "{name="
    ++ lua_quote u.name
    ++ codes ", address="
    ++ lua_quote u.address
    ++ codes ", pool="
    ++ lua_quote u.pool
    ++ codes "}"

unfoldable pub upstream_luas : List DnsdistUpstream → List Text
upstream_luas [] = []
upstream_luas (u ∷ us) = upstream_lua u ∷ upstream_luas us

unfoldable pub upstreams_lua : List DnsdistUpstream → Text
upstreams_lua us =
    if ltb 0 (length us)
    then codes "PROFILE_UPSTREAMS = {" ++ joined (upstream_luas us) ++ codes "}" ++ newline
    else []

unfoldable pub block_mode_lua : Text → Text
block_mode_lua mode =
    if not (mode == []) then codes "PROFILE_BLOCK_MODE = " ++ lua_quote mode ++ newline else []

unfoldable pub section_lua : DnsdistSettings → Text
section_lua d =
    codes "PROFILE_ENABLED = true"
    ++ newline
    ++ block_mode_lua d.block_mode
    ++ list_lua (codes "PROFILE_SINKHOLE_V4") d.sinkhole_v4
    ++ list_lua (codes "PROFILE_SINKHOLE_V6") d.sinkhole_v6
    ++ list_lua (codes "PROFILE_ACL") d.acl
    ++ upstreams_lua d.upstreams
    ++ lua_int (codes "PROFILE_ECS_V4") d.ecs_v4
    ++ lua_int (codes "PROFILE_ECS_V6") d.ecs_v6
    ++ lua_int (codes "PROFILE_MAX_QPS_PER_IP") d.max_qps_per_ip
    ++ lua_int (codes "PROFILE_TCP_MAX_CONNS") d.tcp_max_conns
    ++ lua_int (codes "PROFILE_TCP_MAX_QUERIES") d.tcp_max_queries

abbrev pub dnsdist_head : Text
dnsdist_head = codes "-- dnsdist profile v1 (auto-generated by panel agent, do not edit)" ++ newline

-- generateDnsdistLuaFromStruct
unfoldable pub generate_dnsdist_lua_from_struct : Codec → Option DnsdistSettings → Option Text
generate_dnsdist_lua_from_struct codec none =
    some (dnsdist_head ++ codes "PROFILE_ENABLED = false" ++ newline)
generate_dnsdist_lua_from_struct codec (some d) =
    if valid_dnsdist_section codec (some d) then some (dnsdist_head ++ section_lua d) else none

-- generateDnsdistLua
unfoldable pub generate_dnsdist_lua : Codec → Documents → Text → Option Text
generate_dnsdist_lua codec docs raw = elim (docs.profile raw) [
  | none ↦ none
  | some doc ↦ generate_dnsdist_lua_from_struct codec doc.dnsdist
]
