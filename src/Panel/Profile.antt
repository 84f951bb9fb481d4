-- ===== src/Panel/Profile.antt =====
-- The profiles of panel/smartdist_profile.go and their validation. `Codec` stands for encoding/json
-- (`decode` refuses unknown fields, `marshal` writes the canonical text), net/netip and the hex digest of
-- crypto/sha256. An optional int that is nil is `none`.
use dnsdist_edge.Prelude.{
  ℕ, Bool, true, false, not, ◌&&◌, ◌||◌, Option, none, some, List, [], ◌∷◌, ◌==◌, nat_eq, ltb, leb,
  length, if◌then◌else◌,
}
use dnsdist_edge.Text.{Text, text_eq, trim_space}

-- Go's int by sign, as in the library.
pub data ℤ : Type 0 where
  pos negsuc : ℕ → ℤ

pub record SmartDistRuleSpec : Type 0 where
  pub rule_type : Text
  pub name : Text
  pub file : Text
  pub pattern : Text
  pub target : Text
  pub ip_set : Text
  pub targets : List Text
  pub exclude : Text

pub record SmartDistSettings : Type 0 where
  pub enabled : Bool
  pub rules : List SmartDistRuleSpec

pub record DnsdistUpstream : Type 0 where
  pub name : Text
  pub address : Text
  pub pool : Text

pub record DnsdistSettings : Type 0 where
  pub block_mode : Text
  pub sinkhole_v4 : List Text
  pub sinkhole_v6 : List Text
  pub acl : List Text
  pub upstreams : List DnsdistUpstream
  pub ecs_v4 : Option ℤ
  pub ecs_v6 : Option ℤ
  pub max_qps_per_ip : Option ℤ
  pub tcp_max_conns : Option ℤ
  pub tcp_max_queries : Option ℤ

pub record SmartDistProfile : Type 0 where
  pub id : Text
  pub name : Text
  pub smartdist : SmartDistSettings
  pub dnsdist : Option DnsdistSettings

-- `is_addr4` is that netip.ParseAddr succeeds with an address for which Is4 holds, and so on.
pub record Codec : Type 0 where
  pub decode : Text → Option SmartDistProfile
  pub marshal : SmartDistProfile → Text
  pub is_addr4 : Text → Bool
  pub is_addr6 : Text → Bool
  pub is_prefix : Text → Bool
  pub is_addr_port : Text → Bool
  pub hex_digest : Text → Text

unfoldable pub every {ℓ} : {A : Type ℓ} → (A → Bool) → List A → Bool
every f [] = true
every f (x ∷ xs) = f x && every f xs

-- A byte of the class [a-z0-9-].
unfoldable pub is_id_byte : ℕ → Bool
is_id_byte c = (leb b'a' c && leb c b'z') || (leb b'0' c && leb c b'9') || c == b'-'

-- smartDistIDRe and dnsdistNameRe: ^[a-z0-9-]{1,40}$
unfoldable pub is_id : Text → Bool
is_id s = ltb 0 (length s) && leb (length s) 40 && every is_id_byte s

-- rangeInt
unfoldable pub range_int : Option ℤ → ℕ → ℕ → Bool
range_int none lo hi = true
range_int (some (pos v)) lo hi = leb lo v && leb v hi
range_int (some (negsuc v)) lo hi = false

abbrev pub mode_adguard : Text
mode_adguard = b'a' ∷ b'd' ∷ b'g' ∷ b'u' ∷ b'a' ∷ b'r' ∷ b'd' ∷ []

abbrev pub mode_rpz : Text
mode_rpz = b'r' ∷ b'p' ∷ b'z' ∷ []

unfoldable pub valid_upstream : Codec → DnsdistUpstream → Bool
valid_upstream codec u = is_id u.name && is_id u.pool && codec.is_addr_port u.address

-- validDnsdistSection
unfoldable pub valid_dnsdist_section : Codec → Option DnsdistSettings → Bool
valid_dnsdist_section codec none = true
valid_dnsdist_section codec (some d) =
    (d.block_mode == [] || d.block_mode == mode_adguard || d.block_mode == mode_rpz)
    && every codec.is_addr4 d.sinkhole_v4
    && every codec.is_addr6 d.sinkhole_v6
    && leb (length d.acl) 256
    && every codec.is_prefix d.acl
    && leb (length d.upstreams) 64
    && every (valid_upstream codec) d.upstreams
    && range_int d.ecs_v4 0 32
    && range_int d.ecs_v6 0 128
    && range_int d.max_qps_per_ip 1 100000
    && range_int d.tcp_max_conns 1 10000
    && range_int d.tcp_max_queries 1 100000

abbrev pub type_ip_set : Text
type_ip_set = b'i' ∷ b'p' ∷ b'_' ∷ b's' ∷ b'e' ∷ b't' ∷ []

abbrev pub type_cname : Text
type_cname = b'c' ∷ b'n' ∷ b'a' ∷ b'm' ∷ b'e' ∷ []

abbrev pub type_alias : Text
type_alias = b'a' ∷ b'l' ∷ b'i' ∷ b'a' ∷ b's' ∷ []

-- The required fields of a rule of a known type.
unfoldable pub valid_rule : SmartDistRuleSpec → Bool
valid_rule r =
    if r.rule_type == type_ip_set
    then not (r.name == []) && not (r.file == [])
    else if r.rule_type == type_cname
    then not (r.pattern == []) && not (r.target == [])
    else if r.rule_type == type_alias
    then not (r.ip_set == []) && ltb 0 (length r.targets)
    else false

-- What parseSmartDistProfile asks of a decoded profile.
unfoldable pub valid_profile : Codec → SmartDistProfile → Bool
valid_profile codec p =
    is_id p.id
    && not (trim_space p.name == [])
    && leb (length p.name) 200
    && valid_dnsdist_section codec p.dnsdist
    && every valid_rule p.smartdist.rules

unfoldable pub checked : Codec → Option SmartDistProfile → Option (Text × Text)
checked codec none = none
checked codec (some p) = if valid_profile codec p then some (p.id, codec.marshal p) else none

-- parseSmartDistProfile: the id and the canonical text, if the profile is valid.
unfoldable pub parse_smart_dist_profile : Codec → Text → Option (Text × Text)
parse_smart_dist_profile codec raw = checked codec (codec.decode raw)
