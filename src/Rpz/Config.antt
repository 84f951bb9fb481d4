-- ===== src/Rpz/Config.antt =====
-- tools/rpz-master/config.go: the configuration and its checks; and NewRPZServerWithMutex of dns_server.go, which
-- makes a server of it. `Parsers` stands for net, net/url, strconv, time and encoding/base64.
pub mod Checked
use dnsdist_edge.Prelude.{
  ℕ, Bool, true, false, not, ◌&&◌, ◌||◌, Option, none, some, List, [], ◌∷◌, ◌==◌, nat_eq, ltb, leb,
  length, is_some, if◌then◌else◌,
}
use dnsdist_edge.Text.{Text, text_eq, codes, trim_space}
use dnsdist_edge.Panel.Profile.{ℤ, pos, negsuc}
use dnsdist_edge.Rpz.Types.{Dns, State}
use dnsdist_edge.Rpz.Server.{Network, Server}

pub record Config : Type 0 where
  pub source_mode : Text
  pub zone : Text
  pub listen_dns : Text
  pub listen_http : Text
  pub cname_target : Text
  pub cdb_path : Text
  pub state_path : Text
  pub source_domain_url : Text
  pub upstream_master : Text
  pub tsig_key : Text
  pub tsig_secret : Text
  pub tsig_secret_file : Text
  pub tsig_algorithm : Text
  pub check_interval : Text
  pub max_transfers : ℤ
  pub max_transfer_records : ℤ
  pub raw_domain_file : Text
  pub transfer_acl : List Text

-- A file with a secret: whether it is a regular file, whether others have no access, and what it holds if it
-- can be read.
pub record SecretFile : Type 0 where
  pub is_regular : Bool
  pub is_private : Bool
  pub content : Option Text

-- `is_source_url` is that url.ParseRequestURI gives an http or https address with a host; `stat` finds a file.
pub record Parsers : Type 0 where
  pub split_host_port : Text → Option (Text × Text)
  pub atoi : Text → Option ℤ
  pub is_ip : Text → Bool
  pub parse_duration : Text → Option ℤ
  pub parse_cidr : Text → Option Network
  pub is_source_url : Text → Bool
  pub is_base64 : Text → Bool
  pub stat : Text → Option SecretFile

pub data ConfigError : Type 0 where
  bad_source_mode bad_zone bad_cname_target bad_listen_dns bad_listen_http bad_upstream :
      ConfigError
  bad_interval bad_max_transfers bad_max_records no_paths bad_source_url no_acl bad_acl :
      ConfigError
  inline_secret half_tsig bad_tsig_key bad_secret not_slave no_upstream : ConfigError

unfoldable pub is_above_zero : ℤ → Bool
is_above_zero (pos n) = ltb 0 n
is_above_zero (negsuc n) = false

unfoldable pub is_port : Option ℤ → Bool
is_port none = false
is_port (some (negsuc n)) = false
is_port (some (pos n)) = leb 1 n && leb n 65535

unfoldable pub valid_host_port : Dns → Parsers → Option (Text × Text) → Bool
valid_host_port dns ps none = false
valid_host_port dns ps (some (host, port)) =
    is_port (ps.atoi port) && (host == [] || ps.is_ip host || dns.is_domain_name (dns.fqdn host))

-- validateAddress
unfoldable pub validate_address : Dns → Parsers → Text → Bool → Bool
validate_address dns ps address allow_empty =
    if address == [] && allow_empty
    then true
    else valid_host_port dns ps (ps.split_host_port address)

unfoldable pub valid_secret : Parsers → Option SecretFile → Bool
valid_secret ps none = false
valid_secret ps (some f) = f.is_regular && f.is_private && (elim f.content [
  | none ↦ false
  | some secret ↦ not (trim_space secret == []) && ps.is_base64 (trim_space secret)
])

unfoldable pub is_duration : Option ℤ → Bool
is_duration none = false
is_duration (some d) = is_above_zero d

unfoldable pub every_cidr : Parsers → List Text → Bool
every_cidr ps [] = true
every_cidr ps (prefix ∷ acl) = is_some (ps.parse_cidr prefix) && every_cidr ps acl

-- b unless a, for two tests that must agree.
unfoldable pub agree : Bool → Bool → Bool
agree true b = b
agree false b = not b

-- The checks of Validate in their order, each with the error if it fails.
unfoldable pub checks : Dns → Parsers → Config → List (Bool × ConfigError)
checks dns ps c =
    (c.source_mode == codes "feeds" || c.source_mode == codes "rpz-slave", bad_source_mode)
    ∷ (not (c.zone == []) && dns.is_domain_name (dns.fqdn c.zone), bad_zone)
    ∷ (not (c.cname_target == []) && dns.is_domain_name (dns.fqdn c.cname_target), bad_cname_target)
    ∷ (validate_address dns ps c.listen_dns false, bad_listen_dns)
    ∷ (validate_address dns ps c.listen_http true, bad_listen_http)
    ∷ (validate_address dns ps c.upstream_master true, bad_upstream)
    ∷ (is_duration (ps.parse_duration c.check_interval), bad_interval)
    ∷ (is_above_zero c.max_transfers, bad_max_transfers)
    ∷ (is_above_zero c.max_transfer_records, bad_max_records)
    ∷ (not (c.cdb_path == [] || c.state_path == [] || c.raw_domain_file == []), no_paths)
    ∷ (c.source_domain_url == [] || ps.is_source_url c.source_domain_url, bad_source_url)
    ∷ (ltb 0 (length c.transfer_acl), no_acl)
    ∷ (every_cidr ps c.transfer_acl, bad_acl)
    ∷ (c.tsig_secret == [], inline_secret)
    ∷ (agree (c.tsig_key == []) (c.tsig_secret_file == []), half_tsig)
    ∷ (c.tsig_key == [] || dns.is_domain_name (dns.fqdn c.tsig_key), bad_tsig_key)
    ∷ (c.tsig_key == [] || valid_secret ps (ps.stat c.tsig_secret_file), bad_secret)
    ∷ []

unfoldable pub first_error : List (Bool × ConfigError) → Option ConfigError
first_error [] = none
first_error ((passed, e) ∷ rest) = let more = first_error rest in if passed then more else some e

-- Validate: none if the configuration is valid.
unfoldable pub validate : Dns → Parsers → Config → Option ConfigError
validate dns ps c = first_error (checks dns ps c)

unfoldable pub daemon_checks : Config → List (Bool × ConfigError)
daemon_checks c =
    (c.source_mode == codes "rpz-slave", not_slave)
    ∷ (not (c.upstream_master == []), no_upstream)
    ∷ []

-- ValidateDaemon
unfoldable pub validate_daemon : Dns → Parsers → Config → Option ConfigError
validate_daemon dns ps c = elim (validate dns ps c) [
  | some e ↦ some e
  | none ↦ first_error (daemon_checks c)
]

-- The networks of the entries that can be read.
unfoldable pub add_network : Option Network → List Network → List Network
add_network none rest = rest
add_network (some n) rest = n ∷ rest

unfoldable pub networks : Parsers → List Text → List Network
networks ps [] = []
networks ps (prefix ∷ acl) = add_network (ps.parse_cidr prefix) (networks ps acl)

unfoldable pub slots : ℤ → ℕ
slots (pos n) = if ltb 0 n then n else 10
slots (negsuc n) = 10

unfoldable pub acl_or_local : List Text → List Text
acl_or_local acl = if ltb 0 (length acl) then acl else codes "127.0.0.0/8" ∷ codes "::1/128" ∷ []

-- NewRPZServerWithMutex
unfoldable pub new_rpz_server : Parsers → Config → State → Option (List Text) → Server
new_rpz_server ps c st raw = record {
  zone = c.zone;
  cname_target = c.cname_target;
  tsig_key = c.tsig_key;
  tsig_algorithm = c.tsig_algorithm;
  transfer_acl = networks ps (acl_or_local c.transfer_acl);
  max_transfers = slots c.max_transfers;
  state = st;
  raw = raw;
  busy = 0;
}
