-- ===== src/Rpz/Tests/Configured.antt =====
-- The theorem on the configuration of tools/rpz-master at a small configuration.
use dnsdist_edge.Prelude.{◌≡◌, refl, true, map, none, some, [], ◌∷◌, ltb, length}
use dnsdist_edge.Text.{text_eq, text_beq, codes}
use dnsdist_edge.Panel.Profile.{pos}
use dnsdist_edge.Rpz.Types.{Dns, State}
use dnsdist_edge.Rpz.Server.{v4}
use dnsdist_edge.Rpz.Config.{
  Config, Parsers, is_above_zero, is_port, valid_host_port, validate_address, is_duration,
  every_cidr, agree, checks, first_error, validate, daemon_checks, validate_daemon, new_rpz_server,
}
use dnsdist_edge.Rpz.Config.Checked.{new_rpz_server-checked}

abbrev dns : Dns
dns = record {
  fqdn = λ t. t;
  is_domain_name = λ t. true;
  is_sub_domain = λ z t. true;
  pack_domain_name = λ t. some t;
}

abbrev parsers : Parsers
parsers = record {
  split_host_port = λ t. some (t, t);
  atoi = λ t. some (pos 53);
  is_ip = λ t. true;
  parse_duration = λ t. some (pos 1);
  parse_cidr = λ t. some (record { base = v4 0; bits = 8 });
  is_source_url = λ t. true;
  is_base64 = λ t. true;
  stat = λ t. none;
}

abbrev config : Config
config = record {
  source_mode = codes "rpz-slave";
  zone = codes "z.";
  listen_dns = codes "d";
  listen_http = [];
  cname_target = codes "t.";
  cdb_path = codes "c";
  state_path = codes "s";
  source_domain_url = [];
  upstream_master = codes "u";
  tsig_key = [];
  tsig_secret = [];
  tsig_secret_file = [];
  tsig_algorithm = [];
  check_interval = codes "1s";
  max_transfers = pos 3;
  max_transfer_records = pos 9;
  raw_domain_file = codes "r";
  transfer_acl = codes "a" ∷ codes "b" ∷ [];
}

abbrev state : State
state = record { serial = 0; last_update = 0; total_domains = 0; cdb_sha256 = []; deltas = [] }

new_rpz_server-checked_example :
    let s = new_rpz_server parsers config state none in
    (config.max_transfers ≡ pos s.max_transfers)
    × (map some s.transfer_acl ≡ map parsers.parse_cidr config.transfer_acl)
    × (ltb 0 (length config.transfer_acl) ≡ true)
unfolding validate_daemon validate checks first_error daemon_checks is_above_zero is_port
    valid_host_port validate_address is_duration every_cidr agree text_beq
new_rpz_server-checked_example = new_rpz_server-checked dns parsers config state none refl
