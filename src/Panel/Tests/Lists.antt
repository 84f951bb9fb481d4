-- ===== src/Panel/Tests/Lists.antt =====
-- The theorems on texts, addresses and lists at small inputs.
use dnsdist_edge.Prelude.{◌≡◌, ◌⊎◌, refl, true, false, none, some, [], ◌∷◌, ◌++◌, nat_eq, arith}
use dnsdist_edge.Text.{Text, text_eq, text_beq, codes, has_prefix}
use dnsdist_edge.Rpz.Types.{Dns}
use dnsdist_edge.Panel.Lua.{tail_length, is_second, is_tail, lua_quote}
use dnsdist_edge.Panel.Lua.Quote.{is_utf8, unquote, unquote-lua_quote}
use dnsdist_edge.Panel.Cluster.Address.{Net, client_ip, client_ip-trusted, IsToldBy, contains}
use dnsdist_edge.Panel.Publisher.{
  Files, found, resolve_cdb_path, resolve_name, resolve_in, within_real, regular_only,
  cdb_name_allowed, cdb_within_dir, is_inside,
}
use dnsdist_edge.Panel.Publisher.Safe.{IsPublished, resolve_cdb_path-ok}
use dnsdist_edge.Panel.Builder.{all_keys, load_whitelist_set}
use dnsdist_edge.Panel.TrustBuilder.{load_whitelist, trust_keys}
use dnsdist_edge.Panel.TrustBuilder.Equal.{trust_keys-all_keys}
use dnsdist_edge.GenCdb.{FileIo, Options, defaults}

-- A quote and a byte 1.
-- A quote, a control byte and an e with an acute accent.
abbrev quoted : Text
quoted = 34 ∷ 1 ∷ 195 ∷ 169 ∷ []

unquote-lua_quote_example : unquote (lua_quote quoted ++ b'z' ∷ []) ≡ some (quoted, b'z' ∷ [])
unfolding is_utf8 tail_length is_second is_tail
unquote-lua_quote_example = unquote-lua_quote quoted (b'z' ∷ []) refl

-- Every text is the address that it spells.
abbrev net : Net
net = record {
  split_host_port = λ t. some t;
  parse_ip = λ t. some (t, true);
  parse_cidr = λ t. some (λ ip. true);
}

client_ip-trusted_example :
    (client_ip net ((λ ip. true) ∷ []) (b'p' ∷ []) (b'c' ∷ []) []
      ≡ client_ip net [] (b'p' ∷ []) [] [])
    ⊎ IsToldBy net
        ((λ ip. true) ∷ [])
        (client_ip net ((λ ip. true) ∷ []) (b'p' ∷ []) (b'c' ∷ []) [])
        (some (b'p' ∷ []))
client_ip-trusted_example = client_ip-trusted net ((λ ip. true) ∷ []) (b'p' ∷ []) (b'c' ∷ []) []

-- A directory "d" without links, in which every path is its own name.
abbrev directory : Files
directory = record {
  is_file = λ t. true;
  join = λ dir name. name;
  rel = λ dir path. some path;
  eval_symlinks = λ t. found t;
  is_regular = λ t. found true;
}

resolve_cdb_path-ok_example :
    (n : Text) × (some (codes "trust.db") ≡ some n)
    × (contains b'/' n ≡ false)
    × IsPublished directory (b'd' ∷ []) n (codes "trust.db")
unfolding resolve_cdb_path resolve_name resolve_in within_real regular_only cdb_name_allowed
    cdb_within_dir is_inside text_beq has_prefix
resolve_cdb_path-ok_example =
    resolve_cdb_path-ok directory (b'd' ∷ []) (codes "trust.db") (codes "trust.db") refl

-- A library that packs every name as it is.
abbrev dns : Dns
dns = record {
  fqdn = λ t. t;
  is_domain_name = λ t. true;
  is_sub_domain = λ z t. true;
  pack_domain_name = λ t. some t;
}

trust_keys-all_keys_example :
    trust_keys dns net (load_whitelist (codes "b" ∷ []) []) (some (codes "a" ∷ []) ∷ none ∷ [])
    ≡ all_keys dns net (load_whitelist_set (codes "b" ∷ []) []) (some (codes "a" ∷ []) ∷ none ∷ [])
trust_keys-all_keys_example =
    trust_keys-all_keys dns net (codes "b" ∷ []) (some (codes "a" ∷ []) ∷ none ∷ [])
      (((λ line ip is_v4 named parsed. ground arith), tt), tt)

abbrev good_file : FileIo
good_file = record { created = true; put = λ n. true; closed = true }

-- gen-cdb-go o a
abbrev asked : Options
asked = record defaults { out = codes "o"; domains = codes "a" ∷ [] }
