-- ===== src/Panel/TrustBuilder.antt =====
-- tools/trust-builder/main.go: the same lists, read by the command line builder.
pub mod Equal
use dnsdist_edge.Prelude.{
  ℕ, ◌≡◌, refl, ap, sym, ◌∙◌, Bool, ◌||◌, Option, none, some, List, [], ◌∷◌, ◌++◌, ◌==◌, nat_eq,
  leb, length, if◌then◌else◌, arith, Bool-cases,
}
use dnsdist_edge.Text.{Text, text_eq, codes, trim_space, lower, trim_suffix, has_prefix}
use dnsdist_edge.Text.Sort.{mem, set_insert}
use dnsdist_edge.Rpz.Types.{Dns}
use dnsdist_edge.Panel.Cluster.Address.{Net, contains, split}
use dnsdist_edge.Panel.Builder.{
  scan_limit, trim_prefix, before, second_of, cut_comment, load_whitelist_set, hosts_name,
  adguard_name, dnsmasq_name, listed_name, block_name, domain_key, ip_key, name_key, block_key,
  add_key, source_keys, all_keys,
}

-- loadWhitelist
unfoldable pub load_whitelist : List Text → List Text → List Text
load_whitelist [] wl = wl
load_whitelist (text ∷ lines) wl =
    let domain = trim_space (lower text) in
    if domain == [] || has_prefix domain (codes "#")
    then load_whitelist lines wl
    else load_whitelist lines (set_insert (trim_suffix domain (codes ".")) wl)

-- A comment that begins with # or with ! is cut off.
unfoldable pub without_comments : Text → Text
without_comments text =
    let line = trim_space (lower text) in
    let code = if contains b'#' line then trim_space (before b'#' line) else line in
    if contains b'!' code then trim_space (before b'!' code) else code

-- The name of a hosts line.
unfoldable pub of_hosts : Text → Text
of_hosts line =
    if has_prefix line (codes "0.0.0.0 ")
    then trim_space (trim_prefix line (codes "0.0.0.0 "))
    else if has_prefix line (codes "127.0.0.1 ")
    then trim_space (trim_prefix line (codes "127.0.0.1 "))
    else line

-- The name of an AdGuard line, and of a dnsmasq line.
unfoldable pub of_adguard : Text → Text
of_adguard line =
    let rule = if has_prefix line (codes "||") then trim_prefix line (codes "||") else line in
    trim_suffix rule (codes "^")

unfoldable pub domain_part : Text → List Text → Text
domain_part line [] = line
domain_part line (a ∷ []) = line
domain_part line (a ∷ b ∷ []) = line
domain_part line (a ∷ b ∷ c ∷ parts) = b

unfoldable pub of_dnsmasq : Text → Text
of_dnsmasq line =
    let name = domain_part line (split b'/' line) in
    if has_prefix line (codes "address=/") then name else line

-- A name with a slash or a star is passed over, and then an empty one.
unfoldable pub trust_listed_name : Text → Option Text
trust_listed_name line =
    let host = of_hosts line in
    if has_prefix host (codes "@@||")
    then none
    else let found = of_dnsmasq (of_adguard host) in
      if contains b'/' found || contains b'*' found
      then none
      else if found == []
      then none
      else some found

unfoldable pub trust_name : Text → Option Text
trust_name text =
    let line = without_comments text in
    if line == [] || has_prefix line (codes ";") then none else trust_listed_name line

-- The key of a name: an address is put as it is spelt in the line.
unfoldable pub trust_name_key : Dns → List Text → Text → Option (Text × Bool) → Option (List ℕ)
trust_name_key dns whitelist line none =
    let domain_plain = trim_suffix line (codes ".") in
    if mem domain_plain whitelist then none else dns.pack_domain_name (domain_plain ++ codes ".")
trust_name_key dns whitelist line (some (ip, is_v4)) =
    if mem line whitelist then none else some (line ++ 0 ∷ [])

unfoldable pub trust_key : Dns → Net → List Text → Option Text → Option (List ℕ)
trust_key dns net whitelist none = none
trust_key dns net whitelist (some line) = trust_name_key dns whitelist line (net.parse_ip line)

-- writer.Put of a key, if there is one.
unfoldable pub put_key : Option (List ℕ) → List (List ℕ) → List (List ℕ)
put_key none keys = keys
put_key (some key) keys = key ∷ keys

unfoldable pub trust_source_keys : Dns → Net → List Text → List Text → List (List ℕ)
trust_source_keys dns net whitelist [] = []
trust_source_keys dns net whitelist (text ∷ lines) =
    let rest = trust_source_keys dns net whitelist lines in
    if leb scan_limit (length text)
    then []
    else put_key (trust_key dns net whitelist (trust_name text)) rest

unfoldable pub trust_keys : Dns → Net → List Text → List (Option (List Text)) → List (List ℕ)
trust_keys dns net whitelist [] = []
trust_keys dns net whitelist (none ∷ sources) = trust_keys dns net whitelist sources
trust_keys dns net whitelist (some lines ∷ sources) =
    trust_source_keys dns net whitelist lines ++ trust_keys dns net whitelist sources
