-- ===== src/Panel/Builder.antt =====
-- panel/builder.go: the lines of block lists and of the whitelist, and the keys that BuildMasterCDB puts. `Dns` and
-- `Net` stand for github.com/miekg/dns and the package net. A source is the list of its lines.
use dnsdist_edge.Prelude.{
  ℕ, Bool, ◌&&◌, ◌||◌, Option, none, some, List, [], ◌∷◌, ◌++◌, ◌==◌, nat_eq, leb, length,
  if◌then◌else◌,
}
use dnsdist_edge.Text.{Text, text_eq, codes, trim_space, lower, trim_suffix, has_prefix}
use dnsdist_edge.Text.Sort.{mem, set_insert}
use dnsdist_edge.Rpz.Types.{Dns}
use dnsdist_edge.Panel.Cluster.Address.{Net, contains, split}

-- The buffer of the scanner: a line as long as this ends the scan.
abbrev pub scan_limit : ℕ
scan_limit = 1048576

-- strings.TrimPrefix
unfoldable pub trim_prefix : Text → Text → Text
trim_prefix s [] = s
trim_prefix [] (p ∷ prefix) = []
trim_prefix (c ∷ s) (p ∷ prefix) =
    let rest = trim_prefix s prefix in if c == p && has_prefix s prefix then rest else c ∷ s

unfoldable pub before : ℕ → Text → Text
before b [] = []
before b (c ∷ s) = let rest = before b s in if c == b then [] else c ∷ rest

-- A comment from this byte on is cut off.
unfoldable pub cut_comment : ℕ → Text → Text
cut_comment b line = if contains b line then trim_space (before b line) else line

-- loadWhitelistSet, for a file that can be read.
unfoldable pub load_whitelist_set : List Text → List Text → List Text
load_whitelist_set [] wl = wl
load_whitelist_set (text ∷ lines) wl =
    let line = trim_space (lower text) in
    if line == [] || has_prefix line (codes "#")
    then load_whitelist_set lines wl
    else load_whitelist_set lines (set_insert (trim_suffix line (codes ".")) wl)

-- The formats of a line: hosts, AdGuard and dnsmasq.
unfoldable pub hosts_name : Text → Text
hosts_name line =
    if has_prefix line (codes "0.0.0.0 ")
    then trim_space (trim_prefix line (codes "0.0.0.0 "))
    else if has_prefix line (codes "127.0.0.1 ")
    then trim_space (trim_prefix line (codes "127.0.0.1 "))
    else line

unfoldable pub adguard_name : Text → Text
adguard_name line =
    trim_suffix (if has_prefix line (codes "||") then trim_prefix line (codes "||") else line)
      (codes "^")

-- parts[1] where there are at least three parts.
unfoldable pub second_of : Text → List Text → Text
second_of line (a ∷ b ∷ c ∷ parts) = b
second_of line parts = line

unfoldable pub dnsmasq_name : Text → Text
dnsmasq_name line =
    if has_prefix line (codes "address=/") then second_of line (split b'/' line) else line

-- The name of a line without comments, if it is one.
unfoldable pub listed_name : Text → Option Text
listed_name line =
    let host = hosts_name line in
    let found = dnsmasq_name (adguard_name host) in
    if has_prefix host (codes "@@||")
    then none
    else if contains b'/' found || contains b'*' found || found == []
    then none
    else some found

-- What BuildMasterCDB reads of a line.
unfoldable pub block_name : Text → Option Text
block_name text =
    let line = cut_comment b'!' (cut_comment b'#' (trim_space (lower text))) in
    if line == [] || has_prefix line (codes ";") then none else listed_name line

-- The key of a name that is not an address.
unfoldable pub domain_key : Dns → List Text → Text → Option (List ℕ)
domain_key dns whitelist line =
    let plain = trim_suffix line (codes ".") in
    if mem plain whitelist then none else dns.pack_domain_name (plain ++ codes ".")

-- The key of an address, in the spelling of the package net.
unfoldable pub ip_key : List Text → Text → Option (List ℕ)
ip_key whitelist ip = if mem ip whitelist then none else some (ip ++ 0 ∷ [])

unfoldable pub name_key : Dns → List Text → Text → Option (Text × Bool) → Option (List ℕ)
name_key dns whitelist line none = domain_key dns whitelist line
name_key dns whitelist line (some (ip, is_v4)) = ip_key whitelist ip

unfoldable pub block_key : Dns → Net → List Text → Option Text → Option (List ℕ)
block_key dns net whitelist none = none
block_key dns net whitelist (some line) = name_key dns whitelist line (net.parse_ip line)

unfoldable pub add_key : Option (List ℕ) → List (List ℕ) → List (List ℕ)
add_key none keys = keys
add_key (some key) keys = key ∷ keys

-- The keys of the lines of a source, up to the end of the scan.
unfoldable pub source_keys : Dns → Net → List Text → List Text → List (List ℕ)
source_keys dns net whitelist [] = []
source_keys dns net whitelist (text ∷ lines) =
    let rest = source_keys dns net whitelist lines in
    if leb scan_limit (length text)
    then []
    else add_key (block_key dns net whitelist (block_name text)) rest

-- The keys of all sources; one that cannot be opened is passed over.
unfoldable pub all_keys : Dns → Net → List Text → List (Option (List Text)) → List (List ℕ)
all_keys dns net whitelist [] = []
all_keys dns net whitelist (none ∷ sources) = all_keys dns net whitelist sources
all_keys dns net whitelist (some lines ∷ sources) =
    source_keys dns net whitelist lines ++ all_keys dns net whitelist sources
