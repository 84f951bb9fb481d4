-- ===== src/Panel/TrustBuilder/Equal.antt =====
-- tools/trust-builder/main.go against panel/builder.go: the two builders put the same keys.
use dnsdist_edge.Prelude.{
  ℕ, ◌≡◌, refl, ap, sym, ◌∙◌, Bool, ◌||◌, Option, none, some, List, [], ◌∷◌, ◌++◌, ◌==◌, nat_eq,
  leb, length, if◌then◌else◌, arith, Bool-cases,
}
use dnsdist_edge.Text.{Text, text_eq, codes, trim_space, lower, trim_suffix, has_prefix}
use dnsdist_edge.Text.Sort.{set_insert}
use dnsdist_edge.Rpz.Types.{Dns}
use dnsdist_edge.Panel.Cluster.Address.{Net, split}
use dnsdist_edge.Panel.Builder.{
  scan_limit, second_of, cut_comment, load_whitelist_set, hosts_name, adguard_name, dnsmasq_name,
  listed_name, block_name, domain_key, ip_key, name_key, block_key, add_key, source_keys, all_keys,
}
use dnsdist_edge.Panel.TrustBuilder.{
  load_whitelist, without_comments, of_hosts, of_adguard, domain_part, of_dnsmasq,
  trust_listed_name, trust_name, trust_name_key, trust_key, put_key, trust_source_keys, trust_keys,
}

load_whitelist-same : (lines wl : List Text) → load_whitelist lines wl ≡ load_whitelist_set lines wl
unfolding load_whitelist load_whitelist_set
load_whitelist-same [] wl = refl
load_whitelist-same (text ∷ lines) wl = ground (
  arith,
  load_whitelist-same lines wl,
  load_whitelist-same lines (set_insert (trim_suffix (trim_space (lower text)) (codes ".")) wl),
)

domain_part-same : (line : Text) (parts : List Text) → domain_part line parts ≡ second_of line parts
unfolding domain_part second_of
domain_part-same line [] = refl
domain_part-same line (a ∷ []) = refl
domain_part-same line (a ∷ b ∷ []) = refl
domain_part-same line (a ∷ b ∷ c ∷ parts) = refl

of_dnsmasq-same : (line : Text) → of_dnsmasq line ≡ dnsmasq_name line
unfolding of_dnsmasq dnsmasq_name
of_dnsmasq-same line =
    ap (λ name. if has_prefix line (codes "address=/") then name else line)
      (domain_part-same line (split b'/' line))

trust_listed_name-same : (line : Text) → trust_listed_name line ≡ listed_name line
unfolding trust_listed_name listed_name of_hosts hosts_name of_adguard adguard_name
trust_listed_name-same line = ground (
  arith,
  Bool-cases (has_prefix (of_hosts line) (codes "@@||")),
  of_dnsmasq-same (of_adguard (of_hosts line)),
)

without_comments-same :
    (text : Text)
    → without_comments text ≡ cut_comment b'!' (cut_comment b'#' (trim_space (lower text)))
unfolding without_comments cut_comment
without_comments-same text = refl

trust_name-same : (text : Text) → trust_name text ≡ block_name text
unfolding trust_name block_name
trust_name-same text =
    let line = cut_comment b'!' (cut_comment b'#' (trim_space (lower text))) in
    ap (λ l. if l == [] || has_prefix l (codes ";") then none else trust_listed_name l)
      (without_comments-same text)
    ∙ ap (λ t. if line == [] || has_prefix line (codes ";") then none else t)
        (trust_listed_name-same line)

put_key-same : (key : Option (List ℕ)) (keys : List (List ℕ)) → put_key key keys ≡ add_key key keys
unfolding put_key add_key
put_key-same none keys = refl
put_key-same (some key) keys = refl

-- The addresses of the lines are spelt as the package net spells them.
abbrev pub IsCanonical : Net → List Text → Type 0
IsCanonical net [] = Unit
IsCanonical net (text ∷ lines) =
    ((line ip : Text) (is_v4 : Bool)
      → block_name text ≡ some line
      → net.parse_ip line ≡ some (ip, is_v4)
      → ip ≡ line)
    × IsCanonical net lines

trust_name_key-same :
    (dns : Dns) (whitelist : List Text) (line : Text) (parsed : Option (Text × Bool))
    → ((ip : Text) (is_v4 : Bool) → parsed ≡ some (ip, is_v4) → ip ≡ line)
    → trust_name_key dns whitelist line parsed ≡ name_key dns whitelist line parsed
unfolding trust_name_key name_key domain_key ip_key
trust_name_key-same dns whitelist line none h = refl
trust_name_key-same dns whitelist line (some (ip, is_v4)) h =
    ap (ip_key whitelist) (sym (h ip is_v4 refl))

trust_key-same :
    (dns : Dns) (net : Net) (whitelist : List Text) (name : Option Text)
    → ((line ip : Text) (is_v4 : Bool)
        → name ≡ some line
        → net.parse_ip line ≡ some (ip, is_v4)
        → ip ≡ line)
    → trust_key dns net whitelist name ≡ block_key dns net whitelist name
unfolding trust_key block_key
trust_key-same dns net whitelist none h = refl
trust_key-same dns net whitelist (some line) h =
    trust_name_key-same dns whitelist line (net.parse_ip line)
      (λ ip is_v4 e. h line ip is_v4 refl e)

trust_source_keys-same :
    (dns : Dns) (net : Net) (whitelist lines : List Text)
    → IsCanonical net lines
    → trust_source_keys dns net whitelist lines ≡ source_keys dns net whitelist lines
unfolding trust_source_keys source_keys
trust_source_keys-same dns net whitelist [] h = refl
trust_source_keys-same dns net whitelist (text ∷ lines) (here, h) =
    let key =
      ap (trust_key dns net whitelist) (trust_name-same text)
      ∙ trust_key-same dns net whitelist (block_name text) here in
    let rest = trust_source_keys-same dns net whitelist lines h in
    ap
      (λ l.
        if leb scan_limit (length text)
        then []
        else put_key (trust_key dns net whitelist (trust_name text)) l)
      rest
    ∙ ap (λ l. if leb scan_limit (length text) then [] else l)
        (put_key-same (trust_key dns net whitelist (trust_name text))
          (source_keys dns net whitelist lines))
    ∙ ap
        (λ k.
          if leb scan_limit (length text)
          then []
          else add_key k (source_keys dns net whitelist lines))
        key

abbrev pub AreCanonical : Net → List (Option (List Text)) → Type 0
AreCanonical net [] = Unit
AreCanonical net (none ∷ sources) = AreCanonical net sources
AreCanonical net (some lines ∷ sources) = IsCanonical net lines × AreCanonical net sources

trust_keys-same :
    (dns : Dns) (net : Net) (whitelist : List Text) (sources : List (Option (List Text)))
    → AreCanonical net sources
    → trust_keys dns net whitelist sources ≡ all_keys dns net whitelist sources
unfolding trust_keys all_keys
trust_keys-same dns net whitelist [] h = refl
trust_keys-same dns net whitelist (none ∷ sources) h = trust_keys-same dns net whitelist sources h
trust_keys-same dns net whitelist (some lines ∷ sources) (here, h) =
    ap (λ l. l ++ trust_keys dns net whitelist sources)
      (trust_source_keys-same dns net whitelist lines here)
    ∙ ap (λ l. source_keys dns net whitelist lines ++ l)
        (trust_keys-same dns net whitelist sources h)

-- The panel and the command line builder put the same keys, in the same order, for the same sources and the
-- same whitelist file, if the addresses in the sources are spelt as the package net spells them.
pub trust_keys-all_keys :
    (dns : Dns) (net : Net) (listed : List Text) (sources : List (Option (List Text)))
    → AreCanonical net sources
    → trust_keys dns net (load_whitelist listed []) sources
      ≡ all_keys dns net (load_whitelist_set listed []) sources
trust_keys-all_keys dns net listed sources h =
    ap (λ wl. trust_keys dns net wl sources) (load_whitelist-same listed [])
    ∙ trust_keys-same dns net (load_whitelist_set listed []) sources h
