-- ===== src/Panel/Cluster/Address.antt =====
-- The trusted proxies of panel/cluster.go: setTrustedProxies, ipInTrustedProxies and clientIP. `Net` stands for
-- the package net; a network is the addresses it contains.
use dnsdist_edge.Prelude.{
  ℕ, ◌≡◌, ◌⊎◌, inl, inr, refl, ap, sym, ◌∙◌, if-true, if-false, Bool, true, false, not, ◌||◌, ◌&&◌,
  Option, none, some, List, [], ◌∷◌, ◌++◌, ◌==◌, nat_eq, is_some, if◌then◌else◌, arith, Bool-cases,
}
use dnsdist_edge.Text.{Text, text_eq, codes, trim_space}

-- `split_host_port` gives the host. `parse_ip` gives the address and whether To4 holds of it.
pub record Net : Type 0 where
  pub split_host_port : Text → Option Text
  pub parse_ip : Text → Option (Text × Bool)
  pub parse_cidr : Text → Option (Text → Bool)

-- strings.Split by one byte; `part` is what was read of the current part, backwards.
unfoldable pub turn_back : Text → Text → Text
turn_back [] s = s
turn_back (c ∷ part) s = turn_back part (c ∷ s)

unfoldable pub split_from : Text → ℕ → Text → List Text
split_from part sep [] = turn_back part [] ∷ []
split_from part sep (c ∷ s) =
    let next = split_from [] sep s in
    let same = split_from (c ∷ part) sep s in if c == sep then turn_back part [] ∷ next else same

unfoldable pub split : ℕ → Text → List Text
split sep s = split_from [] sep s

unfoldable pub contains : ℕ → Text → Bool
contains b [] = false
contains b (c ∷ s) = c == b || contains b s

-- An address without a prefix length is given the one of a single host.
unfoldable pub with_length : Net → Text → Option Text
with_length net part = if contains b'/' part then some part else elim (net.parse_ip part) [
  | none ↦ none
  | some (ip, is_v4) ↦ some (part ++ (if is_v4 then codes "/32" else codes "/128"))
]

unfoldable pub parse_proxy : Net → Text → Option (Text → Bool)
parse_proxy net part = elim (with_length net part) [ none ↦ none | some cidr ↦ net.parse_cidr cidr ]

unfoldable pub parse_proxies : Net → List Text → Option (List (Text → Bool))
parse_proxies net [] = some []
parse_proxies net (raw ∷ parts) =
    let part = trim_space raw in
    let rest = parse_proxies net parts in
    if part == [] then rest else elim (parse_proxy net part) [
      | none ↦ none
      | some n ↦ elim rest [ none ↦ none | some nets ↦ some (n ∷ nets) ]
    ]

-- setTrustedProxies: the networks if the whole list can be read.
unfoldable pub set_trusted_proxies : Net → Text → Option (List (Text → Bool))
set_trusted_proxies net spec = parse_proxies net (split b',' spec)

-- ipInTrustedProxies
unfoldable pub ip_in_trusted_proxies : List (Text → Bool) → Text → Bool
ip_in_trusted_proxies [] ip = false
ip_in_trusted_proxies (n ∷ nets) ip = n ip || ip_in_trusted_proxies nets ip

unfoldable pub is_trusted_ip : List (Text → Bool) → Option (Text × Bool) → Bool
is_trusted_ip nets none = false
is_trusted_ip nets (some (ip, is_v4)) = ip_in_trusted_proxies nets ip

unfoldable pub is_trusted_peer : Net → List (Text → Bool) → Text → Bool
is_trusted_peer net nets host = is_trusted_ip nets (net.parse_ip host)

-- strings.Split(xff, ",")[0]
unfoldable pub before_comma : Text → Text
before_comma [] = []
before_comma (c ∷ s) = let rest = before_comma s in if c == b',' then [] else c ∷ rest

-- What a trusted proxy says of the client; the headers are "" where they are missing.
unfoldable pub forwarded_ip : Net → Text → Text → Text → Text
forwarded_ip net host xff x_real_ip =
    let first = trim_space (before_comma xff) in
    let real = trim_space x_real_ip in
    if not (xff == []) && is_some (net.parse_ip first)
    then first
    else if not (real == []) && is_some (net.parse_ip real)
    then real
    else host

-- What follows from the host of the connection, if it can be told.
unfoldable pub client_of : Net → List (Text → Bool) → Text → Text → Text → Option Text → Text
client_of net nets remote_addr xff x_real_ip none = trim_space remote_addr
client_of net nets remote_addr xff x_real_ip (some host) =
    if is_trusted_peer net nets host then forwarded_ip net host xff x_real_ip else host

-- clientIP
unfoldable pub client_ip : Net → List (Text → Bool) → Text → Text → Text → Text
client_ip net nets remote_addr xff x_real_ip =
    client_of net nets remote_addr xff x_real_ip (net.split_host_port remote_addr)

-- What a trusted proxy says is the host or an address.
forwarded_ip-cases :
    (net : Net) (host xff x_real_ip : Text)
    → (forwarded_ip net host xff x_real_ip ≡ host)
      ⊎ (is_some (net.parse_ip (forwarded_ip net host xff x_real_ip)) ≡ true)
unfolding forwarded_ip
forwarded_ip-cases net host xff x_real_ip =
    let first = trim_space (before_comma xff) in
    let real = trim_space x_real_ip in
    elim (Bool-cases (not (xff == []) && is_some (net.parse_ip first))) [
      | inl a ↦ rw a (inr (ground (arith, Bool-cases (xff == []))))
      | inr no_first ↦
          rw no_first (elim (Bool-cases (not (real == []) && is_some (net.parse_ip real))) [
            | inl b ↦ rw b (inr (ground (arith, Bool-cases (real == []))))
            | inr no_real ↦ rw no_real (inl refl)
          ])
    ]

no_peer : (o : Option (Text × Bool)) → is_trusted_ip [] o ≡ false
unfolding is_trusted_ip ip_in_trusted_proxies
no_peer none = refl
no_peer (some (ip, is_v4)) = refl

abbrev pub IsToldBy : Net → List (Text → Bool) → Text → Option Text → Type 0
IsToldBy net nets ip host =
    (h : Text) × (host ≡ some h)
    × (is_trusted_peer net nets h ≡ true)
    × (is_some (net.parse_ip ip) ≡ true)

client_of-trusted :
    (net : Net) (nets : List (Text → Bool)) (remote_addr xff x_real_ip : Text) (host : Option Text)
    → (client_of net nets remote_addr xff x_real_ip host ≡ client_of net [] remote_addr [] [] host)
      ⊎ IsToldBy net nets (client_of net nets remote_addr xff x_real_ip host) host
unfolding client_of is_trusted_peer
client_of-trusted net nets remote_addr xff x_real_ip none = inl refl
client_of-trusted net nets remote_addr xff x_real_ip (some host) =
    let alone = if-false (forwarded_ip net host [] []) host (no_peer (net.parse_ip host)) in
    elim (Bool-cases (is_trusted_peer net nets host)) [
      | inr stranger ↦
          inl (if-false (forwarded_ip net host xff x_real_ip) host stranger ∙ sym alone)
      | inl peer ↦
          let told = if-true (forwarded_ip net host xff x_real_ip) host peer in
          elim (forwarded_ip-cases net host xff x_real_ip) [
            | inl own ↦ inl (told ∙ own ∙ sym alone)
            | inr parsed ↦
                inr (host, refl, peer, ap (λ ip. is_some (net.parse_ip ip)) told ∙ parsed)
          ]
    ]

-- The address of a client is the one of the connection, whatever its headers say, unless the connection comes
-- from a trusted proxy and the address can be read as one.
pub client_ip-trusted :
    (net : Net) (nets : List (Text → Bool)) (remote_addr xff x_real_ip : Text)
    → (client_ip net nets remote_addr xff x_real_ip ≡ client_ip net [] remote_addr [] [])
      ⊎ IsToldBy net nets
          (client_ip net nets remote_addr xff x_real_ip)
          (net.split_host_port remote_addr)
unfolding client_ip
client_ip-trusted net nets remote_addr xff x_real_ip =
    client_of-trusted net nets remote_addr xff x_real_ip (net.split_host_port remote_addr)
