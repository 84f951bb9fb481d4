-- ===== src/Rpz/Config/Checked.antt =====
-- tools/rpz-master/config.go and dns_server.go: the server of a configuration that was checked.
use dnsdist_edge.Prelude.{
  map, ◌≡◌, refl, ap, ◌∙◌, Bool, true, false, Option, none, some, List, [], ◌∷◌, ltb, length,
  is_some, arith, Option-cases, if-true,
}
use dnsdist_edge.Text.{Text}
use dnsdist_edge.Panel.Profile.{ℤ, pos, negsuc}
use dnsdist_edge.Rpz.Types.{Dns, State}
use dnsdist_edge.Rpz.Server.{Network}
use dnsdist_edge.Rpz.Config.{
  Config, ConfigError, Parsers, is_above_zero, every_cidr, checks, first_error, validate,
  validate_daemon, add_network, networks, slots, acl_or_local, new_rpz_server,
}

abbrev AllPassed : List (Bool × ConfigError) → Type 0
AllPassed [] = Unit
AllPassed ((passed, e) ∷ rest) = (passed ≡ true) × AllPassed rest

first_error-AllPassed :
    (rest : List (Bool × ConfigError)) → first_error rest ≡ none → AllPassed rest
unfolding first_error
first_error-AllPassed [] h = tt
first_error-AllPassed ((true, e) ∷ rest) h = (refl, first_error-AllPassed rest h)
first_error-AllPassed ((false, e) ∷ rest) h = absurd (ground arith)

validate_daemon-validate :
    (dns : Dns) (ps : Parsers) (c : Config)
    → validate_daemon dns ps c ≡ none
    → validate dns ps c ≡ none
unfolding validate_daemon
validate_daemon-validate dns ps c h = ground (arith, Option-cases (validate dns ps c))

map-add_network :
    (o : Option Network) (rest : List Network)
    → is_some o ≡ true
    → map some (add_network o rest) ≡ o ∷ map some rest
unfolding add_network
map-add_network none rest h = absurd (ground arith)
map-add_network (some n) rest h = refl

map-networks :
    (ps : Parsers) (acl : List Text)
    → every_cidr ps acl ≡ true
    → map some (networks ps acl) ≡ map ps.parse_cidr acl
unfolding networks every_cidr
map-networks ps [] h = refl
map-networks ps (prefix ∷ acl) h =
    map-add_network (ps.parse_cidr prefix) (networks ps acl) (ground arith)
    ∙ ap (λ l. ps.parse_cidr prefix ∷ l) (map-networks ps acl (ground arith))

slots-pos : (n : ℤ) → is_above_zero n ≡ true → n ≡ pos (slots n)
unfolding slots is_above_zero
slots-pos (pos n) h = rw h refl
slots-pos (negsuc n) h = absurd (ground arith)

-- The server of a configuration that the daemon accepts has the transfer slots that are configured, and its
-- networks are those that the entries of the access list are read as, in their order, of which there is at
-- least one: no default takes the place of either.
pub new_rpz_server-checked :
    (dns : Dns) (ps : Parsers) (c : Config) (st : State) (raw : Option (List Text))
    → validate_daemon dns ps c ≡ none
    → let s = new_rpz_server ps c st raw in
      (c.max_transfers ≡ pos s.max_transfers)
      × (map some s.transfer_acl ≡ map ps.parse_cidr c.transfer_acl)
      × (ltb 0 (length c.transfer_acl) ≡ true)
unfolding new_rpz_server validate checks acl_or_local
new_rpz_server-checked dns ps c st raw h =
    let passed = first_error-AllPassed (checks dns ps c) (validate_daemon-validate dns ps c h) in
    let listed : ltb 0 (length c.transfer_acl) ≡ true = passed.1.1.1.1.1.1.1.1.1.1.1.0 in
    let same =
      ap (λ acl. map some (networks ps acl)) (if-true c.transfer_acl _ listed)
      ∙ map-networks ps c.transfer_acl passed.1.1.1.1.1.1.1.1.1.1.1.1.0 in
    (slots-pos c.max_transfers passed.1.1.1.1.1.1.1.0, same, listed)
