-- ===== src/GenCdb/Outcome.antt =====
-- tools/gen-cdb-go/main.go: what an exit code says of the output file.
use dnsdist_edge.Prelude.{
  ℕ, ◌⊎◌, ◌<◌, ◌≤◌, length, All, map, ◌≡◌, Option, none, some, List, [], ◌∷◌, nat_eq,
}
use dnsdist_edge.Text.{Text, text_eq}
use dnsdist_edge.Rpz.Types.{Dns}
use dnsdist_edge.Panel.Cluster.Address.{split}
use dnsdist_edge.GenCdb.{Options, File, cdb, normalize, key_for}

-- A name that a CDB may have a key for.
abbrev pub IsName : Text → Type 0
IsName s =
    (0 < length s)
    × (length s ≤ 253)
    × All (λ (label : Text). (0 < length label) × (length label ≤ 63)) (split b'.' s)

-- The entries of the domains that have a key, one after another.
unfoldable pub entries : Text → List (Option (List ℕ)) → List (List ℕ × Text)
entries value [] = []
entries value (none ∷ keys) = entries value keys
entries value (some key ∷ keys) = (key, value) ∷ entries value keys

-- What a successful run leaves: the entries of the domains that have a key, of which there is at least one,
-- in their order and each with the value; a domain that has a key is a name within the limits.
pub record IsOutput (dns : Dns) (o : Options) (domains : List Text) (file : File) : Type 0 where
  pub written : List (List ℕ × Text)
  pub holds : file ≡ cdb written
  pub some_written : 0 < length written
  pub of_domains : written ≡ entries o.value (map (λ d. key_for dns d o.wire) domains)
  pub named : All (λ (d : Text). (key_for dns d o.wire ≡ none) ⊎ IsName (normalize d)) domains
