-- ===== src/Panel/Publisher.antt =====
-- panel/cdbpublisher.go: the names and paths of the files that the master publishes, and the list of sources for
-- edges. `Files` stands for path/filepath and the file system.
pub mod Safe
use dnsdist_edge.Prelude.{
  ℕ, zero, suc, Bool, true, false, not, ◌&&◌, ◌||◌, Option, none, some, List, [], ◌∷◌, ◌++◌, ◌==◌,
  nat_eq, leb, if◌then◌else◌, Result, ok, err,
}
use dnsdist_edge.Text.{Text, text_eq, codes, trim_space, has_prefix}
use dnsdist_edge.Text.Sort.{mem}
use dnsdist_edge.Panel.Cluster.Address.{split, before_comma}

pub data CdbError : Type 0 where
  unavailable forbidden failed : CdbError

-- What os.Stat or filepath.EvalSymlinks finds: nothing, an error, or something.
pub data Found {ℓ} (A : Type ℓ) : Type ℓ where
  absent broken : Found A
  found : A → Found A

-- `is_file` is that os.Stat works and finds no directory; `rel` is none where filepath.Rel fails.
pub record Files : Type 0 where
  pub is_file : Text → Bool
  pub join : Text → Text → Text
  pub rel : Text → Text → Option Text
  pub eval_symlinks : Text → Found Text
  pub is_regular : Text → Found Bool

-- [0-9a-f]
unfoldable pub is_hex : ℕ → Bool
is_hex c = (leb b'0' c && leb c b'9') || (leb b'a' c && leb c b'f')

-- So many hex digits, and ".db" after them.
unfoldable pub hex_then_db : ℕ → Text → Bool
hex_then_db zero s = s == codes ".db"
hex_then_db (suc n) [] = false
hex_then_db (suc n) (c ∷ s) = is_hex c && hex_then_db n s

unfoldable pub addressed_after : Text → Text → Bool
addressed_after [] s = hex_then_db 64 s
addressed_after (p ∷ prefix) [] = false
addressed_after (p ∷ prefix) (c ∷ s) = c == p && addressed_after prefix s

-- cdbNameAllowed
unfoldable pub cdb_name_allowed : Text → Bool
cdb_name_allowed name =
    name == codes "trust.db"
    || name == codes "blacklist.db"
    || addressed_after (codes "trust.") name
    || addressed_after (codes "blacklist.") name

-- cdbActiveName
unfoldable pub cdb_active_name : Files → Text → Option Text
cdb_active_name fs dir =
    if fs.is_file (fs.join dir (codes "trust.db"))
    then some (codes "trust.db")
    else if fs.is_file (fs.join dir (codes "blacklist.db"))
    then some (codes "blacklist.db")
    else none

unfoldable pub is_inside : Option Text → Bool
is_inside none = false
is_inside (some rel) = not (rel == codes ".." || has_prefix rel (codes "../"))

-- cdbWithinDir
unfoldable pub cdb_within_dir : Files → Text → Text → Bool
cdb_within_dir fs dir path = is_inside (fs.rel dir path)

-- The last check, on what the resolved path is.
unfoldable pub regular_only : Text → Found Bool → Result CdbError Text
regular_only path absent = err CdbError.unavailable
regular_only path broken = err CdbError.failed
regular_only path (found regular) = if regular then ok path else err CdbError.forbidden

unfoldable pub within_real : Files → Text → Found Text → Result CdbError Text
within_real fs real_dir absent = err CdbError.unavailable
within_real fs real_dir broken = err CdbError.failed
within_real fs real_dir (found path) =
    if cdb_within_dir fs real_dir path
    then regular_only path (fs.is_regular path)
    else err CdbError.forbidden

unfoldable pub resolve_in : Files → Text → Found Text → Result CdbError Text
resolve_in fs full absent = err CdbError.unavailable
resolve_in fs full broken = err CdbError.unavailable
resolve_in fs full (found real_dir) = within_real fs real_dir (fs.eval_symlinks full)

unfoldable pub resolve_name : Files → Text → Option Text → Result CdbError Text
resolve_name fs dir none = err CdbError.unavailable
resolve_name fs dir (some name) =
    if not (cdb_name_allowed name)
    then err CdbError.forbidden
    else if not (cdb_within_dir fs dir (fs.join dir name))
    then err CdbError.forbidden
    else resolve_in fs (fs.join dir name) (fs.eval_symlinks dir)

-- resolveCDBPath
unfoldable pub resolve_cdb_path : Files → Text → Text → Result CdbError Text
resolve_cdb_path fs dir name =
    resolve_name fs dir (if name == [] then cdb_active_name fs dir else some name)

-- The loop of parseCDBFallbackURLs.
unfoldable pub fallback_urls : List Text → List Text → List Text
fallback_urls out [] = out
fallback_urls out (part ∷ parts) =
    let u = trim_space part in
    if u == []
    then fallback_urls out parts
    else if not (has_prefix u (codes "http://")) && not (has_prefix u (codes "https://"))
    then fallback_urls out parts
    else if mem u out
    then fallback_urls out parts
    else fallback_urls (out ++ u ∷ []) parts

-- parseCDBFallbackURLs
unfoldable pub parse_cdb_fallback_urls : Text → List Text
parse_cdb_fallback_urls raw = fallback_urls [] (split b',' raw)

-- cdbSelfURL; `tls` is whether the request came over TLS.
unfoldable pub cdb_self_url : Bool → Text → Text → Text
cdb_self_url tls forwarded_proto host =
    let xf = trim_space (before_comma forwarded_proto) in
    let scheme =
      if xf == codes "http" || xf == codes "https"
      then xf
      else if tls
      then codes "https"
      else codes "http" in
    if host == [] then [] else scheme ++ codes "://" ++ host
