-- ===== src/Rpz/Tests/Started.antt =====
-- The theorem on the start of the daemon, at a first start whose transfer fails.
use dnsdist_edge.Prelude.{
  ◌≡◌, refl, true, false, ◌&&◌, none, some, [], ◌∷◌, ◌++◌, nat_eq, is_some, ◌⊎◌, ok,
}
use dnsdist_edge.Text.{
  Text, text_eq, text_beq, has_suffix, has_prefix, trim_suffix, trim_space, trim_left, trim_right,
  is_space, lower, lower_byte, equal_fold,
}
use dnsdist_edge.Rpz.Domain.{dot, normalize_policy_domain}
use dnsdist_edge.Rpz.Delta.{is_skipped}
use dnsdist_edge.Rpz.Types.{soa, rr}
use dnsdist_edge.Rpz.Publication.{
  Cdb, Io, compile_domains_to_cdb, compile_raw, compile_lines, compile_line, packed,
}
use dnsdist_edge.Rpz.App.{
  Config, World, sync, sync_from, build_cdb, commit_build, bootstrap, bootstrap_raw, built_state,
  date_serial,
}
use dnsdist_edge.Rpz.App.Start.{
  Start, first_sync, query_upstream_soa, zone_soa, or_bootstrap, prepare, IsBuilt, prepare-ok,
}
use dnsdist_edge.Rpz.Tests.{dns, zone, domain_b, comment}

abbrev digest : Cdb → Text
digest cdb = b'0' ∷ []

abbrev working : Io
working = record {
  stage_raw = true;
  stage_cdb = true;
  rename_raw = true;
  rename_cdb = true;
  rename_manifest = true;
  save_state = true;
}

abbrev cfg : Config
cfg = record { source_mode = []; zone = zone; upstream_master = zone; max_transfer_records = 100 }

-- The upstream answers with an SOA of another zone; the bootstrap URL delivers one domain.
abbrev first_start : Start
first_start = record {
  stat_raw = true;
  stat_cdb = true;
  transfer_io = working;
  build_io = working;
  transferred_at = 8;
  built_at = 9;
  date = record { year = 2026; month = 1; day = 2 };
  has_url = true;
  download = some (comment ∷ domain_b ∷ []);
  response =
      some
        (record { truncated = false; rcode = 0; answers = rr zone 2 zone ∷ soa domain_b 5 ∷ [] });
  envelopes = [];
}

abbrev empty_world : World
empty_world = record {
  state = record { serial = 0; last_update = 0; total_domains = 0; cdb_sha256 = []; deltas = [] };
  disk = record { raw = none; cdb = none; manifest = none };
}

abbrev built_world : World
built_world = record {
  state = record {
    serial = 2026010201;
    last_update = 9;
    total_domains = 1;
    cdb_sha256 = b'0' ∷ [];
    deltas = [];
  };
  disk = record {
    raw = some (comment ∷ domain_b ∷ []);
    cdb = some ((domain_b ++ dot) ∷ []);
    manifest = some (record { total_entries = 1; sha256 = b'0' ∷ [] });
  };
}

built : prepare dns digest cfg first_start empty_world ≡ (built_world, ok tt)
unfolding prepare or_bootstrap first_sync query_upstream_soa zone_soa sync sync_from bootstrap
    bootstrap_raw build_cdb commit_build built_state date_serial compile_domains_to_cdb compile_raw
    compile_lines compile_line packed is_skipped normalize_policy_domain trim_space trim_right
    trim_left is_space trim_suffix text_beq has_suffix has_prefix lower lower_byte equal_fold
built = refl

prepare-ok_example :
    IsBuilt dns digest built_world
    ⊎ ((built_world ≡ empty_world)
        × ((is_some empty_world.disk.raw && is_some empty_world.disk.cdb ≡ true)
            ⊎ ((empty_world.disk.raw ≡ none)
                × (first_sync dns digest cfg first_start empty_world ≡ (empty_world, ok tt)))))
prepare-ok_example = prepare-ok dns digest cfg first_start empty_world {after = built_world} built
