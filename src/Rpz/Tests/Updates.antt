-- ===== src/Rpz/Tests/Updates.antt =====
-- The theorems on serials and on the master's updates, at a small file and a small upstream.
use dnsdist_edge.Prelude.{
  ℕ, ◌+◌, ◌<◌, ◌≡◌, refl, true, false, not, ◌&&◌, ◌||◌, none, some, List, [], ◌∷◌, ◌++◌, arith,
  nat_eq, ◌↔◌, ◌⊎◌, ok, err, ◌%◌,
}
use dnsdist_edge.Text.{
  Text, text_eq, text_beq, text_beq_iff, has_suffix, has_prefix, trim_suffix, trim_space, trim_left,
  trim_right, is_space, lower, lower_byte, equal_fold,
}
use dnsdist_edge.Text.Sort.{mem, sort, insert_sorted, set_insert, text_leb}
use dnsdist_edge.Rpz.Serial.{u32_mod, half_range, serial_greater, serial_greater-add}
use dnsdist_edge.Rpz.Types.{Dns, name, rrtype_of, soa, rr, Delta, Error}
use dnsdist_edge.Rpz.Domain.{dot, policy_owner, is_policy_type, normalize_policy_domain}
use dnsdist_edge.Rpz.Delta.{
  is_skipped, old_lines, clean_set, apply_lines, apply_line, remaining, set_remove,
  apply_delta_to_file,
}
use dnsdist_edge.Rpz.Delta.Laws.{listed, IsNormal, mem-apply_delta}
use dnsdist_edge.Rpz.Sync.{
  records, effective_limit, sync_ixfr, sync_head, read_head, stream_axfr, process, process_all,
  process_envelopes, stage_record, stage_soa, stage_line, is_ixfr_response, check_serial,
}
use dnsdist_edge.Rpz.Publication.{
  Cdb, Disk, Io, publish_delta, staged_lines, publish_lines, rename_staged, compile_domains_to_cdb,
  compile_raw, compile_lines, compile_line, packed,
}
use dnsdist_edge.Rpz.App.{
  Config, Upstream, World, sync, local_serial, sync_from, publish_sync, commit_sync, synced_state,
  remember,
}
use dnsdist_edge.Rpz.App.Invariant.{IsWellFormed, sync-IsWellFormed}
use dnsdist_edge.Rpz.App.Outcome.{IsUntouched, IsSynced, sync-err, sync-ok, sync-high_serial}
use dnsdist_edge.Rpz.Tests.{
  dns, zone, domain_a, domain_b, domain_c, comment, domain_a-IsPolicyDomain,
  domain_b-IsPolicyDomain,
}

serial_greater-add_example :
    (serial_greater ((4294967290 + 10) % u32_mod) 4294967290 ≡ true)
    ↔ ((0 < 10) × (10 < half_range))
serial_greater-add_example = serial_greater-add 4294967290 10 (omega arith) (omega arith)

-- a.id goes, b.id comes.
abbrev delta : Delta
delta = record {
  from_serial = 4;
  to_serial = 5;
  timestamp = 6;
  full = false;
  added = domain_b ∷ [];
  deleted = domain_a ∷ [];
  staged_raw = none;
}

abbrev old_file : List Text
old_file = comment ∷ domain_a ∷ domain_c ∷ []

abbrev new_file : List Text
new_file = domain_c ∷ domain_b ∷ []

only : (dns' : Dns) (d : Text) → normalize_policy_domain dns' d ≡ ok d → IsNormal dns' (d ∷ [])
unfolding mem
only dns' d normal x m = ground (arith, text_beq_iff x d, normal)

applied : apply_delta_to_file dns true (some old_file) (some delta) ≡ ok new_file
unfolding apply_delta_to_file old_lines clean_set apply_lines apply_line remaining set_remove
    is_skipped normalize_policy_domain trim_space trim_right trim_left is_space trim_suffix text_beq
    has_suffix has_prefix lower lower_byte sort insert_sorted set_insert text_leb mem
applied = refl

mem-apply_delta_example :
    (cleans : List Text) × (listed dns old_file ≡ ok cleans)
    × ((z : Text)
        → mem z new_file ≡ ((mem z cleans || mem z delta.added) && not (mem z delta.deleted)))
mem-apply_delta_example =
    mem-apply_delta dns true old_file delta {out = new_file} refl
      (only dns domain_b domain_b-IsPolicyDomain.normal)
      (only dns domain_a domain_a-IsPolicyDomain.normal) applied

abbrev digest : Cdb → Text
digest keys = b'0' ∷ []

-- Every file operation succeeds; staging the CDB fails.
abbrev working : Io
working = record {
  stage_raw = true;
  stage_cdb = true;
  rename_raw = true;
  rename_cdb = true;
  rename_manifest = true;
  save_state = true;
}

abbrev full_disk : Io
full_disk = record working { stage_cdb = false }

abbrev old_disk : Disk
old_disk = record { raw = some old_file; cdb = none; manifest = none }

-- A slave at serial 4 with the old file, and an upstream that sends all of serial 5.
abbrev cfg : Config
cfg = record { source_mode = []; zone = zone; upstream_master = zone; max_transfer_records = 100 }

abbrev old_world : World
old_world = record {
  state = record { serial = 4; last_update = 1; total_domains = 2; cdb_sha256 = []; deltas = [] };
  disk = old_disk;
}

abbrev upstream : Upstream
upstream = record {
  serial = ok 5;
  envelopes =
      records (soa zone 5 ∷ rr (domain_b ++ dot ++ zone) 5 zone ∷ [])
      ∷ records (soa zone 5 ∷ [])
      ∷ [];
}

abbrev synced_world : World
synced_world = record {
  state = record {
    serial = 5;
    last_update = 9;
    total_domains = 1;
    cdb_sha256 = b'0' ∷ [];
    deltas = [];
  };
  disk = record {
    raw = some (domain_b ∷ []);
    cdb = some ((domain_b ++ dot) ∷ []);
    manifest = some (record { total_entries = 1; sha256 = b'0' ∷ [] });
  };
}

synced : sync dns digest cfg working upstream 9 old_world ≡ (synced_world, ok tt)
unfolding sync sync_from publish_sync commit_sync synced_state remember local_serial publish_delta
    publish_lines rename_staged staged_lines compile_domains_to_cdb compile_raw compile_lines
    compile_line packed sync_ixfr sync_head read_head stream_axfr process process_all
    process_envelopes stage_record stage_soa stage_line is_ixfr_response effective_limit
    check_serial apply_delta_to_file old_lines clean_set apply_lines apply_line remaining set_remove
    is_skipped policy_owner is_policy_type name rrtype_of normalize_policy_domain trim_space
    trim_right trim_left is_space trim_suffix text_beq has_suffix has_prefix lower lower_byte
    equal_fold serial_greater sort insert_sorted set_insert text_leb mem
synced = refl

sync-ok_example :
    (synced_world ≡ old_world)
    ⊎ ((serial : ℕ) × (upstream.serial ≡ ok serial)
        × (serial_greater serial (local_serial old_world) ≡ true)
        × IsSynced dns digest serial synced_world)
sync-ok_example = sync-ok dns digest cfg working 9 upstream old_world {after = synced_world} synced

unsynced : sync dns digest cfg full_disk upstream 9 old_world ≡ (old_world, err Error.io_failed)
unfolding sync sync_from publish_sync commit_sync synced_state remember local_serial publish_delta
    publish_lines rename_staged staged_lines compile_domains_to_cdb compile_raw compile_lines
    compile_line packed sync_ixfr sync_head read_head stream_axfr process process_all
    process_envelopes stage_record stage_soa stage_line is_ixfr_response effective_limit
    check_serial apply_delta_to_file old_lines clean_set apply_lines apply_line remaining set_remove
    is_skipped policy_owner is_policy_type name rrtype_of normalize_policy_domain trim_space
    trim_right trim_left is_space trim_suffix text_beq has_suffix has_prefix lower lower_byte
    equal_fold serial_greater sort insert_sorted set_insert text_leb mem
unsynced = refl

sync-err_example : IsUntouched full_disk old_world old_world
sync-err_example =
    sync-err dns digest cfg full_disk 9 upstream old_world {after = old_world} Error.io_failed
      unsynced

sync-IsWellFormed_example : IsWellFormed (sync dns digest cfg working upstream 9 old_world).0.state
sync-IsWellFormed_example =
    sync-IsWellFormed dns digest cfg working 9 upstream old_world (omega arith, tt)

-- A first start against an upstream at serial 3000000000.
abbrev empty_world : World
empty_world = record {
  state = record { serial = 0; last_update = 0; total_domains = 0; cdb_sha256 = []; deltas = [] };
  disk = record { raw = none; cdb = none; manifest = none };
}

sync-high_serial_example :
    sync dns digest cfg working (record upstream { serial = ok 3000000000 }) 9 empty_world
    ≡ (empty_world, ok tt)
unfolding local_serial text_beq
sync-high_serial_example =
    sync-high_serial dns digest cfg working 9 (record upstream { serial = ok 3000000000 })
      empty_world 3000000000 refl refl refl (omega arith) (omega arith)
