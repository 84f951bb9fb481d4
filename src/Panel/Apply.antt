-- ===== src/Panel/Apply.antt =====
-- `applyDnsdistProfile` of panel/smartdist_dnsdist_apply.go. What the file operations, the check of the
-- configuration and the restarts answer comes as an argument; a remove of the .new file works.
pub mod Rollback
use dnsdist_edge.Prelude.{
  Bool, true, false, not, ◌||◌, Option, none, some, ◌==◌, if◌then◌else◌, Result, ok, err,
}
use dnsdist_edge.Text.{Text, text_eq}

-- What the files at dnsdistProfilePath, .new and .lkg hold.
pub record ProfileFiles : Type 0 where
  pub active : Option Text
  pub fresh : Option Text
  pub lkg : Option Text

pub data ApplyError : Type 0 where
  invalid write_new check_config save_lkg rename rollback restart restart_again : ApplyError

-- The outcomes: of reading the active file, writing .new, check-config, writing .lkg, the rename, the restart,
-- the rename or remove of the rollback, and the second restart. `torn` is what a failed write leaves.
pub record ApplyIo : Type 0 where
  pub readable : Bool
  pub new_written : Bool
  pub config_accepted : Bool
  pub lkg_saved : Bool
  pub renamed : Bool
  pub restarted : Bool
  pub rolled_back : Bool
  pub restarted_again : Bool
  pub torn : Option Text

-- The second restart, which ends in an error in any case.
unfoldable pub restart_old : ApplyIo → ProfileFiles → ProfileFiles × Result ApplyError Unit
restart_old io files =
    if io.restarted_again
    then (files, err ApplyError.restart)
    else (files, err ApplyError.restart_again)

-- After a failed restart.
unfoldable pub roll_back :
    ApplyIo → Option Text → ProfileFiles → ProfileFiles × Result ApplyError Unit
roll_back io none files =
    restart_old io (if io.rolled_back then record files { active = none } else files)
roll_back io (some old) files =
    if io.rolled_back
    then restart_old io (record files { active = files.lkg; lkg = none })
    else (files, err ApplyError.rollback)

-- The rename of .new and the restart; `enabled` is the flag -dnsdist-restart.
unfoldable pub activate :
    ApplyIo → Bool → Option Text → ProfileFiles → ProfileFiles × Result ApplyError Unit
activate io enabled old files =
    if not io.renamed
    then (files, err ApplyError.rename)
    else let renamed = record files { active = files.fresh; fresh = none } in
      if not enabled || io.restarted then (renamed, ok tt) else roll_back io old renamed

-- The copy of the old file.
unfoldable pub keep_old :
    ApplyIo → Bool → Option Text → ProfileFiles → ProfileFiles × Result ApplyError Unit
keep_old io enabled none files = activate io enabled none files
keep_old io enabled (some old) files =
    if io.lkg_saved
    then activate io enabled (some old) (record files { lkg = some old })
    else (record files { fresh = none; lkg = io.torn }, err ApplyError.save_lkg)

-- From the write of .new on.
unfoldable pub replace_active :
    ApplyIo → Bool → Option Text → ProfileFiles → Text → ProfileFiles × Result ApplyError Unit
replace_active io enabled old files lua =
    if not io.new_written
    then (record files { fresh = io.torn }, err ApplyError.write_new)
    else if not io.config_accepted
    then (record files { fresh = none }, err ApplyError.check_config)
    else keep_old io enabled old (record files { fresh = some lua })

unfoldable pub is_text : Option Text → Text → Bool
is_text none lua = false
is_text (some old) lua = old == lua

-- What os.ReadFile gives.
unfoldable pub read_active : ApplyIo → ProfileFiles → Option Text
read_active io files = if io.readable then files.active else none

-- applyDnsdistProfile, for what generateDnsdistLua makes of the body.
unfoldable pub apply_dnsdist_profile :
    ApplyIo → Bool → ProfileFiles → Option Text → ProfileFiles × Result ApplyError Unit
apply_dnsdist_profile io enabled files none = (files, err ApplyError.invalid)
apply_dnsdist_profile io enabled files (some lua) =
    let old = read_active io files in
    if is_text old lua then (files, ok tt) else replace_active io enabled old files lua
