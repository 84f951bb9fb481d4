-- ===== src/Panel/Apply/Rollback.antt =====
-- `applyDnsdistProfile` of panel/smartdist_dnsdist_apply.go: what is active after it.
use dnsdist_edge.Prelude.{
  ◌≡◌, ◌⊎◌, inl, inr, Bool, true, Option, none, some, ok, err, arith, Bool-cases, Option-cases,
}
use dnsdist_edge.Text.{Text, text_eq, text_beq_iff}
use dnsdist_edge.Panel.Apply.{
  ProfileFiles, ApplyError, ApplyIo, restart_old, roll_back, activate, keep_old, replace_active,
  is_text, read_active, apply_dnsdist_profile,
}

-- A profile that is applied without an error is the active file, and it is the file as it was or one that
-- the check of the configuration accepted.
pub apply_dnsdist_profile-ok :
    (io : ApplyIo) (enabled : Bool) (files : ProfileFiles) (lua : Text) {after : ProfileFiles}
    → apply_dnsdist_profile io enabled files (some lua) ≡ (after, ok tt)
    → (after.active ≡ some lua) × ((after.active ≡ files.active) ⊎ (io.config_accepted ≡ true))
unfolding apply_dnsdist_profile replace_active keep_old activate roll_back restart_old is_text
    read_active
apply_dnsdist_profile-ok io enabled files lua {after} h =
    elim (Option-cases (read_active io files)) [
      | inl missing ↦ ground arith
      | inr (old, there) ↦ ground (arith, text_beq_iff old lua, Bool-cases io.readable)
    ]

-- An error leaves the active file as it was: where the file that is there can be read, and where what the
-- rollback does to it works if it comes to one.
pub apply_dnsdist_profile-err :
    (io : ApplyIo) (enabled : Bool) (files : ProfileFiles) (lua : Option Text)
    {after : ProfileFiles} {e : ApplyError}
    → io.readable ≡ true
    → io.rolled_back ≡ true
    → apply_dnsdist_profile io enabled files lua ≡ (after, err e)
    → after.active ≡ files.active
unfolding apply_dnsdist_profile replace_active keep_old activate roll_back restart_old is_text
    read_active
apply_dnsdist_profile-err io enabled files none readable back h = ground arith
apply_dnsdist_profile-err io enabled files (some lua) readable back h =
    elim (Option-cases files.active) [
      | inl missing ↦ ground arith
      | inr (old, there) ↦ ground (arith, text_beq_iff old lua)
    ]
