-- ===== src/Agent/Update/Disk.antt =====
-- internal/agent/updatejournal.go, and backupFile and restoreFile of internal/agent/upgraderun.go: the
-- files of an update, and the journal that survives a crash. The names of the known-good copies are
-- fixed, so the journal says only whether it names them.
use tgproxy_panel.Prelude.{
  String, Bool, true, false, not, ◌||◌, Option, none, some, List, [], ◌∷◌, ◌++◌, if◌then◌else◌,
  ◌==◌, nat_eq, string_eq,
}
use tgproxy_panel.Agent.Files.{JsonFile, Write, corrupt, holds, missing, unreadable, write_atomic}
use tgproxy_panel.Agent.Update.{UpdateOutcome, TelemtUpdate, none_yet}

-- updateJournal
pub record UpdateJournal : Type 0 where
  pub outcome : UpdateOutcome
  pub has_error : Bool
  pub target : String
  pub active : Bool
  pub version : String
  pub names_good_binary : Bool
  pub binary_sha : String
  pub names_good_config : Bool
  pub config_sha : String
  pub had_web : Bool
  pub admission_open : Bool

-- The files: telemt's binary and config, the known-good copies, the copies that a rollback uses, and
-- the journal; none for a file that is missing.
pub record Disk : Type 0 where
  pub binary : Option String
  pub config : Option String
  pub good_binary : Option String
  pub good_config : Option String
  pub binary_prev : Option String
  pub config_prev : Option String
  pub journal : JsonFile UpdateJournal

-- A run so far: the disk, every disk before it, and the record that a status call reads. A crash
-- leaves one of these disks.
pub record Course : Type 0 where
  pub disk : Disk
  pub past : List Disk
  pub update : TelemtUpdate

unfoldable pub store : Disk → Course → Course
store d c = record c { disk = d; past = c.past ++ c.disk ∷ [] }

abbrev pub note : (TelemtUpdate → TelemtUpdate) → Course → Course
note f c = record c { update = f c.update }

-- writeUpdateJournal, and whether it returned nil.
unfoldable pub write_update_journal : Write → UpdateJournal → Course → Course × Bool
write_update_journal w j c =
    let (file, ok) = write_atomic w (holds j) c.disk.journal in
    (store (record c.disk { journal = file }) c, ok)

-- checkUpdateJournal: whether it returned nil.
unfoldable pub check_update_journal : JsonFile UpdateJournal → Bool
check_update_journal missing = true
check_update_journal unreadable = false
check_update_journal corrupt = false
check_update_journal (holds j) = not j.active

-- saveVerifiedCopy: the new content of the copy, and the checksum or none for an error.
unfoldable pub save_verified_copy :
    (String → String) → Write → Option String → Option String → Option String × Option String
save_verified_copy sha w none old = (old, none)
save_verified_copy sha w (some text) old =
    let (copy, ok) = write_atomic w (some text) old in (copy, if ok then some (sha text) else none)

-- verifiedFile.
unfoldable pub verified_file : (String → String) → Option String → String → Option String
verified_file sha none sum = none
verified_file sha (some text) sum = if sha text == sum then some text else none

-- What prepareUpdateJournal meets: a status of WEB is none for an error, and some none without a
-- lifecycle.
pub record PrepareHost : Type 0 where
  pub mkdir : Bool
  pub web_status : Option (Option Bool)
  pub binary_copy : Write
  pub config_copy : Write
  pub intent : Write

-- Whether admission was open before, as the journal records it; none for an error.
unfoldable pub original_admission : Bool → Option (Option Bool) → Option Bool
original_admission false status = some false
original_admission true none = none
original_admission true (some lifecycle) = lifecycle

abbrev pub intent_of : Bool → String → String → Bool → String → String → UpdateJournal
intent_of had_web version target admission binary_sum config_sum = record {
  outcome = none_yet;
  has_error = false;
  target = target;
  active = true;
  version = version;
  names_good_binary = true;
  binary_sha = binary_sum;
  names_good_config = true;
  config_sha = config_sum;
  had_web = had_web;
  admission_open = admission;
}

-- prepareUpdateJournal, of the plan its fields `hadWeb` and `installed`: the journal, or none for an
-- error.
unfoldable pub prepare_update_journal :
    (String → String)
    → PrepareHost
    → Bool
    → String
    → String
    → Course
    → Course × Option UpdateJournal
prepare_update_journal sha h had_web installed target c =
    if not (check_update_journal c.disk.journal) || not h.mkdir
    then (c, none)
    else elim (original_admission had_web h.web_status) [
      | none ↦ (c, none)
      | some admission ↦
          let (binary, binary_sum) =
            save_verified_copy sha h.binary_copy c.disk.binary c.disk.good_binary in
          let c1 = store (record c.disk { good_binary = binary }) c in
          elim binary_sum [
            | none ↦ (c1, none)
            | some b ↦
                let (config, config_sum) =
                  save_verified_copy sha h.config_copy c.disk.config c.disk.good_config in
                let c2 = store (record c1.disk { good_config = config }) c1 in
                elim config_sum [
                  | none ↦ (c2, none)
                  | some s ↦
                      let j = intent_of had_web installed target admission b s in
                      let (c3, ok) = write_update_journal h.intent j c2 in
                      (c3, if ok then some j else none)
                ]
          ]
    ]

-- How backupFile ends when the file is there: an error before the copy, an error that removes the
-- copy, or success.
pub data Backup : Type 0 where
  backup_refused backup_lost backed_up : Backup

-- The copy after backupFile, whether its name is returned, and whether there is no error.
unfoldable pub backup_file : Backup → Option String → Option String → Option String × Bool × Bool
backup_file b none prev = (prev, false, true)
backup_file backup_refused (some text) prev = (prev, false, false)
backup_file backup_lost (some text) prev = (none, false, false)
backup_file backed_up (some text) prev = (some text, true, true)

-- How restoreFile ends: whether the copy replaces the file, or the file is removed when there is no
-- copy, and whether its mode is set.
pub record Restore : Type 0 where
  pub replaces : Bool
  pub sets_mode : Bool

-- The copy and the file after restoreFile, and whether it returned nil.
unfoldable pub restore_file :
    Restore → Bool → Option String → Option String → Option String × Option String × Bool
restore_file r false prev file = (prev, if r.replaces then none else file, r.replaces)
restore_file r true none file = (none, file, false)
restore_file r true (some text) file =
    if r.replaces then (none, some text, r.sets_mode) else (some text, file, false)
