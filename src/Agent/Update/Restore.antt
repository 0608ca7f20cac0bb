-- ===== src/Agent/Update/Restore.antt =====
-- recoverUpdate of internal/agent/updatejournal.go: a process that starts undoes an update that was
-- interrupted.
use tgproxy_panel.Prelude.{
  String, Bool, true, false, not, ◌&&◌, ◌||◌, Option, none, some, if◌then◌else◌,
}
use tgproxy_panel.Agent.Files.{Write, corrupt, holds, missing, unreadable, write_atomic, JsonFile}
use tgproxy_panel.Agent.Update.{
  UpdateOutcome, TelemtUpdate, end_update, new_telemt_update, none_yet, rolled_back,
}
use tgproxy_panel.Agent.Update.Disk.{
  Course, UpdateJournal, store, verified_file, write_update_journal,
}
use tgproxy_panel.Agent.Update.Preflight.{Text}
use tgproxy_panel.Agent.Update.Steps.{admission_is, verify_telemt_version}

-- What recoverUpdate meets. `sets_admission` is the answer of WebResume or WebPause.
pub record RestoreHost : Type 0 where
  pub has_engine : Bool
  pub maintenance_free : Bool
  pub binary_write : Write
  pub config_write : Write
  pub restart : Bool
  pub system_info : Option String
  pub sets_admission : Bool
  pub web_status : Option (Option Bool)
  pub journal_write : Write

-- The update that a closed journal reports.
unfoldable pub replayed : UpdateJournal → TelemtUpdate
replayed j = end_update j.outcome j.has_error (new_telemt_update j.version j.target)

abbrev pub has_outcome : UpdateOutcome → Bool
has_outcome none_yet = false
has_outcome _ = true

-- recoverUpdate from the verified copies on: the course, and whether it returned nil.
unfoldable pub put_copies :
    Text → RestoreHost → UpdateJournal → String → String → Course → Course × Bool
put_copies t h j good_binary good_config c =
    let (binary, wrote_binary) = write_atomic h.binary_write (some good_binary) c.disk.binary in
    let c1 = store (record c.disk { binary = binary }) c in
    if not wrote_binary
    then (c1, false)
    else let (config, wrote_config) =
        write_atomic h.config_write (some good_config) c1.disk.config in
      let c2 = store (record c1.disk { config = config }) c1 in
      if not wrote_config
        || not h.restart
        || not (verify_telemt_version t h.system_info j.version)
        || (j.had_web && not (h.sets_admission && admission_is j.admission_open h.web_status))
      then (c2, false)
      else let closed = record j { active = false; outcome = rolled_back; has_error = true } in
        let (c3, ok) = write_update_journal h.journal_write closed c2 in
        if ok then (record c3 { update = replayed closed }, true) else (c3, false)

-- recoverUpdate from the journal on.
unfoldable pub recover_journal :
    (String → String) → Text → RestoreHost → Course → JsonFile UpdateJournal → Course × Bool
recover_journal sha t h c missing = (c, true)
recover_journal sha t h c unreadable = (c, false)
recover_journal sha t h c corrupt = (c, false)
recover_journal sha t h c (holds j) =
    if not j.active
    then (if has_outcome j.outcome then record c { update = replayed j } else c, true)
    else if not h.maintenance_free || not (j.names_good_binary && j.names_good_config)
    then (c, false)
    else elim (verified_file sha c.disk.good_binary j.binary_sha) [
      | none ↦ (c, false)
      | some binary ↦ elim (verified_file sha c.disk.good_config j.config_sha) [
        | none ↦ (c, false)
        | some config ↦ put_copies t h j binary config c
      ]
    ]

-- recoverUpdate, and whether it returned nil; its entry in the log of the recovery is left out.
unfoldable pub recover_update : (String → String) → Text → RestoreHost → Course → Course × Bool
recover_update sha t h c =
    if not h.has_engine then (c, true) else recover_journal sha t h c c.disk.journal
