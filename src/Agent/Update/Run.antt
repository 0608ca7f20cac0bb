-- ===== src/Agent/Update/Run.antt =====
-- StartTelemtUpdate, runTelemtUpdate, rollbackTelemt and updateSettled of
-- internal/agent/telemtupdate.go: a whole update, with what telemt and the system answer as arguments.
use tgproxy_panel.Prelude.{
  String, Bool, true, false, not, ◌&&◌, ◌||◌, Option, none, some, List, [], if◌then◌else◌, ◌==◌,
  nat_eq, string_eq,
}
use tgproxy_panel.Agent.Files.{Write}
use tgproxy_panel.Agent.Update.{
  UpdateOutcome, TelemtUpdate, admission_shut, begin_step, end_update, failed, finish_step,
  is_phase_running, new_telemt_update, none_yet, refused, rollback_failed, rolled_back, skip,
  step_failed, step_ok, updated,
}
use tgproxy_panel.Agent.Update.Disk.{
  Course, Disk, PrepareHost, Restore, UpdateJournal, check_update_journal, note,
  prepare_update_journal, restore_file, store, verified_file, write_update_journal,
}
use tgproxy_panel.Agent.Update.Preflight.{
  Capabilities, Text, UpdatePlan, UpdateTelemtRequest, update_preflight,
}
use tgproxy_panel.Agent.Update.Steps.{
  KeptFiles, Lifecycle, ResumeHost, SwapHost, VerifyHost, admission_is, swap_telemt_binary,
  update_drain, update_pause, update_restart_and_verify, update_resume, verify_telemt_version,
}

-- What rollbackTelemt meets.
pub record RollbackHost : Type 0 where
  pub restore_binary : Restore
  pub restore_config : Restore
  pub restart : Bool
  pub system_info : Option String
  pub resume : ResumeHost

-- What a run meets. `staged` is the binary that stageTelemtBinary downloads and unpacks, none for an
-- error; `unwind` is the resume after a drain or a swap that fails.
pub record UpdateHost : Type 0 where
  pub system_info : Option String
  pub capabilities : Option Capabilities
  pub staged : Option String
  pub prepare : PrepareHost
  pub pauses : Bool
  pub drain_accepted : Bool
  pub drain_polls : List (Option (Option Lifecycle))
  pub swap : SwapHost
  pub unwind : ResumeHost
  pub verify : VerifyHost
  -- what the new telemt makes of its config while it runs
  pub config_after : Option String → Option String
  pub rollback : RollbackHost
  pub resume : ResumeHost
  pub settled_status : Option (Option Bool)
  pub settled_write : Write

-- The rollback up to the reopening of admission: the files, the restart and the version.
unfoldable pub put_back : Text → RollbackHost → UpdatePlan → KeptFiles → Course → Course × Bool
put_back t h plan kept c =
    let (prev, binary, back) =
      restore_file h.restore_binary kept.has_binary c.disk.binary_prev c.disk.binary in
    let c1 = store (record c.disk { binary = binary; binary_prev = prev }) c in
    let (config_prev, config, config_back) =
      restore_file h.restore_config true c1.disk.config_prev c1.disk.config in
    let c2 =
      if kept.has_config
      then store (record c1.disk { config = config; config_prev = config_prev }) c1
      else c1 in
    if not back then (c1, false) else if kept.has_config && not config_back then (c2, false) else (
      c2,
      h.restart && ((plan.installed == "") || verify_telemt_version t h.system_info plan.installed),
    )

-- rollbackTelemt.
unfoldable pub rollback_telemt : Text → RollbackHost → UpdatePlan → KeptFiles → Course → Course
rollback_telemt t h plan kept c =
    let (c1, back) = put_back t h plan kept (note (begin_step "rollback") c) in
    if not back
    then note (λ u. end_update rollback_failed true (finish_step "rollback" step_failed u)) c1
    else let (u, resumed) =
        update_resume h.resume plan true (finish_step "rollback" step_ok c1.update) in
      record c1 { update = end_update (if resumed then rolled_back else rollback_failed) true u }

-- Admission is opened again, and the run ends as failed.
unfoldable pub unwind : UpdateHost → UpdatePlan → Bool → Course → Course
unwind h plan paused c = record c {
  update = end_update failed true (update_resume h.unwind plan paused c.update).0;
}

abbrev pub with_new_engine : (Option String → Option String) → Course → Course
with_new_engine after c = store (record c.disk { config = after c.disk.config }) c

-- runTelemtUpdate from the swap on.
unfoldable pub swap_and_verify :
    Text → UpdateHost → UpdateTelemtRequest → UpdatePlan → Bool → String → Course → Course
swap_and_verify t h req plan paused new c =
    let (c1, kept, swapped) = swap_telemt_binary h.swap new (note (begin_step "swap") c) in
    if not swapped
    then unwind h plan paused (note (finish_step "swap" step_failed) c1)
    else let c2 = with_new_engine h.config_after (note (finish_step "swap" step_ok) c1) in
      let (u, verified) = update_restart_and_verify t h.verify plan req.version c2.update in
      let c3 = record c2 { update = u } in
      if not verified
      then rollback_telemt t h.rollback plan kept c3
      else let (u', resumed) = update_resume h.resume plan paused u in
        if not resumed
        then record c3 { update = end_update admission_shut true u' }
        else record (store
            (record c3.disk {
              binary_prev = if kept.has_binary then none else c3.disk.binary_prev;
              config_prev = if kept.has_config then none else c3.disk.config_prev;
            })
            c3) { update = end_update updated false u' }

-- runTelemtUpdate from the journal on, up to its deferred calls.
unfoldable pub with_intent :
    Text → UpdateHost → UpdateTelemtRequest → UpdatePlan → String → Course → Course
with_intent t h req plan new c =
    let (u, paused) = update_pause plan h.pauses c.update in
    let c1 = record c { update = u } in
    if not paused
    then note (end_update failed true) c1
    else if plan.skips_drain
    then swap_and_verify t h req plan plan.pause new (note (skip "drain") c1)
    else let (u', drained) = update_drain h.drain_accepted h.drain_polls u in
      let c2 = record c1 { update = u' } in
      if drained then swap_and_verify t h req plan true new c2 else unwind h plan true c2

abbrev pub is_verified : Option String → Bool
is_verified none = false
is_verified (some text) = true

-- updateSettled.
unfoldable pub update_settled :
    (String → String) → Option (Option Bool) → UpdateJournal → UpdateOutcome → Disk → Bool
update_settled sha status j updated d = true
update_settled sha status j rolled_back d = true
update_settled sha status j admission_shut d = true
update_settled sha status j failed d =
    is_verified (verified_file sha d.binary j.binary_sha)
    && (not j.had_web || admission_is j.admission_open status)
update_settled sha status j refused d = false
update_settled sha status j none_yet d = false
update_settled sha status j rollback_failed d = false

-- The deferred call that closes the journal.
unfoldable pub close_journal :
    (String → String) → Option (Option Bool) → Write → UpdateJournal → Course → Course
close_journal sha status w j c =
    let closed = record j {
      active = false;
      outcome = c.update.outcome;
      has_error = c.update.has_error;
    } in
    if update_settled sha status j c.update.outcome c.disk
    then (write_update_journal w closed c).0
    else c

-- runTelemtUpdate.
unfoldable pub run_telemt_update :
    (String → String) → Text → UpdateHost → UpdateTelemtRequest → Course → Course
run_telemt_update sha t h req c =
    let (u, planned) = update_preflight t req h.system_info h.capabilities c.update in
    let c1 = record c { update = u } in
    elim planned [
      | none ↦ note (end_update refused true) c1
      | some plan ↦
          let c2 = note (begin_step "download") c1 in
          elim h.staged [
            | none ↦ note (λ u. end_update refused true (finish_step "download" step_failed u)) c2
            | some new ↦
                let (c3, journal) =
                  prepare_update_journal sha h.prepare plan.had_web plan.installed req.version
                    (note (finish_step "download" step_ok) c2) in
                elim journal [
                  | none ↦ note (end_update refused true) c3
                  | some j ↦
                      let plan' = record plan {
                        preserve_closed = j.had_web && not j.admission_open;
                      } in
                      close_journal sha h.settled_status h.settled_write j
                        (with_intent t h req plan' new c3)
                ]
          ]
    ]

-- StartTelemtUpdate, with the run that it starts and its last update; none when it refuses.
unfoldable pub start_telemt_update :
    (String → String)
    → Text
    → Bool
    → Bool
    → UpdateHost
    → UpdateTelemtRequest
    → Option TelemtUpdate
    → Disk
    → Option Course
start_telemt_update sha t is_telemt maintenance_free h req last d =
    if not is_telemt || not maintenance_free || not (check_update_journal d.journal)
    then none
    else if elim last [ none ↦ false | some u ↦ is_phase_running u.phase ]
    then none
    else some (
        run_telemt_update sha t h req (record {
          disk = d;
          past = [];
          update = new_telemt_update "" (t.trim_space req.version);
        }))
