-- ===== src/Agent/Update/Ended.antt =====
-- A run always ends: its record is done, and no step of it is left running.
use tgproxy_panel.Prelude.{
  option_when, if_both, String, ◌≡◌, refl, Bool, true, not, ◌&&◌, ◌||◌, Option, List, arith, ◌==◌,
  nat_eq, string_eq,
}
use tgproxy_panel.Agent.Update.Finished.{
  Busy, Closed, began, begin_step-Busy, finish_step-Busy, finish_step-Closed, update_drain-Closed,
  update_pause-Closed, update_restart_and_verify-Closed, update_resume-Closed,
}
use tgproxy_panel.Agent.Files.{Write}
use tgproxy_panel.Agent.Update.{
  TelemtUpdate, UpdateOutcome, begin_step, end_update, finish_step, phase_done, skip, step_failed,
  step_ok, step_skipped,
}
use tgproxy_panel.Agent.Update.Disk.{
  Course, Disk, PrepareHost, UpdateJournal, backup_file, check_update_journal, note,
  original_admission, prepare_update_journal, save_verified_copy, store, write_update_journal,
}
use tgproxy_panel.Agent.Update.Preflight.{
  Capabilities, Text, UpdatePlan, UpdateTelemtRequest, installed_version, same_telemt_version,
  update_preflight, valid_sha256,
}
use tgproxy_panel.Agent.Update.Steps.{
  KeptFiles, SwapHost, swap_telemt_binary, update_drain, update_pause, update_restart_and_verify,
  update_resume,
}
use tgproxy_panel.Agent.Update.Run.{
  RollbackHost, UpdateHost, close_journal, put_back, rollback_telemt, run_telemt_update,
  swap_and_verify, unwind, update_settled, with_intent, with_new_engine,
}

abbrev pub Over : Course → Type 0
Over c = Closed c.update × (c.update.phase ≡ phase_done)

end_update-Over :
    (o : UpdateOutcome) (e : Bool) (u : TelemtUpdate) (d : Disk) (past : List Disk)
    → Closed u
    → Over (record { disk = d; past = past; update = end_update o e u })
unfolding end_update
end_update-Over o e u d past closed = (closed, refl)

swap_update :
    (h : SwapHost) (new : String) (c : Course) → (swap_telemt_binary h new c).0.update ≡ c.update
unfolding swap_telemt_binary store
swap_update h new c =
    let P : Course × KeptFiles × Bool → Type 0 = λ x. x.0.update ≡ c.update in
    let bin = backup_file h.backup_binary c.disk.binary c.disk.binary_prev in
    let conf = backup_file h.backup_config c.disk.config c.disk.config_prev in
    if_both P (not bin.2) refl
      (if_both P (not conf.2) refl (if_both P (not h.rename) refl (if_both P h.chmod refl refl)))

put_back_update :
    (t : Text) (h : RollbackHost) (plan : UpdatePlan) (kept : KeptFiles) (c : Course)
    → (put_back t h plan kept c).0.update ≡ c.update
unfolding put_back store
put_back_update t h plan kept c = ground arith

rollback_telemt-Over :
    (t : Text) (h : RollbackHost) (plan : UpdatePlan) (kept : KeptFiles) (c : Course)
    → Closed c.update
    → Over (rollback_telemt t h plan kept c)
unfolding rollback_telemt end_update
rollback_telemt-Over t h plan kept c closed =
    let c0 = note (begin_step "rollback") c in
    let back = put_back t h plan kept c0 in
    let same : back.0.update ≡ begin_step "rollback" c.update = put_back_update t h plan kept c0 in
    let fails : Closed (finish_step "rollback" step_failed back.0.update) =
      rw same (began "rollback" step_failed c.update refl closed) in
    let works : Closed (finish_step "rollback" step_ok back.0.update) =
      rw same (began "rollback" step_ok c.update refl closed) in
    if_both Over (not back.1) (fails, refl)
      (
        update_resume-Closed h.resume plan true (finish_step "rollback" step_ok back.0.update)
            works,
        refl,
      )

unwind-Over :
    (h : UpdateHost) (plan : UpdatePlan) (paused : Bool) (c : Course)
    → Closed c.update
    → Over (unwind h plan paused c)
unfolding unwind end_update
unwind-Over h plan paused c closed =
    (update_resume-Closed h.unwind plan paused c.update closed, refl)

swap_and_verify-Over :
    (t : Text) (h : UpdateHost) (req : UpdateTelemtRequest) (plan : UpdatePlan) (paused : Bool)
    (new : String) (c : Course)
    → Closed c.update
    → Over (swap_and_verify t h req plan paused new c)
unfolding swap_and_verify store end_update
swap_and_verify-Over t h req plan paused new c closed =
    let c0 = note (begin_step "swap") c in
    let swap = swap_telemt_binary h.swap new c0 in
    let same : swap.0.update ≡ begin_step "swap" c.update = swap_update h.swap new c0 in
    let fails : Closed (finish_step "swap" step_failed swap.0.update) =
      rw same (began "swap" step_failed c.update refl closed) in
    let works : Closed (finish_step "swap" step_ok swap.0.update) =
      rw same (began "swap" step_ok c.update refl closed) in
    let c2 = with_new_engine h.config_after (note (finish_step "swap" step_ok) swap.0) in
    let checked = update_restart_and_verify t h.verify plan req.version c2.update in
    let verified : Closed checked.0 =
      update_restart_and_verify-Closed t h.verify plan req.version c2.update works in
    let c3 = record c2 { update = checked.0 } in
    let resumed = update_resume h.resume plan paused checked.0 in
    let open_again : Closed resumed.0 =
      update_resume-Closed h.resume plan paused checked.0 verified in
    if_both Over (not swap.2)
      (unwind-Over h plan paused (note (finish_step "swap" step_failed) swap.0) fails)
      (if_both Over (not checked.1) (rollback_telemt-Over t h.rollback plan swap.1 c3 verified)
        (if_both Over (not resumed.1) (open_again, refl) (open_again, refl)))

with_intent-Over :
    (t : Text) (h : UpdateHost) (req : UpdateTelemtRequest) (plan : UpdatePlan) (new : String)
    (c : Course)
    → Closed c.update
    → Over (with_intent t h req plan new c)
unfolding with_intent end_update
with_intent-Over t h req plan new c closed =
    let pause = update_pause plan h.pauses c.update in
    let paused : Closed pause.0 = update_pause-Closed plan h.pauses c.update closed in
    let c1 = record c { update = pause.0 } in
    let drain = update_drain h.drain_accepted h.drain_polls pause.0 in
    let drained : Closed drain.0 =
      update_drain-Closed h.drain_accepted h.drain_polls pause.0 paused in
    let c2 = record c1 { update = drain.0 } in
    if_both Over (not pause.1) (paused, refl)
      (if_both Over plan.skips_drain
        (swap_and_verify-Over t h req plan plan.pause new (note (skip "drain") c1)
          (finish_step-Closed "drain" step_skipped pause.0 refl paused))
        (if_both Over drain.1 (swap_and_verify-Over t h req plan true new c2 drained)
          (unwind-Over h plan true c2 drained)))

close_journal-Over :
    (sha : String → String) (status : Option (Option Bool)) (w : Write) (j : UpdateJournal)
    (c : Course)
    → Over c
    → Over (close_journal sha status w j c)
unfolding close_journal write_update_journal store
close_journal-Over sha status w j c over =
    if_both Over (update_settled sha status j c.update.outcome c.disk) over over

prepare_update :
    (sha : String → String) (h : PrepareHost) (had_web : Bool) (installed target : String)
    (c : Course)
    → (prepare_update_journal sha h had_web installed target c).0.update ≡ c.update
unfolding prepare_update_journal write_update_journal store
prepare_update sha h had_web installed target c =
    let P : Course × Option UpdateJournal → Type 0 = λ x. x.0.update ≡ c.update in
    let bin = save_verified_copy sha h.binary_copy c.disk.binary c.disk.good_binary in
    let conf = save_verified_copy sha h.config_copy c.disk.config c.disk.good_config in
    if_both P (not (check_update_journal c.disk.journal) || not h.mkdir) refl (
      option_when P (original_admission had_web h.web_status) (λ e. refl)
        (λ admission e.
          option_when P bin.1 (λ e. refl) (λ b e. option_when P conf.1 (λ e. refl) (λ s e. refl))))

update_preflight-Closed :
    (t : Text) (req : UpdateTelemtRequest) (info : Option String) (caps : Option Capabilities)
    (u : TelemtUpdate)
    → Closed u
    → Closed (update_preflight t req info caps u).0
unfolding update_preflight
update_preflight-Closed t req info caps u closed =
    let P : TelemtUpdate × Option UpdatePlan → Type 0 = λ x. Closed x.0 in
    let bad = began "preflight" step_failed u refl closed in
    if_both P
      ((t.trim_space req.version == "")
        || not (valid_sha256 t req.sha256)
        || (t.trim_space req.url == ""))
      bad
      (option_when P info (λ e. bad)
        (λ version e.
          let installed = installed_version t version in
          let u1 = record (begin_step "preflight" u) { from_version = installed } in
          let busy1 : Busy "preflight" u1 = begin_step-Busy "preflight" u closed in
          let bad1 = finish_step-Busy "preflight" step_failed u1 refl busy1 in
          if_both P (same_telemt_version t installed req.version) bad1 (
            option_when P caps (λ e. bad1)
              (λ c e.
                if_both P (not c.web_drain && req.require_drain) bad1
                  (finish_step-Busy "preflight" step_ok u1 refl busy1)))))

-- Whatever telemt, the disk and the system answer, a run whose record has no step running ends with
-- the record done, and again with no step running.
pub run_telemt_update-Over :
    (sha : String → String) (t : Text) (h : UpdateHost) (req : UpdateTelemtRequest) (c : Course)
    → Closed c.update
    → Over (run_telemt_update sha t h req c)
unfolding run_telemt_update end_update
run_telemt_update-Over sha t h req c closed =
    let pre = update_preflight t req h.system_info h.capabilities c.update in
    let closed1 : Closed pre.0 =
      update_preflight-Closed t req h.system_info h.capabilities c.update closed in
    option_when Over pre.1 (λ e. (closed1, refl))
      (λ plan planned.
        option_when Over h.staged (λ e. (began "download" step_failed pre.0 refl closed1, refl))
          (λ new is_new.
            let c3 = record c {
              update = finish_step "download" step_ok (begin_step "download" pre.0);
            } in
            let made =
              prepare_update_journal sha h.prepare plan.had_web plan.installed req.version c3 in
            let same : made.0.update ≡ c3.update =
              prepare_update sha h.prepare plan.had_web plan.installed req.version c3 in
            let closed3 : Closed made.0.update =
              rw same (began "download" step_ok pre.0 refl closed1) in
            option_when Over made.1 (λ e. (closed3, refl))
              (λ j is_j.
                let plan' = record plan { preserve_closed = j.had_web && not j.admission_open } in
                close_journal-Over sha h.settled_status h.settled_write j
                  (with_intent t h req plan' new made.0)
                  (with_intent-Over t h req plan' new made.0 closed3))))
