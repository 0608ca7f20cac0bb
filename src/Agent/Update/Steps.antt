-- ===== src/Agent/Update/Steps.antt =====
-- The steps of internal/agent/telemtupdate.go between the journal and the outcome: pause, drain, swap,
-- restart and verify, resume. What telemt and the system answer is an argument of each.
use tgproxy_panel.Prelude.{
  ℕ, String, Bool, true, false, not, ◌&&◌, ◌||◌, Option, none, some, List, [], ◌∷◌, if◌then◌else◌,
  ◌==◌, ◌!=◌, nat_eq, string_eq,
}
use tgproxy_panel.Agent.Update.{
  TelemtUpdate, begin_step, finish_step, progress, skip, step_failed, step_ok,
}
use tgproxy_panel.Agent.Update.Disk.{Backup, Course, Restore, backup_file, restore_file, store}
use tgproxy_panel.Agent.Update.Preflight.{Text, UpdatePlan, same_version}

unfoldable pub update_pause : UpdatePlan → Bool → TelemtUpdate → TelemtUpdate × Bool
update_pause plan pauses u =
    if not plan.pause
    then (skip "pause" u, true)
    else if pauses
    then (finish_step "pause" step_ok (begin_step "pause" u), true)
    else (finish_step "pause" step_failed (begin_step "pause" u), false)

pub record Drain : Type 0 where
  pub state : String
  pub sessions : ℕ
  pub streams : ℕ
  pub websockets : ℕ

-- The operator lifecycle in a status of WEB; `drain` is none when there is none.
pub record Lifecycle : Type 0 where
  pub state : String
  pub drain : Option Drain

-- The loop of updateDrain on the statuses that it gets before its deadline: none for an error, some
-- none without a lifecycle.
unfoldable pub drain_loop : List (Option (Option Lifecycle)) → TelemtUpdate → TelemtUpdate × Bool
drain_loop [] u = (finish_step "drain" step_failed u, false)
drain_loop (none ∷ polls) u = (finish_step "drain" step_failed u, false)
drain_loop (some none ∷ polls) u = (finish_step "drain" step_failed u, false)
drain_loop (some (some lc) ∷ polls) u = elim lc.drain [
  | none ↦ (finish_step "drain" step_failed u, false)
  | some d ↦
      let u' = progress "drain" d.sessions d.streams u in
      let later = drain_loop polls u' in
      if d.state == "cancelled"
      then (finish_step "drain" step_failed u', false)
      else if (lc.state == "drained") || (d.state == "completed")
      then if (d.sessions != 0) || (d.streams != 0) || (d.websockets != 0)
        then (finish_step "drain" step_failed u', false)
        else (finish_step "drain" step_ok (record u' { drained = true }), true)
      else later
]

unfoldable pub update_drain :
    Bool → List (Option (Option Lifecycle)) → TelemtUpdate → TelemtUpdate × Bool
update_drain accepted polls u =
    if accepted
    then drain_loop polls (begin_step "drain" u)
    else (finish_step "drain" step_failed (begin_step "drain" u), false)

-- What swapTelemtBinary meets.
pub record SwapHost : Type 0 where
  pub backup_binary : Backup
  pub backup_config : Backup
  pub rename : Bool
  pub chmod : Bool
  pub restore : Restore

-- keptFiles: whether each copy has a name.
pub record KeptFiles : Type 0 where
  pub has_binary : Bool
  pub has_config : Bool

-- swapTelemtBinary with the new binary, and whether it returned no error.
unfoldable pub swap_telemt_binary : SwapHost → String → Course → Course × KeptFiles × Bool
swap_telemt_binary h new c =
    let (prev, has_binary, kept) = backup_file h.backup_binary c.disk.binary c.disk.binary_prev in
    let c1 = store (record c.disk { binary_prev = prev }) c in
    if not kept
    then (c1, record { has_binary = false; has_config = false }, false)
    else let (config_prev, has_config, kept_config) =
        backup_file h.backup_config c1.disk.config c1.disk.config_prev in
      let c2 = store (record c1.disk { config_prev = config_prev }) c1 in
      let files : KeptFiles = record { has_binary = has_binary; has_config = has_config } in
      if not kept_config
      then (c2, record { has_binary = has_binary; has_config = false }, false)
      else if not h.rename
      then (c2, files, false)
      else let c3 = store (record c2.disk { binary = some new }) c2 in
        if h.chmod
        then (c3, files, true)
        else let (prev', binary, _) =
            restore_file h.restore has_binary c3.disk.binary_prev c3.disk.binary in
          (store (record c3.disk { binary = binary; binary_prev = prev' }) c3, files, false)

-- verifyTelemtVersion, with what SystemInfo answers.
unfoldable pub verify_telemt_version : Text → Option String → String → Bool
verify_telemt_version t none want = false
verify_telemt_version t (some version) want = same_version t version want

-- What updateRestartAndVerify meets.
pub record VerifyHost : Type 0 where
  pub restart : Bool
  pub system_info : Option String
  pub decoy : Bool
  pub web_status : Bool

unfoldable pub update_restart_and_verify :
    Text → VerifyHost → UpdatePlan → String → TelemtUpdate → TelemtUpdate × Bool
update_restart_and_verify t h plan want u =
    let u1 = begin_step "restart" u in
    if not h.restart
    then (finish_step "restart" step_failed u1, false)
    else let u2 = begin_step "verify" (finish_step "restart" step_ok u1) in
      if not (verify_telemt_version t h.system_info want)
      then (finish_step "verify" step_failed u2, false)
      else if plan.had_web && not (h.decoy && h.web_status)
      then (finish_step "verify" step_failed u2, false)
      else (finish_step "verify" step_ok u2, true)

-- What updateResume meets; the status is as in PrepareHost. The answer of WebResume is only in the
-- error's text.
pub record ResumeHost : Type 0 where
  pub pause : Bool
  pub web_status : Option (Option Bool)

-- Whether a status says that admission is open, or closed.
abbrev pub admission_is : Bool → Option (Option Bool) → Bool
admission_is is_open (some (some b)) = if is_open then b else not b
admission_is is_open _ = false

unfoldable pub update_resume : ResumeHost → UpdatePlan → Bool → TelemtUpdate → TelemtUpdate × Bool
update_resume h plan paused u =
    if plan.preserve_closed
    then if h.pause && admission_is false h.web_status then (skip "resume" u, true) else (u, false)
    else if not paused
    then (skip "resume" u, true)
    else if admission_is true h.web_status
    then (finish_step "resume" step_ok (begin_step "resume" u), true)
    else (finish_step "resume" step_failed (begin_step "resume" u), false)
