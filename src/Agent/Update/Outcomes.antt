-- ===== src/Agent/Update/Outcomes.antt =====
-- What each outcome of an update says about the node.
use tgproxy_panel.Prelude.{
  if_when, if_both, String, ◌≡◌, refl, ◌⊎◌, Bool, true, false, not, some, arith, ◌==◌, ◌||◌, nat_eq,
  string_eq,
}
use tgproxy_panel.Agent.Update.Files.{PutBack, Swapped, put_back_files, swap_copies}
use tgproxy_panel.Agent.Update.{
  UpdateOutcome, TelemtUpdate, admission_shut, begin_step, end_update, failed, finish_step,
  none_yet, refused, rollback_failed, rolled_back, skip, step_ok, updated,
}
use tgproxy_panel.Agent.Update.Disk.{Course, Disk, note, store}
use tgproxy_panel.Agent.Update.Preflight.{Text, UpdatePlan, UpdateTelemtRequest}
use tgproxy_panel.Agent.Update.Steps.{
  KeptFiles, ResumeHost, VerifyHost, admission_is, swap_telemt_binary, update_drain, update_pause,
  update_restart_and_verify, update_resume, verify_telemt_version,
}
use tgproxy_panel.Agent.Update.Run.{
  UpdateHost, put_back, rollback_telemt, swap_and_verify, unwind, with_intent, with_new_engine,
}

-- Admission is as the update found it, or open when it had been closed for the update.
abbrev pub Admission : ResumeHost → UpdatePlan → Bool → Type 0
Admission h plan paused =
    (plan.preserve_closed ≡ true → admission_is false h.web_status ≡ true)
    × (plan.preserve_closed ≡ false → paused ≡ true → admission_is true h.web_status ≡ true)

-- The new binary is in place and telemt reports its version.
abbrev pub Verified : Text → UpdateHost → UpdateTelemtRequest → String → Disk → Type 0
Verified t h req new d =
    (d.binary ≡ some new)
    × (h.verify.restart ≡ true)
    × (verify_telemt_version t h.verify.system_info req.version ≡ true)

-- What an outcome means, for an update that started from a binary and a config.
abbrev pub Reached :
    Text
    → UpdateHost
    → UpdateTelemtRequest
    → UpdatePlan
    → String
    → String
    → String
    → Disk
    → UpdateOutcome
    → Type 0
Reached t h req plan b s new d updated =
    Verified t h req new d × Admission h.resume plan (plan.pause || not plan.skips_drain)
Reached t h req plan b s new d admission_shut = Verified t h req new d
Reached t h req plan b s new d rolled_back =
    (d.binary ≡ some b)
    × (d.config ≡ some s)
    × (h.rollback.restart ≡ true)
    × (((plan.installed == "") ≡ true)
        ⊎ (verify_telemt_version t h.rollback.system_info plan.installed ≡ true))
    × Admission h.rollback.resume plan true
Reached t h req plan b s new d failed = d.config ≡ some s
Reached t h req plan b s new d rollback_failed = Unit
Reached t h req plan b s new d refused = ⊥
Reached t h req plan b s new d none_yet = ⊥

resume-Admission :
    (h : ResumeHost) (plan : UpdatePlan) (paused : Bool) (u : TelemtUpdate)
    → (update_resume h plan paused u).1 ≡ true
    → Admission h plan paused
unfolding update_resume
resume-Admission h plan paused u ok = ground arith

verify_ok :
    (t : Text) (h : VerifyHost) (plan : UpdatePlan) (want : String) (u : TelemtUpdate)
    → (update_restart_and_verify t h plan want u).1 ≡ true
    → (h.restart ≡ true) × (verify_telemt_version t h.system_info want ≡ true)
unfolding update_restart_and_verify
verify_ok t h plan want u ok = ground arith

module _ (t : Text) (h : UpdateHost) (req : UpdateTelemtRequest) (plan : UpdatePlan)
    (b s new : String) where
  abbrev pub Meant : Course → Type 0
  Meant c = Reached t h req plan b s new c.disk c.update.outcome

  rollback_reached :
      (kept : KeptFiles) (c : Course)
      → kept.has_binary ≡ true
      → kept.has_config ≡ true
      → c.disk.binary_prev ≡ some b
      → c.disk.config_prev ≡ some s
      → Meant (rollback_telemt t h.rollback plan kept c)
  unfolding rollback_telemt end_update
  rollback_reached kept c has_b has_s is_b is_s =
      let back = put_back t h.rollback plan kept (note (begin_step "rollback") c) in
      let files : PutBack t h.rollback plan b s back =
        put_back_files t h.rollback plan kept (note (begin_step "rollback") c) b s has_b has_s is_b
          is_s in
      let resumed =
        update_resume h.rollback.resume plan true (finish_step "rollback" step_ok back.0.update) in
      if_when Meant (not back.1) (λ lost. tt)
        (λ ok.
          let (p, q, r, v) = files (ground arith) in
          if_when (λ o. Reached t h req plan b s new back.0.disk o) resumed.1
            (λ up. (
              p,
              q,
              r,
              v,
              resume-Admission h.rollback.resume plan true
                  (finish_step "rollback" step_ok back.0.update) up,
            ))
            (λ down. tt))

  swap_reached :
      (paused : Bool) (c : Course)
      → ((plan.pause || not plan.skips_drain) ≡ true → paused ≡ true)
      → c.disk.binary ≡ some b
      → c.disk.config ≡ some s
      → Meant (swap_and_verify t h req plan paused new c)
  unfolding swap_and_verify unwind store end_update
  swap_reached paused c pauses is_b is_s =
      let swap = swap_telemt_binary h.swap new (note (begin_step "swap") c) in
      let swapped : Swapped b s new swap =
        swap_copies b s new h.swap (note (begin_step "swap") c) is_b is_s in
      let c2 = with_new_engine h.config_after (note (finish_step "swap" step_ok) swap.0) in
      let checked = update_restart_and_verify t h.verify plan req.version c2.update in
      let c3 = record c2 { update = checked.0 } in
      let resumed = update_resume h.resume plan paused checked.0 in
      if_when Meant (not swap.2) (λ lost. swapped.0)
        (λ ok.
          let (has_b, has_s, keeps_b, keeps_s, fresh) = swapped.1 (ground arith) in
          if_when Meant (not checked.1)
            (λ bad. rollback_reached swap.1 c3 has_b has_s keeps_b keeps_s)
            (λ good.
              let (up, version) = verify_ok t h.verify plan req.version c2.update (ground arith) in
              if_when Meant (not resumed.1) (λ shut. (fresh, up, version))
                (λ is_open.
                  let (closed, opened) =
                    resume-Admission h.resume plan paused checked.0 (ground arith) in
                  ((fresh, up, version), (closed, λ keep pause. opened keep (pauses pause))))))

  pub with_intent_reached :
      (c : Course)
      → c.disk.binary ≡ some b
      → c.disk.config ≡ some s
      → Meant (with_intent t h req plan new c)
  unfolding with_intent unwind end_update
  with_intent_reached c is_b is_s =
      let pause = update_pause plan h.pauses c.update in
      let c1 = record c { update = pause.0 } in
      let drain = update_drain h.drain_accepted h.drain_polls pause.0 in
      if_both Meant (not pause.1) is_s (
        if_when Meant plan.skips_drain
          (λ skips. swap_reached plan.pause (note (skip "drain") c1) (λ p. ground arith) is_b is_s)
          (λ drains.
            if_both Meant drain.1
              (swap_reached true (record c1 { update = drain.0 }) (λ p. refl) is_b is_s) is_s))
