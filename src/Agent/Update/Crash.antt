-- ===== src/Agent/Update/Crash.antt =====
-- What a crash of the agent finds on the disk, at any moment of an update.
use tgproxy_panel.Prelude.{
  if_both, All-append_one, String, ◌≡◌, Bool, true, not, ◌&&◌, none, some, if◌then◌else◌, All,
}
use tgproxy_panel.Agent.Update.Disk.{Course, Disk, backup_file, note, restore_file, store}
use tgproxy_panel.Agent.Update.Steps.{
  KeptFiles, SwapHost, swap_telemt_binary, update_drain, update_pause, update_restart_and_verify,
  update_resume,
}
use tgproxy_panel.Agent.Update.{begin_step, finish_step, skip, step_ok}
use tgproxy_panel.Agent.Update.Preflight.{Text, UpdatePlan, UpdateTelemtRequest}
use tgproxy_panel.Agent.Update.Run.{
  RollbackHost, UpdateHost, put_back, rollback_telemt, swap_and_verify, unwind, with_intent,
  with_new_engine,
}

-- Every disk of a course has a property.
abbrev pub Held {ℓ} : (Disk → Type ℓ) → Course → Type ℓ
Held P c = All P c.past × P c.disk

pub store-Held {ℓ} :
    (P : Disk → Type ℓ) (d : Disk) (c : Course) → P d → Held P c → Held P (store d c)
unfolding store
store-Held P d c p (past, now) = (All-append_one P c.past c.disk past now, p)

-- The journal and the known-good copies are those of another disk.
abbrev pub SameIntent : Disk → Disk → Type 0
SameIntent d0 d =
    (d.journal ≡ d0.journal) × (d.good_binary ≡ d0.good_binary) × (d.good_config ≡ d0.good_config)

-- Every disk before has a property that follows from the intent, and the last one has the intent.
module _ (Q : Disk → Type 0) (d0 : Disk) (follows : (d : Disk) → SameIntent d0 d → Q d) where
  abbrev pub Kept : Course → Type 0
  Kept c = All Q c.past × SameIntent d0 c.disk

  store-Kept : (d : Disk) (c : Course) → SameIntent d0 d → Kept c → Kept (store d c)
  unfolding store
  store-Kept d c p (past, now) = (All-append_one Q c.past c.disk past (follows c.disk now), p)

  pub swap_telemt_binary-Kept :
      (h : SwapHost) (new : String) (c : Course) → Kept c → Kept (swap_telemt_binary h new c).0
  unfolding swap_telemt_binary store
  swap_telemt_binary-Kept h new c held =
      let P : Course × KeptFiles × Bool → Type 0 = λ x. Kept x.0 in
      let (prev, has_binary, kept) = backup_file h.backup_binary c.disk.binary c.disk.binary_prev in
      let d1 = record c.disk { binary_prev = prev } in
      let c1 = store d1 c in
      let held1 : Kept c1 = store-Kept d1 c held.1 held in
      let (config_prev, _, kept_config) =
        backup_file h.backup_config c1.disk.config c1.disk.config_prev in
      let d2 = record d1 { config_prev = config_prev } in
      let c2 = store d2 c1 in
      let held2 : Kept c2 = store-Kept d2 c1 held.1 held1 in
      let d3 = record d2 { binary = some new } in
      let c3 = store d3 c2 in
      let held3 : Kept c3 = store-Kept d3 c2 held.1 held2 in
      let (prev', binary, _) = restore_file h.restore has_binary d3.binary_prev d3.binary in
      let d4 = record d3 { binary = binary; binary_prev = prev' } in
      let held4 : Kept (store d4 c3) = store-Kept d4 c3 held.1 held3 in
      if_both P (not kept) held1 (
        if_both P (not kept_config) held2
          (if_both P (not h.rename) held2 (if_both P h.chmod held3 held4)))

  put_back-Kept :
      (t : Text) (h : RollbackHost) (plan : UpdatePlan) (kept : KeptFiles) (c : Course)
      → Kept c
      → Kept (put_back t h plan kept c).0
  unfolding put_back store
  put_back-Kept t h plan kept c held =
      let (prev, binary, back) =
        restore_file h.restore_binary kept.has_binary c.disk.binary_prev c.disk.binary in
      let d1 = record c.disk { binary = binary; binary_prev = prev } in
      let c1 = store d1 c in
      let held1 : Kept c1 = store-Kept d1 c held.1 held in
      let (config_prev, config, config_back) =
        restore_file h.restore_config true c1.disk.config_prev c1.disk.config in
      let d2 = record d1 { config = config; config_prev = config_prev } in
      let held2 : Kept (store d2 c1) = store-Kept d2 c1 held.1 held1 in
      let both : Kept (if kept.has_config then store d2 c1 else c1) =
        if_both (Kept) kept.has_config held2 held1 in
      let P : Course × Bool → Type 0 = λ x. Kept x.0 in
      if_both P (not back) held1 (if_both P (kept.has_config && not config_back) both both)

  rollback_telemt-Kept :
      (t : Text) (h : RollbackHost) (plan : UpdatePlan) (kept : KeptFiles) (c : Course)
      → Kept c
      → Kept (rollback_telemt t h plan kept c)
  unfolding rollback_telemt
  rollback_telemt-Kept t h plan kept c held =
      let back = put_back t h plan kept (note (begin_step "rollback") c) in
      let held' : Kept back.0 = put_back-Kept t h plan kept (note (begin_step "rollback") c) held in
      if_both (Kept) (not back.1) held' held'

  swap_and_verify-Kept :
      (t : Text) (h : UpdateHost) (req : UpdateTelemtRequest) (plan : UpdatePlan) (paused : Bool)
      (new : String) (c : Course)
      → Kept c
      → Kept (swap_and_verify t h req plan paused new c)
  unfolding swap_and_verify unwind store
  swap_and_verify-Kept t h req plan paused new c held =
      let P = Kept in
      let swap = swap_telemt_binary h.swap new (note (begin_step "swap") c) in
      let held1 : Kept swap.0 =
        swap_telemt_binary-Kept h.swap new (note (begin_step "swap") c) held in
      let c2 = with_new_engine h.config_after (note (finish_step "swap" step_ok) swap.0) in
      let held2 : Kept c2 =
        store-Kept c2.disk (note (finish_step "swap" step_ok) swap.0) held1.1 held1 in
      let checked = update_restart_and_verify t h.verify plan req.version c2.update in
      let c3 = record c2 { update = checked.0 } in
      let back : Kept (rollback_telemt t h.rollback plan swap.1 c3) =
        rollback_telemt-Kept t h.rollback plan swap.1 c3 held2 in
      let resumed = update_resume h.resume plan paused checked.0 in
      let clean = record c3.disk {
        binary_prev = if swap.1.has_binary then none else c3.disk.binary_prev;
        config_prev = if swap.1.has_config then none else c3.disk.config_prev;
      } in
      let held4 : Kept (store clean c3) = store-Kept clean c3 held2.1 held2 in
      if_both P (not swap.2) held1
        (if_both P (not checked.1) back (if_both P (not resumed.1) held2 held4))

  pub with_intent-Kept :
      (t : Text) (h : UpdateHost) (req : UpdateTelemtRequest) (plan : UpdatePlan) (new : String)
      (c : Course)
      → Kept c
      → Kept (with_intent t h req plan new c)
  unfolding with_intent unwind
  with_intent-Kept t h req plan new c held =
      let P = Kept in
      let pause = update_pause plan h.pauses c.update in
      let c1 = record c { update = pause.0 } in
      let drain = update_drain h.drain_accepted h.drain_polls pause.0 in
      let blunt : Kept (swap_and_verify t h req plan plan.pause new (note (skip "drain") c1)) =
        swap_and_verify-Kept t h req plan plan.pause new (note (skip "drain") c1) held in
      let gentle : Kept (swap_and_verify t h req plan true new (record c1 { update = drain.0 })) =
        swap_and_verify-Kept t h req plan true new (record c1 { update = drain.0 }) held in
      if_both P (not pause.1) held
        (if_both P plan.skips_drain blunt (if_both P drain.1 gentle held))
