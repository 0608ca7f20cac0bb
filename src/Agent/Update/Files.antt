-- ===== src/Agent/Update/Files.antt =====
-- The files of a swap and of the rollback that undoes it.
use tgproxy_panel.Prelude.{
  if_when, if_both, String, ◌≡◌, refl, ap, ◌⊎◌, Bool, true, false, not, Option, some, arith, ◌==◌,
  nat_eq, string_eq,
}
use tgproxy_panel.Agent.Update.Disk.{
  Backup, Course, Restore, backed_up, backup_file, backup_lost, backup_refused, restore_file, store,
}
use tgproxy_panel.Agent.Update.Steps.{
  KeptFiles, SwapHost, swap_telemt_binary, verify_telemt_version,
}
use tgproxy_panel.Agent.Update.Preflight.{Text, UpdatePlan}
use tgproxy_panel.Agent.Update.Run.{RollbackHost, put_back}

backup_some :
    (b : Backup) (text : String) (prev : Option String)
    → (backup_file b (some text) prev).2 ≡ true
    → backup_file b (some text) prev ≡ (some text, true, true)
unfolding backup_file
backup_some backup_refused text prev ok = ground arith
backup_some backup_lost text prev ok = ground arith
backup_some backed_up text prev ok = refl

restore_some :
    (r : Restore) (text : String) (file : Option String)
    → (restore_file r true (some text) file).2 ≡ true
    → (restore_file r true (some text) file).1 ≡ some text
unfolding restore_file
restore_some r text file ok = ground arith

-- What a swap leaves: always the old config, and when it succeeds the new binary, with copies of the
-- old files.
abbrev pub Swapped : String → String → String → Course × KeptFiles × Bool → Type 0
Swapped b s new (c, kept, ok) =
    (c.disk.config ≡ some s)
    × (ok ≡ true
        → (kept.has_binary ≡ true)
          × (kept.has_config ≡ true)
          × (c.disk.binary_prev ≡ some b)
          × (c.disk.config_prev ≡ some s)
          × (c.disk.binary ≡ some new))

pub swap_copies :
    (b s new : String) (h : SwapHost) (c : Course)
    → c.disk.binary ≡ some b
    → c.disk.config ≡ some s
    → Swapped b s new (swap_telemt_binary h new c)
unfolding swap_telemt_binary store
swap_copies b s new h c is_b is_s =
    let P = Swapped b s new in
    let bin = backup_file h.backup_binary c.disk.binary c.disk.binary_prev in
    let conf = backup_file h.backup_config c.disk.config c.disk.config_prev in
    let bin_copy : bin.2 ≡ true → bin ≡ (some b, true, true) =
      λ ok. rw is_b (backup_some h.backup_binary b c.disk.binary_prev (rw is_b at ok)) in
    let conf_copy : conf.2 ≡ true → conf ≡ (some s, true, true) =
      λ ok. rw is_s (backup_some h.backup_config s c.disk.config_prev (rw is_s at ok)) in
    let done : (not bin.2 ≡ false)
        → (not conf.2 ≡ false)
        → (bin.1 ≡ true)
          × (conf.1 ≡ true)
          × (bin.0 ≡ some b)
          × (conf.0 ≡ some s)
          × (some new ≡ some new) =
      λ kept kept'.
        let e : bin ≡ (some b, true, true) = bin_copy (ground arith) in
        let e' : conf ≡ (some s, true, true) = conf_copy (ground arith) in
        (ap (λ x. x.1) e, ap (λ x. x.1) e', ap (λ x. x.0) e, ap (λ x. x.0) e', refl) in
    if_when P (not bin.2) (λ lost. (is_s, λ ok. ground arith))
      (λ kept.
        if_when P (not conf.2) (λ lost. (is_s, λ ok. ground arith))
          (λ kept'.
            if_both P (not h.rename) (is_s, λ ok. ground arith)
              (if_both P h.chmod (is_s, λ ok. done kept kept') (is_s, λ ok. ground arith))))

-- A rollback that succeeds has put both files back, and found the old version running.
abbrev pub PutBack : Text → RollbackHost → UpdatePlan → String → String → Course × Bool → Type 0
PutBack t h plan b s (c, ok) =
    ok ≡ true
    → (c.disk.binary ≡ some b)
      × (c.disk.config ≡ some s)
      × (h.restart ≡ true)
      × (((plan.installed == "") ≡ true)
          ⊎ (verify_telemt_version t h.system_info plan.installed ≡ true))

pub put_back_files :
    (t : Text) (h : RollbackHost) (plan : UpdatePlan) (kept : KeptFiles) (c : Course) (b s : String)
    → kept.has_binary ≡ true
    → kept.has_config ≡ true
    → c.disk.binary_prev ≡ some b
    → c.disk.config_prev ≡ some s
    → PutBack t h plan b s (put_back t h plan kept c)
unfolding put_back store restore_file
put_back_files t h plan kept c b s has_b has_s is_b is_s ok = ground arith
