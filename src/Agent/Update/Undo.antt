-- ===== src/Agent/Update/Undo.antt =====
-- A recovery keeps every disk safe, and verifies the copies that it puts back.
use mathlib.Core.Option.{some-injective}
use mathlib.Core.Path.{subst}
use tgproxy_panel.Prelude.{
  option_when, if_when, if_both, String, ◌≡◌, refl, sym, ap, ◌∙◌, inl, inr, Bool, true, false, not,
  ◌&&◌, ◌||◌, Option, none, some, arith, eq_iff,
}
use tgproxy_panel.Agent.Files.{
  JsonFile, Write, corrupt, holds, missing, unreadable, write_atomic, write_atomic_cases,
}
use tgproxy_panel.Agent.Update.{rolled_back}
use tgproxy_panel.Agent.Update.Disk.{
  Course, Disk, UpdateJournal, check_update_journal, store, verified_file, write_update_journal,
}
use tgproxy_panel.Agent.Update.Preflight.{Text}
use tgproxy_panel.Agent.Update.Crash.{Held, store-Held}
use tgproxy_panel.Agent.Update.Prepare.{Backed, Safe}
use tgproxy_panel.Agent.Update.Restore.{RestoreHost, has_outcome, put_copies, recover_journal}
use tgproxy_panel.Agent.Update.Steps.{admission_is, verify_telemt_version}

written_text :
    (w : Write) (text : String) (old : Option String)
    → (write_atomic w (some text) old).1 ≡ true
    → (write_atomic w (some text) old).0 ≡ some text
written_text w text old ok = elim (write_atomic_cases w (some text) old) [
  | inl early ↦ absurd (ground arith)
  | inr (inl late) ↦ ap (λ x. x.0) late
  | inr (inr written) ↦ ap (λ x. x.0) written
]

unfoldable pub journal_of : JsonFile UpdateJournal → UpdateJournal → UpdateJournal
journal_of (holds j) other = j
journal_of _ other = other

-- A safe disk whose journal is active has the copies that it names.
pub active-Backed :
    (sha : String → String) (b s : String) (staged : Option String) (j : UpdateJournal) (d : Disk)
    → d.journal ≡ holds j
    → j.active ≡ true
    → Safe sha b s staged d
    → Backed sha b s j d
unfolding check_update_journal journal_of
active-Backed sha b s staged j d on_disk active (inl (k, on_disk', backed)) =
    let same : k ≡ j = ap (λ x. journal_of x j) (sym on_disk' ∙ on_disk) in
    subst (λ x. Backed sha b s x d) same backed
active-Backed sha b s staged j d on_disk active (inr (closed, _)) =
    let inactive : not j.active ≡ true = rw on_disk at closed in ground arith

put_copies-Safe :
    (sha : String → String) (b s : String) (staged : Option String) (t : Text) (h : RestoreHost)
    (j : UpdateJournal) (c : Course)
    → c.disk.journal ≡ holds j
    → Backed sha b s j c.disk
    → Held (Safe sha b s staged) c
    → Held (Safe sha b s staged) (put_copies t h j b s c).0
unfolding put_copies write_update_journal store check_update_journal
put_copies-Safe sha b s staged t h j c on_disk backed held =
    let Q = Safe sha b s staged in
    let P : Course × Bool → Type 0 = λ x. Held Q x.0 in
    let undoable : (d : Disk)
        → d.journal ≡ c.disk.journal
        → d.good_binary ≡ c.disk.good_binary
        → d.good_config ≡ c.disk.good_config
        → Q d =
      λ d e f g. inl (j, e ∙ on_disk, rw (f, g) backed) in
    let bin = write_atomic h.binary_write (some b) c.disk.binary in
    let d1 = record c.disk { binary = bin.0 } in
    let c1 = store d1 c in
    let held1 : Held Q c1 = store-Held Q d1 c (undoable d1 refl refl refl) held in
    let conf = write_atomic h.config_write (some s) c.disk.config in
    let d2 = record d1 { config = conf.0 } in
    let c2 = store d2 c1 in
    let held2 : Held Q c2 = store-Held Q d2 c1 (undoable d2 refl refl refl) held1 in
    let closed = record j { active = false; outcome = rolled_back; has_error = true } in
    let file = write_atomic h.journal_write (holds closed) c.disk.journal in
    if_when P (not bin.1) (λ lost. held1)
      (λ wrote.
        if_when P
          (not conf.1
            || not h.restart
            || not (verify_telemt_version t h.system_info j.version)
            || (j.had_web && not (h.sets_admission && admission_is j.admission_open h.web_status)))
          (λ lost. held2)
          (λ wrote'.
            let done_b : d2.binary ≡ some b =
              written_text h.binary_write b c.disk.binary (ground arith) in
            let done_s : d2.config ≡ some s =
              written_text h.config_write s c.disk.config (ground arith) in
            let d3 = record d2 { journal = file.0 } in
            let safe3 : Q d3 =
              elim (write_atomic_cases h.journal_write (holds closed) c.disk.journal) [
                | inl early ↦ rw early (undoable d2 refl refl refl)
                | inr (inl late) ↦ rw late (inr (refl, inl (done_b, done_s)))
                | inr (inr written) ↦ rw written (inr (refl, inl (done_b, done_s)))
              ] in
            let held3 : Held Q (store d3 c2) = store-Held Q d3 c2 safe3 held2 in
            if_both P file.1 held3 held3))

pub verified_text :
    (sha : String → String) (text sum found : String) (file : Option String)
    → file ≡ some text
    → verified_file sha file sum ≡ some found
    → found ≡ text
unfolding verified_file
verified_text sha text sum found none e f = ground arith
verified_text sha text sum found (some other) e f =
    let g : other ≡ found = some-injective other found (ground arith) in
    sym g ∙ some-injective other text e

pub verified_same :
    (sha : String → String) (text sum : String) (file : Option String)
    → file ≡ some text
    → sum ≡ sha text
    → verified_file sha file sum ≡ some text
unfolding verified_file
verified_same sha text sum file is_text same =
    rw (is_text, same, (eq_iff (sha text) (sha text)).1 refl) refl

pub recover_journal-Safe :
    (sha : String → String) (b s : String) (staged : Option String) (t : Text) (h : RestoreHost)
    (c : Course) (file : JsonFile UpdateJournal)
    → c.disk.journal ≡ file
    → Held (Safe sha b s staged) c
    → Held (Safe sha b s staged) (recover_journal sha t h c file).0
unfolding recover_journal check_update_journal
recover_journal-Safe sha b s staged t h c missing e held = held
recover_journal-Safe sha b s staged t h c unreadable e held = held
recover_journal-Safe sha b s staged t h c corrupt e held = held
recover_journal-Safe sha b s staged t h c (holds j) e held =
    let P : Course × Bool → Type 0 = λ x. Held (Safe sha b s staged) x.0 in
    if_when P (not j.active)
      (λ closed. if_both (Held (Safe sha b s staged)) (has_outcome j.outcome) held held)
      (λ open_still.
        let backed = active-Backed sha b s staged j c.disk e (ground arith) held.1 in
        let (_, _, _, good_b, good_s, _, _) = backed in
        if_both P (not h.maintenance_free || not (j.names_good_binary && j.names_good_config)) held
          (option_when P (verified_file sha c.disk.good_binary j.binary_sha) (λ lost. held)
            (λ x is_x.
              option_when P (verified_file sha c.disk.good_config j.config_sha) (λ lost. held)
                (λ y is_y.
                  rw
                    (
                      verified_text sha b j.binary_sha x c.disk.good_binary good_b is_x,
                      verified_text sha s j.config_sha y c.disk.good_config good_s is_y,
                    )
                    (put_copies-Safe sha b s staged t h j c e backed held)))))
