-- ===== src/Agent/Update/Crashes.antt =====
-- Every disk that a crash can leave, and what a restart makes of it.
use mathlib.Core.Option.{some-injective}
use mathlib.Core.Path.{subst}
use tgproxy_panel.Prelude.{
  option_when, if_when, if_both, Memᴰ, All-mem, All-append_one, String, ◌≡◌, refl, sym, ap, ◌⊎◌,
  inl, inr, Bool, true, not, ◌&&◌, ◌||◌, Option, none, some, List, [], ◌∷◌, ◌++◌, arith,
}
use tgproxy_panel.Agent.Files.{JsonFile, corrupt, done, holds, missing, unreadable, write_atomic}
use tgproxy_panel.Agent.Update.{TelemtUpdate, new_telemt_update}
use tgproxy_panel.Agent.Update.Disk.{
  Course, Disk, UpdateJournal, check_update_journal, store, verified_file, write_update_journal,
}
use tgproxy_panel.Agent.Update.Preflight.{Text, UpdateTelemtRequest}
use tgproxy_panel.Agent.Update.Steps.{admission_is, verify_telemt_version}
use tgproxy_panel.Agent.Update.Run.{UpdateHost, run_telemt_update, start_telemt_update}
use tgproxy_panel.Agent.Update.Crash.{Held}
use tgproxy_panel.Agent.Update.Prepare.{Backed, Safe}
use tgproxy_panel.Agent.Update.Restore.{
  RestoreHost, has_outcome, put_copies, recover_journal, recover_update,
}
use tgproxy_panel.Agent.Update.Undo.{recover_journal-Safe, verified_same, verified_text}
use tgproxy_panel.Agent.Update.Safety.{Concluded, run_telemt_update-Held}

-- The update in memory is of no account to a process that starts.
abbrev pub at_start : Disk → Course
at_start d = record { disk = d; past = []; update = new_telemt_update "" "" }

abbrev pub disks : Course → List Disk
disks c = c.past ++ c.disk ∷ []

-- The disks that an agent can be found with: a crash at any moment of an update that was started with
-- an old binary and config, and at any moment of each recovery after it.
module _ (sha : String → String) (t : Text) (b s : String) (staged : Option String) where
  pub data Found : Disk → Type 0 where
    crashes :
        {d : Disk} {c : Course} (h : UpdateHost) (req : UpdateTelemtRequest)
        (last : Option TelemtUpdate) (start : Disk)
        → h.staged ≡ staged
        → start.binary ≡ some b
        → start.config ≡ some s
        → start_telemt_update sha t true true h req last start ≡ some c
        → Memᴰ d (disks c)
        → Found d
    retries :
        {d d' : Disk} (h : RestoreHost)
        → Found d
        → Memᴰ d' (disks (recover_update sha t h (at_start d)).0)
        → Found d'

-- The answers with which a recovery can finish.
abbrev pub Cooperates : Text → RestoreHost → Disk → Type 0
Cooperates t h d =
    (h.has_engine ≡ true)
    × (h.maintenance_free ≡ true)
    × (h.binary_write ≡ done)
    × (h.config_write ≡ done)
    × (h.restart ≡ true)
    × (h.journal_write ≡ done)
    × ((j : UpdateJournal)
        → d.journal ≡ holds j
        → (verify_telemt_version t h.system_info j.version ≡ true)
          × (j.had_web ≡ true
              → (h.sets_admission ≡ true) × (admission_is j.admission_open h.web_status ≡ true)))

started :
    (sha : String → String) (t : Text) (h : UpdateHost) (req : UpdateTelemtRequest)
    (last : Option TelemtUpdate) (d : Disk) (c : Course)
    → start_telemt_update sha t true true h req last d ≡ some c
    → (check_update_journal d.journal ≡ true)
      × (c
          ≡ run_telemt_update sha t h req (record {
            disk = d;
            past = [];
            update = new_telemt_update "" (t.trim_space req.version);
          }))
unfolding start_telemt_update
started sha t h req none d c e =
    let ran =
      run_telemt_update sha t h req (record {
        disk = d;
        past = [];
        update = new_telemt_update "" (t.trim_space req.version);
      }) in
    let same : some ran ≡ some c = ground arith in (ground arith, sym (some-injective ran c same))
started sha t h req (some u) d c e =
    let ran =
      run_telemt_update sha t h req (record {
        disk = d;
        past = [];
        update = new_telemt_update "" (t.trim_space req.version);
      }) in
    let same : some ran ≡ some c = ground arith in (ground arith, sym (some-injective ran c same))

-- An update that was started with an old binary and config either was refused, with both in place, or
-- ends with one of the other outcomes, which tells the truth: "updated" is the new binary, running with
-- the version that was asked for, and admission read as closed if it is to stay closed, and read as
-- open if not and the update has paused it or drained it; "updated_admission_closed" is the same but
-- for admission; "rolled_back" is the old binary and config, restarted with the old version if one is
-- known, and admission read as closed if it is to stay closed and as open if not; "failed" has the old
-- config. The
-- checksum has to tell the old binary from every other.
pub start_telemt_update-Concluded :
    (sha : String → String) (t : Text) (h : UpdateHost) (req : UpdateTelemtRequest)
    (last : Option TelemtUpdate) (d : Disk) (c : Course) (b s : String)
    → ((text : String) → sha text ≡ sha b → text ≡ b)
    → d.binary ≡ some b
    → d.config ≡ some s
    → start_telemt_update sha t true true h req last d ≡ some c
    → Concluded t h req b s c
start_telemt_update-Concluded sha t h req last d c b s strong is_b is_s begins =
    let (closed, same) = started sha t h req last d c begins in
    let begin_at : Course = record {
      disk = d;
      past = [];
      update = new_telemt_update "" (t.trim_space req.version);
    } in
    subst (Concluded t h req b s) (sym same)
      (run_telemt_update-Held sha b s t h req begin_at strong is_b is_s closed
        (tt, inr (closed, inl (is_b, is_s)))).1

-- Whatever moment of an update or of a recovery the agent dies at, the disk has an active journal with
-- the known-good copies of the old binary and config and their checksums, or no journal is active and
-- the files are the old ones or the binary is the new one. The checksum has to tell the old binary from
-- every other.
pub Found-Safe :
    (sha : String → String) (t : Text) (b s : String) (staged : Option String) {d : Disk}
    → ((text : String) → sha text ≡ sha b → text ≡ b)
    → Found sha t b s staged d
    → Safe sha b s staged d
unfolding recover_update
Found-Safe sha t b s staged {d} strong
      (crashes {c} h req last start is_staged is_b is_s begins found) =
    let (closed, same) = started sha t h req last start c begins in
    let P = Safe sha b s h.staged in
    let begin_at : Course = record {
      disk = start;
      past = [];
      update = new_telemt_update "" (t.trim_space req.version);
    } in
    let (held, _) =
      run_telemt_update-Held sha b s t h req begin_at strong is_b is_s closed
        (tt, inr (closed, inl (is_b, is_s))) in
    subst (λ x. Safe sha b s x d) is_staged
      (All-mem P _ (All-append_one P _ _ held.0 held.1) (subst (λ x. Memᴰ d (disks x)) same found))
Found-Safe sha t b s staged strong (retries {d} h before found) =
    let P = Safe sha b s staged in
    let held : Held P (recover_update sha t h (at_start d)).0 =
      if_both (λ (x : Course × Bool). Held P x.0) (not h.has_engine)
        (tt, Found-Safe sha t b s staged strong before)
        (recover_journal-Safe sha b s staged t h (at_start d) d.journal refl
          (tt, Found-Safe sha t b s staged strong before)) in
    All-mem P _ (All-append_one P _ _ held.0 held.1) found

put_copies_done :
    (t : Text) (h : RestoreHost) (j : UpdateJournal) (b s : String) (c : Course)
    → Cooperates t h c.disk
    → c.disk.journal ≡ holds j
    → ((put_copies t h j b s c).1 ≡ true)
      × ((put_copies t h j b s c).0.disk.binary ≡ some b)
      × ((put_copies t h j b s c).0.disk.config ≡ some s)
      × (check_update_journal (put_copies t h j b s c).0.disk.journal ≡ true)
unfolding put_copies write_update_journal store check_update_journal write_atomic
put_copies_done t h j b s c (_, _, wb, ws, up, wj, answers) e = ground (arith, answers j e)

-- A recovery that returns nil, on a disk with no active journal.
abbrev Settles : Disk → Course × Bool → Type 0
Settles d (c, ok) = (ok ≡ true) × (c.disk ≡ d)

recover_closed :
    (sha : String → String) (t : Text) (h : RestoreHost) (c : Course)
    (file : JsonFile UpdateJournal)
    → check_update_journal file ≡ true
    → Settles c.disk (recover_journal sha t h c file)
unfolding recover_journal check_update_journal
recover_closed sha t h c missing closed = (refl, refl)
recover_closed sha t h c unreadable closed = ground arith
recover_closed sha t h c corrupt closed = ground arith
recover_closed sha t h c (holds j) closed =
    if_when (Settles c.disk) (not j.active)
      (λ e. (refl, if_both (λ (x : Course). x.disk ≡ c.disk) (has_outcome j.outcome) refl refl))
      (λ e. ground arith)

abbrev Restored : String → String → Course × Bool → Type 0
Restored b s (c, ok) =
    (ok ≡ true)
    × (c.disk.binary ≡ some b)
    × (c.disk.config ≡ some s)
    × (check_update_journal c.disk.journal ≡ true)

recover-Backed :
    (sha : String → String) (b s : String) (t : Text) (h : RestoreHost) (c : Course)
    (j : UpdateJournal)
    → Cooperates t h c.disk
    → c.disk.journal ≡ holds j
    → Backed sha b s j c.disk
    → Restored b s (recover_journal sha t h c (holds j))
unfolding recover_journal
recover-Backed sha b s t h c j fits on_disk
      (active, names_b, names_s, good_b, good_s, sum_b, sum_s) =
    let P = Restored b s in
    let is_good = verified_same sha b j.binary_sha c.disk.good_binary good_b sum_b in
    let is_good' = verified_same sha s j.config_sha c.disk.good_config good_s sum_s in
    let (_, free, _, _, _, _, _) = fits in
    if_when P (not j.active) (λ e. ground arith)
      (λ e.
        if_when P (not h.maintenance_free || not (j.names_good_binary && j.names_good_config))
          (λ f. ground arith)
          (λ f.
            option_when P (verified_file sha c.disk.good_binary j.binary_sha) (λ lost. ground arith)
              (λ x is_x.
                option_when P (verified_file sha c.disk.good_config j.config_sha)
                  (λ lost. ground arith)
                  (λ y is_y.
                    rw
                      (
                        verified_text sha b j.binary_sha x c.disk.good_binary good_b is_x,
                        verified_text sha s j.config_sha y c.disk.good_config good_s is_y,
                      )
                      (put_copies_done t h j b s c fits on_disk)))))

recover_reads :
    (sha : String → String) (t : Text) (h : RestoreHost) (c : Course)
    (file : JsonFile UpdateJournal)
    → h.has_engine ≡ true
    → c.disk.journal ≡ file
    → recover_update sha t h c ≡ recover_journal sha t h c file
unfolding recover_update
recover_reads sha t h c file has_engine on_disk =
    if_when (λ x. x ≡ recover_journal sha t h c file) (not h.has_engine) (λ e. ground arith)
      (λ e. ap (recover_journal sha t h c) on_disk)

-- However often the agent crashed in an update and in the recoveries after it, a recovery whose calls
-- succeed returns nil and closes the journal, with the old binary and config in place, or the new
-- binary of the update. The checksum has to tell the old binary from every other.
pub recover_restores :
    {d : Disk} (sha : String → String) (t : Text) (b s : String) (staged : Option String)
    (h : RestoreHost)
    → ((text : String) → sha text ≡ sha b → text ≡ b)
    → Found sha t b s staged d
    → Cooperates t h d
    → let (c, ok) = recover_update sha t h (at_start d) in
      (ok ≡ true)
      × (check_update_journal c.disk.journal ≡ true)
      × (((c.disk.binary ≡ some b) × (c.disk.config ≡ some s))
          ⊎ ((new : String) × (staged ≡ some new) × (c.disk.binary ≡ some new)))
recover_restores {d} sha t b s staged h strong found fits =
    elim (Found-Safe sha t b s staged strong found) [
      | inl (j, on_disk, backed) ↦
          let (ok, is_b, is_s, closed) =
            recover-Backed sha b s t h (at_start d) j fits on_disk backed in
          rw (recover_reads sha t h (at_start d) (holds j) fits.0 on_disk)
            (ok, closed, inl (is_b, is_s))
      | inr (closed, files) ↦
          let (ok, same) = recover_closed sha t h (at_start d) d.journal closed in
          rw (recover_reads sha t h (at_start d) d.journal fits.0 refl, ok, same)
            (refl, closed, files)
    ]
