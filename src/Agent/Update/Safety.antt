-- ===== src/Agent/Update/Safety.antt =====
-- A whole update: the disks that it goes through, and what its outcome says.
use mathlib.Core.Option.{some-injective}
use tgproxy_panel.Prelude.{
  option_when, if_when, if_both, All-append_one, String, ◌≡◌, refl, sym, ap, ◌∙◌, ◌⊎◌, inl, inr,
  Bool, true, false, not, ◌&&◌, Option, none, some, arith, eq_iff, All,
}
use tgproxy_panel.Agent.Update.{
  UpdateOutcome, admission_shut, failed, none_yet, refused, rollback_failed, rolled_back, updated,
  TelemtUpdate, begin_step, end_update, finish_step, step_ok,
}
use tgproxy_panel.Agent.Update.Disk.{
  Course, Disk, UpdateJournal, check_update_journal, store, verified_file, write_update_journal,
  original_admission, prepare_update_journal,
}
use tgproxy_panel.Agent.Update.Preflight.{
  Capabilities, Text, UpdatePlan, UpdateTelemtRequest, installed_version, plan_of, update_preflight,
}
use tgproxy_panel.Agent.Update.Steps.{admission_is}
use tgproxy_panel.Agent.Update.Run.{
  UpdateHost, close_journal, is_verified, run_telemt_update, update_settled, with_intent,
}
use tgproxy_panel.Agent.Update.Crash.{Held, SameIntent, with_intent-Kept}
use tgproxy_panel.Agent.Update.Prepare.{Safe, Undoable, Intent, prepare-Prepared}
use tgproxy_panel.Agent.Update.Outcomes.{Reached, with_intent_reached}
use tgproxy_panel.Agent.Files.{holds, write_atomic_cases, JsonFile, write_atomic}

-- The plan of a run, as the preflight and the journal settle it.
abbrev pub Planned : Text → UpdateHost → UpdatePlan → Type 0
Planned t h plan =
    (version : String) × (caps : Capabilities) × (h.system_info ≡ some version)
    × (h.capabilities ≡ some caps)
    × (plan ≡ record (plan_of (installed_version t version) caps) {
      preserve_closed = caps.web_runtime && admission_is false h.prepare.web_status;
    })

-- What a run has come to: it was refused and the files are the old ones, or it had a plan and a new
-- binary, and its outcome means what it says.
abbrev pub Concluded : Text → UpdateHost → UpdateTelemtRequest → String → String → Course → Type 0
Concluded t h req b s c =
    ((c.update.outcome ≡ refused) × (c.disk.binary ≡ some b) × (c.disk.config ≡ some s))
    ⊎ ((plan : UpdatePlan) × (new : String) × Planned t h plan
        × (h.staged ≡ some new)
        × Reached t h req plan b s new c.disk c.update.outcome)

verified_content :
    (sha : String → String) (file : Option String) (sum : String)
    → is_verified (verified_file sha file sum) ≡ true
    → (text : String) × (file ≡ some text) × (sha text ≡ sum)
unfolding verified_file
verified_content sha none sum ok = ground arith
verified_content sha (some text) sum ok = (text, refl, ground (arith, eq_iff (sha text) sum))

settled_files :
    (sha : String → String) (b s : String) (t : Text) (h : UpdateHost) (req : UpdateTelemtRequest)
    (plan : UpdatePlan) (new : String) (j : UpdateJournal) (d : Disk) (o : UpdateOutcome)
    → ((text : String) → sha text ≡ sha b → text ≡ b)
    → h.staged ≡ some new
    → j.binary_sha ≡ sha b
    → update_settled sha h.settled_status j o d ≡ true
    → Reached t h req plan b s new d o
    → ((d.binary ≡ some b) × (d.config ≡ some s))
      ⊎ ((n : String) × (h.staged ≡ some n) × (d.binary ≡ some n))
unfolding update_settled
settled_files sha b s t h req plan new j d updated strong is_new sum ok ((p, _, _), _) =
    inr (new, is_new, p)
settled_files sha b s t h req plan new j d admission_shut strong is_new sum ok (p, _, _) =
    inr (new, is_new, p)
settled_files sha b s t h req plan new j d rolled_back strong is_new sum ok (p, q, _, _, _) =
    inl (p, q)
settled_files sha b s t h req plan new j d failed strong is_new sum ok kept =
    let verified : is_verified (verified_file sha d.binary j.binary_sha) ≡ true = ground arith in
    let (text, is_text, same) = verified_content sha d.binary j.binary_sha verified in
    inl (is_text ∙ ap some (strong text (same ∙ sum)), kept)
settled_files sha b s t h req plan new j d rollback_failed strong is_new sum ok r = ground arith
settled_files sha b s t h req plan new j d refused strong is_new sum ok r = absurd r
settled_files sha b s t h req plan new j d none_yet strong is_new sum ok r = absurd r

-- A journal that is closed leaves a safe disk.
close-Held :
    (sha : String → String) (b s : String) (t : Text) (h : UpdateHost) (req : UpdateTelemtRequest)
    (plan : UpdatePlan) (new : String) (j : UpdateJournal) (c : Course)
    → ((text : String) → sha text ≡ sha b → text ≡ b)
    → h.staged ≡ some new
    → j.binary_sha ≡ sha b
    → Reached t h req plan b s new c.disk c.update.outcome
    → All (Safe sha b s h.staged) c.past × Undoable sha b s c.disk
    → Held (Safe sha b s h.staged) (close_journal sha h.settled_status h.settled_write j c)
unfolding close_journal write_update_journal store check_update_journal
close-Held sha b s t h req plan new j c strong is_new sum reached (past, now) =
    let P = Held (Safe sha b s h.staged) in
    let closed = record j {
      active = false;
      outcome = c.update.outcome;
      has_error = c.update.has_error;
    } in
    if_when P (update_settled sha h.settled_status j c.update.outcome c.disk)
      (λ ok.
        let files =
          settled_files sha b s t h req plan new j c.disk c.update.outcome strong is_new sum ok
            reached in
        let after = All-append_one (Safe sha b s h.staged) c.past c.disk past (inl now) in
        elim (write_atomic_cases h.settled_write (holds closed) c.disk.journal) [
          | inl early ↦ rw early (after, inl now)
          | inr (inl late) ↦ rw late (after, inr (refl, files))
          | inr (inr written) ↦ rw written (after, inr (refl, files))
        ])
      (λ open_still. (past, inl now))

with_journal :
    (t : Text) (h : UpdateHost) (req : UpdateTelemtRequest) (plan : UpdatePlan) (b s new : String)
    (file : JsonFile UpdateJournal) (d : Disk) (o : UpdateOutcome)
    → Reached t h req plan b s new d o
    → Reached t h req plan b s new (record d { journal = file }) o
with_journal t h req plan b s new file d updated r = r
with_journal t h req plan b s new file d admission_shut r = r
with_journal t h req plan b s new file d rolled_back r = r
with_journal t h req plan b s new file d failed r = r
with_journal t h req plan b s new file d rollback_failed r = r
with_journal t h req plan b s new file d refused r = r
with_journal t h req plan b s new file d none_yet r = r

close-Reached :
    (sha : String → String) (b s : String) (t : Text) (h : UpdateHost) (req : UpdateTelemtRequest)
    (plan : UpdatePlan) (new : String) (j : UpdateJournal) (c : Course)
    → Reached t h req plan b s new c.disk c.update.outcome
    → let c' = close_journal sha h.settled_status h.settled_write j c in
      Reached t h req plan b s new c'.disk c'.update.outcome
unfolding close_journal write_update_journal store
close-Reached sha b s t h req plan new j c reached =
    let closed = record j {
      active = false;
      outcome = c.update.outcome;
      has_error = c.update.has_error;
    } in
    if_both (λ (x : Course). Reached t h req plan b s new x.disk x.update.outcome)
      (update_settled sha h.settled_status j c.update.outcome c.disk)
      (with_journal t h req plan b s new
        (write_atomic h.settled_write (holds closed) c.disk.journal).0 c.disk c.update.outcome
        reached)
      reached

preflight_plan :
    (t : Text) (req : UpdateTelemtRequest) (info : Option String) (caps : Option Capabilities)
    (u : TelemtUpdate) (plan : UpdatePlan)
    → (update_preflight t req info caps u).1 ≡ some plan
    → (version : String) × (c : Capabilities) × (info ≡ some version)
      × (caps ≡ some c)
      × (plan ≡ plan_of (installed_version t version) c)
unfolding update_preflight
preflight_plan t req none caps u plan e = ground arith
preflight_plan t req (some v) none u plan e = ground arith
preflight_plan t req (some v) (some c) u plan e =
    let made = plan_of (installed_version t v) c in
    let same : some made ≡ some plan = ground arith in
    (v, c, refl, refl, sym (some-injective made plan same))

closed_before :
    (had_web : Bool) (status : Option (Option Bool)) (admission : Bool)
    → original_admission had_web status ≡ some admission
    → (had_web && not admission) ≡ (had_web && admission_is false status)
unfolding original_admission
closed_before false status admission e = refl
closed_before true none admission e = ground arith
closed_before true (some none) admission e = ground arith
closed_before true (some (some a)) admission e = ap not (sym (some-injective a admission e))

abbrev FromPreflight : Text → UpdateHost → UpdatePlan → Type 0
FromPreflight t h plan =
    (version : String) × (caps : Capabilities) × (h.system_info ≡ some version)
    × (h.capabilities ≡ some caps)
    × (plan ≡ plan_of (installed_version t version) caps)

with_intent-Concluded :
    (sha : String → String) (b s : String) (t : Text) (h : UpdateHost) (req : UpdateTelemtRequest)
    (plan : UpdatePlan) (new : String) (j : UpdateJournal) (c : Course)
    → ((text : String) → sha text ≡ sha b → text ≡ b)
    → h.staged ≡ some new
    → FromPreflight t h plan
    → Held (Safe sha b s h.staged) c
    → c.disk.binary ≡ some b
    → c.disk.config ≡ some s
    → Intent sha b s h.prepare plan.had_web plan.installed req.version c.disk j
    → let plan' = record plan { preserve_closed = j.had_web && not j.admission_open } in
      let c' =
        close_journal sha h.settled_status h.settled_write j (with_intent t h req plan' new c) in
      Held (Safe sha b s h.staged) c' × Concluded t h req b s c'
with_intent-Concluded sha b s t h req plan new j c strong is_new made held is_b is_s intent =
    let (admission, known, is_j, on_disk, good_b, good_s) = intent in
    let (version, caps, is_version, is_caps, is_plan) = made in
    let plan' = record plan { preserve_closed = j.had_web && not j.admission_open } in
    let ran = with_intent t h req plan' new c in
    let reached : Reached t h req plan' b s new ran.disk ran.update.outcome =
      with_intent_reached t h req plan' b s new c is_b is_s in
    let backed : Undoable sha b s c.disk =
      (j, on_disk, rw is_j (refl, refl, refl, good_b, good_s, refl, refl)) in
    let follows : (d : Disk) → SameIntent c.disk d → Undoable sha b s d =
      λ d same. rw (same.0, same.1, same.2) backed in
    let (past, same) =
      with_intent-Kept (Safe sha b s h.staged) c.disk (λ d same. inl (follows d same)) t h req plan'
        new c (held.0, (refl, refl, refl)) in
    (
      close-Held sha b s t h req plan' new j ran strong is_new (ap (λ x. x.binary_sha) is_j) reached
          (past, follows ran.disk same),
      inr (
        plan',
        new,
        (
          version,
          caps,
          is_version,
          is_caps,
          rw (is_j, closed_before plan.had_web h.prepare.web_status admission known, is_plan) refl,
        ),
        is_new,
        close-Reached sha b s t h req plan' new j ran reached,
      ),
    )

pub run_telemt_update-Held :
    (sha : String → String) (b s : String) (t : Text) (h : UpdateHost) (req : UpdateTelemtRequest)
    (c : Course)
    → ((text : String) → sha text ≡ sha b → text ≡ b)
    → c.disk.binary ≡ some b
    → c.disk.config ≡ some s
    → check_update_journal c.disk.journal ≡ true
    → Held (Safe sha b s h.staged) c
    → Held (Safe sha b s h.staged) (run_telemt_update sha t h req c)
      × Concluded t h req b s (run_telemt_update sha t h req c)
unfolding run_telemt_update end_update
run_telemt_update-Held sha b s t h req c strong is_b is_s closed held =
    let Q : Course → Type 0 = λ x. Held (Safe sha b s h.staged) x × Concluded t h req b s x in
    let pre = update_preflight t req h.system_info h.capabilities c.update in
    option_when Q pre.1 (λ e. (held, inl (refl, is_b, is_s)))
      (λ plan planned.
        option_when Q h.staged (λ e. (held, inl (refl, is_b, is_s)))
          (λ new is_new.
            let c3 = record c {
              update = finish_step "download" step_ok (begin_step "download" pre.0);
            } in
            let made =
              prepare_update_journal sha h.prepare plan.had_web plan.installed req.version c3 in
            let (held3, keeps_b, keeps_s, intent) =
              prepare-Prepared sha b s h.staged h.prepare plan.had_web plan.installed req.version c3
                is_b is_s closed held in
            option_when Q made.1 (λ e. (held3, inl (refl, keeps_b, keeps_s)))
              (λ j is_j.
                with_intent-Concluded sha b s t h req plan new j made.0 strong is_new
                  (preflight_plan t req h.system_info h.capabilities c.update plan planned) held3
                  keeps_b keeps_s (intent j is_j))))
