-- ===== src/Agent/Update/Finished.antt =====
-- The steps that a status call shows: a run that has ended leaves none of them running.
use mathlib.Core.Option.{some-injective}
use mathlib.Core.Path.{subst}
use tgproxy_panel.Prelude.{
  option_when, if_both, All-append_one, ℕ, String, ◌≡◌, refl, sym, ◌∙◌, Bool, true, false, not,
  ◌&&◌, ◌||◌, Option, none, some, List, [], ◌∷◌, ◌++◌, arith, eq_iff, ◌==◌, ◌!=◌, All, nat_eq,
  string_eq,
}
use tgproxy_panel.Agent.Update.{
  StepState, TelemtUpdate, UpdateStep, begin_step, change_last, finish_step, progress, step_failed,
  step_ok, step_running, step_skipped,
}
use tgproxy_panel.Agent.Update.Preflight.{Text, UpdatePlan}
use tgproxy_panel.Agent.Update.Steps.{
  Lifecycle, ResumeHost, VerifyHost, admission_is, drain_loop, update_drain, update_pause,
  update_restart_and_verify, update_resume, verify_telemt_version,
}

abbrev pub is_open : StepState → Bool
is_open step_running = true
is_open _ = false

-- No step runs.
abbrev pub Closed : TelemtUpdate → Type 0
Closed u = All (λ s. is_open s.state ≡ false) u.steps

-- The last step has a key, and no other step runs.
abbrev pub Busy : String → TelemtUpdate → Type 0
Busy key u =
    (before : List UpdateStep) × (s : UpdateStep) × (u.steps ≡ before ++ s ∷ [])
    × (s.key ≡ key)
    × All (λ x. is_open x.state ≡ false) before

change_last-append :
    (key : String) (f : UpdateStep → UpdateStep) (before : List UpdateStep) (s : UpdateStep)
    → s.key ≡ key
    → change_last key f (before ++ s ∷ []) ≡ some (before ++ f s ∷ [])
unfolding change_last
change_last-append key f [] s e = rw (e, (eq_iff key key).1 refl) refl
change_last-append key f (x ∷ before) s e = rw (change_last-append key f before s e) refl

pub begin_step-Busy : (key : String) (u : TelemtUpdate) → Closed u → Busy key (begin_step key u)
unfolding begin_step
begin_step-Busy key u closed = (
  u.steps,
  record { key = key; state = step_running; sessions = 0; streams = 0 },
  refl,
  refl,
  closed,
)

abbrev Shut : List UpdateStep → Type 0
Shut = All (λ x. is_open x.state ≡ false)

progress-Busy :
    (key : String) (sessions streams : ℕ) (u : TelemtUpdate)
    → Busy key u
    → Busy key (progress key sessions streams u)
unfolding progress
progress-Busy key sessions streams u (before, s, is_steps, is_key, closed) =
    let f : UpdateStep → UpdateStep = λ x. record x { sessions = sessions; streams = streams } in
    let known : change_last key f u.steps ≡ some (before ++ f s ∷ []) =
      rw is_steps (change_last-append key f before s is_key) in
    option_when (Busy key) (change_last key f u.steps) (λ e. (before, s, is_steps, is_key, closed))
      (λ x is_x.
        (before, f s, some-injective x (before ++ f s ∷ []) (sym is_x ∙ known), is_key, closed))

pub finish_step-Busy :
    (key : String) (state : StepState) (u : TelemtUpdate)
    → is_open state ≡ false
    → Busy key u
    → Closed (finish_step key state u)
unfolding finish_step
finish_step-Busy key state u shut (before, s, is_steps, is_key, closed) =
    let f : UpdateStep → UpdateStep = λ x. record x { state = state } in
    let known : change_last key f u.steps ≡ some (before ++ f s ∷ []) =
      rw is_steps (change_last-append key f before s is_key) in
    option_when Closed (change_last key f u.steps) (λ e. ground arith)
      (λ x is_x.
        subst Shut (some-injective (before ++ f s ∷ []) x (sym known ∙ is_x))
          (All-append_one (λ x. is_open x.state ≡ false) before (f s) closed shut))

change_last-Shut :
    (key : String) (state : StepState) (steps : List UpdateStep)
    → is_open state ≡ false
    → Shut steps
    → (steps' : List UpdateStep)
    → change_last key (λ x. record x { state = state }) steps ≡ some steps'
    → Shut steps'
unfolding change_last
change_last-Shut key state [] shut closed = λ steps' e. ground arith
change_last-Shut key state (s ∷ ss) shut closed =
    let f : UpdateStep → UpdateStep = λ x. record x { state = state } in
    let P : Option (List UpdateStep) → Type 0 =
      λ o. (steps' : List UpdateStep) → o ≡ some steps' → Shut steps' in
    option_when P (change_last key f ss)
      (λ e.
        if_both P (s.key == key)
          (λ r q. subst Shut (some-injective (f s ∷ ss) r q) (shut, closed.1))
          (λ r q. ground arith))
      (λ ss' is_ss' r q.
        subst Shut (some-injective (s ∷ ss') r q)
          (closed.0, change_last-Shut key state ss shut closed.1 ss' is_ss'))

pub finish_step-Closed :
    (key : String) (state : StepState) (u : TelemtUpdate)
    → is_open state ≡ false
    → Closed u
    → Closed (finish_step key state u)
unfolding finish_step
finish_step-Closed key state u shut closed =
    option_when Closed (change_last key (λ x. record x { state = state }) u.steps)
      (λ e.
        All-append_one (λ x. is_open x.state ≡ false) u.steps
          (record { key = key; state = state; sessions = 0; streams = 0 }) closed shut)
      (λ x is_x. change_last-Shut key state u.steps shut closed x is_x)

-- A step that is begun and finished.
pub began :
    (key : String) (state : StepState) (u : TelemtUpdate)
    → is_open state ≡ false
    → Closed u
    → Closed (finish_step key state (begin_step key u))
began key state u shut closed =
    finish_step-Busy key state (begin_step key u) shut (begin_step-Busy key u closed)

pub update_pause-Closed :
    (plan : UpdatePlan) (pauses : Bool) (u : TelemtUpdate)
    → Closed u
    → Closed (update_pause plan pauses u).0
unfolding update_pause
update_pause-Closed plan pauses u closed =
    let P : TelemtUpdate × Bool → Type 0 = λ x. Closed x.0 in
    if_both P (not plan.pause) (finish_step-Closed "pause" step_skipped u refl closed) (
      if_both P pauses (began "pause" step_ok u refl closed)
        (began "pause" step_failed u refl closed))

drain_loop-Closed :
    (polls : List (Option (Option Lifecycle))) (u : TelemtUpdate)
    → Busy "drain" u
    → Closed (drain_loop polls u).0
unfolding drain_loop
drain_loop-Closed [] u busy = finish_step-Busy "drain" step_failed u refl busy
drain_loop-Closed (none ∷ polls) u busy = finish_step-Busy "drain" step_failed u refl busy
drain_loop-Closed (some none ∷ polls) u busy = finish_step-Busy "drain" step_failed u refl busy
drain_loop-Closed (some (some lc) ∷ polls) u busy =
    let P : TelemtUpdate × Bool → Type 0 = λ x. Closed x.0 in
    option_when P lc.drain (λ e. finish_step-Busy "drain" step_failed u refl busy)
      (λ d e.
        let u' = progress "drain" d.sessions d.streams u in
        let busy' : Busy "drain" u' = progress-Busy "drain" d.sessions d.streams u busy in
        let bad = finish_step-Busy "drain" step_failed u' refl busy' in
        if_both P (d.state == "cancelled") bad (
          if_both P ((lc.state == "drained") || (d.state == "completed"))
            (if_both P ((d.sessions != 0) || (d.streams != 0) || (d.websockets != 0)) bad
              (finish_step-Busy "drain" step_ok (record u' { drained = true }) refl busy'))
            (drain_loop-Closed polls u' busy')))

pub update_drain-Closed :
    (accepted : Bool) (polls : List (Option (Option Lifecycle))) (u : TelemtUpdate)
    → Closed u
    → Closed (update_drain accepted polls u).0
unfolding update_drain
update_drain-Closed accepted polls u closed =
    if_both (λ (x : TelemtUpdate × Bool). Closed x.0) accepted
      (drain_loop-Closed polls (begin_step "drain" u) (begin_step-Busy "drain" u closed))
      (began "drain" step_failed u refl closed)

pub update_resume-Closed :
    (h : ResumeHost) (plan : UpdatePlan) (paused : Bool) (u : TelemtUpdate)
    → Closed u
    → Closed (update_resume h plan paused u).0
unfolding update_resume
update_resume-Closed h plan paused u closed =
    let P : TelemtUpdate × Bool → Type 0 = λ x. Closed x.0 in
    let skipped = finish_step-Closed "resume" step_skipped u refl closed in
    if_both P plan.preserve_closed
      (if_both P (h.pause && admission_is false h.web_status) skipped closed)
      (if_both P (not paused) skipped (
        if_both P (admission_is true h.web_status) (began "resume" step_ok u refl closed)
          (began "resume" step_failed u refl closed)))

pub update_restart_and_verify-Closed :
    (t : Text) (h : VerifyHost) (plan : UpdatePlan) (want : String) (u : TelemtUpdate)
    → Closed u
    → Closed (update_restart_and_verify t h plan want u).0
unfolding update_restart_and_verify
update_restart_and_verify-Closed t h plan want u closed =
    let P : TelemtUpdate × Bool → Type 0 = λ x. Closed x.0 in
    let u1 = finish_step "restart" step_ok (begin_step "restart" u) in
    let closed1 = began "restart" step_ok u refl closed in
    let bad = began "verify" step_failed u1 refl closed1 in
    if_both P (not h.restart) (began "restart" step_failed u refl closed) (
      if_both P (not (verify_telemt_version t h.system_info want)) bad (
        if_both P (plan.had_web && not (h.decoy && h.web_status)) bad
          (began "verify" step_ok u1 refl closed1)))
