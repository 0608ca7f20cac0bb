-- ===== src/Agent/Update.antt =====
-- internal/agent/telemtupdate.go: the record of one telemt update, which a status call reads. The
-- messages and the times of its steps are left out, and an error is only whether there is one.
pub mod Disk
pub mod Preflight
pub mod Steps
pub mod Run
pub mod Restore
pub mod Crash
pub mod Files
pub mod Outcomes
pub mod Prepare
pub mod Safety
pub mod Undo
pub mod Crashes
pub mod Finished
pub mod Ended
mod Tests
use tgproxy_panel.Prelude.{
  ℕ, String, Bool, true, false, ◌||◌, Option, none, some, List, [], ◌∷◌, ◌++◌, if◌then◌else◌, ◌==◌,
  nat_eq, string_eq,
}

pub data StepState : Type 0 where
  step_running step_ok step_failed step_skipped : StepState

pub data UpdatePhase : Type 0 where
  phase_idle phase_running phase_done : UpdatePhase

-- The outcomes; none_yet is the empty string of a run that has not ended.
pub data UpdateOutcome : Type 0 where
  none_yet updated refused failed rolled_back rollback_failed admission_shut : UpdateOutcome

-- agentv1.UpdateStep
pub record UpdateStep : Type 0 where
  pub key : String
  pub state : StepState
  pub sessions : ℕ
  pub streams : ℕ

-- agentv1.TelemtUpdate
pub record TelemtUpdate : Type 0 where
  pub phase : UpdatePhase
  pub outcome : UpdateOutcome
  pub ok : Bool
  pub is_rolled_back : Bool
  pub drained : Bool
  pub has_error : Bool
  pub from_version : String
  pub to_version : String
  pub steps : List UpdateStep

unfoldable pub new_telemt_update : String → String → TelemtUpdate
new_telemt_update from to = record {
  phase = phase_running;
  outcome = none_yet;
  ok = false;
  is_rolled_back = false;
  drained = false;
  has_error = false;
  from_version = from;
  to_version = to;
  steps = [];
}

unfoldable pub begin_step : String → TelemtUpdate → TelemtUpdate
begin_step key u = record u {
  steps = u.steps ++ record { key = key; state = step_running; sessions = 0; streams = 0 } ∷ [];
}

-- The steps with the last one of a key changed; none when there is no such step.
unfoldable pub change_last :
    String → (UpdateStep → UpdateStep) → List UpdateStep → Option (List UpdateStep)
change_last key f [] = none
change_last key f (s ∷ ss) = elim (change_last key f ss) [
  | some ss' ↦ some (s ∷ ss')
  | none ↦ if s.key == key then some (f s ∷ ss) else none
]

unfoldable pub progress : String → ℕ → ℕ → TelemtUpdate → TelemtUpdate
progress key sessions streams u =
    elim (change_last key (λ s. record s { sessions = sessions; streams = streams }) u.steps) [
      | none ↦ u
      | some steps ↦ record u { steps = steps }
    ]

unfoldable pub finish_step : String → StepState → TelemtUpdate → TelemtUpdate
finish_step key state u = elim (change_last key (λ s. record s { state = state }) u.steps) [
  | some steps ↦ record u { steps = steps }
  | none ↦ record u {
    steps = u.steps ++ record { key = key; state = state; sessions = 0; streams = 0 } ∷ [];
  }
]

abbrev pub skip : String → TelemtUpdate → TelemtUpdate
skip key = finish_step key step_skipped

abbrev pub is_updated : UpdateOutcome → Bool
is_updated updated = true
is_updated _ = false

abbrev pub is_rollback : UpdateOutcome → Bool
is_rollback rolled_back = true
is_rollback _ = false

abbrev pub is_phase_running : UpdatePhase → Bool
is_phase_running phase_running = true
is_phase_running _ = false

unfoldable pub end_update : UpdateOutcome → Bool → TelemtUpdate → TelemtUpdate
end_update outcome with_error u = record u {
  phase = phase_done;
  outcome = outcome;
  ok = is_updated outcome;
  is_rolled_back = is_rollback outcome;
  has_error = with_error || u.has_error;
}
