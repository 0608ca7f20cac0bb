-- ===== src/Agent/Recovery.antt =====
-- internal/agent/recovery.go: the recovery policy of a node, its log, and the tick that repairs the
-- engine or moves it to the reserve route. Times are nanoseconds, the zero time is none. The mutexes
-- make a tick and a change of the policy one step each; the tick of a cancelled context is `expired`.
pub mod Log
pub mod Guards
pub mod Times
pub mod Entries
pub mod Rate
pub mod Failures
mod Tests
use tgproxy_panel.Prelude.{
  ℕ, ◌+◌, ◌-◌, ◌*◌, String, Bool, true, false, not, ◌&&◌, ◌||◌, Option, none, some, List, [], ◌∷◌,
  ◌++◌, ltb, if◌then◌else◌, ◌==◌, ◌!=◌, length, drop, keep_if, all, ℤ, pos, pos_part, ltb_ℤ, leb_ℤ,
  concat, nat_eq, string_eq,
}
use tgproxy_panel.Reliability.Policy.{Net, Policy, default_policy, validate}
use tgproxy_panel.Reliability.Report.{second}
use tgproxy_panel.Agent.Files.{JsonFile, Write, corrupt, holds, missing, unreadable, write_atomic}
use tgproxy_panel.Agent.Egress.{EgressHost, Engine, apply_egress}

-- reliability.Event
pub record Event : Type 0 where
  pub at : ℕ
  pub action : String
  pub result : String

-- recoveryState, as reliability.json has it.
pub record RecoveryState : Type 0 where
  pub policy : Policy
  pub active : String
  pub events : List Event
  pub last : Option ℕ

-- The recovery fields of Handler, and the file.
pub record Recovery : Type 0 where
  pub policy : Policy
  pub active_egress : String
  pub events : List Event
  pub last : Option ℕ
  pub failures : ℕ
  pub file : JsonFile RecoveryState

unfoldable pub saved_state : Recovery → RecoveryState
saved_state r = record {
  policy = r.policy;
  active = r.active_egress;
  events = r.events;
  last = r.last;
}

-- saveRecoveryLocked.
unfoldable pub save_recovery : Write → Recovery → Recovery × Bool
unfolding saved_state
save_recovery w r =
    let (file, ok) = write_atomic w (holds (saved_state r)) r.file in (record r { file = file }, ok)

-- loadRecovery, and whether it returned nil.
unfoldable pub load_recovery : Net → Recovery → Recovery × Bool
load_recovery net r = elim r.file [
  | missing ↦ (r, true)
  | unreadable ↦ (r, false)
  | corrupt ↦ (r, false)
  | holds s ↦ elim (validate net s.policy) [
    | some e ↦ (r, false)
    | none ↦ (
      record r { policy = s.policy; active_egress = s.active; events = s.events; last = s.last },
      true,
    )
  ]
]

-- The recovery of a process that starts, with the file it finds, and whether it starts: NewHandler,
-- and what Run does before anything else.
unfoldable pub new_recovery : JsonFile RecoveryState → Recovery
new_recovery file = record {
  policy = default_policy;
  active_egress = "";
  events = [];
  last = none;
  failures = 0;
  file = file;
}

unfoldable pub start : Net → JsonFile RecoveryState → Recovery × Bool
unfolding load_recovery
start net file = load_recovery net (new_recovery file)

-- The log keeps its last 50 entries.
unfoldable pub keep_last : List Event → List Event
keep_last es = drop (length es - 50) es

unfoldable pub add_event : ℕ → String → String → Recovery → Recovery
unfolding keep_last
add_event at action result r = record r {
  events = keep_last (r.events ++ record { at = at; action = action; result = result } ∷ []);
}

-- recoveryEvent.
unfoldable pub recovery_event : Write → ℕ → String → String → Recovery → Recovery
recovery_event w at action result r = (save_recovery w (add_event at action result r)).0

-- What h.tm.Ready returns: an answer, an *telemt.APIError with its status, or another error.
pub data ReadyAnswer : Type 0 where
  answered : Bool → String → ReadyAnswer
  api_error : ℕ → ReadyAnswer
  no_answer : ReadyAnswer

pub record UpstreamHealth : Type 0 where
  pub healthy : Bool
  pub check_age : ℤ

pub record UpstreamsStats : Type 0 where
  pub enabled : Bool
  pub list : List UpstreamHealth

-- What one tick finds. `web` is none for an error, and some none when the answer has no lifecycle.
pub record Sight : Type 0 where
  pub has_engine : Bool
  pub maintenance_free : Bool
  pub journal_clear : Bool
  pub unit_active : Bool
  pub web : Option (Option Bool)
  pub expired : Bool
  pub ready : ReadyAnswer
  pub stats : Option UpstreamsStats
  pub now : ℕ
  pub attempt_write : Write
  pub egress : EgressHost
  pub restart : Bool
  pub done_at : ℕ
  pub failure_text : String
  pub result_write : Write

-- e == nil && web.OperatorLifecycle != nil && !web.OperatorLifecycle.AdmissionOpen
unfoldable pub web_paused : Option (Option Bool) → Bool
web_paused (some (some is_open)) = not is_open
web_paused _ = false

unfoldable pub admission_closed : ReadyAnswer → Bool
admission_closed (answered ready reason) = not ready && (reason == "admission_closed")
admission_closed _ = false

unfoldable pub bad_service : ReadyAnswer → Bool
bad_service (answered ready reason) = false
bad_service (api_error status) = not (ltb status 500)
bad_service no_answer = true

abbrev pub route_dead : UpstreamHealth → Bool
route_dead u = leb_ℤ u.check_age (pos 120) && not u.healthy

unfoldable pub route_bad : Policy → Option UpstreamsStats → Bool
route_bad p none = false
route_bad p (some st) =
    p.automatic_failover && st.enabled && ltb 0 (length st.list) && all route_dead st.list

-- Whether the tick goes past its early returns.
unfoldable pub may_judge : Sight → Policy → Bool
unfolding web_paused admission_closed
may_judge v p =
    v.has_engine
    && v.maintenance_free
    && not p.maintenance
    && v.journal_clear
    && v.unit_active
    && not (web_paused v.web)
    && not (v.expired || admission_closed v.ready)

-- ev.Action == "attempt" && time.Since(ev.At) < time.Hour
abbrev pub is_recent_attempt : ℕ → Event → Bool
is_recent_attempt now e = (e.action == "attempt") && ltb now (e.at + 3600 * second)

abbrev pub recent_attempts : ℕ → List Event → ℕ
recent_attempts now es = length (keep_if (is_recent_attempt now) es)

-- time.Since(last) < time.Duration(p.CooldownSeconds)*time.Second
unfoldable pub cooling : Option ℕ → ℤ → ℕ → Bool
cooling none cooldown now = false
cooling (some last) cooldown now = ltb now (last + pos_part cooldown * second)

-- Whether the tick goes on to repair, with the failures already counted.
unfoldable pub may_repair : Policy → Bool → Recovery → ℕ → Bool
unfolding cooling
may_repair p route r now =
    not (
      ltb_ℤ (pos r.failures) p.failure_threshold
      || cooling r.last p.cooldown_seconds now
      || leb_ℤ p.max_actions_hour (pos (recent_attempts now r.events)))
    && ((p.recovery == "restart") || (route && p.automatic_failover))

pub data Repair : Type 0 where
  switch_route restart_engine no_repair : Repair

-- The switch of recoveryTick.
unfoldable pub repair_of : Policy → String → Bool → Bool → Repair
repair_of p active service route =
    if route && p.automatic_failover && (active != p.reserve_socks_address)
    then switch_route
    else if service && (p.recovery == "restart")
    then restart_engine
    else no_repair

abbrev pub result_text : Sight → Bool → String
result_text v fine = if fine then "recovered" else concat "failed: " v.failure_text

abbrev pub note_result : Sight → Bool → Recovery → Recovery
note_result v fine = recovery_event v.result_write v.done_at "result" (result_text v fine)

-- A branch of the switch, and the log of how it ended.
unfoldable pub repair : Sight → Repair → Recovery → Engine → Recovery × Engine
repair v no_repair r e = (r, e)
repair v restart_engine r e = (note_result v v.restart r, e)
repair v switch_route r e =
    let (e', up) = apply_egress v.egress e r.policy.reserve_socks_address in
    let moved : Recovery =
      if up then record r { active_egress = r.policy.reserve_socks_address } else r in
    (note_result v up moved, e')

-- The attempt is logged and saved before anything is done.
unfoldable pub attempted : Sight → Recovery → Recovery × Bool
attempted v r = save_recovery v.attempt_write (
    add_event v.now "attempt" "confirmed repeated failure"
      (record r { failures = r.failures + 1; last = some v.now }))

unfoldable pub try_repair : Sight → Recovery → Engine → Recovery × Engine × Repair
try_repair v r e =
    let (tried, is_saved) = attempted v r in
    let way =
      if is_saved
      then repair_of r.policy r.active_egress (bad_service v.ready) (route_bad r.policy v.stats)
      else no_repair in
    let (r', e') = repair v way tried e in (r', e', way)

-- The tick from the count of failures on, and the repair that it makes.
unfoldable pub judge_tick : Sight → Recovery → Engine → Recovery × Engine × Repair
judge_tick v r e =
    let route = route_bad r.policy v.stats in
    let counted = record r { failures = r.failures + 1 } in
    if not (bad_service v.ready || route)
    then (record r { failures = 0 }, e, no_repair)
    else if not (may_repair r.policy route counted v.now)
    then (counted, e, no_repair)
    else try_repair v r e

-- recoveryTick.
unfoldable pub recovery_tick : Sight → Recovery → Engine → Recovery × Engine × Repair
recovery_tick v r e = if may_judge v r.policy then judge_tick v r e else (r, e, no_repair)
