-- ===== src/Worker/ReliabilityNotifications.antt =====
-- internal/worker/reliability_notifications.go: the findings of a node become one phase, a phase
-- that lasts becomes one notification, and so does its end.
-- Times are nanoseconds. The tables notification_findings, notification_candidates and alerts are a
-- list of rows, an optional row of the node, and the rows of Incidents; queries that fail are
-- arguments. A transaction of observeFindings changes nothing when one of its calls fails.
pub mod Sources
pub mod Phases
pub mod Sustained
pub mod Announced
mod Tests
use tgproxy_panel.Prelude.{
  trim_suffix, after_runes, has_prefix, ℕ, ◌+◌, ◌*◌, String, Bool, true, false, not, ◌&&◌, ◌||◌,
  Option, none, some, List, [], ◌∷◌, map, ltb, leb, if◌then◌else◌, ◌==◌, ◌!=◌, length, keep_if, any,
  contains, Map, runes, nat_eq, string_eq,
}
use tgproxy_panel.Reliability.{Finding}
use tgproxy_panel.Worker.Incidents.{Alert}
use tgproxy_panel.Worker.Notifications.{
  NotificationState, Outcome, Outside, in_cooldown, incident_cooldown, minute, send_problem,
  send_recovery, Delivery, Storage, database, memory, problem, recovered, state_key, with_state,
}

abbrev pub problem_delay : ℕ
problem_delay = 5 * minute

abbrev pub recovery_delay : ℕ
recovery_delay = 10 * minute

abbrev pub freshness : ℕ
freshness = 2 * minute

abbrev pub unknown_expiry : ℕ
unknown_expiry = 60 * minute

-- A row of notification_findings.
pub record Observed : Type 0 where
  pub node : String
  pub source : String
  pub kind : String
  pub failed : Bool
  pub known : Bool
  pub observed_at : ℕ

-- The source of a snapshot, told by its first finding.
unfoldable pub source_of : Finding → String
source_of f =
    if f.kind == "looks_like_blocking"
    then "blocking"
    else if has_prefix f.kind "probe_"
    then trim_suffix f.kind "_stale"
    else "health"

abbrev pub is_row : String → String → Observed → Bool
is_row node source r = (r.node == node) && (r.source == source)

-- UPDATE … SET known=false, observed_at=CASE WHEN known THEN now ELSE observed_at END
unfoldable pub forget_row : String → String → ℕ → Observed → Observed
forget_row node source now r =
    if is_row node source r
    then record r { known = false; observed_at = if r.known then now else r.observed_at }
    else r

-- INSERT … ON CONFLICT(node_id,kind) DO UPDATE
unfoldable pub put_row : Observed → List Observed → List Observed
put_row new [] = new ∷ []
put_row new (r ∷ rows) =
    let rest = put_row new rows in
    if (r.node == new.node) && (r.kind == new.kind) then new ∷ rows else r ∷ rest

-- The loop over the snapshot's findings.
unfoldable pub put_findings : String → String → ℕ → List Finding → List Observed → List Observed
put_findings node source now [] rows = rows
put_findings node source now (f ∷ fs) rows = put_findings node source now fs (
    if not f.known
    then rows
    else put_row
        (record {
          node = node;
          source = source;
          kind = f.kind;
          failed = f.failed;
          known = f.known;
          observed_at = now;
        })
        rows)

-- NOT (source's row AND NOT known AND observed_at < now - reliabilityUnknownExpiry)
unfoldable pub is_kept : String → String → ℕ → Observed → Bool
is_kept node source now r =
    not (is_row node source r && not r.known && ltb (r.observed_at + unknown_expiry) now)

-- `committed` is whether every call of the transaction succeeds.
unfoldable pub observe_findings : String → ℕ → Bool → List Finding → List Observed → List Observed
observe_findings node now committed [] rows = rows
observe_findings node now committed (f ∷ fs) rows =
    let source = source_of f in
    if committed
    then keep_if (is_kept node source now)
        (put_findings node source now (f ∷ fs) (map (forget_row node source now) rows))
    else rows

abbrev pub lifetime_counters : List String
lifetime_counters = "tls_front_errors" ∷ "carrier_failures" ∷ "web_rejections" ∷ []

-- nodediag.LifetimeCounter.
unfoldable pub lifetime_counter : String → Bool
lifetime_counter key = contains lifetime_counters key

-- `rest[i] == '_' && nodediag.LifetimeCounter(rest[i+1:])` for some i.
unfoldable pub counter_tail : String → Bool
counter_tail String.[] = false
counter_tail (String.◌∷◌ c s) = ((String.◌∷◌ c "" == "_") && lifetime_counter s) || counter_tail s

unfoldable pub lifetime_counter_alert : String → Bool
lifetime_counter_alert kind =
    has_prefix kind "diagnostic_" && counter_tail (after_runes (runes "diagnostic_") kind)

-- The query of openDiagnostic and the loop over its rows.
unfoldable pub open_diagnostic : String → List Alert → Bool
open_diagnostic node alerts =
    any
      (λ (a : Alert).
        (a.node == node)
        && not a.resolved
        && has_prefix a.kind "diagnostic_"
        && not (lifetime_counter_alert a.kind))
      alerts

pub data Phase : Type 0 where
  bad healthy unknown : Phase

unfoldable pub same_phase : Phase → Phase → Bool
same_phase bad bad = true
same_phase healthy healthy = true
same_phase unknown unknown = true
same_phase _ _ = false

-- node_id=$1 AND source<>'blocking_evidence'
abbrev pub is_counted : String → Observed → Bool
is_counted node r = (r.node == node) && (r.source != "blocking_evidence")

-- failed AND known AND observed_at >= now - reliabilityFreshness
abbrev pub is_bad : ℕ → Observed → Bool
is_bad now r = r.failed && r.known && leb now (r.observed_at + freshness)

-- NOT known OR observed_at < now - reliabilityFreshness
abbrev pub is_unknown : ℕ → Observed → Bool
is_unknown now r = not r.known || ltb (r.observed_at + freshness) now

-- The phase of observeReliability; `known` is freshNotificationHealth.
unfoldable pub phase_of : String → ℕ → Bool → Bool → List Observed → Phase
phase_of node now known diagnostic rows =
    let counted = keep_if (is_counted node) rows in
    let failing = any (is_bad now) counted || diagnostic in
    if known && failing
    then bad
    else if known && ltb 0 (length counted) && not (any (is_unknown now) counted)
    then healthy
    else unknown

-- A row of notification_candidates.
pub record Candidate : Type 0 where
  pub phase : Phase
  pub since : ℕ
  pub observed_at : ℕ

-- INSERT … ON CONFLICT(node_id) DO UPDATE
unfoldable pub put_candidate : Phase → ℕ → Option Candidate → Option Candidate
put_candidate phase now none = some (record { phase = phase; since = now; observed_at = now })
put_candidate phase now (some c) = some (record {
  phase = phase;
  since =
      if not (same_phase c.phase phase)
        || ltb (c.observed_at + freshness) now
        || same_phase phase unknown
      then now
      else c.since;
  observed_at = now;
})

-- What observeReliability reads: the answer of each query, none when it fails, and whether the
-- candidate is saved.
pub record Reading : Type 0 where
  pub rows : Option (List Observed)
  pub alerts : Option (List Alert)
  pub known : Bool
  pub is_saved : Bool

unfoldable pub observe_reliability :
    String → ℕ → Reading → Option Candidate → Option Candidate × Bool
observe_reliability node now q c = elim q.rows [
  | none ↦ (c, false)
  | some rows ↦ elim q.alerts [
    | none ↦ (c, false)
    | some alerts ↦
        if q.is_saved
        then (
          put_candidate (phase_of node now q.known (open_diagnostic node alerts) rows) now c,
          true,
        )
        else (c, false)
  ]
]

-- The function that sendReliability runs under withState; `o.now` is deliveryNow, and
-- `query_works` whether the query about blocking succeeds, whose answer only changes the text.
unfoldable pub send_phase : Bool → Outside → Candidate → NotificationState → Outcome
send_phase query_works o c s = elim c.phase [
  | bad ↦
      if ltb c.observed_at (c.since + problem_delay)
      then (s, [])
      else if in_cooldown s incident_cooldown o.now
      then (s, [])
      else if query_works
      then send_problem o (record s { pending = true })
      else (s, [])
  | healthy ↦
      if ltb c.observed_at (c.since + recovery_delay)
      then (s, [])
      else send_recovery o (record s { pending = false })
  | unknown ↦ (s, [])
]

unfoldable pub send_reliability : Bool → Outside → Option Candidate → NotificationState → Outcome
send_reliability query_works o none s = (s, [])
send_reliability query_works o (some c) s =
    if ltb (c.observed_at + freshness) o.now then (s, []) else send_phase query_works o c s

-- Alerts.Incident: with a database, an incident that joins the summary of its node is not
-- announced by itself.
unfoldable pub joins_summary : Storage → String → Bool
joins_summary memory kind = false
joins_summary (database t) kind =
    not (lifetime_counter_alert kind)
    && (has_prefix kind "reliability_" || has_prefix kind "diagnostic_")

unfoldable pub incident :
    Storage
    → Map String NotificationState
    → String
    → String
    → Bool
    → Outside
    → Map String NotificationState × List Delivery
incident store states node kind is_over o =
    if joins_summary store kind
    then (states, [])
    else with_state store states (state_key node kind)
        (if is_over then recovered o else problem kind incident_cooldown o)
