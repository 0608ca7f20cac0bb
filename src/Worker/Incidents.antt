-- ===== src/Worker/Incidents.antt =====
-- internal/worker/incidents.go: findings of successive sweeps become alerts of a node.
-- The table `alerts` is a list of rows, and a row's resolved_at is whether it is resolved. The
-- streaks of the process and the rows are one state; each round has
-- its own `works`, whether its database call succeeds.
pub mod Streaks
pub mod Alerts
pub mod History
pub mod Unique
mod Tests
use tgproxy_panel.Prelude.{
  Map, insert, lookup, ℕ, zero, suc, String, Bool, true, false, not, ◌&&◌, Option, none, some, List,
  [], ◌∷◌, ltb, if◌then◌else◌, ◌==◌, any, Map, lookup, insert, remove, ℤ, pos, negsuc, concat,
  nat_eq, string_eq,
}
use tgproxy_panel.Reliability.{Finding}

abbrev pub finding_streak : ℕ
finding_streak = 3

pub record Alert : Type 0 where
  pub node : String
  pub kind : String
  pub message : String
  pub resolved : Bool

pub record Stats : Type 0 where
  pub streaks : Map String ℤ
  pub alerts : List Alert

-- The `switch` of findingRun: positive runs count failures, negative ones the sweeps without.
unfoldable pub next_run : Bool → ℤ → ℤ
next_run true (pos zero) = pos 1
next_run true (pos (suc n)) = pos (suc (suc n))
next_run true (negsuc n) = pos 1
next_run false (pos n) = negsuc 0
next_run false (negsuc n) = negsuc (suc n)

-- `-run` for a negative run.
unfoldable pub run_length : ℤ → ℕ
run_length (pos n) = n
run_length (negsuc n) = suc n

unfoldable pub run_of : Option ℤ → ℤ
run_of none = pos 0
run_of (some run) = run

unfoldable pub finding_run : Map String ℤ → String → Bool → Map String ℤ × ℕ
unfolding next_run run_length run_of
finding_run streaks key failed =
    let run = next_run failed (run_of (lookup key streaks)) in
    (insert key run streaks, run_length run)

abbrev pub alert_kind : String → String
alert_kind kind = concat "reliability_" kind

-- n.ID.String() + "|reliability_" + f.Kind
abbrev pub streak_key : String → String → String
streak_key node kind = concat node (concat "|" (alert_kind kind))

-- `node_id = $1 AND kind = $2 AND resolved_at IS NULL`
unfoldable pub is_open_alert : String → String → Alert → Bool
is_open_alert node kind a = (a.node == node) && (a.kind == kind) && not a.resolved

-- INSERT … WHERE NOT EXISTS (an open alert of the node and kind)
unfoldable pub insert_alert : String → String → String → List Alert → List Alert
insert_alert node kind message alerts =
    if any (is_open_alert node kind) alerts
    then alerts
    else record { node = node; kind = kind; message = message; resolved = false } ∷ alerts

-- ResolveNodeAlerts: UPDATE … SET resolved_at = now()
unfoldable pub resolve_alerts : String → String → List Alert → List Alert
resolve_alerts node kind [] = []
resolve_alerts node kind (a ∷ alerts) =
    (if is_open_alert node kind a then record a { resolved = true } else a)
    ∷ resolve_alerts node kind alerts

-- One round of the loop of recordFindings.
unfoldable pub record_finding : Bool → String → Finding → Stats → Stats
record_finding works node f s =
    if not f.known
    then record s { streaks = remove (streak_key node f.kind) s.streaks }
    else let (streaks, run) = finding_run s.streaks (streak_key node f.kind) f.failed in
      record {
        streaks = streaks;
        alerts =
            if ltb run finding_streak
            then s.alerts
            else if not works
            then s.alerts
            else if f.failed
            then insert_alert node (alert_kind f.kind) f.message s.alerts
            else resolve_alerts node (alert_kind f.kind) s.alerts;
      }

unfoldable pub record_findings : String → List (Finding × Bool) → Stats → Stats
record_findings node [] s = s
record_findings node ((f, works) ∷ fs) s = record_findings node fs (record_finding works node f s)
