-- ===== src/Worker/ReliabilityNotifications/Tests.antt =====
-- A node whose route fails for six minutes, and snapshots of two sources.
use mathlib.Core.Bool.{true≢false}
use tgproxy_panel.Prelude.{
  trim_suffix, first_runes, after_runes, has_prefix, ℕ, ◌+◌, ◌*◌, ◌≤◌, ◌≡◌, refl, ap, ◌≢◌, true,
  false, some, List, [], ◌∷◌, map, arith, All,
}
use tgproxy_panel.Reliability.{Finding}
use tgproxy_panel.Worker.Incidents.{Alert}
use tgproxy_panel.Worker.Notifications.{
  Outside, fresh_state, in_cooldown, minute, problem_telegram, problem_webhook, recovery_telegram,
  recovery_webhook, send_problem, send_recovery, telegram_ready, webhook_ready, webhook_set,
}
use tgproxy_panel.Worker.ReliabilityNotifications.{
  Candidate, Observed, Phase, bad, counter_tail, forget_row, freshness, healthy, is_kept,
  lifetime_counter, lifetime_counter_alert, observe_findings, problem_delay, put_candidate,
  put_findings, put_row, recovery_delay, same_phase, send_phase, send_reliability, source_of,
  unknown,
}
use tgproxy_panel.Worker.ReliabilityNotifications.Sources.{Backed, observe_findings-Backed}
use tgproxy_panel.Worker.ReliabilityNotifications.Sustained.{
  Observation, Unbroken, Unbroken-replay, replay, replay-Unbroken,
}
use tgproxy_panel.Worker.ReliabilityNotifications.Announced.{announced_problem, announced_recovery}

abbrev route_down : Finding
route_down = record { kind = "upstream_failure"; message = "m"; failed = true; known = true }

abbrev full_disk : Finding
full_disk = record { kind = "inode_pressure"; message = "m"; failed = false; known = true }

-- Both findings were reported at time 0, and only the first at time 9.
abbrev later_rows : List Observed
later_rows =
    observe_findings "n" 9 true (route_down ∷ [])
      (observe_findings "n" 0 true (route_down ∷ full_disk ∷ []) [])

row_kinds : map (λ (r : Observed). r.known) later_rows ≡ true ∷ false ∷ []
unfolding observe_findings put_findings put_row forget_row is_kept source_of has_prefix first_runes
row_kinds = refl

source_names :
    (source_of route_down ≡ "health")
    × (source_of (record route_down { kind = "probe_fra_stale" }) ≡ "probe_fra")
unfolding source_of has_prefix first_runes trim_suffix
source_names = (refl, refl)

counter_kinds :
    (lifetime_counter_alert "diagnostic_web_carrier_failures" ≡ true)
    × (lifetime_counter_alert "diagnostic_web_handshake" ≡ false)
    × (lifetime_counter_alert "reliability_carrier_failures" ≡ false)
unfolding lifetime_counter_alert has_prefix first_runes after_runes counter_tail lifetime_counter
counter_kinds = (refl, refl, refl)

abbrev seen_at : Phase → ℕ → Observation
seen_at p at = record { phase = p; at = at * minute }

abbrev outage : List Observation
outage = seen_at bad 10 ∷ seen_at bad 8 ∷ seen_at bad 6 ∷ seen_at bad 4 ∷ seen_at healthy 3 ∷ []

abbrev repaired : List Observation
repaired =
    seen_at healthy 10
    ∷ seen_at healthy 8
    ∷ seen_at healthy 6
    ∷ seen_at healthy 4
    ∷ seen_at healthy 2
    ∷ seen_at healthy 0
    ∷ []

abbrev only_webhook : Outside
only_webhook = record {
  webhook = some "https://example.org";
  webhook_works = true;
  config_error = false;
  enabled = false;
  token = "";
  chat_id = "";
  telegram_works = false;
  now = 10 * minute;
  sent_at = 11 * minute;
}

observe_findings-Backed_example :
    All
      (Backed "n" (source_of route_down) 9 (route_down ∷ full_disk ∷ []))
      (observe_findings "n" 9 true (route_down ∷ full_disk ∷ []) later_rows)
observe_findings-Backed_example =
    observe_findings-Backed "n" 9 route_down (full_disk ∷ []) later_rows

abbrev counter_alert : Alert
counter_alert = record {
  node = "n";
  kind = "diagnostic_web_carrier_failures";
  message = "m";
  resolved = false;
}

lasting_outage : Unbroken bad (10 * minute) (4 * minute) outage
unfolding replay put_candidate same_phase
lasting_outage =
    replay-Unbroken outage (record { phase = bad; since = 4 * minute; observed_at = 10 * minute })
      refl

bad_known : bad ≢ unknown
unfolding same_phase
bad_known e = true≢false (ap (same_phase bad) e)

Unbroken-replay_example :
    (c : Candidate) × (replay outage ≡ some c)
    × (c.phase ≡ bad)
    × (c.observed_at ≡ 10 * minute)
    × (c.since ≤ 4 * minute)
unfolding replay put_candidate same_phase
Unbroken-replay_example = Unbroken-replay bad_known (ground arith) lasting_outage

announced_problem_example :
    (now : ℕ) × (since : ℕ) × Unbroken bad now since outage
    × (since + problem_delay ≤ now)
    × (10 * minute ≤ now + freshness)
unfolding send_reliability send_phase replay put_candidate same_phase in_cooldown send_problem
    problem_webhook problem_telegram webhook_ready telegram_ready
announced_problem_example = announced_problem true only_webhook outage fresh_state refl

announced_recovery_example :
    (now : ℕ) × (since : ℕ) × Unbroken healthy now since repaired
    × (since + recovery_delay ≤ now)
    × (10 * minute ≤ now + freshness)
unfolding send_reliability send_phase replay put_candidate same_phase send_recovery recovery_webhook
    recovery_telegram webhook_set telegram_ready
announced_recovery_example =
    announced_recovery true only_webhook repaired (record fresh_state { webhook = true }) refl
