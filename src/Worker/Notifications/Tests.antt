-- ===== src/Worker/Notifications/Tests.antt =====
-- Notifications on small inputs: Telegram is down at first and works later.
use tgproxy_panel.Prelude.{
  Map, ◌+◌, ◌≤◌, String, ◌≡◌, refl, true, false, not, ◌&&◌, ◌||◌, some, List, [], ◌∷◌,
  if◌then◌else◌, length, Map,
}
use tgproxy_panel.Worker.Notifications.{
  Delivery, NotificationState, Outside, apply_cooldown, database, failed_after, failed_before,
  fresh_state, in_cooldown, memory, new_period, offline_cooldown, problem, problem_telegram,
  problem_webhook, saved, send_problem, to_telegram, to_webhook,
}
use tgproxy_panel.Worker.Notifications.Deliveries.{
  acknowledged, attempts_to, delivered_to, ready, send_problem_deliveries, works,
}
use tgproxy_panel.Worker.Notifications.Episodes.{
  Event, lost, mark_at, report, resolve, run, run-outage_alternates, run-recoveries_le,
}

abbrev down : Outside
down = record {
  webhook = some "https://example.org/hook";
  webhook_works = true;
  config_error = false;
  enabled = true;
  token = "123:abc";
  chat_id = "42";
  telegram_works = false;
  now = 1000;
  sent_at = 1001;
}

abbrev up : Outside
up = record down { telegram_works = true; now = 2000; sent_at = 2001 }

abbrev announced : NotificationState
announced = record { last_problem = some 2001; pending = false; telegram = true; webhook = true }

abbrev first_try : List Delivery
first_try =
    record { destination = to_webhook; recovery = false; delivered = true }
    ∷ record { destination = to_telegram; recovery = false; delivered = false }
    ∷ []

retry_skips_webhook :
    let first = problem "node_offline" offline_cooldown down fresh_state in
    let second = problem "node_offline" offline_cooldown up first.0 in
    (first.1 ≡ first_try)
    × (first.0.pending ≡ true)
    × (second.1 ≡ record { destination = to_telegram; recovery = false; delivered = true } ∷ [])
    × (second.0 ≡ announced)
unfolding problem in_cooldown new_period send_problem problem_webhook problem_telegram
retry_skips_webhook = (refl, refl, refl, refl)

send_problem_deliveries_example :
    (length (attempts_to to_telegram (send_problem down fresh_state).1)
      ≡ (if ready to_telegram down && not (acknowledged to_telegram fresh_state) then 1 else 0))
    × (acknowledged to_telegram (send_problem down fresh_state).0 ≡ (
        acknowledged to_telegram fresh_state || (ready to_telegram down && works to_telegram down)))
send_problem_deliveries_example = send_problem_deliveries to_telegram down fresh_state

-- The state of the second problem is lost after its delivery, and the problem is sent again.
abbrev history : List Event
history =
    report memory down
    ∷ report (database failed_after) up
    ∷ report (database saved) up
    ∷ resolve (database failed_before) up
    ∷ resolve (database saved) up
    ∷ []

run-recoveries_le_example :
    delivered_to to_telegram true (run "n1|apply_failed" "apply_failed" apply_cooldown history []).1
    ≤ delivered_to to_telegram false
        (run "n1|apply_failed" "apply_failed" apply_cooldown history []).1
      + lost history
run-recoveries_le_example =
    run-recoveries_le to_telegram "n1|apply_failed" "apply_failed" apply_cooldown history

run-outage_alternates_example :
    let (after, sent) = run "n1|node_offline" "node_offline" offline_cooldown history [] in
    (delivered_to to_telegram false sent
      ≤ delivered_to to_telegram true sent
        + mark_at to_telegram "n1|node_offline" after
        + lost history)
    × (delivered_to to_telegram true sent + mark_at to_telegram "n1|node_offline" after
        ≤ delivered_to to_telegram false sent + lost history)
run-outage_alternates_example =
    run-outage_alternates to_telegram "n1|node_offline" offline_cooldown history

abbrev stored : Map String NotificationState
stored = ("n1|node_offline", announced) ∷ []
