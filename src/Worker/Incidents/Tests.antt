-- ===== src/Worker/Incidents/Tests.antt =====
-- A check that fails on four sweeps, and a sweep that could not make it.
use tgproxy_panel.Prelude.{
  insert, lookup, ◌≤◌, String, ◌≡◌, refl, true, false, [], ◌∷◌, length, lookup, insert, remove,
  nat_eq, string_eq,
}
use tgproxy_panel.Reliability.{Finding}
use tgproxy_panel.Worker.Incidents.{finding_run, insert_alert, is_open_alert, record_finding}
use tgproxy_panel.Worker.Incidents.Alerts.{
  Observations, is_open, open_alerts, process, seen, should_be_open,
}
use tgproxy_panel.Worker.Incidents.History.{is_open-process}
use tgproxy_panel.Worker.Incidents.Unique.{process_unique}

abbrev node_id : String
node_id = "6ba7b810-9dad-11d1-80b4-00c04fd430c8"

abbrev bad : Finding
bad = record { kind = "disk_pressure"; message = "full"; failed = true; known = true }

abbrev blind : Finding
blind = record bad { failed = false; known = false }

abbrev three_bad : Observations
three_bad = (node_id, bad, true) ∷ (node_id, bad, true) ∷ (node_id, bad, true) ∷ []

abbrev broken_row : Observations
broken_row =
    (node_id, bad, true) ∷ (node_id, bad, true) ∷ (node_id, blind, true) ∷ (node_id, bad, true) ∷ []

-- The INSERT of the third round fails, and that of the fourth succeeds.
abbrev late_row : Observations
late_row =
    (node_id, bad, true) ∷ (node_id, bad, false) ∷ (node_id, bad, true) ∷ (node_id, bad, true) ∷ []

opens_on_third :
    (is_open node_id "disk_pressure" (process three_bad).alerts ≡ true)
    × (is_open node_id "disk_pressure" (process broken_row).alerts ≡ false)
unfolding process record_finding finding_run lookup insert remove insert_alert is_open_alert
opens_on_third = (refl, refl)

is_open-process_example :
    is_open node_id "disk_pressure" (process three_bad).alerts
    ≡ should_be_open (seen node_id "disk_pressure" three_bad)
is_open-process_example =
    is_open-process node_id "disk_pressure" three_bad refl (refl, (refl, (refl, tt)))
      (refl, (refl, (refl, tt)))

process_unique_example :
    length (open_alerts node_id "reliability_disk_pressure" (process late_row).alerts) ≤ 1
process_unique_example = process_unique node_id "reliability_disk_pressure" late_row
