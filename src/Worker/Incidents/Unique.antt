-- ===== src/Worker/Incidents/Unique.antt =====
-- No check of a node ever has two open alerts.
use tgproxy_panel.Prelude.{
  ◌≤◌, String, ◌≡◌, refl, inl, inr, Bool, true, false, List, [], ◌∷◌, arith, eq_iff, Bool-cases,
  length, keep_if, any, nat_eq, string_eq,
}
use tgproxy_panel.Reliability.{Finding}
use tgproxy_panel.Worker.Incidents.{
  Alert, Stats, alert_kind, insert_alert, is_open_alert, record_finding, resolve_alerts,
}
use tgproxy_panel.Worker.Incidents.Alerts.{Observations, open_alerts, process, resolved-closed}

length-keep_if_none :
    (p : Alert → Bool) (xs : List Alert) → any p xs ≡ false → length (keep_if p xs) ≡ 0
length-keep_if_none p [] h = refl
length-keep_if_none p (x ∷ xs) h = ground (arith, length-keep_if_none p xs)

row_of :
    (node kind n k message : String)
    → is_open_alert node kind (record { node = n; kind = k; message = message; resolved = false })
      ≡ true
    → (n ≡ node) × (k ≡ kind)
unfolding is_open_alert
row_of node kind n k message h = ground (arith, eq_iff n node, eq_iff k kind)

resolve-shrinks :
    (node kind n k : String) (alerts : List Alert)
    → length (open_alerts node kind (resolve_alerts n k alerts))
      ≤ length (open_alerts node kind alerts)
unfolding resolve_alerts
resolve-shrinks node kind n k [] = omega arith
resolve-shrinks node kind n k (a ∷ alerts) =
    ground (arith, resolve-shrinks node kind n k alerts, resolved-closed node kind a)

insert_unique :
    (node kind n k message : String) (alerts : List Alert)
    → length (open_alerts node kind alerts) ≤ 1
    → length (open_alerts node kind (insert_alert n k message alerts)) ≤ 1
unfolding insert_alert
insert_unique node kind n k message alerts h = elim (Bool-cases (any (is_open_alert n k) alerts)) [
  | inl there ↦ rw there h
  | inr missing ↦
      let row : Alert = record { node = n; kind = k; message = message; resolved = false } in
      rw missing (elim (Bool-cases (is_open_alert node kind row)) [
        | inl mine ↦
            let (p, q) = row_of node kind n k message mine in
            rw mine (
              omega (
                arith,
                length-keep_if_none (is_open_alert node kind) alerts (rw (← p, ← q) missing),
              ))
        | inr apart ↦ rw apart h
      ])
]

record_finding_unique :
    (works : Bool) (node kind n : String) (f : Finding) (s : Stats)
    → length (open_alerts node kind s.alerts) ≤ 1
    → length (open_alerts node kind (record_finding works n f s).alerts) ≤ 1
unfolding record_finding
record_finding_unique works node kind n f s h = ground (
  arith,
  insert_unique node kind n (alert_kind f.kind) f.message s.alerts,
  resolve-shrinks node kind n (alert_kind f.kind) s.alerts,
)

-- Whatever the findings, of any nodes and in any order, and whichever of the rounds' database calls
-- fail: a node never has two open alerts of one kind.
pub process_unique :
    (node kind : String) (past : Observations)
    → length (open_alerts node kind (process past).alerts) ≤ 1
unfolding process
process_unique node kind [] = omega arith
process_unique node kind ((n, f, works) ∷ past) =
    record_finding_unique works node kind n f (process past) (process_unique node kind past)
