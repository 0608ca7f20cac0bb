-- ===== src/Worker/Incidents/History.antt =====
-- The streaks and the open alerts after any sequence of findings follow the history of each check.
use tgproxy_panel.Prelude.{
  Map, insert, lookup, ℕ, String, ◌≡◌, refl, sym, ap, ◌∙◌, inl, inr, Bool, true, false, ◌&&◌,
  Option, List, [], ◌∷◌, arith, eq_iff, ltb, if◌then◌else◌, ◌==◌, Bool-cases, Map, lookup, insert,
  remove, lookup-insert, lookup-remove, lookup-insert_self, lookup-remove_self, ℤ, runes,
  concat_cancel, nat_eq, string_eq,
}
use tgproxy_panel.Reliability.{Finding}
use tgproxy_panel.Worker.Incidents.{
  Alert, Stats, alert_kind, finding_run, finding_streak, insert_alert, next_run, record_finding,
  resolve_alerts, run_length, run_of, streak_key,
}
use tgproxy_panel.Worker.Incidents.Streaks.{streak, Seen, run_length-streak}
use tgproxy_panel.Worker.Incidents.Alerts.{
  AllWork, AreUuids, Observations, any-insert_other, any-insert_self, any-resolve_other,
  any-resolve_self, is_of, is_open, process, seen, seen_of, should_be_open, streak_key_inj,
}

record_finding-streaks :
    (works : Bool) (n : String) (f : Finding) (s : Stats)
    → (record_finding works n f s).streaks ≡ (
        if f.known
        then insert
            (streak_key n f.kind)
            (next_run f.failed (run_of (lookup (streak_key n f.kind) s.streaks)))
            s.streaks
        else remove (streak_key n f.kind) s.streaks)
unfolding record_finding finding_run
record_finding-streaks works n f s = ground arith

same_check :
    (node kind n k : String) → (node ≡ n → kind ≡ k → ⊥) → (n == node) && (k == kind) ≡ false
same_check node kind n k ne = ground (arith, eq_iff n node, eq_iff k kind)

apart_check :
    (node kind n k : String) → (n == node) && (k == kind) ≡ false → node ≡ n → kind ≡ k → ⊥
apart_check node kind n k h p q = ground (arith, eq_iff n node, eq_iff k kind)

abbrev next_streaks : String → Finding → Map String ℤ → Map String ℤ
next_streaks key f m =
    if f.known then insert key (next_run f.failed (run_of (lookup key m))) m else remove key m

next_streaks_self :
    (key : String) (f : Finding) (m : Map String ℤ) (past : List Seen)
    → lookup key m ≡ streak past
    → lookup key (next_streaks key f m) ≡ streak (seen_of f ∷ past)
unfolding streak
next_streaks_self key f m past h = elim (Bool-cases f.known) [
  | inl known ↦ rw (known, h) (lookup-insert_self key (next_run f.failed (run_of (streak past))) m)
  | inr blind ↦ rw blind (lookup-remove_self key m)
]

next_streaks-other :
    (key j : String) (f : Finding) (m : Map String ℤ)
    → (key == j) ≡ false
    → lookup j (next_streaks key f m) ≡ lookup j m
next_streaks-other key j f m ne = elim (Bool-cases f.known) [
  | inl known ↦ rw (known, lookup-insert, ne)
  | inr blind ↦ rw (blind, lookup-remove, ne)
]

key_path :
    (node kind n k : String)
    → (n == node) && (k == kind) ≡ true
    → streak_key n k ≡ streak_key node kind
key_path node kind n k h = ground (arith, eq_iff n node, eq_iff k kind)

key_apart :
    (node kind n k : String)
    → runes n ≡ runes node
    → (n == node) && (k == kind) ≡ false
    → (streak_key n k == streak_key node kind) ≡ false
key_apart node kind n k u h = elim (Bool-cases (streak_key n k == streak_key node kind)) [
  | inl same ↦
      let (p, q) =
        streak_key_inj n k node kind u ((eq_iff (streak_key n k) (streak_key node kind)).0 same) in
      absurd (apart_check node kind n k h (sym p) (sym q))
  | inr other ↦ other
]

-- The streak of a check is that of its own history, whatever other checks were recorded between.
pub streak-process :
    (node kind : String) (past : Observations)
    → runes node ≡ 36
    → AreUuids past
    → lookup (streak_key node kind) (process past).streaks ≡ streak (seen node kind past)
unfolding process seen streak
streak-process node kind [] u us = unfold lookup in refl
streak-process node kind ((n, f, works) ∷ past) u us =
    let ih = streak-process node kind past u us.1 in
    rw (record_finding-streaks works n f (process past)) (elim (Bool-cases (is_of node kind n f)) [
      | inl mine ↦
          rw (mine, key_path node kind n f.kind mine)
            (next_streaks_self (streak_key node kind) f (process past).streaks (seen node kind past)
              ih)
      | inr apart ↦ rw apart (
          next_streaks-other (streak_key n f.kind) (streak_key node kind) f (process past).streaks
            (key_apart node kind n f.kind (us.0 ∙ sym u) apart)
          ∙ ih)
    ])

abbrev next_alerts : String → String → Finding → ℕ → List Alert → List Alert
next_alerts n k f run alerts =
    if f.known
    then if ltb run finding_streak
      then alerts
      else if f.failed
      then insert_alert n (alert_kind k) f.message alerts
      else resolve_alerts n (alert_kind k) alerts
    else alerts

abbrev run_after : Finding → Option ℤ → ℕ
run_after f old = run_length (next_run f.failed (run_of old))

record_finding-alerts :
    (n : String) (f : Finding) (s : Stats)
    → (record_finding true n f s).alerts
      ≡ next_alerts n f.kind f (run_after f (lookup (streak_key n f.kind) s.streaks)) s.alerts
unfolding record_finding finding_run
record_finding-alerts n f s = ground arith

next_alerts_self :
    (node kind : String) (f : Finding) (past : List Seen) (alerts : List Alert)
    → is_open node kind alerts ≡ should_be_open past
    → is_open node kind (next_alerts node kind f (run_after f (streak past)) alerts)
      ≡ should_be_open (seen_of f ∷ past)
unfolding should_be_open
next_alerts_self node kind f past alerts h = elim (Bool-cases f.known) [
  | inr blind ↦ rw blind h
  | inl known ↦
      rw (known, run_length-streak f.failed past)
        (ground (
          arith,
          any-insert_self node (alert_kind kind) f.message alerts,
          any-resolve_self node (alert_kind kind) alerts,
        ))
]

next_alerts-other :
    (node kind n : String) (f : Finding) (run : ℕ) (alerts : List Alert)
    → (node ≡ n → kind ≡ f.kind → ⊥)
    → is_open node kind (next_alerts n f.kind f run alerts) ≡ is_open node kind alerts
next_alerts-other node kind n f run alerts ne =
    let ne' = λ (p : node ≡ n) (q : alert_kind kind ≡ alert_kind f.kind).
      ne p (concat_cancel "reliability_" kind f.kind q) in
    ground (
      arith,
      any-insert_other node (alert_kind kind) n (alert_kind f.kind) ne' f.message alerts,
      any-resolve_other node (alert_kind kind) n (alert_kind f.kind) ne' alerts,
    )

next_alerts_path :
    (node kind n : String) (f : Finding) (run : ℕ) (alerts : List Alert)
    → (n == node) && (f.kind == kind) ≡ true
    → next_alerts n f.kind f run alerts ≡ next_alerts node kind f run alerts
next_alerts_path node kind n f run alerts h = ground (arith, eq_iff n node, eq_iff f.kind kind)

-- With every database call succeeding, and after any sequence of findings of any nodes: an alert of
-- a check is open exactly when the history of that check calls for one, by three outcomes in a row.
pub is_open-process :
    (node kind : String) (past : Observations)
    → runes node ≡ 36
    → AreUuids past
    → AllWork past
    → is_open node kind (process past).alerts ≡ should_be_open (seen node kind past)
unfolding process seen should_be_open
is_open-process node kind [] u us ws = refl
is_open-process node kind ((n, f, works) ∷ past) u us (now_works, ws) =
    let ih = is_open-process node kind past u us.1 ws in
    rw now_works (elim (Bool-cases (is_of node kind n f)) [
      | inl mine ↦
          let s = process past in
          let old = lookup (streak_key n f.kind) s.streaks in
          let same_streak =
            ap (λ k. lookup k s.streaks) (key_path node kind n f.kind mine)
            ∙ streak-process node kind past u us.1 in
          rw
            (
              mine,
              record_finding-alerts n f s,
              next_alerts_path node kind n f (run_after f old) s.alerts mine,
              same_streak,
            )
            (next_alerts_self node kind f (seen node kind past) s.alerts ih)
      | inr apart ↦
          let s = process past in
          let run = run_after f (lookup (streak_key n f.kind) s.streaks) in
          rw (apart, record_finding-alerts n f s)
            (next_alerts-other node kind n f run s.alerts
                (λ p q. apart_check node kind n f.kind apart p q)
              ∙ ih)
    ])
