-- ===== src/Worker/Incidents/Alerts.antt =====
-- The open alerts after any sequence of findings, against the last three sweeps of each check.
use tgproxy_panel.Prelude.{
  String, ◌≡◌, refl, inl, inr, Bool, true, false, ◌&&◌, List, [], ◌∷◌, arith, eq_iff, leb,
  if◌then◌else◌, ◌==◌, Bool-cases, keep_if, any, All, concat, runes, concat_inj, concat_cancel,
  nat_eq, string_eq,
}
use tgproxy_panel.Reliability.{Finding}
use tgproxy_panel.Worker.Incidents.{
  Alert, Stats, alert_kind, finding_streak, insert_alert, is_open_alert, record_finding,
  record_findings, resolve_alerts, streak_key,
}
use tgproxy_panel.Worker.Incidents.Streaks.{Seen, checked, held, unknown}

-- The rounds that the loop has worked through, of any nodes, the latest first: the node, the finding,
-- and whether the round's database call succeeds if it makes one.
abbrev pub Observations : Type 0
Observations = List (String × Finding × Bool)

abbrev pub no_stats : Stats
no_stats = record { streaks = []; alerts = [] }

unfoldable pub process : Observations → Stats
process [] = no_stats
process ((node, f, works) ∷ past) = record_finding works node f (process past)

-- The findings of one sweep of a node, put before the past.
unfoldable pub after_sweep : String → List (Finding × Bool) → Observations → Observations
after_sweep node [] past = past
after_sweep node ((f, works) ∷ fs) past = after_sweep node fs ((node, f, works) ∷ past)

pub record_findings-process :
    (node : String) (fs : List (Finding × Bool)) (past : Observations)
    → record_findings node fs (process past) ≡ process (after_sweep node fs past)
unfolding record_findings after_sweep process
record_findings-process node [] past = refl
record_findings-process node ((f, works) ∷ fs) past =
    record_findings-process node fs ((node, f, works) ∷ past)

abbrev pub is_of : String → String → String → Finding → Bool
is_of node kind n f = (n == node) && (f.kind == kind)

abbrev pub seen_of : Finding → Seen
seen_of f = if f.known then checked f.failed else unknown

-- What one check of one node saw, the latest first.
unfoldable pub seen : String → String → Observations → List Seen
seen node kind [] = []
seen node kind ((n, f, works) ∷ past) =
    if is_of node kind n f then seen_of f ∷ seen node kind past else seen node kind past

-- The specification: an alert opens with the third failure in a row and closes with the third
-- success in a row; a check that could not be made breaks the row and changes nothing.
unfoldable pub should_be_open : List Seen → Bool
should_be_open [] = false
should_be_open (unknown ∷ past) = should_be_open past
should_be_open (checked failed ∷ past) =
    if leb finding_streak (held failed (checked failed ∷ past)) then failed else should_be_open past

abbrev pub is_open : String → String → List Alert → Bool
is_open node kind alerts = any (is_open_alert node (alert_kind kind)) alerts

abbrev pub open_alerts : String → String → List Alert → List Alert
open_alerts node kind alerts = keep_if (is_open_alert node kind) alerts

-- Node ids are UUIDs, whose texts have 36 characters.
abbrev pub AreUuids : Observations → Type 0
AreUuids past = All (λ o. runes o.0 ≡ 36) past

-- Every database call succeeds.
abbrev pub AllWork : Observations → Type 0
AllWork past = All (λ (o : String × Finding × Bool). o.2 ≡ true) past

module _ (node kind n k : String) where
  pub streak_key_inj :
      runes node ≡ runes n → streak_key node kind ≡ streak_key n k → (node ≡ n) × (kind ≡ k)
  streak_key_inj same e =
      let (p, q) =
        concat_inj node n (concat "|" (alert_kind kind)) (concat "|" (alert_kind k)) e same in
      (
        p,
        concat_cancel "reliability_" kind k (concat_cancel "|" (alert_kind kind) (alert_kind k) q),
      )

  pub is_open_alert-other :
      (a : Alert)
      → (node ≡ n → kind ≡ k → ⊥)
      → is_open_alert n k a ≡ true
      → is_open_alert node kind a ≡ false
  unfolding is_open_alert
  is_open_alert-other a ne h =
      ground (arith, eq_iff a.node n, eq_iff a.kind k, eq_iff a.node node, eq_iff a.kind kind)

pub any-insert_self :
    (node kind message : String) (alerts : List Alert)
    → any (is_open_alert node kind) (insert_alert node kind message alerts) ≡ true
unfolding insert_alert is_open_alert
any-insert_self node kind message alerts = ground (arith, eq_iff node node, eq_iff kind kind)

pub resolved-closed :
    (node kind : String) (a : Alert)
    → is_open_alert node kind (record a { resolved = true }) ≡ false
unfolding is_open_alert
resolved-closed node kind a = ground arith

pub any-resolve_self :
    (node kind : String) (alerts : List Alert)
    → any (is_open_alert node kind) (resolve_alerts node kind alerts) ≡ false
unfolding resolve_alerts
any-resolve_self node kind [] = refl
any-resolve_self node kind (a ∷ alerts) =
    ground (arith, any-resolve_self node kind alerts, resolved-closed node kind a)

module _ (node kind n k : String) (ne : node ≡ n → kind ≡ k → ⊥) where
  pub any-insert_other :
      (message : String) (alerts : List Alert)
      → any (is_open_alert node kind) (insert_alert n k message alerts)
        ≡ any (is_open_alert node kind) alerts
  unfolding insert_alert
  any-insert_other message alerts =
      let row : Alert = record { node = n; kind = k; message = message; resolved = false } in
      let fresh_row : is_open_alert n k row ≡ true =
        unfold is_open_alert in ground (arith, eq_iff n n, eq_iff k k) in
      ground (arith, is_open_alert-other node kind n k row ne fresh_row)

  pub any-resolve_other :
      (alerts : List Alert)
      → any (is_open_alert node kind) (resolve_alerts n k alerts)
        ≡ any (is_open_alert node kind) alerts
  unfolding resolve_alerts
  any-resolve_other [] = refl
  any-resolve_other (a ∷ alerts) = elim (Bool-cases (is_open_alert n k a)) [
    | inl mine ↦
        rw (mine, is_open_alert-other node kind n k a ne mine, resolved-closed node kind a)
          (any-resolve_other alerts)
    | inr apart ↦ rw (apart, any-resolve_other alerts)
  ]
