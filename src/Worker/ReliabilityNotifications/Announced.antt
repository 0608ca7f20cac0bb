-- ===== src/Worker/ReliabilityNotifications/Announced.antt =====
-- Which phases are announced: the delays before a problem and its recovery.
use mathlib.Core.Path.{subst}
use tgproxy_panel.Prelude.{
  ℕ, ◌+◌, ◌≤◌, ◌≡◌, refl, inl, inr, Bool, true, false, not, Option, none, some, List, arith, ltb,
  if◌then◌else◌, Bool-cases, any,
}
use tgproxy_panel.Worker.Notifications.{
  Delivery, NotificationState, Outside, problem_telegram, problem_webhook, recovery_telegram,
  recovery_webhook, send_problem, send_recovery,
}
use tgproxy_panel.Worker.ReliabilityNotifications.{
  Candidate, Phase, bad, freshness, healthy, problem_delay, recovery_delay, send_phase,
  send_reliability, unknown,
}
use tgproxy_panel.Worker.ReliabilityNotifications.Sustained.{
  Observation, Unbroken, replay, replay-Unbroken,
}

-- Whether a log has a problem, or the recovery from one.
abbrev pub announces : Bool → List Delivery → Bool
announces recovery = any (λ x. if recovery then x.recovery else not x.recovery)

sends_problem : (o : Outside) (s : NotificationState) → announces true (send_problem o s).1 ≡ false
unfolding send_problem problem_webhook problem_telegram
sends_problem o s = ground arith

sends_recovery :
    (o : Outside) (s : NotificationState) → announces false (send_recovery o s).1 ≡ false
unfolding send_recovery recovery_webhook recovery_telegram
sends_recovery o s = ground arith

abbrev candidate : Phase → ℕ → ℕ → Candidate
candidate p since at = record { phase = p; since = since; observed_at = at }

-- The delay that a phase waits for before the recovery, or the problem, is sent.
abbrev pub Due : Bool → Candidate → Type 0
Due true c = (c.phase ≡ healthy) × (c.since + recovery_delay ≤ c.observed_at)
Due false c = (c.phase ≡ bad) × (c.since + problem_delay ≤ c.observed_at)

send_phase-Due :
    (query_works : Bool) (o : Outside) (p : Phase) (since at : ℕ) (s : NotificationState)
    (recovery : Bool)
    → announces recovery (send_phase query_works o (candidate p since at) s).1 ≡ true
    → Due recovery (candidate p since at)
unfolding send_phase
send_phase-Due query_works o bad since at s true h =
    ground (arith, sends_problem o (record s { pending = true }))
send_phase-Due query_works o bad since at s false h = (refl, ground arith)
send_phase-Due query_works o healthy since at s true h = (refl, ground arith)
send_phase-Due query_works o healthy since at s false h =
    ground (arith, sends_recovery o (record s { pending = false }))
send_phase-Due query_works o unknown since at s true h = ground arith
send_phase-Due query_works o unknown since at s false h = ground arith

send_reliability-Due :
    (query_works : Bool) (o : Outside) (c : Option Candidate) (s : NotificationState)
    (recovery : Bool)
    → announces recovery (send_reliability query_works o c s).1 ≡ true
    → (d : Candidate) × (c ≡ some d) × Due recovery d × (o.now ≤ d.observed_at + freshness)
unfolding send_reliability
send_reliability-Due query_works o none s true h = ground arith
send_reliability-Due query_works o none s false h = ground arith
send_reliability-Due query_works o (some c) s recovery h =
    elim (Bool-cases (ltb (c.observed_at + freshness) o.now)) [
      | inl late ↦ absurd (cc (rw late at h))
      | inr soon ↦ (
        c,
        refl,
        send_phase-Due query_works o c.phase c.since c.observed_at s recovery (rw soon at h),
        ground arith,
      )
    ]

-- A problem is announced only after every observation since some time was bad, each within two
-- minutes of the one before, that time is at least five minutes before the newest observation, and
-- the newest one is at most two minutes old.
pub announced_problem :
    (query_works : Bool) (o : Outside) (past : List Observation) (s : NotificationState)
    → announces false (send_reliability query_works o (replay past) s).1 ≡ true
    → (now : ℕ) × (since : ℕ) × Unbroken bad now since past
      × (since + problem_delay ≤ now)
      × (o.now ≤ now + freshness)
announced_problem query_works o past s h =
    let (c, held, due, soon) = send_reliability-Due query_works o (replay past) s false h in
    (
      c.observed_at,
      c.since,
      subst (λ p. Unbroken p c.observed_at c.since past) due.0 (replay-Unbroken past c held),
      due.1,
      soon,
    )

-- A recovery is announced only after every observation since some time was healthy, each within two
-- minutes of the one before, that time is at least ten minutes before the newest observation, and
-- the newest one is at most two minutes old.
pub announced_recovery :
    (query_works : Bool) (o : Outside) (past : List Observation) (s : NotificationState)
    → announces true (send_reliability query_works o (replay past) s).1 ≡ true
    → (now : ℕ) × (since : ℕ) × Unbroken healthy now since past
      × (since + recovery_delay ≤ now)
      × (o.now ≤ now + freshness)
announced_recovery query_works o past s h =
    let (c, held, due, soon) = send_reliability-Due query_works o (replay past) s true h in
    (
      c.observed_at,
      c.since,
      subst (λ p. Unbroken p c.observed_at c.since past) due.0 (replay-Unbroken past c held),
      due.1,
      soon,
    )
