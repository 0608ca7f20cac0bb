-- ===== src/Reliability/Findings/Evidence.antt =====
-- What a finding rests on: no incident fails or recovers on absent or stale measurements.
use tgproxy_panel.Prelude.{
  ℕ, ◌+◌, ◌*◌, ◌≤◌, ◌<◌, String, ◌≡◌, refl, ◌≢◌, ◌↔◌, ◌⊎◌, inl, inr, Bool, true, false, Option,
  none, some, [], ◌∷◌, arith, eq_iff, ltb, Option-cases, All, ℤ, pos,
}
use tgproxy_panel.Reliability.{Finding}
use tgproxy_panel.Reliability.Report.{MePool, MePoolState, Report, Window, second}
use tgproxy_panel.Reliability.Findings.{
  MePool, MePoolState, Report, Verdict, Window, age_known, at_least, backlog, connection_findings,
  finding, findings, fresh_me_pool, hardswap_deficit, hardswap_pending, hardswap_stale_map, judge,
  me_finding, me_pool_findings, no_pending, orphan_writers, replacement_busy, second, usable_state,
}

-- A report of version 0, or older than two minutes, has no findings.
pub findings_stale :
    (itoa : ℤ → String) (r : Report) (now : ℕ)
    → (r.version ≡ pos 0) ⊎ (r.at + 120 * second < now)
    → findings itoa r now ≡ []
unfolding findings
findings_stale itoa r now h = ground arith

-- The source that a Middle Proxy check needs.
abbrev pub Measured : Option MePool → ℕ → Type 0
Measured pool now =
    (p : MePool) × (s : MePoolState) × (pool ≡ some p)
    × (p.state ≡ some s)
    × (p.enabled ≡ true)
    × (p.reason ≡ "")
    × (fresh_me_pool p.at now ≡ true)

usable-Measured :
    (pool : Option MePool) (now : ℕ) (s : MePoolState)
    → usable_state pool now ≡ some s
    → Measured pool now
unfolding usable_state
usable-Measured none now s h = absurd (cc)
usable-Measured (some p) now s h =
    (p, s, refl, ground arith, ground arith, (eq_iff p.reason "").0 (ground arith), ground arith)

abbrev Sound : Verdict → Type 0
Sound v = v.0 ≡ true → v.1 ≡ true

hardswap_pending-Sound : (s : MePoolState) → Sound (hardswap_pending s)
unfolding hardswap_pending
hardswap_pending-Sound s h = ground arith

hardswap_deficit-Sound : (s : MePoolState) → Sound (hardswap_deficit s)
unfolding hardswap_deficit
hardswap_deficit-Sound s h = ground arith

hardswap_stale_map-Sound : (s : MePoolState) → Sound (hardswap_stale_map s)
unfolding hardswap_stale_map
hardswap_stale_map-Sound s h = ground arith

backlog-Sound : (available busy : Bool) (o : Option ℕ) → Sound (backlog available busy o)
unfolding backlog
backlog-Sound available busy o h = ground arith

-- What is claimed of one Middle Proxy finding.
abbrev pub Grounded : Option MePool → ℕ → Finding → Type 0
Grounded pool now f = (f.failed ≡ true → f.known ≡ true) × (f.known ≡ true → Measured pool now)

judge-Grounded :
    (check : MePoolState → Verdict) (kind message : String) (pool : Option MePool) (now : ℕ)
    → ((s : MePoolState) → Sound (check s))
    → Grounded pool now (me_finding kind message (judge check (usable_state pool now)))
judge-Grounded check kind message pool now sound = elim (Option-cases (usable_state pool now)) [
  | inl missing ↦ rw missing (λ h. absurd (cc), λ h. absurd (cc))
  | inr (s, found) ↦ rw found (sound s, λ h. usable-Measured pool now s found)
]

-- Of the five Middle Proxy findings, whatever the report says: a failed one is known, and a known
-- one, failed or not, rests on an enabled pool with a state, no error and a time in the last two
-- minutes.
pub me_pool_findings-Grounded :
    (pool : Option MePool) (now : ℕ) → All (Grounded pool now) (me_pool_findings pool now)
unfolding me_pool_findings orphan_writers replacement_busy
me_pool_findings-Grounded pool now = (
  judge-Grounded hardswap_pending "" "" pool now hardswap_pending-Sound,
  (
    judge-Grounded hardswap_deficit "" "" pool now hardswap_deficit-Sound,
    (
      judge-Grounded hardswap_stale_map "" "" pool now hardswap_stale_map-Sound,
      (
        judge-Grounded orphan_writers "" "" pool now (λ s. backlog-Sound _ _ _),
        (judge-Grounded replacement_busy "" "" pool now (λ s. backlog-Sound _ _ _), tt),
      ),
    ),
  ),
)

-- A pending hardswap recovers exactly when nothing is pending any more, and fails exactly when a
-- numbered generation has been pending for 25 minutes; both only while hardswap is enabled.
pub hardswap_pending_verdict :
    (s : MePoolState)
    → (hardswap_pending s ≡ (false, true)
        ↔ ((s.hardswap_enabled ≡ true) × (s.pending ≡ false) × (s.pending_generation ≡ 0)))
      × (hardswap_pending s ≡ (true, true) ↔ (
          (s.hardswap_enabled ≡ true)
          × (s.pending ≡ true)
          × (s.pending_generation ≢ 0)
          × (at_least 1500 s.pending_age_seconds ≡ true)))
unfolding hardswap_pending no_pending age_known
hardswap_pending_verdict s = ground arith

-- The connection check fails exactly when more than a fifth of the attempts failed, and is absent
-- when the window is old or saw no attempt.
pub connection_findings_verdict :
    (w : Window) (now : ℕ)
    → (now ≤ w.at + 120 * second
        → 0 < w.success + w.failed
        → (f : Finding) × (connection_findings (some w) now ≡ f ∷ [])
          × (f.known ≡ true)
          × ((f.failed ≡ true) ↔ (w.success + w.failed < w.failed * 5)))
      × ((w.at + 120 * second < now) ⊎ (w.success + w.failed ≡ 0)
          → connection_findings (some w) now ≡ [])
unfolding connection_findings
connection_findings_verdict w now = (
  λ recent some_. (
    finding "connection_failures" "Recent Telegram connection failures exceed 20%"
        (ltb (w.success + w.failed) (w.failed * 5)) true,
    ground arith,
    refl,
    ground arith,
  ),
  λ h. ground arith,
)
