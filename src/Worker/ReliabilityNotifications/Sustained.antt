-- ===== src/Worker/ReliabilityNotifications/Sustained.antt =====
-- How long a phase has lasted: the candidate of a node against the history of its observations.
use mathlib.Core.Path.{subst}
use tgproxy_panel.Prelude.{
  ℕ, ◌+◌, ◌≤◌, ◌≡◌, refl, ◌≢◌, inl, inr, true, false, Option, none, some, List, [], ◌∷◌, arith, ltb,
  Bool-cases, Option-cases, All,
}
use tgproxy_panel.Worker.ReliabilityNotifications.{
  Candidate, Phase, bad, freshness, healthy, put_candidate, same_phase, unknown,
}

-- The observations of a node, the newest first.
pub record Observation : Type 0 where
  pub phase : Phase
  pub at : ℕ

unfoldable pub replay : List Observation → Option Candidate
replay [] = none
replay (x ∷ past) = put_candidate x.phase x.at (replay past)

-- The newest observations, back to the time `since`, all have the phase, and each follows the one
-- before it within the freshness; `now` is the time of the newest.
pub data Unbroken (p : Phase) : ℕ → ℕ → List Observation → Type 0 where
  starts :
      {past : List Observation} (now : ℕ)
      → Unbroken p now now (record { phase = p; at = now } ∷ past)
  goes_on :
      {past : List Observation} {before since : ℕ} (now : ℕ)
      → now ≤ before + freshness
      → Unbroken p before since past
      → Unbroken p now since (record { phase = p; at = now } ∷ past)

same_phase_path : (p q : Phase) → same_phase p q ≡ true → p ≡ q
unfolding same_phase
same_phase_path bad bad h = refl
same_phase_path healthy healthy h = refl
same_phase_path unknown unknown h = refl
same_phase_path bad healthy h = ground arith
same_phase_path bad unknown h = ground arith
same_phase_path healthy bad h = ground arith
same_phase_path healthy unknown h = ground arith
same_phase_path unknown bad h = ground arith
same_phase_path unknown healthy h = ground arith

same_phase_refl : (p : Phase) → same_phase p p ≡ true
unfolding same_phase
same_phase_refl bad = refl
same_phase_refl healthy = refl
same_phase_refl unknown = refl

-- What the row says of the history, when there is one.
abbrev Tells : Option Candidate → List Observation → Type 0
Tells none past = past ≡ []
Tells (some c) past = Unbroken c.phase c.observed_at c.since past

put_candidate-Tells :
    (p : Phase) (now : ℕ) (c : Option Candidate) (past : List Observation)
    → Tells c past
    → Tells (put_candidate p now c) (record { phase = p; at = now } ∷ past)
unfolding put_candidate
put_candidate-Tells p now none past h = starts now
put_candidate-Tells p now (some c) past h = elim (Bool-cases (same_phase c.phase p)) [
  | inr apart ↦ rw apart (starts now)
  | inl same ↦ elim (Bool-cases (ltb (c.observed_at + freshness) now)) [
    | inl late ↦ rw (same, late) (starts now)
    | inr soon ↦ elim (Bool-cases (same_phase p unknown)) [
      | inl lost ↦ rw (same, soon, lost) (starts now)
      | inr kept ↦
          rw (same, soon, kept)
            (goes_on now (ground arith) (
              subst (λ q. Unbroken q c.observed_at c.since past) (same_phase_path c.phase p same)
                h))
    ]
  ]
]

replay-Tells : (past : List Observation) → Tells (replay past) past
unfolding replay
replay-Tells [] = refl
replay-Tells (x ∷ past) = put_candidate-Tells x.phase x.at (replay past) past (replay-Tells past)

-- The candidate that a history of observations leaves has the phase and the time of the newest one,
-- and since its start every observation has had that phase, each within two minutes of the one before.
pub replay-Unbroken :
    (past : List Observation) (c : Candidate)
    → replay past ≡ some c
    → Unbroken c.phase c.observed_at c.since past
replay-Unbroken past c h = rw h at (replay-Tells past)

replay_since :
    (n : ℕ) (past : List Observation) (c : Candidate)
    → All (λ x. x.at ≤ n) past
    → replay past ≡ some c
    → c.since ≤ n
unfolding replay put_candidate
replay_since n [] c early h = ground arith
replay_since n (x ∷ past) c early h = elim (Option-cases (replay past)) [
  | inl none_yet ↦ ground arith
  | inr (d, held) ↦ ground (arith, replay_since n past d early.1 held)
]

-- Observations in the order of their times.
abbrev pub InOrder : List Observation → Type 0
InOrder [] = Unit
InOrder (x ∷ past) = All (λ y. y.at ≤ x.at) past × InOrder past

-- The row after an observation of the phase at the time, no older than a bound.
abbrev Leaves : Phase → ℕ → ℕ → Option Candidate → Type 0
Leaves p now since c =
    (d : Candidate) × (c ≡ some d) × (d.phase ≡ p) × (d.observed_at ≡ now) × (d.since ≤ since)

put_starts :
    (p : Phase) (now : ℕ) (c : Option Candidate)
    → ((d : Candidate) → c ≡ some d → d.since ≤ now)
    → Leaves p now now (put_candidate p now c)
unfolding put_candidate
put_starts p now none early = (_, refl, refl, refl, omega arith)
put_starts p now (some c) early = (_, refl, refl, refl, ground (arith, early c refl))

known_phase : (p : Phase) → p ≢ unknown → same_phase p unknown ≡ false
unfolding same_phase
known_phase bad ne = refl
known_phase healthy ne = refl
known_phase unknown ne = absurd (ne refl)

put_goes_on :
    (p : Phase) (before since now : ℕ) (c : Option Candidate)
    → p ≢ unknown
    → now ≤ before + freshness
    → Leaves p before since c
    → Leaves p now since (put_candidate p now c)
unfolding put_candidate
put_goes_on p before since now c ne soon (d, held, of_p, at, le) =
    rw held (_, refl, refl, refl, rw (of_p, same_phase_refl p, known_phase p ne) (ground arith))

-- Conversely, when the clock does not run back, a known phase that is unbroken since some time is
-- the candidate's phase, at the time of the newest observation and since that time at the latest.
pub Unbroken-replay :
    {p : Phase} {now since : ℕ} {past : List Observation}
    → p ≢ unknown
    → InOrder past
    → Unbroken p now since past
    → (c : Candidate) × (replay past ≡ some c)
      × (c.phase ≡ p)
      × (c.observed_at ≡ now)
      × (c.since ≤ since)
unfolding replay
Unbroken-replay ne order (starts {past} now) =
    put_starts _ now (replay past) (λ d. replay_since now past d order.0)
Unbroken-replay ne order (goes_on {past} {before} {since} now soon h) =
    put_goes_on _ before since now (replay past) ne soon (Unbroken-replay ne order.1 h)
