-- ===== src/Worker/ApplySchedule/Delay.antt =====
-- The delay before a failed apply is retried (applyRetryDelay).
use tgproxy_panel.Prelude.{
  Bool-cases, ltb, inl, inr, ◌∙◌, ℕ, zero, suc, ◌-◌, ◌*◌, ◌/◌, ◌^◌, ◌≤◌, ◌<◌, min, max, ◌≡◌, arith,
  nat_eq, string_eq,
}
use native.Mathlib.Nat.{pow-suc}
use tgproxy_panel.Worker.ApplySchedule.{second, double_until, ceiling, apply_retry_delay}

-- What rand.Int64N documents: a value in [0, n) for a positive n.
abbrev pub DrawsBelow : (ℕ → ℕ) → Type 0
DrawsBelow draw = (n : ℕ) → 0 < n → draw n < n

pow-pos : (k : ℕ) → 0 < 2 ^ k
pow-pos zero = omega arith
pow-pos (suc k) = rw pow-suc (omega (arith, pow-pos k))

le-mul : (c p : ℕ) → 0 < p → c ≤ c * p
le-mul c p h = grind arith

double_until-lem :
    (k c : ℕ) → 0 < c → min (double_until k c) (900 * second) ≡ min (c * 2 ^ k) (900 * second)
unfolding double_until
double_until-lem zero c h = omega arith
double_until-lem (suc k) c h = elim (Bool-cases (ltb c (900 * second))) [
  | inl below ↦ rw below (double_until-lem k (c * 2) (omega arith) ∙ rw pow-suc (omega arith))
  | inr above ↦ rw above (ground (arith, le-mul c (2 ^ suc k) (pow-pos (suc k))))
]

-- The ceiling doubles with each attempt from 45 seconds up to 15 minutes: the early end of the
-- loop changes nothing.
pub ceiling-eq-pow :
    (attempt : ℕ) → ceiling attempt ≡ min (45 * second * 2 ^ (attempt - 1)) (900 * second)
unfolding ceiling
ceiling-eq-pow attempt = double_until-lem (attempt - 1) (45 * second) (omega arith)

ceiling-ge : (attempt : ℕ) → (45 * second ≤ ceiling attempt) × (ceiling attempt ≤ 900 * second)
ceiling-ge attempt = rw ceiling-eq-pow (omega (arith, pow-pos (attempt - 1)))

-- For every draw that keeps rand.Int64N's contract, the delay lies between 45 seconds and 15
-- minutes, is at least half of the attempt's ceiling, and never passes that ceiling.
pub apply_retry_delay_bounds :
    (draw : ℕ → ℕ) (attempt : ℕ)
    → DrawsBelow draw
    → (45 * second ≤ apply_retry_delay draw attempt)
      × (ceiling attempt / 2 ≤ apply_retry_delay draw attempt)
      × (apply_retry_delay draw attempt ≤ ceiling attempt)
      × (ceiling attempt ≤ 900 * second)
unfolding apply_retry_delay
apply_retry_delay_bounds draw attempt h =
    ground
      (arith, ceiling-ge attempt, h (ceiling attempt - max (45 * second) (ceiling attempt / 2)))
