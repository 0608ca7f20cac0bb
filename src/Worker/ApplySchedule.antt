-- ===== src/Worker/ApplySchedule.antt =====
-- internal/worker/applyschedule.go: which node may be applied now, and when a failed one is retried.
-- A UUID is a number, a time a number of nanoseconds, and `sync.Mutex` makes each method one step.
pub mod Delay
pub mod Invariant
pub mod Claims
pub mod Traces
mod Tests
use tgproxy_panel.Prelude.{
  ℕ, zero, suc, ◌+◌, ◌-◌, ◌*◌, ◌/◌, min, max, Bool, true, false, not, ◌&&◌, ◌||◌, Option, none,
  some, [], ltb, leb, if◌then◌else◌, ◌==◌, ◌!=◌, length, Map, lookup, insert, remove, nat_eq,
}

abbrev pub second : ℕ
second = 1000000000

abbrev pub max_background_applies : ℕ
max_background_applies = 4

pub record ApplyRetry : Type 0 where
  pub revision : ℕ
  pub attempts : ℕ
  pub after : ℕ

-- The zero value, which a missing key reads as.
abbrev pub no_retry : ApplyRetry
no_retry = record { revision = 0; attempts = 0; after = 0 }

pub record ApplySchedule : Type 0 where
  pub running : Map ℕ Bool
  pub retries : Map ℕ ApplyRetry

abbrev pub idle : ApplySchedule
idle = record { running = []; retries = [] }

-- `s.running[id]`: a missing key reads as false.
unfoldable pub is_running : ApplySchedule → ℕ → Bool
is_running s id = elim (lookup id s.running) [ none ↦ false | some b ↦ b ]

-- `retry.revision == revision && now.Before(retry.after)`
unfoldable pub must_wait : Option ApplyRetry → ℕ → ℕ → Bool
must_wait none revision now = false
must_wait (some retry) revision now = retry.revision == revision && ltb now retry.after

-- The deletion of a retry that an older revision left.
drop_stale : Map ℕ ApplyRetry → ℕ → ℕ → Map ℕ ApplyRetry
drop_stale retries id revision = elim (lookup id retries) [
  | none ↦ retries
  | some retry ↦ if retry.revision != revision then remove id retries else retries
]

unfoldable pub claim : ApplySchedule → ℕ → ℕ → ℕ → ApplySchedule × Bool
unfolding is_running must_wait drop_stale
claim s id revision now =
    if is_running s id || leb max_background_applies (length s.running)
    then (s, false)
    else if must_wait (lookup id s.retries) revision now
    then (s, false)
    else (
      record s { running = insert id true s.running; retries = drop_stale s.retries id revision },
      true,
    )

-- `for i := 1; i < attempt && ceiling < 15*time.Minute; i++ { ceiling *= 2 }`, by the rounds that
-- `attempt` leaves.
double_until : ℕ → ℕ → ℕ
double_until zero ceiling = ceiling
double_until (suc rounds) ceiling =
    let next = double_until rounds (ceiling * 2) in
    if ltb ceiling (900 * second) then next else ceiling

unfoldable pub ceiling : ℕ → ℕ
unfolding double_until
ceiling attempt = min (double_until (attempt - 1) (45 * second)) (900 * second)

-- `draw n` stands for `rand.Int64N(n)`.
unfoldable pub apply_retry_delay : (ℕ → ℕ) → ℕ → ℕ
unfolding ceiling
apply_retry_delay draw attempt =
    let top = ceiling attempt in
    let floor = max (45 * second) (top / 2) in
    if floor == top then floor else floor + draw (top - floor)

-- The retry that a failure of `revision` is counted on.
retry_of : Option ApplyRetry → ApplyRetry
retry_of none = no_retry
retry_of (some retry) = retry

for_revision : ℕ → ApplyRetry → ApplyRetry
for_revision revision retry =
    if retry.revision != revision then record no_retry { revision = revision } else retry

count_attempt : ApplyRetry → ApplyRetry
count_attempt retry =
    if ltb retry.attempts 10 then record retry { attempts = retry.attempts + 1 } else retry

unfoldable pub failed_retry : (ℕ → ℕ) → Option ApplyRetry → ℕ → ℕ → ApplyRetry
unfolding retry_of for_revision count_attempt
failed_retry draw old revision now =
    let retry = count_attempt (for_revision revision (retry_of old)) in
    record retry { after = now + apply_retry_delay draw retry.attempts }

unfoldable pub finish : (ℕ → ℕ) → ApplySchedule → ℕ → ℕ → ℕ → Bool → ApplySchedule
finish draw s id revision now failed =
    let running = remove id s.running in
    if not failed then record { running = running; retries = remove id s.retries } else record {
      running = running;
      retries = insert id (failed_retry draw (lookup id s.retries) revision now) s.retries;
    }

unfoldable pub forget : ApplySchedule → ℕ → ApplySchedule
forget s id = record s { retries = remove id s.retries }
