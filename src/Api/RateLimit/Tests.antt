-- ===== src/Api/RateLimit/Tests.antt =====
-- The limiter on small inputs: two attempts in ten ticks, a block of twenty.
use tgproxy_panel.Prelude.{
  insert, lookup, ℕ, ◌≤◌, String, ◌≡◌, refl, true, false, not, ◌&&◌, List, [], ◌∷◌, arith, ltb,
  if◌then◌else◌, length, keep_if, lookup, insert, nat_eq, string_eq,
}
use tgproxy_panel.Api.RateLimit.{
  IpLimiter, allow, blocked?, count_call, is_blocked, is_fresh, lift_block, new_ip_limiter,
  record_attempt, times_of,
}
use tgproxy_panel.Api.RateLimit.Window.{IsSound, fresh}
use tgproxy_panel.Api.RateLimit.Decisions.{allow_after_block, allow_verdict}
use tgproxy_panel.Api.RateLimit.Blocks.{after_attempts, allow_blocks}
use tgproxy_panel.Api.RateLimit.Steps.{allow-IsSound}
use tgproxy_panel.Api.RateLimit.Runs.{Run, Run-rate, attempt, start}

abbrev small : IpLimiter
small = record { max = 2; window = 10; block = 20; attempts = []; blocked = []; calls = 0 }

abbrev visitor : String
visitor = "192.0.2.1"

small-IsSound : IsSound 0 small
unfolding lookup times_of
small-IsSound = record { past = λ ip. tt; spent = λ ip until h. tt }

abbrev twice : IpLimiter
twice = (allow (allow small 1 visitor).0 2 visitor).0

twice-IsSound : IsSound 2 twice
twice-IsSound =
    allow-IsSound 1 2 (allow small 1 visitor).0 visitor (omega arith)
      (allow-IsSound 0 1 small visitor (omega arith) small-IsSound)

third_refused :
    ((allow twice 3 visitor).1 ≡ false)
    × (blocked? (allow twice 3 visitor).0 22 visitor ≡ true)
    × (blocked? (allow twice 3 visitor).0 23 visitor ≡ false)
unfolding allow count_call record_attempt lift_block is_blocked lookup insert blocked? times_of
third_refused = (refl, refl, refl)

twice_open : blocked? twice 3 visitor ≡ false
unfolding allow count_call record_attempt lift_block is_blocked lookup insert blocked? times_of
twice_open = refl

abbrev shut : IpLimiter
shut = record small { blocked = (visitor, 23) ∷ [] }

shut-IsSound : IsSound 3 shut
unfolding lookup times_of
shut-IsSound = record { past = λ ip. tt; spent = λ ip until h. tt }

allow_verdict_example :
    (allow small 1 visitor).1
    ≡ (not (blocked? small 1 visitor) && ltb (length (fresh small 1 visitor)) 2)
allow_verdict_example = allow_verdict 0 1 small visitor (omega arith) small-IsSound

abbrev then_visits : List (ℕ × String)
then_visits = (4, visitor) ∷ (5, "192.0.2.2") ∷ (6, visitor) ∷ []

twice_block : twice.block ≡ 20
unfolding allow count_call record_attempt lift_block is_blocked lookup insert blocked? times_of
twice_block = refl

allow_blocks_example :
    let then_ = after_attempts then_visits (allow twice 3 visitor).0 in
    (blocked? then_ 22 visitor ≡ true) × ((allow then_ 22 visitor).1 ≡ false)
allow_blocks_example =
    allow_blocks twice 3 22 visitor then_visits twice_open third_refused.0
      (omega (arith, twice_block), (omega (arith, twice_block), (omega (arith, twice_block), tt)))
      (omega (arith, twice_block))

allow_after_block_example : (allow shut 23 visitor).1 ≡ true
unfolding lookup
allow_after_block_example =
    allow_after_block 3 23 23 shut visitor (omega arith) shut-IsSound (omega arith) refl
      (omega arith)

abbrev one_grant : List ℕ
one_grant = 1 ∷ []

one-Run :
    Run 2 10 20 visitor 1
      (allow (new_ip_limiter 2 10 20) 1 visitor).0
      (if (allow (new_ip_limiter 2 10 20) 1 visitor).1 then one_grant else [])
one-Run = attempt (start 1)

Run-rate_example :
    length (
      keep_if
        (is_fresh 10 5)
        (if (allow (new_ip_limiter 2 10 20) 1 visitor).1 then one_grant else []))
    ≤ 2
Run-rate_example = Run-rate 5 (omega arith) one-Run (omega arith)
