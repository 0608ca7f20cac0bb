-- ===== src/Api/RateLimit.antt =====
-- internal/api/ratelimit.go: attempts of an IP address in a sliding window, and its block.
-- A time is a number of nanoseconds, so `now.Sub(t) < window` is `now < t + window`.
pub mod Decisions
pub mod Blocks
pub mod Window
pub mod Pruning
pub mod Steps
mod Freshness
pub mod Runs
mod Tests
use tgproxy_panel.Prelude.{
  ℕ, ◌+◌, ◌%◌, max, String, Bool, true, false, ◌||◌, Option, none, some, List, [], ◌∷◌, ◌++◌, ltb,
  if◌then◌else◌, ◌==◌, length, keep_if, any, Map, lookup, insert, retain, remove, nat_eq, string_eq,
}

pub record IpLimiter : Type 0 where
  pub max : ℕ
  pub window : ℕ
  pub block : ℕ
  pub attempts : Map String (List ℕ)
  pub blocked : Map String ℕ
  pub calls : ℕ

abbrev pub prune_every : ℕ
prune_every = 1000

unfoldable pub new_ip_limiter : ℕ → ℕ → ℕ → IpLimiter
new_ip_limiter max window block = record {
  max = max;
  window = window;
  block = block;
  attempts = [];
  blocked = [];
  calls = 0;
}

-- `now.Sub(t) < l.window`
abbrev pub is_fresh : ℕ → ℕ → ℕ → Bool
is_fresh window now t = ltb now (t + window)

-- `until, ok := l.blocked[ip]; ok && now.Before(until)`
unfoldable pub is_blocked : Option ℕ → ℕ → Bool
is_blocked none now = false
is_blocked (some until) now = ltb now until

-- `l.attempts[ip]`: a missing key reads as nil.
unfoldable pub times_of : Option (List ℕ) → List ℕ
times_of none = []
times_of (some ts) = ts

-- The two loops of `prune`: blocks that have run out, then addresses that are not blocked and have
-- no fresh attempt.
unfoldable pub prune : IpLimiter → ℕ → IpLimiter
unfolding is_blocked times_of
prune l now =
    let blocked = retain (λ ip. is_blocked (lookup ip l.blocked) now) l.blocked in
    let keeps = λ (ip : String).
      (elim (lookup ip blocked) [ some _ ↦ true | none ↦ false ])
      || any (is_fresh l.window now) (times_of (lookup ip l.attempts)) in
    record l { blocked = blocked; attempts = retain keeps l.attempts }

unfoldable pub blocked? : IpLimiter → ℕ → String → Bool
unfolding is_blocked
blocked? l now ip = is_blocked (lookup ip l.blocked) now

-- `l.calls++` and the sweep of every thousandth call.
unfoldable pub count_call : IpLimiter → ℕ → IpLimiter
unfolding prune
count_call l now =
    let counted = record l { calls = l.calls + 1 } in
    if (l.calls + 1) % prune_every == 0 then prune counted now else counted

-- What follows the test for a block: the fresh attempts and this one are kept, and one too many
-- blocks the address.
unfoldable pub record_attempt : IpLimiter → ℕ → String → IpLimiter × Bool
unfolding times_of
record_attempt l now ip =
    let keep = keep_if (is_fresh l.window now) (times_of (lookup ip l.attempts)) ++ now ∷ [] in
    let kept = record l { attempts = insert ip keep l.attempts } in
    if ltb l.max (length keep)
    then (record kept { blocked = insert ip (now + l.block) l.blocked }, false)
    else (kept, true)

-- An expired block is lifted with the attempts that led to it.
unfoldable pub lift_block : IpLimiter → String → IpLimiter
lift_block l ip = elim (lookup ip l.blocked) [
  | some until ↦ record l { blocked = remove ip l.blocked; attempts = remove ip l.attempts }
  | none ↦ l
]

unfoldable pub allow : IpLimiter → ℕ → String → IpLimiter × Bool
allow l now ip =
    let counted = count_call l now in
    if is_blocked (lookup ip counted.blocked) now
    then (counted, false)
    else record_attempt (lift_block counted ip) now ip
