-- ===== src/Api/RateLimit/Pruning.antt =====
-- The sweep of every thousandth call forgets only what no longer counts.
use tgproxy_panel.Prelude.{
  lookup, ℕ, ◌+◌, ◌%◌, ◌≤◌, ◌<◌, String, ◌≡◌, refl, sym, ◌⊎◌, inl, inr, false, none, some, arith,
  if◌then◌else◌, ◌==◌, Bool-cases, any, All, lookup, lookup-retain, nat_eq, string_eq,
}
use tgproxy_panel.Api.RateLimit.{IpLimiter, is_fresh, is_blocked, times_of, prune, count_call}
use tgproxy_panel.Api.RateLimit.Window.{times, fresh, any-keep_if, any-stale, IsSound}

module _ (l : IpLimiter) (now : ℕ) (ip : String) where
  prune-lookup_blocked :
      lookup ip (prune l now).blocked
      ≡ (if is_blocked (lookup ip l.blocked) now then lookup ip l.blocked else none)
  unfolding prune
  prune-lookup_blocked = simp lookup-retain

  prune-lookup_attempts :
      (lookup ip (prune l now).attempts ≡ lookup ip l.attempts)
      ⊎ ((lookup ip (prune l now).attempts ≡ none)
          × (any (is_fresh l.window now) (times l ip) ≡ false))
  unfolding prune
  prune-lookup_attempts = simp lookup-retain (ground arith)

  pub prune-is_blocked :
      (now' : ℕ)
      → now ≤ now'
      → is_blocked (lookup ip (prune l now).blocked) now' ≡ is_blocked (lookup ip l.blocked) now'
  unfolding is_blocked
  prune-is_blocked now' le = ground (arith, prune-lookup_blocked)

  prune-window : (prune l now).window ≡ l.window
  unfolding prune
  prune-window = refl

  pub prune-fresh : (now' : ℕ) → now ≤ now' → fresh (prune l now) now' ip ≡ fresh l now' ip
  unfolding times_of
  prune-fresh now' le = rw prune-window (elim prune-lookup_attempts [
    | inl same ↦ rw same
    | inr (gone, stale) ↦ rw gone (
        sym (
          any-keep_if l.window now' (times l ip)
            (any-stale l.window now now' (times l ip) le stale)))
  ])

prune-times :
    (P : ℕ → Type 0) (l : IpLimiter) (now : ℕ) (ip : String)
    → All P (times l ip)
    → All P (times (prune l now) ip)
unfolding times_of
prune-times P l now ip h = elim (prune-lookup_attempts l now ip) [
  | inl same ↦ rw same h
  | inr (gone, stale) ↦ rw gone tt
]

prune-kept :
    (l : IpLimiter) (now : ℕ) (ip : String) (until : ℕ)
    → lookup ip (prune l now).blocked ≡ some until
    → lookup ip l.blocked ≡ some until
prune-kept l now ip until h = ground (arith, prune-lookup_blocked l now ip)

prune-block : (l : IpLimiter) (now : ℕ) → (prune l now).block ≡ l.block
unfolding prune
prune-block l now = refl

pub prune-IsSound : (clock now : ℕ) (l : IpLimiter) → IsSound clock l → IsSound clock (prune l now)
prune-IsSound clock now l s = record {
  past = λ ip. prune-times (λ t. t ≤ clock) l now ip (s.past ip);
  spent = λ ip until h. rw prune-block (
      prune-times (λ t. t + l.block ≤ until) l now ip
        (s.spent ip until (prune-kept l now ip until h)));
}

-- The three settings, which no call changes.
pub count_call-settings :
    (l : IpLimiter) (now : ℕ)
    → ((count_call l now).window ≡ l.window)
      × ((count_call l now).block ≡ l.block)
      × ((count_call l now).max ≡ l.max)
unfolding count_call
count_call-settings l now = ground arith

abbrev counted : IpLimiter → IpLimiter
counted l = record l { calls = l.calls + 1 }

count_call-cases :
    (l : IpLimiter) (now : ℕ)
    → (count_call l now ≡ prune (counted l) now) ⊎ (count_call l now ≡ counted l)
unfolding count_call
count_call-cases l now = elim (Bool-cases ((l.calls + 1) % 1000 == 0)) [
  | inl sweep ↦ inl (rw sweep)
  | inr plain ↦ inr (rw plain)
]

pub count_call-is_blocked :
    (l : IpLimiter) (now : ℕ) (ip : String)
    → is_blocked (lookup ip (count_call l now).blocked) now ≡ is_blocked (lookup ip l.blocked) now
count_call-is_blocked l now ip = elim (count_call-cases l now) [
  | inl sweep ↦ rw sweep (prune-is_blocked (counted l) now ip now (omega arith))
  | inr plain ↦ rw plain
]

pub count_call-fresh :
    (l : IpLimiter) (now now' : ℕ) (ip : String)
    → now ≤ now'
    → fresh (count_call l now) now' ip ≡ fresh l now' ip
count_call-fresh l now now' ip le = elim (count_call-cases l now) [
  | inl sweep ↦ rw sweep (prune-fresh (counted l) now ip now' le)
  | inr plain ↦ rw plain
]

counted-IsSound : (clock : ℕ) (l : IpLimiter) → IsSound clock l → IsSound clock (counted l)
counted-IsSound clock l s = record { past = s.past; spent = s.spent }

pub count_call-IsSound :
    (clock now : ℕ) (l : IpLimiter) → IsSound clock l → IsSound clock (count_call l now)
count_call-IsSound clock now l s = elim (count_call-cases l now) [
  | inl sweep ↦ rw sweep (prune-IsSound clock now (counted l) (counted-IsSound clock l s))
  | inr plain ↦ rw plain (counted-IsSound clock l s)
]

-- A block that has not run out is left by the sweep.
pub count_call-lookup_blocked :
    (l : IpLimiter) (now : ℕ) (ip : String) (until : ℕ)
    → lookup ip l.blocked ≡ some until
    → now < until
    → lookup ip (count_call l now).blocked ≡ some until
count_call-lookup_blocked l now ip until found runs = elim (count_call-cases l now) [
  | inl sweep ↦
      rw (sweep, prune-lookup_blocked (counted l) now ip, found) (unfold is_blocked in ground arith)
  | inr plain ↦ rw plain found
]
