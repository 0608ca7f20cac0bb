-- ===== src/Api/RateLimit/Decisions.antt =====
-- The verdict of `Allow` against the sliding window, and what a block means for later calls.
use tgproxy_panel.Prelude.{
  lookup, ℕ, ◌≤◌, ◌<◌, String, ◌≡◌, refl, sym, ◌∙◌, inl, inr, true, false, not, ◌&&◌, some, [], ◌∷◌,
  arith, ltb, Bool-cases, Option-cases, length, length-append, lookup, lookup-remove_self, nat_eq,
  string_eq,
}
use tgproxy_panel.Api.RateLimit.{
  IpLimiter, is_blocked, times_of, blocked?, count_call, lift_block, record_attempt, allow, prune,
}
use tgproxy_panel.Api.RateLimit.Window.{times, fresh, IsSound, fresh-of_spent}
use tgproxy_panel.Api.RateLimit.Pruning.{
  count_call-settings, count_call-is_blocked, count_call-fresh, count_call-IsSound, prune-IsSound,
  prune-fresh, prune-is_blocked,
}

pub lift_block-settings :
    (l : IpLimiter) (ip : String)
    → ((lift_block l ip).window ≡ l.window)
      × ((lift_block l ip).block ≡ l.block)
      × ((lift_block l ip).max ≡ l.max)
unfolding lift_block
lift_block-settings l ip = ground arith

-- Lifting an expired block drops no attempt that still counts.
pub lift_block-fresh :
    (clock now now' : ℕ) (l : IpLimiter) (ip : String)
    → l.window ≤ l.block
    → IsSound clock l
    → is_blocked (lookup ip l.blocked) now ≡ false
    → now ≤ now'
    → fresh (lift_block l ip) now' ip ≡ fresh l now' ip
unfolding is_blocked times_of lift_block
lift_block-fresh clock now now' l ip w s open_now le = elim (Option-cases (lookup ip l.blocked)) [
  | inl missing ↦ rw (missing, lift_block)
  | inr (until, found) ↦
      rw (found, lift_block, lookup-remove_self)
        (sym (
          fresh-of_spent l.window l.block now' until (times l ip) w (ground arith)
            (s.spent ip until found)))
]

record_attempt-verdict :
    (l : IpLimiter) (now : ℕ) (ip : String)
    → (record_attempt l now ip).1 ≡ ltb (length (fresh l now ip)) l.max
unfolding record_attempt
record_attempt-verdict l now ip = ground (arith, length-append (fresh l now ip) (now ∷ []))

-- With a block at least as long as the window, an attempt is allowed exactly when its address is
-- not blocked now and has fewer than `max` attempts inside the window: neither the sweep of every
-- thousandth call nor the lifting of an expired block can be seen in a verdict.
pub allow_verdict :
    (clock now : ℕ) (l : IpLimiter) (ip : String)
    → l.window ≤ l.block
    → IsSound clock l
    → (allow l now ip).1 ≡ (not (blocked? l now ip) && ltb (length (fresh l now ip)) l.max)
unfolding allow blocked?
allow_verdict clock now l ip w s = elim (Bool-cases (is_blocked (lookup ip l.blocked) now)) [
  | inl shut ↦ rw (count_call-is_blocked, shut)
  | inr clear ↦
      let c = count_call l now in
      let (same_w, same_b, same_m) = count_call-settings l now in
      let still = count_call-is_blocked l now ip ∙ clear in
      rw (still, clear, record_attempt-verdict (lift_block c ip) now ip)
        (rw
          (
            lift_block-fresh clock now now c ip (omega (arith, same_w, same_b, w))
                (count_call-IsSound clock now l s) still (omega arith),
            count_call-fresh l now now ip (omega arith),
          )
          (rw ((lift_block-settings c ip).2, same_m)))
]

-- A blocked address is refused, and nothing is recorded of the attempt.
pub allow-of_blocked :
    (l : IpLimiter) (now : ℕ) (ip : String)
    → blocked? l now ip ≡ true
    → allow l now ip ≡ (count_call l now, false)
unfolding allow blocked?
allow-of_blocked l now ip shut = rw (count_call-is_blocked, shut)

pub allow-of_open :
    (l : IpLimiter) (now : ℕ) (ip : String)
    → blocked? l now ip ≡ false
    → allow l now ip ≡ record_attempt (lift_block (count_call l now) ip) now ip
unfolding allow blocked?
allow-of_open l now ip clear = rw (count_call-is_blocked, clear)

-- On a sound limiter (one that calls in the order of the clock have led to), whose block is at
-- least as long as its window and whose `max` is positive, an attempt of an address whose block has
-- run out is allowed.
pub allow_after_block :
    (clock now until : ℕ) (l : IpLimiter) (ip : String)
    → l.window ≤ l.block
    → IsSound clock l
    → 0 < l.max
    → lookup ip l.blocked ≡ some until
    → until ≤ now
    → (allow l now ip).1 ≡ true
allow_after_block clock now until l ip w s room found over =
    rw
      (
        allow_verdict clock now l ip w s,
        fresh-of_spent l.window l.block now until (times l ip) w over (s.spent ip until found),
      )
      (unfold blocked? is_blocked in rw found (ground arith))

prune-settings :
    (l : IpLimiter) (now : ℕ)
    → ((prune l now).window ≡ l.window)
      × ((prune l now).block ≡ l.block)
      × ((prune l now).max ≡ l.max)
unfolding prune
prune-settings l now = (refl, refl, refl)

-- A sweep at any time up to the attempt changes no verdict, on a sound limiter whose block is at
-- least as long as its window.
pub allow-prune :
    (clock now now' : ℕ) (l : IpLimiter) (ip : String)
    → l.window ≤ l.block
    → IsSound clock l
    → now ≤ now'
    → (allow (prune l now) now' ip).1 ≡ (allow l now' ip).1
allow-prune clock now now' l ip w s le =
    rw
      (
        allow_verdict clock now' (prune l now) ip (omega (arith, prune-settings l now))
            (prune-IsSound clock now l s),
        allow_verdict clock now' l ip w s,
        prune-fresh l now ip now' le,
        (prune-settings l now).2,
      )
      (unfold blocked? in rw (prune-is_blocked l now ip now' le))
