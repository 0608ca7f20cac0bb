-- ===== src/Api/RateLimit/Blocks.antt =====
-- What a block means for the attempts that follow it, with attempts of other addresses in between.
use mathlib.Core.Bool.{true≢false}
use tgproxy_panel.Prelude.{
  lookup, ℕ, ◌+◌, ◌<◌, String, ◌≡◌, sym, ◌∙◌, ◌≢◌, inl, inr, true, false, some, List, [], ◌∷◌,
  arith, eq_iff, Bool-cases, All, lookup, remove, lookup-insert, lookup-remove, lookup-insert_self,
  nat_eq, string_eq,
}
use tgproxy_panel.Api.RateLimit.{
  IpLimiter, allow, blocked?, count_call, is_blocked, lift_block, record_attempt,
}
use tgproxy_panel.Api.RateLimit.Pruning.{count_call-lookup_blocked, count_call-settings}
use tgproxy_panel.Api.RateLimit.Decisions.{allow-of_blocked, allow-of_open, lift_block-settings}

-- The limiter after the attempts of a list, each a time and an address, the first one first.
unfoldable pub after_attempts : List (ℕ × String) → IpLimiter → IpLimiter
after_attempts [] l = l
after_attempts ((now, ip) ∷ later) l = after_attempts later (allow l now ip).0

abbrev IsBlocked : String → ℕ → IpLimiter → Type 0
IsBlocked ip until l = lookup ip l.blocked ≡ some until

record_attempt-blocks :
    (l : IpLimiter) (now : ℕ) (ip : String)
    → (record_attempt l now ip).1 ≡ false
    → IsBlocked ip (now + l.block) (record_attempt l now ip).0
unfolding record_attempt
record_attempt-blocks l now ip h = ground (arith, lookup-insert_self ip (now + l.block) l.blocked)

refused-IsBlocked :
    (l : IpLimiter) (now : ℕ) (ip : String)
    → blocked? l now ip ≡ false
    → (allow l now ip).1 ≡ false
    → IsBlocked ip (now + l.block) (allow l now ip).0
refused-IsBlocked l now ip clear refused =
    let opened = lift_block (count_call l now) ip in
    let refused' = rw (allow-of_open l now ip clear) at refused in
    rw (allow-of_open l now ip clear, record_attempt-blocks opened now ip refused')
      (ground (arith, lift_block-settings (count_call l now) ip, count_call-settings l now))

record_attempt-IsBlocked :
    (l : IpLimiter) (now : ℕ) (j ip : String) (until : ℕ)
    → j ≢ ip
    → IsBlocked ip until l
    → IsBlocked ip until (record_attempt (lift_block l j) now j).0
unfolding record_attempt lift_block
record_attempt-IsBlocked l now j ip until other found =
    let opened = lift_block l j in
    ground (
      arith,
      eq_iff j ip,
      lookup-remove j ip l.blocked,
      lookup-insert j ip (now + l.block) l.blocked,
      lookup-insert j ip (now + l.block) (remove j l.blocked),
    )

still_shut :
    (l : IpLimiter) (now : ℕ) (ip : String) (until : ℕ)
    → IsBlocked ip until l
    → now < until
    → blocked? l now ip ≡ true
unfolding blocked? is_blocked
still_shut l now ip until found runs = rw found (ground arith)

-- An attempt of any address before the end of a block leaves the block.
allow-IsBlocked :
    (l : IpLimiter) (now : ℕ) (j ip : String) (until : ℕ)
    → IsBlocked ip until l
    → now < until
    → IsBlocked ip until (allow l now j).0
allow-IsBlocked l now j ip until found runs = elim (Bool-cases (blocked? l now j)) [
  | inl shut ↦
      rw (allow-of_blocked l now j shut) (count_call-lookup_blocked l now ip until found runs)
  | inr clear ↦
      let other : j ≢ ip =
        λ same. true≢false (sym (still_shut l now ip until found runs) ∙ (rw same at clear)) in
      rw (allow-of_open l now j clear) (
        record_attempt-IsBlocked (count_call l now) now j ip until other
          (count_call-lookup_blocked l now ip until found runs))
]

after_attempts-IsBlocked :
    (later : List (ℕ × String)) (l : IpLimiter) (ip : String) (until : ℕ)
    → IsBlocked ip until l
    → All (λ (x : ℕ × String). x.0 < until) later
    → IsBlocked ip until (after_attempts later l)
unfolding after_attempts
after_attempts-IsBlocked [] l ip until found soon = found
after_attempts-IsBlocked ((now, j) ∷ later) l ip until found (now_soon, soon) =
    after_attempts-IsBlocked later (allow l now j).0 ip until
      (allow-IsBlocked l now j ip until found now_soon) soon

-- The attempt of an address that is refused for being one too many blocks the address: whatever
-- attempts of any addresses follow before a whole block period has passed, every further attempt of it
-- in that time is refused, and `Blocked` says that it is blocked.
pub allow_blocks :
    (l : IpLimiter) (now now' : ℕ) (ip : String) (later : List (ℕ × String))
    → blocked? l now ip ≡ false
    → (allow l now ip).1 ≡ false
    → All (λ (x : ℕ × String). x.0 < now + l.block) later
    → now' < now + l.block
    → let then_ = after_attempts later (allow l now ip).0 in
      (blocked? then_ now' ip ≡ true) × ((allow then_ now' ip).1 ≡ false)
allow_blocks l now now' ip later clear refused between soon =
    let then_ = after_attempts later (allow l now ip).0 in
    let found =
      after_attempts-IsBlocked later (allow l now ip).0 ip (now + l.block)
        (refused-IsBlocked l now ip clear refused) between in
    let shut = still_shut then_ now' ip (now + l.block) found soon in
    (shut, rw (allow-of_blocked then_ now' ip shut))
