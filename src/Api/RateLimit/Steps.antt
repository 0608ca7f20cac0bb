-- ===== src/Api/RateLimit/Steps.antt =====
-- What one call of `Allow` leaves: its settings, its attempts, and the invariant.
use tgproxy_panel.Prelude.{
  All-append_one, All-keep_if, All-weaken, ℕ, ◌+◌, ◌≤◌, String, ◌≡◌, ◌≢◌, ◌⊎◌, inl, inr, none, some,
  [], ◌∷◌, ◌++◌, arith, eq_iff, if◌then◌else◌, ◌==◌, Bool-cases, All, lookup, lookup-insert,
  lookup-remove, lookup-remove_self, nat_eq, string_eq,
}
use tgproxy_panel.Api.RateLimit.{
  IpLimiter, allow, blocked?, count_call, is_fresh, lift_block, record_attempt, times_of,
}
use tgproxy_panel.Api.RateLimit.Window.{IsSound, fresh, times, IsSound-later}
use tgproxy_panel.Api.RateLimit.Pruning.{count_call-IsSound, count_call-settings}
use tgproxy_panel.Api.RateLimit.Decisions.{allow-of_blocked, allow-of_open, lift_block-settings}

pub record_attempt-settings :
    (l : IpLimiter) (now : ℕ) (ip : String)
    → ((record_attempt l now ip).0.window ≡ l.window)
      × ((record_attempt l now ip).0.block ≡ l.block)
      × ((record_attempt l now ip).0.max ≡ l.max)
unfolding record_attempt
record_attempt-settings l now ip = ground arith

-- No call changes the three settings.
pub allow-settings :
    (l : IpLimiter) (now : ℕ) (ip : String)
    → ((allow l now ip).0.window ≡ l.window)
      × ((allow l now ip).0.block ≡ l.block)
      × ((allow l now ip).0.max ≡ l.max)
allow-settings l now ip = elim (Bool-cases (blocked? l now ip)) [
  | inl shut ↦ rw (allow-of_blocked l now ip shut) (count_call-settings l now)
  | inr clear ↦ rw (allow-of_open l now ip clear) (
      ground (
        arith,
        record_attempt-settings (lift_block (count_call l now) ip) now ip,
        lift_block-settings (count_call l now) ip,
        count_call-settings l now,
      ))
]

pub record_attempt-times :
    (l : IpLimiter) (now : ℕ) (ip j : String)
    → times (record_attempt l now ip).0 j
      ≡ (if ip == j then fresh l now ip ++ now ∷ [] else times l j)
unfolding record_attempt times_of
record_attempt-times l now ip j =
    ground (arith, eq_iff ip j, lookup-insert ip j (fresh l now ip ++ now ∷ []) l.attempts)

lift_block-times :
    (l : IpLimiter) (ip j : String)
    → (times (lift_block l ip) j ≡ times l j) ⊎ (times (lift_block l ip) j ≡ [])
unfolding lift_block times_of
lift_block-times l ip j = ground (arith, lookup-remove ip j l.attempts)

pub lift_block-other :
    (l : IpLimiter) (ip j : String) → ip ≢ j → times (lift_block l ip) j ≡ times l j
unfolding lift_block times_of
lift_block-other l ip j other = ground (arith, eq_iff ip j, lookup-remove ip j l.attempts)

lift_block-kept :
    (l : IpLimiter) (ip j : String) (until : ℕ)
    → lookup j (lift_block l ip).blocked ≡ some until
    → lookup j l.blocked ≡ some until
unfolding lift_block
lift_block-kept l ip j until h = ground (arith, lookup-remove ip j l.blocked)

lift_block-clear : (l : IpLimiter) (ip : String) → lookup ip (lift_block l ip).blocked ≡ none
unfolding lift_block
lift_block-clear l ip = ground (arith, lookup-remove_self ip l.blocked)

lift_block-All :
    (P : ℕ → Type 0) (l : IpLimiter) (ip j : String)
    → All P (times l j)
    → All P (times (lift_block l ip) j)
lift_block-All P l ip j h = elim (lift_block-times l ip j) [
  | inl same ↦ rw same h
  | inr gone ↦ rw gone tt
]

lift_block-IsSound :
    (clock : ℕ) (l : IpLimiter) (ip : String) → IsSound clock l → IsSound clock (lift_block l ip)
lift_block-IsSound clock l ip s = record {
  past = λ j. lift_block-All (λ t. t ≤ clock) l ip j (s.past j);
  spent = λ j until h. rw (lift_block-settings l ip).1 (
      lift_block-All (λ t. t + l.block ≤ until) l ip j
        (s.spent j until (lift_block-kept l ip j until h)));
}

record_attempt-blocked :
    (l : IpLimiter) (now : ℕ) (ip j : String) (until : ℕ)
    → lookup j (record_attempt l now ip).0.blocked ≡ some until
    → (lookup j l.blocked ≡ some until) ⊎ ((ip ≡ j) × (until ≡ now + l.block))
unfolding record_attempt
record_attempt-blocked l now ip j until h =
    ground (arith, eq_iff ip j, lookup-insert ip j (now + l.block) l.blocked)

attempt-All :
    (P : ℕ → Type 0) (l : IpLimiter) (now : ℕ) (ip j : String)
    → All P (times l j)
    → P now
    → All P (times (record_attempt l now ip).0 j)
attempt-All P l now ip j h q = elim (Bool-cases (ip == j)) [
  | inl same ↦
      rw (record_attempt-times l now ip j, same)
        (All-append_one P (fresh l now ip) now
          (All-keep_if P (is_fresh l.window now) (times l ip) (rw ((eq_iff ip j).0 same) h)) q)
  | inr other ↦ rw (record_attempt-times l now ip j, other) h
]

-- A block of another address keeps that address's attempts.
other_kept :
    (l : IpLimiter) (now : ℕ) (ip j : String) (until : ℕ) (P : ℕ → Type 0)
    → lookup ip l.blocked ≡ none
    → lookup j l.blocked ≡ some until
    → All P (times l j)
    → All P (times (record_attempt l now ip).0 j)
other_kept l now ip j until P open_ip before h = elim (Bool-cases (ip == j)) [
  | inl same ↦ absurd (cc (open_ip, before, (eq_iff ip j).0 same))
  | inr other ↦ rw (record_attempt-times l now ip j, other) h
]

-- The premise on blocks: a block is set or left only where there was none for the address.
record_attempt-IsSound :
    (clock now : ℕ) (l : IpLimiter) (ip : String)
    → clock ≤ now
    → lookup ip l.blocked ≡ none
    → IsSound clock l
    → IsSound now (record_attempt l now ip).0
record_attempt-IsSound clock now l ip le open_ip s = record {
  past = λ j.
      attempt-All (λ t. t ≤ now) l now ip j
        (All-weaken (λ t. t ≤ clock) (λ t. t ≤ now) (times l j) (λ t h. omega arith) (s.past j))
        (omega arith);
  spent = λ j until h.
      rw (record_attempt-settings l now ip).1 (elim (record_attempt-blocked l now ip j until h) [
        | inl before ↦
            other_kept l now ip j until (λ t. t + l.block ≤ until) open_ip before
              (s.spent j until before)
        | inr (same, set) ↦
            attempt-All (λ t. t + l.block ≤ until) l now ip j
              (All-weaken (λ t. t ≤ clock) (λ t. t + l.block ≤ until) (times l j)
                (λ t p. omega (arith, set)) (s.past j))
              (omega (arith, set))
      ]);
}

-- From a sound limiter, a call no earlier than the clock leaves a sound one.
pub allow-IsSound :
    (clock now : ℕ) (l : IpLimiter) (ip : String)
    → clock ≤ now
    → IsSound clock l
    → IsSound now (allow l now ip).0
allow-IsSound clock now l ip le s = elim (Bool-cases (blocked? l now ip)) [
  | inl shut ↦
      rw (allow-of_blocked l now ip shut)
        (IsSound-later clock now (count_call l now) le (count_call-IsSound clock now l s))
  | inr clear ↦ rw (allow-of_open l now ip clear) (
      record_attempt-IsSound clock now (lift_block (count_call l now) ip) ip le
        (lift_block-clear (count_call l now) ip)
        (lift_block-IsSound clock (count_call l now) ip (count_call-IsSound clock now l s)))
]
