-- ===== src/Api/RateLimit/Window.antt =====
-- The attempts that still count, and the invariant that ties them to the clock and to blocks.
use tgproxy_panel.Prelude.{
  All-weaken, ℕ, ◌+◌, ◌≤◌, max, String, ◌≡◌, refl, Bool, false, some, List, [], ◌∷◌, ◌++◌, arith,
  length, keep_if, any, All, lookup, nat_eq, string_eq,
}
use tgproxy_panel.Api.RateLimit.{IpLimiter, is_fresh, times_of, new_ip_limiter}

abbrev pub times : IpLimiter → String → List ℕ
times l ip = times_of (lookup ip l.attempts)

abbrev pub fresh : IpLimiter → ℕ → String → List ℕ
fresh l now ip = keep_if (is_fresh l.window now) (times l ip)

-- No recorded attempt is later than the clock, and a block ends no earlier than a whole block
-- period after each attempt of its address.
pub record IsSound (clock : ℕ) (l : IpLimiter) : Type 0 where
  pub past : (ip : String) → All (λ t. t ≤ clock) (times l ip)
  pub spent :
      (ip : String) (until : ℕ)
      → lookup ip l.blocked ≡ some until
      → All (λ t. t + l.block ≤ until) (times l ip)

pub new-IsSound : (max window block clock : ℕ) → IsSound clock (new_ip_limiter max window block)
unfolding new_ip_limiter lookup times_of
new-IsSound max window block clock = record { past = λ ip. tt; spent = λ ip until h. tt }

pub any-keep_if :
    (window now : ℕ) (xs : List ℕ)
    → any (is_fresh window now) xs ≡ false
    → keep_if (is_fresh window now) xs ≡ []
any-keep_if window now [] h = refl
any-keep_if window now (x ∷ xs) h = ground (arith, any-keep_if window now xs)

-- An attempt that is stale stays stale.
pub any-stale :
    (window now now' : ℕ) (xs : List ℕ)
    → now ≤ now'
    → any (is_fresh window now) xs ≡ false
    → any (is_fresh window now') xs ≡ false
any-stale window now now' [] le h = refl
any-stale window now now' (x ∷ xs) le h = ground (arith, any-stale window now now' xs)

pub fresh-of_spent :
    (window block now until : ℕ) (xs : List ℕ)
    → window ≤ block
    → until ≤ now
    → All (λ t. t + block ≤ until) xs
    → keep_if (is_fresh window now) xs ≡ []
fresh-of_spent window block now until [] w u h = refl
fresh-of_spent window block now until (x ∷ xs) w u h =
    ground (arith, fresh-of_spent window block now until xs w u h.1)

pub keep_if-append :
    (p : ℕ → Bool) (xs ys : List ℕ) → keep_if p (xs ++ ys) ≡ keep_if p xs ++ keep_if p ys
keep_if-append p [] ys = refl
keep_if-append p (x ∷ xs) ys = ground (arith, keep_if-append p xs ys)

-- Keeping what is fresh now first does not change what is fresh later.
pub fresh-fresh :
    (window now now' : ℕ) (xs : List ℕ)
    → now ≤ now'
    → keep_if (is_fresh window now') (keep_if (is_fresh window now) xs)
      ≡ keep_if (is_fresh window now') xs
fresh-fresh window now now' [] le = refl
fresh-fresh window now now' (x ∷ xs) le = ground (arith, fresh-fresh window now now' xs le)

-- Fewer attempts are fresh later.
pub length-fresh_later :
    (window now now' : ℕ) (xs : List ℕ)
    → now ≤ now'
    → length (keep_if (is_fresh window now') xs) ≤ length (keep_if (is_fresh window now) xs)
length-fresh_later window now now' [] le = omega arith
length-fresh_later window now now' (x ∷ xs) le =
    ground (arith, length-fresh_later window now now' xs le)

pub IsSound-later : (clock now : ℕ) (l : IpLimiter) → clock ≤ now → IsSound clock l → IsSound now l
IsSound-later clock now l le s = record {
  past = λ ip.
      All-weaken (λ t. t ≤ clock) (λ t. t ≤ now) (times l ip) (λ t h. omega arith) (s.past ip);
  spent = s.spent;
}
