-- ===== src/Api/RateLimit/Runs.antt =====
-- Runs of the limiter: the granted attempts of one address against the sliding window.
use tgproxy_panel.Prelude.{
  ℕ, ◌≤◌, ◌<◌, max, String, ◌≡◌, refl, ◌∙◌, ◌≢◌, inl, inr, true, List, [], ◌∷◌, ◌++◌, arith,
  if◌then◌else◌, Bool-cases, length, keep_if, length-append, length-keep_if-le,
}
use tgproxy_panel.Api.RateLimit.{IpLimiter, allow, blocked?, is_fresh, new_ip_limiter}
use tgproxy_panel.Api.RateLimit.Window.{
  IsSound, IsSound-later, fresh, keep_if-append, length-fresh_later, new-IsSound,
}
use tgproxy_panel.Api.RateLimit.Decisions.{allow-of_blocked, allow_verdict}
use tgproxy_panel.Api.RateLimit.Steps.{allow-IsSound, allow-settings}
use tgproxy_panel.Api.RateLimit.Freshness.{fresh-allow_blocked, fresh-allow_open, fresh-allow_other}

-- Calls at the times of a clock that never goes back, with the granted times of the address `ip`.
pub data Run (max window block : ℕ) (ip : String) : ℕ → IpLimiter → List ℕ → Type 0 where
  start : (clock : ℕ) → Run max window block ip clock (new_ip_limiter max window block) []
  wait :
      {clock : ℕ} {l : IpLimiter} {granted : List ℕ} (now : ℕ)
      → clock ≤ now
      → Run max window block ip clock l granted
      → Run max window block ip now l granted
  attempt :
      {clock : ℕ} {l : IpLimiter} {granted : List ℕ}
      → Run max window block ip clock l granted
      → Run max window block ip clock
          (allow l clock ip).0
          (if (allow l clock ip).1 then granted ++ clock ∷ [] else granted)
  elsewhere :
      {clock : ℕ} {l : IpLimiter} {granted : List ℕ} (j : String)
      → j ≢ ip
      → Run max window block ip clock l granted
      → Run max window block ip clock (allow l clock j).0 granted

record Limits (max window block : ℕ) (ip : String) (clock : ℕ) (l : IpLimiter) (granted : List ℕ)
    : Type 0 where
  sound : IsSound clock l
  settings : (l.window ≡ window) × (l.block ≡ block) × (l.max ≡ max)
  covered :
      (now : ℕ)
      → clock ≤ now
      → length (keep_if (is_fresh l.window now) granted) ≤ length (fresh l now ip)
  within : (now : ℕ) → clock ≤ now → length (keep_if (is_fresh l.window now) granted) ≤ l.max

run-covered :
    (l : IpLimiter) (now now' : ℕ) (ip : String) (granted : List ℕ)
    → l.window ≤ l.block
    → IsSound now l
    → now ≤ now'
    → length (keep_if (is_fresh l.window now') granted) ≤ length (fresh l now' ip)
    → length (
        keep_if
          (is_fresh l.window now')
          (if (allow l now ip).1 then granted ++ now ∷ [] else granted))
      ≤ length (fresh (allow l now ip).0 now' ip)
run-covered l now now' ip granted w s le h = elim (Bool-cases (blocked? l now ip)) [
  | inl shut ↦ rw (fresh-allow_blocked l now now' ip shut le, allow-of_blocked l now ip shut) h
  | inr clear ↦
      rw
        (
          fresh-allow_open l now now' ip w s clear le,
          length-append (fresh l now' ip) (keep_if (is_fresh l.window now') (now ∷ [])),
        )
        (elim (Bool-cases (allow l now ip).1) [
          | inl yes_ ↦
              rw
                (
                  yes_,
                  keep_if-append,
                  length-append (keep_if (is_fresh l.window now') granted)
                      (keep_if (is_fresh l.window now') (now ∷ [])),
                )
                (omega arith)
          | inr no_ ↦ rw no_ (omega arith)
        ])
]

verdict_room :
    (l : IpLimiter) (now : ℕ) (ip : String)
    → l.window ≤ l.block
    → IsSound now l
    → (allow l now ip).1 ≡ true
    → length (fresh l now ip) < l.max
verdict_room l now ip w s h = ground (arith, allow_verdict now now l ip w s)

run-within :
    (l : IpLimiter) (now now' : ℕ) (ip : String) (granted : List ℕ)
    → l.window ≤ l.block
    → IsSound now l
    → now ≤ now'
    → length (keep_if (is_fresh l.window now) granted) ≤ length (fresh l now ip)
    → length (keep_if (is_fresh l.window now') granted) ≤ l.max
    → length (
        keep_if
          (is_fresh l.window now')
          (if (allow l now ip).1 then granted ++ now ∷ [] else granted))
      ≤ l.max
run-within l now now' ip granted w s le cover h = elim (Bool-cases (allow l now ip).1) [
  | inl yes_ ↦
      rw
        (
          yes_,
          keep_if-append,
          length-append (keep_if (is_fresh l.window now') granted)
              (keep_if (is_fresh l.window now') (now ∷ [])),
        )
        (omega (
          arith,
          verdict_room l now ip w s yes_,
          length-fresh_later l.window now now' granted le,
          length-keep_if-le (is_fresh l.window now') (now ∷ []),
        ))
  | inr no_ ↦ rw no_ h
]

start-Limits :
    (max window block clock : ℕ) (ip : String)
    → Limits max window block ip clock (new_ip_limiter max window block) []
unfolding new_ip_limiter
start-Limits max window block clock ip = record {
  sound = unfold new_ip_limiter in new-IsSound max window block clock;
  settings = (refl, refl, refl);
  covered = λ now le. omega arith;
  within = λ now le. omega arith;
}

module _ {max window block clock : ℕ} {ip : String} {l : IpLimiter} {granted : List ℕ} where
  attempt-Limits :
      window ≤ block
      → Limits max window block ip clock l granted
      → Limits max window block ip clock
          (allow l clock ip).0
          (if (allow l clock ip).1 then granted ++ clock ∷ [] else granted)
  attempt-Limits w i =
      let (same_w, same_b, same_m) = allow-settings l clock ip in
      let w' : l.window ≤ l.block = omega (arith, i.settings) in
      record {
        sound = allow-IsSound clock clock l ip (omega arith) i.sound;
        settings = (same_w ∙ i.settings.0, same_b ∙ i.settings.1, same_m ∙ i.settings.2);
        covered = λ now le.
            rw same_w
              (rw same_w at (run-covered l clock now ip granted w' i.sound le (i.covered now le)));
        within = λ now le.
            rw (same_w, same_m)
              (run-within l clock now ip granted w' i.sound le (i.covered clock (omega arith))
                (i.within now le));
      }

  elsewhere-Limits :
      (j : String)
      → j ≢ ip
      → Limits max window block ip clock l granted
      → Limits max window block ip clock (allow l clock j).0 granted
  elsewhere-Limits j ne i =
      let (same_w, same_b, same_m) = allow-settings l clock j in
      record {
        sound = allow-IsSound clock clock l j (omega arith) i.sound;
        settings = (same_w ∙ i.settings.0, same_b ∙ i.settings.1, same_m ∙ i.settings.2);
        covered =
            λ now le. rw (fresh-allow_other l clock now j ip ne le, same_w) (i.covered now le);
        within = λ now le. rw (same_w, same_m) (i.within now le);
      }

Run-Limits :
    {max window block : ℕ} {ip : String} {clock : ℕ} {l : IpLimiter} {granted : List ℕ}
    → window ≤ block
    → Run max window block ip clock l granted
    → Limits max window block ip clock l granted
Run-Limits {max} {window} {block} {ip} w (start clock) = start-Limits max window block clock ip
Run-Limits {ip} w (wait {clock} {l} now le r) =
    let i = Run-Limits w r in
    record {
      sound = IsSound-later clock now l le i.sound;
      settings = i.settings;
      covered = λ now' le'. i.covered now' (omega arith);
      within = λ now' le'. i.within now' (omega arith);
    }
Run-Limits w (attempt r) = attempt-Limits w (Run-Limits w r)
Run-Limits w (elsewhere j ne r) = elsewhere-Limits j ne (Run-Limits w r)

-- With a block at least as long as the window: in every run the granted attempts of an address
-- that lie inside the window ending at the clock, or at any later time, are at most `max`.
pub Run-rate :
    {max window block : ℕ} {ip : String} {clock : ℕ} {l : IpLimiter} {granted : List ℕ} (now : ℕ)
    → window ≤ block
    → Run max window block ip clock l granted
    → clock ≤ now
    → length (keep_if (is_fresh window now) granted) ≤ max
Run-rate now w r le =
    let i = Run-Limits w r in rw (← i.settings.0) (omega (arith, i.within now le, i.settings.2))
