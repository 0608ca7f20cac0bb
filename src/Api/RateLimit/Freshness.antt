-- ===== src/Api/RateLimit/Freshness.antt =====
-- The attempts that count after a call of `Allow`, at any later time.
use tgproxy_panel.Prelude.{
  ℕ, ◌≤◌, String, ◌≡◌, refl, ◌∙◌, ◌≢◌, inl, inr, true, false, [], ◌∷◌, ◌++◌, arith, eq_iff, ◌==◌,
  Bool-cases, keep_if, lookup, nat_eq, string_eq,
}
use tgproxy_panel.Api.RateLimit.{
  IpLimiter, allow, blocked?, count_call, is_blocked, is_fresh, lift_block, record_attempt,
}
use tgproxy_panel.Api.RateLimit.Window.{IsSound, fresh, fresh-fresh, keep_if-append, times}
use tgproxy_panel.Api.RateLimit.Pruning.{
  count_call-IsSound, count_call-fresh, count_call-is_blocked, count_call-settings,
}
use tgproxy_panel.Api.RateLimit.Decisions.{
  allow-of_blocked, allow-of_open, lift_block-fresh, lift_block-settings,
}
use tgproxy_panel.Api.RateLimit.Steps.{
  lift_block-other, record_attempt-settings, record_attempt-times,
}

-- What is fresh after a call: nothing changes for a blocked address or for another one, and an
-- attempt that is recorded adds itself.
pub fresh-allow_blocked :
    (l : IpLimiter) (now now' : ℕ) (ip : String)
    → blocked? l now ip ≡ true
    → now ≤ now'
    → fresh (allow l now ip).0 now' ip ≡ fresh l now' ip
fresh-allow_blocked l now now' ip shut le =
    rw (allow-of_blocked l now ip shut) (count_call-fresh l now now' ip le)

fresh-record_attempt :
    (l : IpLimiter) (now now' : ℕ) (ip : String)
    → now ≤ now'
    → fresh (record_attempt l now ip).0 now' ip
      ≡ fresh l now' ip ++ keep_if (is_fresh l.window now') (now ∷ [])
fresh-record_attempt l now now' ip le = rw (
  (record_attempt-settings l now ip).0,
  record_attempt-times l now ip ip,
  (eq_iff ip ip).1 refl,
  keep_if-append,
  fresh-fresh l.window now now' (times l ip) le,
)

pub fresh-allow_open :
    (l : IpLimiter) (now now' : ℕ) (ip : String)
    → l.window ≤ l.block
    → IsSound now l
    → blocked? l now ip ≡ false
    → now ≤ now'
    → fresh (allow l now ip).0 now' ip
      ≡ fresh l now' ip ++ keep_if (is_fresh l.window now') (now ∷ [])
fresh-allow_open l now now' ip w s clear le =
    let c = count_call l now in
    let (same_w, same_b, same_m) = count_call-settings l now in
    let still : is_blocked (lookup ip c.blocked) now ≡ false =
      count_call-is_blocked l now ip ∙ (unfold blocked? in clear) in
    rw (allow-of_open l now ip clear, fresh-record_attempt (lift_block c ip) now now' ip le)
      (rw (
        lift_block-fresh now now now' c ip (omega (arith, same_w, same_b, w))
            (count_call-IsSound now now l s) still le,
        count_call-fresh l now now' ip le,
        (lift_block-settings c ip).0,
        same_w,
      ))

ne_test : (j ip : String) → j ≢ ip → (j == ip) ≡ false
ne_test j ip ne = elim (Bool-cases (j == ip)) [
  | inl same ↦ absurd (ne ((eq_iff j ip).0 same))
  | inr apart ↦ apart
]

pub fresh-allow_other :
    (l : IpLimiter) (now now' : ℕ) (j ip : String)
    → j ≢ ip
    → now ≤ now'
    → fresh (allow l now j).0 now' ip ≡ fresh l now' ip
fresh-allow_other l now now' j ip ne le = elim (Bool-cases (blocked? l now j)) [
  | inl shut ↦ rw (allow-of_blocked l now j shut) (count_call-fresh l now now' ip le)
  | inr clear ↦
      let c = count_call l now in
      rw
        (
          allow-of_open l now j clear,
          record_attempt-times (lift_block c j) now j ip,
          ne_test j ip ne,
          lift_block-other c j ip ne,
          (record_attempt-settings (lift_block c j) now j).0,
          (lift_block-settings c j).0,
        )
        (count_call-fresh l now now' ip le)
]
