-- ===== src/Domain/WebPolicy/Limits.antt =====
-- Per-profile limits against the node's ceilings.
use tgproxy_panel.Prelude.{◌≡◌, ◌↔◌, ◌⊎◌, none, arith, ℤ, pos, ◌≤ℤ◌}
use tgproxy_panel.Domain.WebPolicy.{
  LimitName, WebGlobalLimits, WebProfileLimits, check_limit, max_sessions, max_streams,
  max_streams_per_session, validate_limits,
}

-- A limit that is set stays under a ceiling that is set.
abbrev pub Fits : ℤ → ℤ → Type 0
Fits v ceiling = (pos 0 ≤ℤ v) × ((ceiling ≤ℤ pos 0) ⊎ (v ≤ℤ ceiling))

check_limit_iff :
    (name : LimitName) (v ceiling : ℤ) → (check_limit name v ceiling ≡ none) ↔ Fits v ceiling
unfolding check_limit
check_limit_iff name v ceiling = (λ h. (ground arith, ground arith), λ h. ground arith)

-- Limits are accepted exactly when none is negative and each lies under its ceiling, where zero
-- stands for a limit or a ceiling that is not set.
pub validate_limits_iff :
    (l : WebProfileLimits) (g : WebGlobalLimits)
    → (validate_limits l g ≡ none) ↔ (
        Fits l.max_sessions g.max_sessions
        × Fits l.max_streams g.max_streams
        × Fits l.max_streams_per_session g.max_streams_per_session)
unfolding validate_limits
validate_limits_iff l g =
    let (to_s, from_s) = check_limit_iff max_sessions l.max_sessions g.max_sessions in
    let (to_t, from_t) = check_limit_iff max_streams l.max_streams g.max_streams in
    let (to_p, from_p) =
      check_limit_iff max_streams_per_session l.max_streams_per_session g.max_streams_per_session in
    (
      λ h. (to_s (ground arith), to_t (ground arith), to_p (ground arith)),
      λ h. ground (arith, from_s h.0, from_t h.1, from_p h.2),
    )
