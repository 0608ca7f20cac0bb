-- ===== src/NodeDriver/Convert/RoundTrip.antt =====
-- What a profile is after it has been sent to a node and read there.
use mathlib.Core.Bool.{true≢false}
use tgproxy_panel.Prelude.{
  ◌≡◌, refl, sym, ap, ◌∙◌, ◌≢◌, ◌↔◌, inl, inr, true, Option, none, some, arith, Bool-cases, ℤ, pos,
  negsuc,
}
use tgproxy_panel.NodeDriver.Convert.{
  Profile, ProfileLimits, TelemtLimits, Time, is_no_limits, is_zero, limits_to_proto, map_limits,
  profile_from_proto, profile_to_proto, some_limits, telemt_of, telemt_or_zero, time_of,
  unix_or_zero,
}
use tgproxy_panel.NodeDriver.Convert.Words.{
  Fits, IsUint32, int32-Fits, int64_of-uint64, uint32-IsUint32,
}

abbrev pub LimitsFit : ProfileLimits → Type 0
LimitsFit l =
    Fits 2147483648 l.max_sessions
    × Fits 2147483648 l.max_streams
    × Fits 2147483648 l.max_backend_dials_in_flight
    × Fits 2147483648 l.new_sessions_per_minute
    × Fits 2147483648 l.new_sessions_burst
    × Fits 2147483648 l.new_streams_per_minute
    × Fits 2147483648 l.new_streams_burst
    × Fits 2147483648 l.max_streams_per_session
    × Fits 2147483648 l.max_pending_per_session

abbrev pub TelemtFits : TelemtLimits → Type 0
TelemtFits t =
    Fits 9223372036854775808 t.data_quota_bytes
    × Fits 9223372036854775808 t.rate_limit_up_bps
    × Fits 9223372036854775808 t.rate_limit_down_bps
    × IsUint32 t.max_unique_ips
    × IsUint32 t.max_tcp_conns

abbrev pub IfSome {ℓ} : {A : Type ℓ} → (A → Type 0) → Option A → Type 0
IfSome P none = Unit
IfSome P (some x) = P x

limits_to_proto-LimitsFit : (l : ProfileLimits) → LimitsFit l → limits_to_proto l ≡ l
unfolding limits_to_proto
limits_to_proto-LimitsFit l (a, b, c, d, e, f, g, h, i) =
    rw
      (
        int32-Fits l.max_sessions a,
        int32-Fits l.max_streams b,
        int32-Fits l.max_backend_dials_in_flight c,
        int32-Fits l.new_sessions_per_minute d,
        int32-Fits l.new_sessions_burst e,
        int32-Fits l.new_streams_per_minute f,
        int32-Fits l.new_streams_burst g,
        int32-Fits l.max_streams_per_session h,
        int32-Fits l.max_pending_per_session i,
      )
      refl

limits_kept : (l : Option ProfileLimits) → IfSome LimitsFit l → map_limits limits_to_proto l ≡ l
limits_kept none fits = refl
limits_kept (some l) fits = ap some (limits_to_proto-LimitsFit l fits)

telemt_kept :
    (p : Profile)
    → TelemtFits (telemt_or_zero p.telemt)
    → telemt_of (profile_to_proto p) ≡ record (telemt_or_zero p.telemt) { data_quota_period = "" }
unfolding profile_to_proto telemt_of
telemt_kept p (a, b, c, d, e) =
    let t = telemt_or_zero p.telemt in
    rw
      (
        int64_of-uint64 t.data_quota_bytes a,
        int64_of-uint64 t.rate_limit_up_bps b,
        int64_of-uint64 t.rate_limit_down_bps c,
        uint32-IsUint32 t.max_unique_ips d,
        uint32-IsUint32 t.max_tcp_conns e,
      )
      refl

-- A time as a node gets it: in whole seconds, with the first second of 1970 as none.
pub data SentTime : Option Time → Option Time → Type 0 where
  no_time : SentTime none none
  epoch : (t : Time) → t.seconds ≡ pos 0 → SentTime (some t) none
  whole : (t : Time) → t.seconds ≢ pos 0 → SentTime (some t) (some (record t { nanos = 0 }))

abbrev AllZero : TelemtLimits → Type 0
AllZero t =
    (t.data_quota_bytes ≡ pos 0)
    × (t.rate_limit_up_bps ≡ pos 0)
    × (t.rate_limit_down_bps ≡ pos 0)
    × (t.max_unique_ips ≡ pos 0)
    × (t.max_tcp_conns ≡ pos 0)

-- Limits of telemt as a node gets them: without the period of the quota, and none if all are zero.
pub data SentLimits : Option TelemtLimits → Option TelemtLimits → Type 0 where
  not_limited : SentLimits none none
  all_zero : (t : TelemtLimits) → AllZero t → SentLimits (some t) none
  some_set :
      (t : TelemtLimits)
      → (AllZero t → ⊥)
      → SentLimits (some t) (some (record t { data_quota_period = "" }))

-- A profile as a node gets it.
abbrev pub Sent : Profile → Profile → Type 0
Sent p q =
    (q.name ≡ p.name)
    × (q.secret ≡ p.secret)
    × (q.backend ≡ p.backend)
    × (q.carrier_mode ≡ p.carrier_mode)
    × (q.enabled ≡ p.enabled)
    × (q.limits ≡ p.limits)
    × SentLimits p.telemt q.telemt
    × SentTime p.expires_at q.expires_at
    × SentTime p.quota_reset_at q.quota_reset_at

is_zero_iff : (z : ℤ) → (is_zero z ≡ true) ↔ (z ≡ pos 0)
is_zero_iff (pos n) = (λ h. ground arith, λ h. ground arith)
is_zero_iff (negsuc n) = (λ h. ground arith, λ h. ground arith)

time_of-SentTime : (t : Option Time) → SentTime t (time_of (unix_or_zero t))
time_of-SentTime none = no_time
time_of-SentTime (some t) = elim (Bool-cases (is_zero t.seconds)) [
  | inl zero_seconds ↦ rw zero_seconds (epoch t ((is_zero_iff t.seconds).0 zero_seconds))
  | inr later ↦ rw later (whole t (λ e. true≢false (sym ((is_zero_iff t.seconds).1 e) ∙ later)))
]

no_limits_iff :
    (t : TelemtLimits) → (is_no_limits (record t { data_quota_period = "" }) ≡ true) ↔ AllZero t
unfolding is_no_limits
no_limits_iff t =
    let a = is_zero_iff t.data_quota_bytes in
    let b = is_zero_iff t.rate_limit_up_bps in
    let c = is_zero_iff t.rate_limit_down_bps in
    let d = is_zero_iff t.max_unique_ips in
    let e = is_zero_iff t.max_tcp_conns in
    (
      λ h. (
        a.0 (ground arith),
        b.0 (ground arith),
        c.0 (ground arith),
        d.0 (ground arith),
        e.0 (ground arith),
      ),
      λ (v, w, x, y, z). rw (a.1 v, b.1 w, c.1 x, d.1 y, e.1 z) refl,
    )

some_limits-SentLimits :
    (t : Option TelemtLimits)
    → SentLimits t (some_limits (record (telemt_or_zero t) { data_quota_period = "" }))
some_limits-SentLimits none = unfold is_no_limits in not_limited
some_limits-SentLimits (some t) =
    let wire : TelemtLimits = record t { data_quota_period = "" } in
    elim (Bool-cases (is_no_limits wire)) [
      | inl nothing ↦ rw nothing (all_zero t ((no_limits_iff t).0 nothing))
      | inr set ↦ rw set (some_set t (λ e. true≢false (sym ((no_limits_iff t).1 e) ∙ set)))
    ]

-- A profile whose limits fit the types of the wire comes back with all its fields, except that limits
-- of telemt that are all zero are none, the period of the quota is dropped, and a time is in whole
-- seconds with the first second of 1970 as none.
pub profile_from_proto-profile_to_proto :
    (p : Profile)
    → IfSome LimitsFit p.limits
    → TelemtFits (telemt_or_zero p.telemt)
    → Sent p (profile_from_proto (profile_to_proto p))
unfolding profile_from_proto profile_to_proto
profile_from_proto-profile_to_proto p small fits = rw (telemt_kept p fits) (
  refl,
  refl,
  refl,
  refl,
  refl,
  limits_kept p.limits small,
  some_limits-SentLimits p.telemt,
  time_of-SentTime p.expires_at,
  time_of-SentTime p.quota_reset_at,
)
