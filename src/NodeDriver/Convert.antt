-- ===== src/NodeDriver/Convert.antt =====
-- ProfileToProto and ProfileFromProto of internal/nodedriver/convert.go, with the profile of
-- driver.go and the limits of internal/domain/types.go. Go's int and int64 are integers, and a
-- conversion to a smaller or unsigned type keeps its wrap-around. A pointer is an Option.
pub mod Words
pub mod RoundTrip
mod Tests
use tgproxy_panel.Prelude.{
  ℕ, ◌-◌, ◌%◌, String, Bool, false, ◌&&◌, Option, none, some, ltb, if◌then◌else◌, ◌==◌, ℤ, pos,
  negsuc, nat_eq, string_eq,
}

-- A conversion of an integer to an unsigned one, below the modulus.
unfoldable pub to_uint : ℕ → ℤ → ℕ
to_uint modulus (pos n) = n % modulus
to_uint modulus (negsuc n) = modulus - 1 - n % modulus

-- A conversion of an unsigned integer to a signed one of the same width, with half the modulus.
unfoldable pub of_uint : ℕ → ℕ → ℕ → ℤ
of_uint half modulus n = if ltb n half then pos n else negsuc (modulus - 1 - n)

abbrev pub uint32 : ℤ → ℕ
uint32 = to_uint 4294967296

abbrev pub uint64 : ℤ → ℕ
uint64 = to_uint 18446744073709551616

unfoldable pub int32 : ℤ → ℤ
unfolding to_uint of_uint
int32 z = of_uint 2147483648 4294967296 (to_uint 4294967296 z)

unfoldable pub int64_of : ℕ → ℤ
unfolding of_uint
int64_of n = of_uint 9223372036854775808 18446744073709551616 n

-- domain.ProfileLimits, and agentv1.ProfileLimits with the same fields of type int32.
pub record ProfileLimits : Type 0 where
  pub max_sessions : ℤ
  pub max_streams : ℤ
  pub max_backend_dials_in_flight : ℤ
  pub new_sessions_per_minute : ℤ
  pub new_sessions_burst : ℤ
  pub new_streams_per_minute : ℤ
  pub new_streams_burst : ℤ
  pub max_streams_per_session : ℤ
  pub max_pending_per_session : ℤ

-- domain.TelemtLimits
pub record TelemtLimits : Type 0 where
  pub data_quota_bytes : ℤ
  pub rate_limit_up_bps : ℤ
  pub rate_limit_down_bps : ℤ
  pub max_unique_ips : ℤ
  pub max_tcp_conns : ℤ
  pub data_quota_period : String

-- A time.Time in UTC: the seconds since 1970 and the nanoseconds on top.
pub record Time : Type 0 where
  pub seconds : ℤ
  pub nanos : ℕ

-- nodedriver.Profile
pub record Profile : Type 0 where
  pub name : String
  pub secret : String
  pub backend : String
  pub carrier_mode : String
  pub limits : Option ProfileLimits
  pub telemt : Option TelemtLimits
  pub expires_at : Option Time
  pub enabled : Bool
  pub quota_reset_at : Option Time

-- agentv1.Profile
pub record ProtoProfile : Type 0 where
  pub name : String
  pub secret : String
  pub backend : String
  pub carrier_mode : String
  pub enabled : Bool
  pub data_quota_bytes : ℕ
  pub rate_limit_up_bps : ℕ
  pub rate_limit_down_bps : ℕ
  pub max_unique_ips : ℕ
  pub max_tcp_conns : ℕ
  pub expires_at_unix : ℤ
  pub quota_reset_unix : ℤ
  pub limits : Option ProfileLimits

unfoldable pub limits_to_proto : ProfileLimits → ProfileLimits
limits_to_proto l = record {
  max_sessions = int32 l.max_sessions;
  max_streams = int32 l.max_streams;
  max_backend_dials_in_flight = int32 l.max_backend_dials_in_flight;
  new_sessions_per_minute = int32 l.new_sessions_per_minute;
  new_sessions_burst = int32 l.new_sessions_burst;
  new_streams_per_minute = int32 l.new_streams_per_minute;
  new_streams_burst = int32 l.new_streams_burst;
  max_streams_per_session = int32 l.max_streams_per_session;
  max_pending_per_session = int32 l.max_pending_per_session;
}

-- The Unix seconds of a pointer to a time, 0 for nil.
abbrev pub unix_or_zero : Option Time → ℤ
unix_or_zero none = pos 0
unix_or_zero (some t) = t.seconds

abbrev pub no_limits : TelemtLimits
no_limits = record {
  data_quota_bytes = pos 0;
  rate_limit_up_bps = pos 0;
  rate_limit_down_bps = pos 0;
  max_unique_ips = pos 0;
  max_tcp_conns = pos 0;
  data_quota_period = "";
}

abbrev pub telemt_or_zero : Option TelemtLimits → TelemtLimits
telemt_or_zero none = no_limits
telemt_or_zero (some t) = t

abbrev pub map_limits :
    (ProfileLimits → ProfileLimits) → Option ProfileLimits → Option ProfileLimits
map_limits f none = none
map_limits f (some l) = some (f l)

unfoldable pub profile_to_proto : Profile → ProtoProfile
unfolding to_uint
profile_to_proto p =
    let t = telemt_or_zero p.telemt in
    record {
      name = p.name;
      secret = p.secret;
      backend = p.backend;
      carrier_mode = p.carrier_mode;
      enabled = p.enabled;
      data_quota_bytes = uint64 t.data_quota_bytes;
      rate_limit_up_bps = uint64 t.rate_limit_up_bps;
      rate_limit_down_bps = uint64 t.rate_limit_down_bps;
      max_unique_ips = uint32 t.max_unique_ips;
      max_tcp_conns = uint32 t.max_tcp_conns;
      expires_at_unix = unix_or_zero p.expires_at;
      quota_reset_unix = unix_or_zero p.quota_reset_at;
      limits = map_limits limits_to_proto p.limits;
    }

abbrev pub is_zero : ℤ → Bool
is_zero (pos n) = n == 0
is_zero (negsuc n) = false

-- A time of the wire: none for 0.
abbrev pub time_of : ℤ → Option Time
time_of v = if is_zero v then none else some (record { seconds = v; nanos = 0 })

-- `tl == (domain.TelemtLimits{})`
unfoldable pub is_no_limits : TelemtLimits → Bool
is_no_limits t =
    is_zero t.data_quota_bytes
    && is_zero t.rate_limit_up_bps
    && is_zero t.rate_limit_down_bps
    && is_zero t.max_unique_ips
    && is_zero t.max_tcp_conns
    && (t.data_quota_period == "")

unfoldable pub telemt_of : ProtoProfile → TelemtLimits
telemt_of p = record {
  data_quota_bytes = int64_of p.data_quota_bytes;
  rate_limit_up_bps = int64_of p.rate_limit_up_bps;
  rate_limit_down_bps = int64_of p.rate_limit_down_bps;
  max_unique_ips = pos p.max_unique_ips;
  max_tcp_conns = pos p.max_tcp_conns;
  data_quota_period = "";
}

abbrev pub some_limits : TelemtLimits → Option TelemtLimits
some_limits t = if is_no_limits t then none else some t

unfoldable pub profile_from_proto : ProtoProfile → Profile
profile_from_proto p = record {
  name = p.name;
  secret = p.secret;
  backend = p.backend;
  carrier_mode = p.carrier_mode;
  limits = p.limits;
  telemt = some_limits (telemt_of p);
  expires_at = time_of p.expires_at_unix;
  enabled = p.enabled;
  quota_reset_at = time_of p.quota_reset_unix;
}
