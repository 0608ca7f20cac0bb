-- ===== src/NodeDriver/Convert/Tests.antt =====
-- A profile with limits, a quota and an expiry.
use tgproxy_panel.Prelude.{◌≡◌, refl, true, none, some, arith, pos, negsuc}
use tgproxy_panel.NodeDriver.Convert.{
  Profile, int32, profile_from_proto, profile_to_proto, telemt_or_zero,
}
use tgproxy_panel.NodeDriver.Convert.RoundTrip.{
  IfSome, LimitsFit, TelemtFits, Sent, profile_from_proto-profile_to_proto,
}

abbrev limited : Profile
limited = record {
  name = "alice";
  secret = "aa";
  backend = "telegram";
  carrier_mode = "auto";
  limits = some (record {
    max_sessions = pos 100;
    max_streams = pos 200;
    max_backend_dials_in_flight = pos 8;
    new_sessions_per_minute = pos 60;
    new_sessions_burst = pos 10;
    new_streams_per_minute = pos 600;
    new_streams_burst = pos 100;
    max_streams_per_session = pos 16;
    max_pending_per_session = pos 4;
  });
  telemt = some (record {
    data_quota_bytes = pos 10737418240;
    rate_limit_up_bps = pos 0;
    rate_limit_down_bps = pos 0;
    max_unique_ips = pos 3;
    max_tcp_conns = pos 0;
    data_quota_period = "month";
  });
  expires_at = some (record { seconds = pos 1790000000; nanos = 5 });
  enabled = true;
  quota_reset_at = none;
}

wraps :
    (int32 (pos 4294967297) ≡ pos 1)
    × (int32 (pos 2147483648) ≡ negsuc 2147483647)
    × ((profile_to_proto limited).data_quota_bytes ≡ 10737418240)
    × ((profile_from_proto (profile_to_proto limited)).expires_at
        ≡ some (record { seconds = pos 1790000000; nanos = 0 }))
unfolding int32 profile_to_proto profile_from_proto
wraps = (refl, refl, refl, refl)

small : IfSome LimitsFit limited.limits
small = (
  (omega arith, omega arith),
  (omega arith, omega arith),
  (omega arith, omega arith),
  (omega arith, omega arith),
  (omega arith, omega arith),
  (omega arith, omega arith),
  (omega arith, omega arith),
  (omega arith, omega arith),
  (omega arith, omega arith),
)

fits : TelemtFits (telemt_or_zero limited.telemt)
fits = (
  (omega arith, omega arith),
  (omega arith, omega arith),
  (omega arith, omega arith),
  (refl, omega arith),
  (refl, omega arith),
)

profile_from_proto-profile_to_proto_example :
    Sent limited (profile_from_proto (profile_to_proto limited))
profile_from_proto-profile_to_proto_example = profile_from_proto-profile_to_proto limited small fits
