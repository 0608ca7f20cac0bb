-- ===== src/Reliability/Policy/Tests.antt =====
-- Policies against a small network library that knows one loopback endpoint.
use tgproxy_panel.Prelude.{
  ◌≡◌, refl, ◌↔◌, true, false, none, some, if◌then◌else◌, ◌==◌, pos, negsuc, nat_eq, string_eq,
}
use tgproxy_panel.Reliability.Policy.{
  Net, Policy, bad_thresholds, default_policy, endpoint_ok, missing_primary, validate,
}
use tgproxy_panel.Reliability.Policy.Rules.{IsValid, validate_iff}

abbrev toy_net : Net
toy_net = record {
  split_host_port = λ s. if s == "127.0.0.1:1080" then some ("127.0.0.1", "1080") else none;
  atoi = λ s. if s == "1080" then some (pos 1080) else none;
  parse_ip = λ s. if s == "127.0.0.1" then some true else none;
}

abbrev failover : Policy
failover = record {
  restore_primary = false;
  recovery = "restart";
  maintenance = false;
  failure_threshold = pos 3;
  cooldown_seconds = pos 300;
  max_actions_hour = pos 2;
  egress = "direct";
  socks_address = "";
  reserve_socks_address = "127.0.0.1:1080";
  automatic_failover = true;
}

validations :
    (validate toy_net default_policy ≡ none)
    × (validate toy_net failover ≡ none)
    × (validate toy_net (record failover { egress = "socks5" }) ≡ some missing_primary)
    × (validate toy_net (record failover { failure_threshold = negsuc 0 }) ≡ some bad_thresholds)
unfolding validate default_policy endpoint_ok
validations = (refl, refl, refl, refl)

validate_iff_example : (validate toy_net failover ≡ none) ↔ IsValid toy_net failover
validate_iff_example = validate_iff toy_net failover
