-- ===== src/Reliability/Policy.antt =====
-- internal/reliability/types.go: the recovery policy of a node and its validation.
-- net.SplitHostPort, strconv.Atoi and net.ParseIP with IsLoopback are parameters.
pub mod Rules
mod Tests
use tgproxy_panel.Prelude.{
  String, Bool, false, not, ◌&&◌, ◌||◌, Option, none, some, if◌then◌else◌, ◌==◌, ◌!=◌, ℤ, pos,
  ltb_ℤ, nat_eq, string_eq,
}

pub record Policy : Type 0 where
  pub restore_primary : Bool
  pub recovery : String
  pub maintenance : Bool
  pub failure_threshold : ℤ
  pub cooldown_seconds : ℤ
  pub max_actions_hour : ℤ
  pub egress : String
  pub socks_address : String
  pub reserve_socks_address : String
  pub automatic_failover : Bool

unfoldable pub default_policy : Policy
default_policy = record {
  restore_primary = false;
  recovery = "observe";
  maintenance = false;
  failure_threshold = pos 3;
  cooldown_seconds = pos 300;
  max_actions_hour = pos 2;
  egress = "unmanaged";
  socks_address = "";
  reserve_socks_address = "";
  automatic_failover = false;
}

pub data PolicyError : Type 0 where
  bad_recovery bad_thresholds bad_egress bad_endpoint missing_primary : PolicyError
  same_reserve unmanaged_failover : PolicyError

-- What the validation asks of the standard library: none stands for an error or a nil address.
pub record Net : Type 0 where
  pub split_host_port : String → Option (String × String)
  pub atoi : String → Option ℤ
  -- whether the parsed address is a loopback one
  pub parse_ip : String → Option Bool

abbrev pub outside_ℤ : ℤ → ℤ → ℤ → Bool
outside_ℤ lo hi n = ltb_ℤ n lo || ltb_ℤ hi n

unfoldable pub is_port : Option ℤ → Bool
is_port none = false
is_port (some n) = not (outside_ℤ (pos 1) (pos 65535) n)

unfoldable pub is_loopback : Option Bool → Bool
is_loopback none = false
is_loopback (some b) = b

-- One round of the loop over the two addresses.
unfoldable pub endpoint_ok : Net → String → Bool
unfolding is_port is_loopback
endpoint_ok net addr = (addr == "") || (elim (net.split_host_port addr) [
  | none ↦ false
  | some (host, port) ↦ is_port (net.atoi port) && is_loopback (net.parse_ip host)
])

-- The returned error, or none.
unfoldable pub validate : Net → Policy → Option PolicyError
validate net p =
    if (p.recovery != "observe") && (p.recovery != "restart")
    then some bad_recovery
    else if outside_ℤ (pos 2) (pos 20) p.failure_threshold
        || outside_ℤ (pos 60) (pos 86400) p.cooldown_seconds
        || outside_ℤ (pos 1) (pos 6) p.max_actions_hour
    then some bad_thresholds
    else if (p.egress != "unmanaged") && (p.egress != "direct") && (p.egress != "socks5")
    then some bad_egress
    else if not (endpoint_ok net p.socks_address && endpoint_ok net p.reserve_socks_address)
    then some bad_endpoint
    else if (p.egress == "socks5") && (p.socks_address == "")
    then some missing_primary
    else if p.automatic_failover
        && (p.egress == "socks5")
        && (p.reserve_socks_address == p.socks_address)
    then some same_reserve
    else if p.automatic_failover && ((p.egress == "unmanaged") || (p.reserve_socks_address == ""))
    then some unmanaged_failover
    else none
