-- ===== src/Reliability/Findings/Tests.antt =====
-- A pool that was measured at time 0, and one connection window.
use tgproxy_panel.Prelude.{String, ◌≡◌, refl, true, false, none, some, [], ◌∷◌, length, All, ℤ, pos}
use tgproxy_panel.Reliability.Report.{MePool, MePoolState, Report, Resources, Window}
use tgproxy_panel.Reliability.Findings.{
  age_known, backlog, connection_findings, coverage_known, dc_findings, findings, hardswap_deficit,
  hardswap_pending, inode_findings, mature, me_pool_findings, no_pending, orphan_writers, ratio,
  route_findings,
}
use tgproxy_panel.Reliability.Findings.Evidence.{Grounded, me_pool_findings-Grounded}

abbrev pending_state : MePoolState
pending_state = record {
  pending_generation = 7;
  pending_age_seconds = some 1600;
  hardswap_enabled = true;
  pending = true;
  pending_map_current = some true;
  writer_deficit = some 0;
  missing_dc_groups = some 0;
  orphan_warm_writers = some 2;
  replacement_preparing = none;
  replacement_retiring = some 0;
  orphan_observed_seconds = some 10;
  replacement_observed_seconds = none;
}

abbrev pool : MePool
pool = record { at = some 0; enabled = true; reason = ""; state = some pending_state }

abbrev quiet : Resources
quiet = record {
  fd_used = some 9;
  fd_limit = some 10;
  conntrack_used = none;
  conntrack_limit = some 5;
  inodes_used_percent = none;
}

abbrev busy_window : Window
busy_window = record { success = 3; failed = 1; at = 0 }

abbrev node_report : Report
node_report = record {
  version = pos 1;
  at = 0;
  me_pool = some pool;
  connections = some busy_window;
  routes = [];
  resources = quiet;
  dcs = record { id = pos 2; alive = pos 0; required = pos 3 } ∷ [];
}

abbrev itoa_two : ℤ → String
itoa_two n = "2"

pool_verdicts :
    (hardswap_pending pending_state ≡ (true, true))
    × (orphan_writers pending_state ≡ (false, false))
    × (hardswap_deficit pending_state ≡ (false, true))
unfolding hardswap_pending orphan_writers hardswap_deficit age_known no_pending coverage_known
    mature backlog
pool_verdicts = (refl, refl, refl)

report_size : length (findings itoa_two node_report 5) ≡ 8
unfolding findings connection_findings route_findings dc_findings me_pool_findings ratio
    inode_findings
report_size = refl

me_pool_findings-Grounded_example : All (Grounded (some pool) 5) (me_pool_findings (some pool) 5)
me_pool_findings-Grounded_example = me_pool_findings-Grounded (some pool) 5
