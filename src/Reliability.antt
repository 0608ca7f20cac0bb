-- ===== src/Reliability.antt =====
-- internal/reliability: the contract between a node's reports and the panel.
pub mod Policy
pub mod Probe
pub mod Report
pub mod Findings
use tgproxy_panel.Prelude.{String, Bool}

-- A finding of one check: whether the check failed, and whether it could be made at all.
pub record Finding : Type 0 where
  pub kind : String
  pub message : String
  pub failed : Bool
  pub known : Bool
