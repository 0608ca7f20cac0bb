-- ===== src/Reliability/Report.antt =====
-- internal/reliability/types.go: the report of an agent, as far as findings.go reads it.
-- A time is a number of nanoseconds, and counters are natural numbers.
use tgproxy_panel.Prelude.{ℕ, String, Bool, Option, List, ℤ}

abbrev pub second : ℕ
second = 1000000000

pub record Window : Type 0 where
  pub success : ℕ
  pub failed : ℕ
  pub at : ℕ

pub record Route : Type 0 where
  pub healthy : Bool
  pub age : ℤ

pub record Resources : Type 0 where
  pub fd_used : Option ℕ
  pub fd_limit : Option ℕ
  pub conntrack_used : Option ℕ
  pub conntrack_limit : Option ℕ
  pub inodes_used_percent : Option ℕ

pub record Dc : Type 0 where
  pub id : ℤ
  pub alive : ℤ
  pub required : ℤ

pub record MePoolState : Type 0 where
  pub pending_generation : ℕ
  pub pending_age_seconds : Option ℕ
  pub hardswap_enabled : Bool
  pub pending : Bool
  pub pending_map_current : Option Bool
  pub writer_deficit : Option ℕ
  pub missing_dc_groups : Option ℕ
  pub orphan_warm_writers : Option ℕ
  pub replacement_preparing : Option ℕ
  pub replacement_retiring : Option ℕ
  pub orphan_observed_seconds : Option ℕ
  pub replacement_observed_seconds : Option ℕ

-- The zero time is none.
pub record MePool : Type 0 where
  pub at : Option ℕ
  pub enabled : Bool
  pub reason : String
  pub state : Option MePoolState

pub record Report : Type 0 where
  pub version : ℤ
  pub at : ℕ
  pub me_pool : Option MePool
  pub connections : Option Window
  pub routes : List Route
  pub resources : Resources
  pub dcs : List Dc
