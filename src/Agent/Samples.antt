-- ===== src/Agent/Samples.antt =====
-- Data for the tests of the agent: a node that restarts its engine, and the answers it gets.
use tgproxy_panel.Prelude.{
  ℕ, ◌+◌, ◌*◌, true, false, none, some, [], ◌∷◌, if◌then◌else◌, ◌==◌, pos, nat_eq, string_eq,
}
use tgproxy_panel.Reliability.Policy.{Net, Policy}
use tgproxy_panel.Agent.Files.{done, missing}
use tgproxy_panel.Agent.Egress.{EgressHost, Engine, Patch, new_route, text, upstreams}
use tgproxy_panel.Agent.Recovery.{Recovery, Sight, no_answer}
use tgproxy_panel.Agent.Configure.{ConfigureHost}

abbrev pub small_net : Net
small_net = record {
  split_host_port = λ s. if s == "127.0.0.1:1080" then some ("127.0.0.1", "1080") else none;
  atoi = λ s. if s == "1080" then some (pos 1080) else none;
  parse_ip = λ s. if s == "127.0.0.1" then some true else none;
}

-- Restarts after two failures in a row, at most twice an hour and 60 seconds apart.
abbrev pub restarts_engine : Policy
restarts_engine = record {
  restore_primary = false;
  recovery = "restart";
  maintenance = false;
  failure_threshold = pos 2;
  cooldown_seconds = pos 60;
  max_actions_hour = pos 2;
  egress = "direct";
  socks_address = "";
  reserve_socks_address = "127.0.0.1:1080";
  automatic_failover = false;
}

abbrev pub node_at_rest : Recovery
node_at_rest = record {
  policy = restarts_engine;
  active_egress = "direct";
  events = [];
  last = none;
  failures = 0;
  file = missing;
}

abbrev pub good_patch : Patch
good_patch = record { takes_effect = true; succeeds = true; wants_restart = false }

-- Every data centre is reached, and the engine comes up.
abbrev pub open_road : EgressHost
open_road = record {
  get_config = true;
  reaches = λ addr target. true;
  patch = good_patch;
  restart = true;
  ready = true;
  undo = good_patch;
  undo_restart = true;
}

abbrev pub direct_engine : Engine
direct_engine = record {
  routes = upstreams (
      record { is_map = true; scopes = text "me"; kind = "socks5"; address = "127.0.0.1:9050" }
      ∷ new_route ""
      ∷ []);
  use_middle_proxy = false;
}

-- A tick at a time in seconds that finds the control API without an answer.
abbrev pub silent_at : ℕ → Sight
silent_at seconds = record {
  has_engine = true;
  maintenance_free = true;
  journal_clear = true;
  unit_active = true;
  web = none;
  expired = false;
  ready = no_answer;
  stats = none;
  now = seconds * 1000000000;
  attempt_write = done;
  egress = open_road;
  restart = true;
  done_at = seconds * 1000000000 + 5;
  failure_text = "";
  result_write = done;
}

abbrev pub calm_request : ConfigureHost
calm_request = record {
  maintenance_free = true;
  journal_clear = true;
  is_telemt = true;
  get_config = true;
  egress = open_road;
  write = done;
  undo = good_patch;
}
