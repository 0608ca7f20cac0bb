-- ===== src/Agent/Configure/Tests.antt =====
-- A request whose route does not come up.
use tgproxy_panel.Prelude.{◌≡◌, refl, ◌≢◌, false, Option, none, some, arith}
use tgproxy_panel.Reliability.Policy.{Policy, endpoint_ok, validate}
use tgproxy_panel.Agent.Egress.{Engine, apply_egress, came_up, patched, probe_egress}
use tgproxy_panel.Agent.Recovery.{Recovery, RecoveryState, save_recovery, saved_state}
use tgproxy_panel.Agent.Configure.{
  ConfigureHost, adopt, change_route, changes_route, configure, keeps_route, set_policy,
}
use tgproxy_panel.Agent.Configure.Settings.{Failed, configure_error}
use tgproxy_panel.Agent.Samples.{
  calm_request, direct_engine, node_at_rest, open_road, restarts_engine, small_net,
}
use tgproxy_panel.Agent.Files.{write_atomic}

abbrev to_socks : Policy
to_socks = record restarts_engine { egress = "socks5"; socks_address = "127.0.0.1:1080" }

abbrev no_road : ConfigureHost
no_road = record calm_request { egress = record open_road { ready = false } }

abbrev refused_request : Recovery × Engine × Option RecoveryState
refused_request = configure small_net no_road (some (some to_socks)) node_at_rest direct_engine

answers :
    (refused_request.2 ≡ none)
    × ((configure small_net calm_request (some (some to_socks)) node_at_rest direct_engine).2
        ≢ none)
unfolding configure set_policy validate endpoint_ok keeps_route changes_route change_route adopt
    save_recovery saved_state apply_egress probe_egress came_up write_atomic patched
answers = (refl, λ e. ground arith)

configure_error_example : Failed node_at_rest direct_engine refused_request.0 refused_request.1
configure_error_example =
    configure_error small_net no_road (some (some to_socks)) node_at_rest direct_engine refl refl
      answers.0
