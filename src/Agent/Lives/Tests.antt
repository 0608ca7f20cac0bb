-- ===== src/Agent/Lives/Tests.antt =====
-- A policy that is set, and ticks that restart the engine.
use tgproxy_panel.Prelude.{◌≡◌, refl, ◌≢◌, true, some, arith}
use tgproxy_panel.Agent.Files.{failed_late, missing}
use tgproxy_panel.Agent.Recovery.{Recovery, new_recovery, recovery_tick, start}
use tgproxy_panel.Agent.Configure.{configure}
use tgproxy_panel.Agent.Lives.{boots, sets, start-survives, ticks}
use tgproxy_panel.Agent.Samples.{calm_request, direct_engine, restarts_engine, silent_at, small_net}

abbrev set_up : Recovery
set_up =
    (configure small_net calm_request (some (some restarts_engine)) (new_recovery missing)
      direct_engine).0

abbrev repaired : Recovery
repaired =
    (recovery_tick (silent_at 8000) (recovery_tick (silent_at 7970) set_up direct_engine).0
      direct_engine).0

sure : calm_request.write ≢ failed_late
sure e = ground arith

start-survives_example : start small_net repaired.file ≡ (record repaired { failures = 0 }, true)
start-survives_example = start-survives small_net (
    ticks (silent_at 8000) direct_engine refl refl (
      ticks (silent_at 7970) direct_engine refl refl
        (sets calm_request (some (some restarts_engine)) direct_engine sure boots)))
