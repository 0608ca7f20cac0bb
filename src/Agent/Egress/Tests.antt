-- ===== src/Agent/Egress/Tests.antt =====
-- A change to a SOCKS route, with an engine that comes up and one that does not.
use tgproxy_panel.Prelude.{◌≡◌, refl, ◌⊎◌, true, false, List, [], ◌∷◌, ◌++◌, all}
use tgproxy_panel.Agent.Egress.{
  EgressHost, Upstream, apply_egress, came_up, has_scope, or_empty, patched, probe_egress,
  scoped_routes, telegram_dcs, upstreams,
}
use tgproxy_panel.Agent.Egress.Routes.{
  KeepsOf, LeadsOver, apply_egress-failure, apply_egress-success,
}
use tgproxy_panel.Agent.Samples.{direct_engine, open_road}

abbrev never_ready : EgressHost
never_ready = record open_road { ready = false }

moved :
    ((apply_egress open_road direct_engine "127.0.0.1:1080").1 ≡ true)
    × ((apply_egress never_ready direct_engine "127.0.0.1:1080").1 ≡ false)
    × (apply_egress never_ready direct_engine "127.0.0.1:1080").0.routes ≡ direct_engine.routes
unfolding apply_egress probe_egress came_up patched scoped_routes has_scope or_empty
moved = (refl, refl, refl)

apply_egress-success_example :
    (all (open_road.reaches "127.0.0.1:1080") telegram_dcs ≡ true)
    × ((kept : List Upstream) × (new : Upstream) × ((apply_egress open_road direct_engine
            "127.0.0.1:1080").0.routes
          ≡ upstreams (kept ++ new ∷ []))
        × KeepsOf direct_engine.routes kept
        × LeadsOver "127.0.0.1:1080" new)
apply_egress-success_example =
    apply_egress-success open_road direct_engine "127.0.0.1:1080" (λ e. refl) moved.0

apply_egress-failure_example :
    ((apply_egress never_ready direct_engine "127.0.0.1:1080").0.routes ≡ direct_engine.routes)
    ⊎ ((apply_egress never_ready direct_engine "127.0.0.1:1080").0.routes
        ≡ or_empty direct_engine.routes)
apply_egress-failure_example =
    apply_egress-failure never_ready direct_engine "127.0.0.1:1080" refl moved.1
