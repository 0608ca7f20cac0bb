-- ===== src/Agent/Configure/Settings.antt =====
-- What a request leaves behind: the policy and the file, and the routes when it fails.
use tgproxy_panel.Prelude.{
  ◌≡◌, refl, ◌⊎◌, inl, inr, Bool, true, false, Option, none, some, arith, if◌then◌else◌, ◌==◌,
  Bool-cases, nat_eq, string_eq,
}
use tgproxy_panel.Reliability.Policy.{Net, Policy}
use tgproxy_panel.Agent.Egress.{Engine, or_empty, patched}
use tgproxy_panel.Agent.Egress.Routes.{apply_egress-failure}
use tgproxy_panel.Agent.Recovery.{Recovery, save_recovery}
use tgproxy_panel.Agent.Configure.{
  ConfigureHost, adopt, change_route, changes_route, configure, keeps_route, set_policy,
}

-- Apart from the file, the recovery of two moments is the same.
abbrev pub SameSettings : Recovery → Recovery → Type 0
SameSettings r r' =
    (r'.policy ≡ r.policy)
    × (r'.active_egress ≡ r.active_egress)
    × (r'.events ≡ r.events)
    × (r'.last ≡ r.last)
    × (r'.failures ≡ r.failures)

-- The routes are those from before, or the empty list for none.
abbrev pub SameRoutes : Engine → Engine → Type 0
SameRoutes e e' = (e'.routes ≡ e.routes) ⊎ (e'.routes ≡ or_empty e.routes)

-- What a request that fails leaves, from the state before it.
abbrev pub Failed : Recovery → Engine → Recovery → Engine → Type 0
Failed r e r' e' = SameSettings r r' × SameRoutes e e'

unchanged-Failed : (r : Recovery) (e : Engine) → Failed r e r e
unchanged-Failed r e = ((refl, refl, refl, refl, refl), inl refl)

adopt-Failed :
    (h : ConfigureHost) (change : Bool) (p : Policy) (r : Recovery) (before e : Engine)
    → h.undo.takes_effect ≡ true
    → (change ≡ false → e ≡ before)
    → (adopt h change p r before e).2 ≡ none
    → Failed r before (adopt h change p r before e).0 (adopt h change p r before e).1
unfolding adopt save_recovery patched
adopt-Failed h true p r before e undo same failed = ground arith
adopt-Failed h false p r before e undo same failed = ground arith

-- A route that is not changed is the one from before; a change that fails puts it back.
change_route-SameRoutes :
    (h : ConfigureHost) (change : Bool) (p : Policy) (e : Engine)
    → h.egress.undo.takes_effect ≡ true
    → (change_route h change p e).1 ≡ false
    → SameRoutes e (change_route h change p e).0
unfolding change_route
change_route-SameRoutes h change p e undo down = ground (
  arith,
  apply_egress-failure h.egress e (if p.egress == "socks5" then p.socks_address else "") undo,
)

unchanged_route :
    (h : ConfigureHost) (change : Bool) (p : Policy) (e : Engine)
    → change ≡ false
    → (change_route h change p e).0 ≡ e
unfolding change_route
unchanged_route h change p e keep = ground arith

set_policy-Failed :
    (h : ConfigureHost) (p : Policy) (r : Recovery) (e : Engine)
    → h.undo.takes_effect ≡ true
    → h.egress.undo.takes_effect ≡ true
    → (set_policy h p r e).2 ≡ none
    → Failed r e (set_policy h p r e).0 (set_policy h p r e).1
unfolding set_policy
set_policy-Failed h p r e undo egress_undo failed =
    elim (Bool-cases (keeps_route p r.policy r.active_egress)) [
      | inl keeps ↦ rw keeps (unchanged-Failed r e)
      | inr goes ↦
          let change = changes_route p r.policy r.active_egress in
          let routed = change_route h change p e in
          let taken : (adopt h change p r e routed.0).2 ≡ none
              → Failed r e (adopt h change p r e routed.0).0 (adopt h change p r e routed.0).1 =
            adopt-Failed h change p r e routed.0 undo (unchanged_route h change p e) in
          elim (Bool-cases routed.1) [
            | inl up ↦ rw (goes, up) (taken (rw (goes, up) at failed))
            | inr down ↦
                rw (goes, down)
                  (
                    (refl, refl, refl, refl, refl),
                    change_route-SameRoutes h change p e egress_undo down,
                  )
          ]
    ]

-- A request that is answered with an error changes nothing that the agent goes by: the policy, the
-- active route, the log and the counters stay, and the engine has its old routes when it takes the
-- patch that restores them.
pub configure_error :
    (net : Net) (h : ConfigureHost) (request : Option (Option Policy)) (r : Recovery) (e : Engine)
    → h.undo.takes_effect ≡ true
    → h.egress.undo.takes_effect ≡ true
    → (configure net h request r e).2 ≡ none
    → Failed r e (configure net h request r e).0 (configure net h request r e).1
unfolding configure
configure_error net h none r e undo egress_undo failed = ground (arith, unchanged-Failed r e)
configure_error net h (some none) r e undo egress_undo failed = ground (arith, unchanged-Failed r e)
configure_error net h (some (some p)) r e undo egress_undo failed =
    ground (arith, unchanged-Failed r e, set_policy-Failed h p r e undo egress_undo)
