-- ===== src/Agent/Configure.antt =====
-- configureReliability of internal/agent/recovery.go: the panel sets a node's recovery policy.
pub mod Settings
mod Tests
use tgproxy_panel.Prelude.{
  String, Bool, true, false, not, ◌&&◌, ◌||◌, Option, none, some, if◌then◌else◌, ◌==◌, ◌!=◌, nat_eq,
  string_eq,
}
use tgproxy_panel.Reliability.Policy.{Net, Policy, validate}
use tgproxy_panel.Agent.Files.{Write}
use tgproxy_panel.Agent.Egress.{EgressHost, Engine, Patch, apply_egress, or_empty, patched}
use tgproxy_panel.Agent.Recovery.{Recovery, RecoveryState, save_recovery, saved_state}

-- What a request meets: the locks and checks before it, the answers of telemt, and the write.
pub record ConfigureHost : Type 0 where
  pub maintenance_free : Bool
  pub journal_clear : Bool
  pub is_telemt : Bool
  pub get_config : Bool
  pub egress : EgressHost
  pub write : Write
  pub undo : Patch

-- The active route of a policy.
abbrev pub desired : Policy → String
desired p = if p.egress == "socks5" then p.socks_address else p.egress

unfoldable pub changes_route : Policy → Policy → String → Bool
changes_route p old active =
    (p.egress != "unmanaged")
    && ((p.egress != old.egress)
        || (p.socks_address != old.socks_address)
        || (p.restore_primary && (active != desired p)))

-- The error of handing routing back while another route than the direct one is active.
unfoldable pub keeps_route : Policy → Policy → String → Bool
keeps_route p old active =
    (p.egress == "unmanaged") && (old.egress != "unmanaged") && (active != "direct")

-- The route is changed, when it has to be; none for an error.
unfoldable pub change_route : ConfigureHost → Bool → Policy → Engine → Engine × Bool
change_route h change p e =
    if not change
    then (e, true)
    else if not h.get_config
    then (e, false)
    else apply_egress h.egress e (if p.egress == "socks5" then p.socks_address else "")

-- The policy is taken over and saved; a save that fails takes the policy and the route back.
unfoldable pub adopt :
    ConfigureHost
    → Bool
    → Policy
    → Recovery
    → Engine
    → Engine
    → Recovery × Engine × Option RecoveryState
adopt h change p r before e =
    let active = if change || (p.egress == "unmanaged") then desired p else r.active_egress in
    let (r', ok) =
      save_recovery h.write
        (record r { policy = record p { restore_primary = false }; active_egress = active }) in
    if ok then (r', e, some (saved_state r')) else (
      record r' { policy = r.policy; active_egress = r.active_egress },
      if change then patched h.undo (or_empty before.routes) e else e,
      none,
    )

-- The request of a policy that has been decoded and is valid.
unfoldable pub set_policy :
    ConfigureHost → Policy → Recovery → Engine → Recovery × Engine × Option RecoveryState
set_policy h p r e =
    if keeps_route p r.policy r.active_egress
    then (r, e, none)
    else let change = changes_route p r.policy r.active_egress in
      let (e', up) = change_route h change p e in
      if up then adopt h change p r e e' else (r, e', none)

-- configureReliability: the request is empty (none), does not decode (some none), or has a policy;
-- the answer is none for an error.
unfoldable pub configure :
    Net
    → ConfigureHost
    → Option (Option Policy)
    → Recovery
    → Engine
    → Recovery × Engine × Option RecoveryState
configure net h request r e = if not h.maintenance_free then (r, e, none) else elim request [
  | none ↦ (r, e, some (saved_state r))
  | some decoded ↦ if not h.journal_clear || not h.is_telemt then (r, e, none) else elim decoded [
    | none ↦ (r, e, none)
    | some p ↦ elim (validate net p) [ some bad ↦ (r, e, none) | none ↦ set_policy h p r e ]
  ]
]
