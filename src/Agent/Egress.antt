-- ===== src/Agent/Egress.antt =====
-- applyEgress, probeEgress and hasScope of internal/agent/recovery.go: how the engine's outbound
-- route is changed, and changed back when the engine does not come up with it.
pub mod Routes
mod Tests
use tgproxy_panel.Prelude.{
  ℕ, String, Bool, true, false, not, ◌&&◌, ◌||◌, List, [], ◌∷◌, ◌++◌, ltb, if◌then◌else◌, ◌!=◌,
  keep_if, all, nat_eq, string_eq,
}

-- The value of "scopes" in an upstream, as far as hasScope tells it apart.
pub data Scopes : Type 0 where
  absent other : Scopes
  text : String → Scopes
  items : ℕ → Scopes

unfoldable pub has_scope : Scopes → Bool
has_scope absent = false
has_scope other = true
has_scope (text s) = s != ""
has_scope (items n) = ltb 0 n

-- An entry of "upstreams": `is_map` is whether it is an object.
pub record Upstream : Type 0 where
  pub is_map : Bool
  pub scopes : Scopes
  pub kind : String
  pub address : String

-- cfg["upstreams"]: nil, a list, or another value.
pub data Upstreams : Type 0 where
  no_upstreams : Upstreams
  upstreams : List Upstream → Upstreams
  odd_value : Upstreams

-- The engine as far as its routes go.
pub record Engine : Type 0 where
  pub routes : Upstreams
  pub use_middle_proxy : Bool

-- A call of PatchConfig: whether the engine takes the change, whether the call returns nil, and
-- whether the answer asks for a restart.
pub record Patch : Type 0 where
  pub takes_effect : Bool
  pub succeeds : Bool
  pub wants_restart : Bool

-- The answers that one call of applyEgress gets.
pub record EgressHost : Type 0 where
  pub get_config : Bool
  -- whether a route reaches a target, with "" for the direct one
  pub reaches : String → String → Bool
  pub patch : Patch
  pub restart : Bool
  pub ready : Bool
  pub undo : Patch
  pub undo_restart : Bool

abbrev pub telegram_dcs : List String
telegram_dcs = "149.154.175.50:443" ∷ "149.154.167.51:443" ∷ []

unfoldable pub probe_egress : EgressHost → String → Bool
probe_egress h addr = all (h.reaches addr) telegram_dcs

abbrev pub new_route : String → Upstream
new_route addr = record {
  is_map = true;
  scopes = absent;
  kind = if addr != "" then "socks5" else "direct";
  address = addr;
}

abbrev pub is_scoped : Upstream → Bool
is_scoped u = u.is_map && has_scope u.scopes

unfoldable pub scoped_routes : Upstreams → List Upstream
scoped_routes no_upstreams = []
scoped_routes (upstreams us) = keep_if is_scoped us
scoped_routes odd_value = []

unfoldable pub patched : Patch → Upstreams → Engine → Engine
patched p routes e = if p.takes_effect then record e { routes = routes } else e

-- `if old == nil { old = []any{} }`
unfoldable pub or_empty : Upstreams → Upstreams
or_empty no_upstreams = upstreams []
or_empty u = u

-- Whether the engine came up with the new route.
unfoldable pub came_up : EgressHost → Bool
came_up h = h.patch.succeeds && (not h.patch.wants_restart || h.restart) && h.ready

-- The engine after applyEgress, and whether it returned nil.
unfoldable pub apply_egress : EgressHost → Engine → String → Engine × Bool
apply_egress h e addr =
    if not h.get_config
    then (e, false)
    else if e.use_middle_proxy && (addr != "")
    then (e, false)
    else if not (probe_egress h addr)
    then (e, false)
    else let changed =
        patched h.patch (upstreams (scoped_routes e.routes ++ new_route addr ∷ [])) e in
      if came_up h then (changed, true) else (patched h.undo (or_empty e.routes) changed, false)
