-- ===== src/Domain/WebCapacity/Rules.antt =====
-- The sizes on offer, and what every preset keeps to.
use tgproxy_panel.Prelude.{
  ℕ, ◌+◌, ◌*◌, ◌≤◌, ◌≡◌, some, arith, contains, lookup, lookup-All, nat_eq, string_eq,
}
use tgproxy_panel.Domain.WebCapacity.{WebCapacity}
use tgproxy_panel.Domain.WebCapacity.Presets.{
  capacity_table, valid_web_capacity, web_capacity_preset, web_capacity_presets,
}

-- A capacity is valid exactly when the panel offers it.
pub valid_web_capacity_iff : (n : ℕ) → valid_web_capacity n ≡ contains web_capacity_presets n
unfolding valid_web_capacity lookup
valid_web_capacity_iff n = ground arith

-- What a preset keeps to at every size.
pub record IsProportional (n : ℕ) (c : WebCapacity) : Type 0 where
  pub sessions : c.limits.max_sessions_global ≡ n
  pub streams : c.limits.max_streams_global ≡ 32 * n
  pub connections : c.limits.max_http_connections ≡ 8 * n
  pub handlers : 2 * c.limits.max_http_handlers ≡ c.limits.max_http_connections
  pub backends :
      c.limits.max_http_connections + c.limits.max_http_overload_connections ≤ c.max_connections
  pub tombstones : n * c.limits.max_tombstones_per_session ≡ 524288
  pub memory :
      c.limits.max_body_bytes_global + c.limits.control_bytes_global + c.limits.pending_bytes_global
        + c.limits.websocket_bytes_global
      ≤ c.limits.memory_envelope_bytes

-- Every preset, found under its number of sessions, scales streams, connections and handlers with
-- it, keeps one total of tombstones, leaves the engine room for its connections, and its four
-- byte budgets together fit the memory envelope.
pub web_capacity_preset-IsProportional :
    (n : ℕ) (c : WebCapacity) → web_capacity_preset n ≡ some c → IsProportional n c
unfolding web_capacity_preset
web_capacity_preset-IsProportional n c h =
    lookup-All IsProportional n c capacity_table
      (omega arith, (omega arith, (omega arith, (omega arith, (omega arith, tt))))) h
