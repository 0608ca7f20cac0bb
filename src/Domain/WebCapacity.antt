-- ===== src/Domain/WebCapacity.antt =====
-- internal/domain/webcapacity.go: the capacity presets of a node and the limits that each sets.
pub mod Presets
pub mod Rules
mod Tests
use tgproxy_panel.Prelude.{ℕ, ◌+◌, ◌*◌, String, List, [], ◌∷◌}

abbrev pub mib : ℕ
mib = 1024 * 1024

abbrev pub max_node_profiles : ℕ
max_node_profiles = 1024

abbrev pub telemt_default_max_profiles : ℕ
telemt_default_max_profiles = 32

abbrev pub web_service_profiles : ℕ
web_service_profiles = 1

unfoldable pub web_max_profiles : ℕ → ℕ
web_max_profiles max_profiles = max_profiles + web_service_profiles

pub record WebLimits : Type 0 where
  pub max_sessions_global : ℕ
  pub max_sessions_per_ip : ℕ
  pub max_streams_global : ℕ
  pub max_http_connections : ℕ
  pub max_http_handlers : ℕ
  pub max_http_overload_connections : ℕ
  pub max_bootstraps_global : ℕ
  pub max_bootstraps_per_ip : ℕ
  pub new_bootstraps_per_minute : ℕ
  pub new_bootstraps_burst : ℕ
  pub new_sessions_per_minute : ℕ
  pub new_sessions_burst : ℕ
  pub new_streams_per_minute : ℕ
  pub new_streams_burst : ℕ
  pub max_stream_handshakes : ℕ
  pub max_body_readers : ℕ
  pub max_body_bytes_global : ℕ
  pub max_tombstones_per_session : ℕ
  pub control_bytes_global : ℕ
  pub pending_bytes_global : ℕ
  pub pending_items_global : ℕ
  pub websocket_bytes_global : ℕ
  pub memory_envelope_bytes : ℕ

pub record WebCapacity : Type 0 where
  pub limits : WebLimits
  pub max_connections : ℕ

-- WebLimits.Fields: the limits as telemt keys, in a stable order.
unfoldable pub fields : WebLimits → List (String × ℕ)
fields l =
    ("max_sessions_global", l.max_sessions_global)
    ∷ ("max_sessions_per_ip", l.max_sessions_per_ip)
    ∷ ("max_streams_global", l.max_streams_global)
    ∷ ("max_http_connections", l.max_http_connections)
    ∷ ("max_http_handlers", l.max_http_handlers)
    ∷ ("max_http_overload_connections", l.max_http_overload_connections)
    ∷ ("max_bootstraps_global", l.max_bootstraps_global)
    ∷ ("max_bootstraps_per_ip", l.max_bootstraps_per_ip)
    ∷ ("new_bootstraps_per_minute", l.new_bootstraps_per_minute)
    ∷ ("new_bootstraps_burst", l.new_bootstraps_burst)
    ∷ ("new_sessions_per_minute", l.new_sessions_per_minute)
    ∷ ("new_sessions_burst", l.new_sessions_burst)
    ∷ ("new_streams_per_minute", l.new_streams_per_minute)
    ∷ ("new_streams_burst", l.new_streams_burst)
    ∷ ("max_stream_handshakes", l.max_stream_handshakes)
    ∷ ("max_body_readers", l.max_body_readers)
    ∷ ("max_body_bytes_global", l.max_body_bytes_global)
    ∷ ("max_tombstones_per_session", l.max_tombstones_per_session)
    ∷ ("control_bytes_global", l.control_bytes_global)
    ∷ ("pending_bytes_global", l.pending_bytes_global)
    ∷ ("pending_items_global", l.pending_items_global)
    ∷ ("websocket_bytes_global", l.websocket_bytes_global)
    ∷ ("memory_envelope_bytes", l.memory_envelope_bytes)
    ∷ []
