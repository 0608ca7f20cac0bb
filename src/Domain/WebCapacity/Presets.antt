-- ===== src/Domain/WebCapacity/Presets.antt =====
-- internal/domain/webcapacity.go: the preset of each size and the table of them.
use tgproxy_panel.Prelude.{
  ℕ, ◌*◌, Bool, true, false, Option, none, some, List, [], ◌∷◌, Map, lookup, nat_eq, string_eq,
}
use tgproxy_panel.Domain.WebCapacity.{WebCapacity, mib}

abbrev pub web_capacity_presets : List ℕ
web_capacity_presets = 128 ∷ 256 ∷ 512 ∷ 1024 ∷ 2048 ∷ []

abbrev pub preset_128 : WebCapacity
preset_128 = record {
  max_connections = 10000;
  limits = record {
    max_sessions_global = 128;
    max_sessions_per_ip = 16;
    max_streams_global = 4096;
    max_http_connections = 1024;
    max_http_handlers = 512;
    max_http_overload_connections = 64;
    max_bootstraps_global = 512;
    max_bootstraps_per_ip = 64;
    new_bootstraps_per_minute = 1200;
    new_bootstraps_burst = 256;
    new_sessions_per_minute = 600;
    new_sessions_burst = 128;
    new_streams_per_minute = 6000;
    new_streams_burst = 512;
    max_stream_handshakes = 256;
    max_body_readers = 32;
    max_body_bytes_global = 64 * mib;
    max_tombstones_per_session = 4096;
    control_bytes_global = 16 * mib;
    pending_bytes_global = 512 * mib;
    pending_items_global = 256 * 1024;
    websocket_bytes_global = 256 * mib;
    memory_envelope_bytes = 1280 * mib;
  };
}

abbrev pub preset_256 : WebCapacity
preset_256 = record {
  max_connections = 15000;
  limits = record {
    max_sessions_global = 256;
    max_sessions_per_ip = 32;
    max_streams_global = 8192;
    max_http_connections = 2048;
    max_http_handlers = 1024;
    max_http_overload_connections = 128;
    max_bootstraps_global = 1024;
    max_bootstraps_per_ip = 128;
    new_bootstraps_per_minute = 2400;
    new_bootstraps_burst = 512;
    new_sessions_per_minute = 1200;
    new_sessions_burst = 256;
    new_streams_per_minute = 12000;
    new_streams_burst = 1024;
    max_stream_handshakes = 512;
    max_body_readers = 64;
    max_body_bytes_global = 128 * mib;
    max_tombstones_per_session = 2048;
    control_bytes_global = 32 * mib;
    pending_bytes_global = 640 * mib;
    pending_items_global = 512 * 1024;
    websocket_bytes_global = 320 * mib;
    memory_envelope_bytes = 1536 * mib;
  };
}

abbrev pub preset_512 : WebCapacity
preset_512 = record {
  max_connections = 20000;
  limits = record {
    max_sessions_global = 512;
    max_sessions_per_ip = 48;
    max_streams_global = 16384;
    max_http_connections = 4096;
    max_http_handlers = 2048;
    max_http_overload_connections = 256;
    max_bootstraps_global = 2048;
    max_bootstraps_per_ip = 192;
    new_bootstraps_per_minute = 4800;
    new_bootstraps_burst = 1024;
    new_sessions_per_minute = 2400;
    new_sessions_burst = 512;
    new_streams_per_minute = 24000;
    new_streams_burst = 2048;
    max_stream_handshakes = 1024;
    max_body_readers = 128;
    max_body_bytes_global = 256 * mib;
    max_tombstones_per_session = 1024;
    control_bytes_global = 64 * mib;
    pending_bytes_global = 768 * mib;
    pending_items_global = 1024 * 1024;
    websocket_bytes_global = 384 * mib;
    memory_envelope_bytes = 2048 * mib;
  };
}

abbrev pub preset_1024 : WebCapacity
preset_1024 = record {
  max_connections = 40000;
  limits = record {
    max_sessions_global = 1024;
    max_sessions_per_ip = 64;
    max_streams_global = 32768;
    max_http_connections = 8192;
    max_http_handlers = 4096;
    max_http_overload_connections = 512;
    max_bootstraps_global = 4096;
    max_bootstraps_per_ip = 256;
    new_bootstraps_per_minute = 9600;
    new_bootstraps_burst = 2048;
    new_sessions_per_minute = 4800;
    new_sessions_burst = 1024;
    new_streams_per_minute = 48000;
    new_streams_burst = 4096;
    max_stream_handshakes = 2048;
    max_body_readers = 256;
    max_body_bytes_global = 512 * mib;
    max_tombstones_per_session = 512;
    control_bytes_global = 128 * mib;
    pending_bytes_global = 1024 * mib;
    pending_items_global = 2048 * 1024;
    websocket_bytes_global = 512 * mib;
    memory_envelope_bytes = 2560 * mib;
  };
}

abbrev pub preset_2048 : WebCapacity
preset_2048 = record {
  max_connections = 80000;
  limits = record {
    max_sessions_global = 2048;
    max_sessions_per_ip = 96;
    max_streams_global = 65536;
    max_http_connections = 16384;
    max_http_handlers = 8192;
    max_http_overload_connections = 1024;
    max_bootstraps_global = 8192;
    max_bootstraps_per_ip = 384;
    new_bootstraps_per_minute = 19200;
    new_bootstraps_burst = 4096;
    new_sessions_per_minute = 9600;
    new_sessions_burst = 2048;
    new_streams_per_minute = 96000;
    new_streams_burst = 8192;
    max_stream_handshakes = 4096;
    max_body_readers = 512;
    max_body_bytes_global = 1024 * mib;
    max_tombstones_per_session = 256;
    control_bytes_global = 256 * mib;
    pending_bytes_global = 1536 * mib;
    pending_items_global = 4096 * 1024;
    websocket_bytes_global = 768 * mib;
    memory_envelope_bytes = 4032 * mib;
  };
}

-- The map webCapacityPresets.
unfoldable pub capacity_table : Map ℕ WebCapacity
capacity_table =
    (128, preset_128)
    ∷ (256, preset_256)
    ∷ (512, preset_512)
    ∷ (1024, preset_1024)
    ∷ (2048, preset_2048)
    ∷ []

-- WebCapacityPreset, and ValidWebCapacity.
unfoldable pub web_capacity_preset : ℕ → Option WebCapacity
unfolding capacity_table
web_capacity_preset n = lookup n capacity_table

unfoldable pub valid_web_capacity : ℕ → Bool
unfolding capacity_table
valid_web_capacity n = elim (lookup n capacity_table) [ none ↦ false | some c ↦ true ]
