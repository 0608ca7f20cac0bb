-- ===== src/Domain/WebPolicy/Tests.antt =====
-- The default policy, and policies that break one rule.
use tgproxy_panel.Prelude.{String, ◌≡◌, refl, ◌↔◌, Bool, true, none, some, [], ◌∷◌, length, pos}
use tgproxy_panel.Domain.WebPolicy.{
  WebGlobalLimits, WebPolicy, WebProfileLimits, WebTimeouts, aggressiveness_valid,
  capacity_action_valid, carrier_valid, deadline_order, default_web_policy, repeated_carrier,
  unknown_carrier, validate, validate_bounds, validate_carriers, validate_deadlines,
  validate_timeouts,
}
use tgproxy_panel.Domain.WebPolicy.Rules.{InBounds, IsIncreasing, validate_timeouts_iff}

abbrev any_path : String → Bool
any_path s = true

default_accepted : validate any_path default_web_policy ≡ none
unfolding validate default_web_policy carrier_valid aggressiveness_valid capacity_action_valid
    validate_carriers validate_timeouts validate_deadlines validate_bounds
default_accepted = refl

abbrev tight : WebTimeouts
tight = record {
  negotiation_deadlines_secs = pos 3 ∷ pos 5 ∷ pos 5 ∷ pos 12 ∷ [];
  carrier_health_secs = pos 30;
  carrier_learning_secs = pos 600;
  bridge_request_secs = pos 10;
  bridge_retry_secs = pos 90;
  probe_coalesce_ms = pos 0;
}

deadlines_refused : validate_timeouts tight ≡ some deadline_order
unfolding validate_timeouts validate_deadlines
deadlines_refused = refl

carriers_refused :
    (validate_carriers [] ("https" ∷ "websocket" ∷ "https" ∷ []) ≡ some repeated_carrier)
    × (validate_carriers [] ("https" ∷ "quic" ∷ []) ≡ some unknown_carrier)
unfolding validate_carriers
carriers_refused = (refl, refl)

validate_timeouts_iff_example : (validate_timeouts tight ≡ none) ↔ (
    (length tight.negotiation_deadlines_secs ≡ 4)
    × IsIncreasing none tight.negotiation_deadlines_secs
    × InBounds tight)
validate_timeouts_iff_example = validate_timeouts_iff tight

abbrev standard : WebPolicy
standard = record {
  carrier_method = none;
  conveyor = none;
  base_path = none;
  decoy_resolve = none;
  preset = "automatic";
  carrier = "https";
  carriers = some ("websocket-lanes" ∷ "websocket" ∷ "https-lanes" ∷ []);
  carrier_learning = true;
  aggressiveness = "conservative";
  overload = record { preset = "balanced"; connection_capacity_action = "wait" };
  timeouts = record tight { negotiation_deadlines_secs = pos 3 ∷ pos 5 ∷ pos 8 ∷ pos 12 ∷ [] };
}

abbrev wide : WebProfileLimits
wide = record { max_sessions = pos 64; max_streams = pos 0; max_streams_per_session = pos 128 }

abbrev node_ceilings : WebGlobalLimits
node_ceilings = record {
  max_sessions = pos 128;
  max_streams = pos 4096;
  max_streams_per_session = pos 128;
}
