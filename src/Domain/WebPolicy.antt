-- ===== src/Domain/WebPolicy.antt =====
-- internal/domain/webpolicy.go: the WEB policy and limits of a node, and their validation.
-- Go's ints are unbounded integers here, and an optional pointer is an Option. The regular
-- expression of a base path is the parameter `path_matches`; its length counts bytes.
pub mod Rules
pub mod Limits
mod Tests
use Prim.Native.String.{len}
use tgproxy_panel.Prelude.{
  String, Bool, true, false, not, ◌&&◌, ◌||◌, Option, none, some, List, [], ◌∷◌, ltb, if◌then◌else◌,
  ◌==◌, ◌!=◌, length, contains, ℤ, pos, ltb_ℤ, leb_ℤ, nat_eq, string_eq,
}

unfoldable pub carrier_valid : String → Bool
carrier_valid c =
    (c == "https") || (c == "https-lanes") || (c == "websocket") || (c == "websocket-lanes")

unfoldable pub aggressiveness_valid : String → Bool
aggressiveness_valid a = (a == "conservative") || (a == "balanced") || (a == "aggressive")

unfoldable pub capacity_action_valid : String → Bool
capacity_action_valid a = (a == "drop") || (a == "wait") || (a == "respond")

pub record WebOverloadPolicy : Type 0 where
  pub preset : String
  pub connection_capacity_action : String

pub record WebTimeouts : Type 0 where
  pub negotiation_deadlines_secs : List ℤ
  pub carrier_health_secs : ℤ
  pub carrier_learning_secs : ℤ
  pub bridge_request_secs : ℤ
  pub bridge_retry_secs : ℤ
  pub probe_coalesce_ms : ℤ

-- `carriers` is none for a nil list.
pub record WebPolicy : Type 0 where
  pub carrier_method : Option String
  pub conveyor : Option Bool
  pub base_path : Option String
  pub decoy_resolve : Option String
  pub preset : String
  pub carrier : String
  pub carriers : Option (List String)
  pub carrier_learning : Bool
  pub aggressiveness : String
  pub overload : WebOverloadPolicy
  pub timeouts : WebTimeouts

unfoldable pub default_web_policy : WebPolicy
default_web_policy = record {
  carrier_method = none;
  conveyor = none;
  base_path = none;
  decoy_resolve = none;
  preset = "automatic";
  carrier = "https";
  carriers = some ("websocket-lanes" ∷ "websocket" ∷ "https-lanes" ∷ []);
  carrier_learning = true;
  aggressiveness = "conservative";
  overload = record { preset = "balanced"; connection_capacity_action = "wait" };
  timeouts = record {
    negotiation_deadlines_secs = pos 3 ∷ pos 5 ∷ pos 8 ∷ pos 12 ∷ [];
    carrier_health_secs = pos 30;
    carrier_learning_secs = pos 600;
    bridge_request_secs = pos 10;
    bridge_retry_secs = pos 90;
    probe_coalesce_ms = pos 0;
  };
}

pub data PolicyError : Type 0 where
  deadline_count deadline_positive deadline_order health learning : PolicyError
  bridge_request bridge_retry retry_below_request coalesce : PolicyError
  carrier_method decoy_resolve base_path carrier aggressiveness : PolicyError
  overload_preset capacity_action no_carriers unknown_carrier repeated_carrier : PolicyError

-- The loop over the deadlines, with the one before.
unfoldable pub validate_deadlines : Option ℤ → List ℤ → Option PolicyError
validate_deadlines previous [] = none
validate_deadlines previous (d ∷ ds) =
    let rest = validate_deadlines (some d) ds in
    if ltb_ℤ d (pos 1)
    then some deadline_positive
    else if elim previous [ none ↦ false | some p ↦ leb_ℤ d p ]
    then some deadline_order
    else rest

abbrev pub outside_ℤ : ℤ → ℤ → ℤ → Bool
outside_ℤ lo hi n = ltb_ℤ n lo || ltb_ℤ hi n

unfoldable pub validate_bounds : WebTimeouts → Option PolicyError
validate_bounds t =
    if ltb_ℤ t.carrier_health_secs (pos 1)
    then some health
    else if outside_ℤ (pos 2) (pos 86400) t.carrier_learning_secs
    then some learning
    else if outside_ℤ (pos 1) (pos 60) t.bridge_request_secs
    then some bridge_request
    else if outside_ℤ (pos 1) (pos 300) t.bridge_retry_secs
    then some bridge_retry
    else if ltb_ℤ t.bridge_retry_secs t.bridge_request_secs
    then some retry_below_request
    else if outside_ℤ (pos 0) (pos 10) t.probe_coalesce_ms
    then some coalesce
    else none

infixl 20 ◌or_else◌
-- `if err != nil { return err }`, and then the rest.
abbrev pub ◌or_else◌ : Option PolicyError → Option PolicyError → Option PolicyError
none or_else rest = rest
some e or_else rest = some e

abbrev pub check : Bool → PolicyError → Option PolicyError
check true e = none
check false e = some e

unfoldable pub validate_timeouts : WebTimeouts → Option PolicyError
validate_timeouts t =
    check (length t.negotiation_deadlines_secs == 4) deadline_count
    or_else validate_deadlines none t.negotiation_deadlines_secs
    or_else validate_bounds t

-- ValidateWebBasePath.
unfoldable pub validate_base_path : (String → Bool) → String → Option PolicyError
validate_base_path path_matches path =
    if (path != "") && (ltb 128 (len path) || not (path_matches path)) then some base_path else none

-- The loop over the carriers, with the ones seen.
unfoldable pub validate_carriers : List String → List String → Option PolicyError
unfolding carrier_valid
validate_carriers seen [] = none
validate_carriers seen (c ∷ cs) =
    let rest = validate_carriers (c ∷ seen) cs in
    if not (carrier_valid c)
    then some unknown_carrier
    else if contains seen c
    then some repeated_carrier
    else rest

-- `p != nil && *p != a && *p != b` does not hold.
abbrev pub one_of_two : Option String → String → String → Bool
one_of_two none a b = true
one_of_two (some s) a b = (s == a) || (s == b)

abbrev pub preset_valid : String → Bool
preset_valid s = (s == "balanced") || (s == "high_load") || (s == "custom")

unfoldable pub validate : (String → Bool) → WebPolicy → Option PolicyError
validate path_matches p =
    check (one_of_two p.carrier_method "post" "put") carrier_method
    or_else check (one_of_two p.decoy_resolve "never" "startup") decoy_resolve
    or_else (elim p.base_path [ none ↦ none | some path ↦ validate_base_path path_matches path ])
    or_else check (carrier_valid p.carrier) carrier
    or_else check (aggressiveness_valid p.aggressiveness) aggressiveness
    or_else check (preset_valid p.overload.preset) overload_preset
    or_else check (capacity_action_valid p.overload.connection_capacity_action) capacity_action
    or_else (elim p.carriers [
      | none ↦ none
      | some [] ↦ some no_carriers
      | some (c ∷ cs) ↦ validate_carriers [] (c ∷ cs)
    ])
    or_else validate_timeouts p.timeouts

unfoldable pub has_advanced_options : WebPolicy → Bool
has_advanced_options p = elim p.carrier_method [
  | some m ↦ true
  | none ↦ elim p.conveyor [
    | some c ↦ true
    | none ↦ elim p.base_path [
      | some b ↦ true
      | none ↦ elim p.decoy_resolve [ some r ↦ true | none ↦ false ]
    ]
  ]
]

pub record WebGlobalLimits : Type 0 where
  pub max_sessions : ℤ
  pub max_streams : ℤ
  pub max_streams_per_session : ℤ

unfoldable pub default_web_global_limits : WebGlobalLimits
default_web_global_limits = record {
  max_sessions = pos 128;
  max_streams = pos 4096;
  max_streams_per_session = pos 128;
}

pub record WebProfileLimits : Type 0 where
  pub max_sessions : ℤ
  pub max_streams : ℤ
  pub max_streams_per_session : ℤ

pub data LimitName : Type 0 where
  max_sessions max_streams max_streams_per_session : LimitName

pub data LimitError : Type 0 where
  negative above_ceiling : LimitName → LimitError

-- The function `check` of WebProfileLimits.Validate.
unfoldable pub check_limit : LimitName → ℤ → ℤ → Option LimitError
check_limit name v ceiling =
    if ltb_ℤ v (pos 0)
    then some (negative name)
    else if ltb_ℤ (pos 0) v && ltb_ℤ (pos 0) ceiling && ltb_ℤ ceiling v
    then some (above_ceiling name)
    else none

unfoldable pub validate_limits : WebProfileLimits → WebGlobalLimits → Option LimitError
validate_limits l g = elim (check_limit max_sessions l.max_sessions g.max_sessions) [
  | some e ↦ some e
  | none ↦ elim (check_limit max_streams l.max_streams g.max_streams) [
    | some e ↦ some e
    | none ↦ check_limit max_streams_per_session l.max_streams_per_session g.max_streams_per_session
  ]
]
