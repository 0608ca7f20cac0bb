-- ===== src/Agent/Update/Preflight.antt =====
-- updatePreflight of internal/agent/telemtupdate.go: what a node can do, and what refuses the update
-- before anything is touched. The functions of strings, regexp and hex are arguments.
use tgproxy_panel.Prelude.{
  ℕ, String, Bool, false, not, ◌&&◌, ◌||◌, Option, none, some, if◌then◌else◌, ◌==◌, ◌!=◌, ℤ, pos,
  ltb_ℤ, nat_eq, string_eq,
}
use tgproxy_panel.Agent.Update.{TelemtUpdate, begin_step, finish_step, step_failed, step_ok}

pub record Text : Type 0 where
  -- strings.TrimSpace, and strings.TrimPrefix with the prefix second
  pub trim_space : String → String
  pub trim_prefix : String → String → String
  pub equal_fold : String → String → Bool
  -- the first match of reVersion, "" for none
  pub find_version : String → String
  -- the bytes that hex.DecodeString yields, none for an error
  pub hex_bytes : String → Option ℕ

-- agentv1.UpdateTelemtRequest
pub record UpdateTelemtRequest : Type 0 where
  pub version : String
  pub sha256 : String
  pub url : String
  pub require_drain : Bool
  pub drain_timeout_secs : ℤ

-- telemt.Capabilities, and whether drain is among the unknown ones.
pub record Capabilities : Type 0 where
  pub web_pause : Bool
  pub web_resume : Bool
  pub web_runtime : Bool
  pub web_drain : Bool
  pub drain_unknown : Bool

pub record UpdatePlan : Type 0 where
  pub preserve_closed : Bool
  pub installed : String
  pub drain : Bool
  pub pause : Bool
  pub resume : Bool
  pub skips_drain : Bool
  pub had_web : Bool

-- drainTimeoutSecs, with telemt's limits of 1 and 3600.
unfoldable pub drain_timeout : ℤ → ℤ
drain_timeout secs = if ltb_ℤ secs (pos 1) || ltb_ℤ (pos 3600) secs then pos 60 else secs

unfoldable pub valid_sha256 : Text → String → Bool
valid_sha256 t s =
    let s' = t.trim_space s in
    if s' == "" then false else elim (t.hex_bytes s') [ none ↦ false | some n ↦ n == 32 ]

unfoldable pub same_telemt_version : Text → String → String → Bool
same_telemt_version t a b =
    let a' = t.trim_prefix (t.trim_space a) "v" in
    let b' = t.trim_prefix (t.trim_space b) "v" in (a' != "") && (a' == b')

unfoldable pub normalize_version : Text → String → String
normalize_version t v = t.trim_prefix (t.trim_space (t.trim_prefix (t.trim_space v) "telemt ")) "v"

unfoldable pub same_version : Text → String → String → Bool
same_version t installed wanted =
    let a = normalize_version t installed in
    (a != "") && t.equal_fold a (normalize_version t wanted)

abbrev pub installed_version : Text → String → String
installed_version t info =
    if t.find_version info == "" then t.trim_space info else t.find_version info

abbrev pub plan_of : String → Capabilities → UpdatePlan
plan_of installed caps = record {
  preserve_closed = false;
  installed = installed;
  drain = caps.web_drain;
  pause = caps.web_pause;
  resume = caps.web_resume;
  skips_drain = not caps.web_drain;
  had_web = caps.web_runtime;
}

-- The plan, with what SystemInfo and Capabilities answer; none for a refusal. The update gets the
-- installed version as soon as it is known.
unfoldable pub update_preflight :
    Text
    → UpdateTelemtRequest
    → Option String
    → Option Capabilities
    → TelemtUpdate
    → TelemtUpdate × Option UpdatePlan
update_preflight t req info caps u0 =
    let u = begin_step "preflight" u0 in
    let refuse : TelemtUpdate × Option UpdatePlan = (finish_step "preflight" step_failed u, none) in
    if (t.trim_space req.version == "")
      || not (valid_sha256 t req.sha256)
      || (t.trim_space req.url == "")
    then refuse
    else elim info [
      | none ↦ refuse
      | some version ↦
          let installed = installed_version t version in
          let u1 = record u { from_version = installed } in
          let refuse1 : TelemtUpdate × Option UpdatePlan =
            (finish_step "preflight" step_failed u1, none) in
          if same_telemt_version t installed req.version then refuse1 else elim caps [
            | none ↦ refuse1
            | some c ↦
                if not c.web_drain && req.require_drain
                then refuse1
                else (finish_step "preflight" step_ok u1, some (plan_of installed c))
          ]
    ]
