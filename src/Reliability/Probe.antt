-- ===== src/Reliability/Probe.antt =====
-- internal/reliability/probe.go: the report of an external probe and its validation.
-- The pattern of a location's name is the parameter `name_matches`; times are nanoseconds.
mod Tests
use tgproxy_panel.Prelude.{
  ℕ, ◌+◌, ◌*◌, ◌≤◌, String, ◌≡◌, ◌⊎◌, inl, inr, Bool, true, not, ◌&&◌, ◌||◌, Option, none, some,
  List, [], ◌∷◌, arith, eq_iff, ltb, if◌then◌else◌, ◌==◌, ◌!=◌, Option-cases, All, ℤ, pos, ◌≤ℤ◌,
  ltb_ℤ, nat_eq, string_eq,
}
use tgproxy_panel.Reliability.Report.{second}

pub record ProbeCheck : Type 0 where
  pub method : String
  pub status : String
  pub latency_ms : ℤ

pub record ProbeReport : Type 0 where
  pub location : String
  pub at : ℕ
  pub tls : ProbeCheck
  pub http : ProbeCheck
  pub fake_tls : ProbeCheck
  pub web : ProbeCheck

pub data ProbeError : Type 0 where
  bad_location bad_clock bad_method method_not_run bad_status bad_latency : ProbeError

abbrev pub authenticated_mtproto : String
authenticated_mtproto = "authenticated_mtproto"

unfoldable pub validate_check : ProbeCheck → Option ProbeError
validate_check c =
    if (c.method != "") && (c.method != authenticated_mtproto)
    then some bad_method
    else if (c.method != "") && (c.status == "not_run")
    then some method_not_run
    else if (c.status != "ok") && (c.status != "failed") && (c.status != "not_run")
    then some bad_status
    else if ltb_ℤ c.latency_ms (pos 0) || ltb_ℤ (pos 120000) c.latency_ms
    then some bad_latency
    else none

unfoldable pub validate_checks : List ProbeCheck → Option ProbeError
validate_checks [] = none
validate_checks (c ∷ cs) = elim (validate_check c) [ some e ↦ some e | none ↦ validate_checks cs ]

unfoldable pub validate : (String → Bool) → ProbeReport → ℕ → Option ProbeError
unfolding validate_check validate_checks
validate name_matches p now =
    if not (name_matches p.location)
    then some bad_location
    else if ltb (p.at + 120 * second) now || ltb (now + 30 * second) p.at
    then some bad_clock
    else validate_checks (p.tls ∷ p.http ∷ p.fake_tls ∷ p.web ∷ [])

pub record IsValidCheck (c : ProbeCheck) : Type 0 where
  pub method : (c.method ≡ "") ⊎ (c.method ≡ authenticated_mtproto)
  pub executed : c.status ≡ "not_run" → c.method ≡ ""
  pub status : (c.status ≡ "ok") ⊎ ((c.status ≡ "failed") ⊎ (c.status ≡ "not_run"))
  pub latency : (pos 0 ≤ℤ c.latency_ms) × (c.latency_ms ≤ℤ pos 120000)

validate_check-IsValid : (c : ProbeCheck) → validate_check c ≡ none → IsValidCheck c
unfolding validate_check
validate_check-IsValid c h = record {
  method = ground (arith, eq_iff c.method "", eq_iff c.method authenticated_mtproto);
  executed = λ e. ground (arith, eq_iff c.method "", eq_iff c.status "not_run");
  status =
      ground (arith, eq_iff c.status "ok", eq_iff c.status "failed", eq_iff c.status "not_run");
  latency = ground arith;
}

validate_checks-All : (cs : List ProbeCheck) → validate_checks cs ≡ none → All IsValidCheck cs
unfolding validate_checks
validate_checks-All [] h = tt
validate_checks-All (c ∷ cs) h = elim (Option-cases (validate_check c)) [
  | inl fine ↦
      (validate_check-IsValid c fine, validate_checks-All cs (rw (fine, validate_checks) at h))
  | inr (e, bad) ↦ absurd (cc (rw (bad, validate_checks) at h))
]

-- An accepted probe report has a well-formed location, a time at most two minutes old and at most
-- half a minute ahead, and four checks each with a known method and status, no method on a check
-- that was not run, and a latency within two minutes.
pub accepted_report :
    (name_matches : String → Bool) (p : ProbeReport) (now : ℕ)
    → validate name_matches p now ≡ none
    → (name_matches p.location ≡ true)
      × (now ≤ p.at + 120 * second)
      × (p.at ≤ now + 30 * second)
      × All IsValidCheck (p.tls ∷ p.http ∷ p.fake_tls ∷ p.web ∷ [])
unfolding validate
accepted_report name_matches p now h = (
  ground arith,
  ground arith,
  ground arith,
  validate_checks-All (p.tls ∷ p.http ∷ p.fake_tls ∷ p.web ∷ []) (ground arith),
)
