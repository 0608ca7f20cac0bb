-- ===== src/Reliability/Probe/Tests.antt =====
-- A probe report that is accepted.
use tgproxy_panel.Prelude.{
  ◌+◌, ◌*◌, String, ◌≡◌, refl, Bool, none, some, ◌!=◌, pos, nat_eq, string_eq,
}
use tgproxy_panel.Reliability.Report.{second}
use tgproxy_panel.Reliability.Probe.{ProbeCheck, ProbeReport, bad_clock, bad_method, validate}

abbrev fine_check : ProbeCheck
fine_check = record { method = "authenticated_mtproto"; status = "ok"; latency_ms = pos 40 }

abbrev skipped : ProbeCheck
skipped = record { method = ""; status = "not_run"; latency_ms = pos 0 }

abbrev probe_report : ProbeReport
probe_report = record {
  location = "fra-1";
  at = 1000;
  tls = fine_check;
  http = fine_check;
  fake_tls = skipped;
  web = skipped;
}

abbrev any_name : String → Bool
any_name s = s != ""

verdicts :
    (validate any_name probe_report 1000 ≡ none)
    × (validate any_name (record probe_report { web = record skipped { method = "x" } }) 1000
        ≡ some bad_method)
    × (validate any_name probe_report (1001 + 120 * second) ≡ some bad_clock)
unfolding validate
verdicts = (refl, refl, refl)
