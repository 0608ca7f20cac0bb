-- ===== src/Reliability/Findings.antt =====
-- internal/reliability/findings.go. strconv.Itoa is the parameter `itoa`.
-- The two comparisons of
-- floating-point ratios are made on the exact ratios; a percentage is in thousandths of a percent.
pub mod Evidence
mod Tests
use tgproxy_panel.Prelude.{
  ℕ, ◌+◌, ◌*◌, String, Bool, true, false, not, ◌&&◌, ◌||◌, Option, none, some, List, [], ◌∷◌, ◌++◌,
  ltb, leb, if◌then◌else◌, ◌==◌, ◌!=◌, any, all, ℤ, pos, ltb_ℤ, leb_ℤ, concat, nat_eq, string_eq,
}
use tgproxy_panel.Reliability.{Finding}
use tgproxy_panel.Reliability.Report.{Dc, MePool, MePoolState, Report, Route, Window, second}

abbrev pub finding : String → String → Bool → Bool → Finding
finding kind message failed known = record {
  kind = kind;
  message = message;
  failed = failed;
  known = known;
}

-- `now.Sub(at) <= 2*time.Minute`
abbrev pub is_recent : ℕ → ℕ → Bool
is_recent at now = leb now (at + 120 * second)

abbrev pub is_some : {A : Type 0} → Option A → Bool
is_some none = false
is_some (some a) = true

-- `p != nil && *p >= n`, and `p != nil && *p > 0`
abbrev pub at_least : ℕ → Option ℕ → Bool
at_least n none = false
at_least n (some x) = leb n x

abbrev pub positive : Option ℕ → Bool
positive none = false
positive (some x) = ltb 0 x

-- `p != nil && *p == b`
abbrev pub says : Bool → Option Bool → Bool
says b none = false
says true (some x) = x
says false (some x) = not x

unfoldable pub fresh_me_pool : Option ℕ → ℕ → Bool
fresh_me_pool none now = false
fresh_me_pool (some at) now = leb at now && is_recent at now

-- The two marks of one check, failed and known.
abbrev pub Verdict : Type 0
Verdict = Bool × Bool

abbrev pub unknown_verdict : Verdict
unknown_verdict = (false, false)

unfoldable pub no_pending : MePoolState → Bool
no_pending s = not s.pending && (s.pending_generation == 0)

unfoldable pub age_known : MePoolState → Bool
age_known s = s.pending && (s.pending_generation != 0) && is_some s.pending_age_seconds

unfoldable pub mature : MePoolState → Bool
mature s = age_known s && at_least 300 s.pending_age_seconds

unfoldable pub coverage_known : MePoolState → Bool
coverage_known s =
    mature s
    && says true s.pending_map_current
    && is_some s.writer_deficit
    && is_some s.missing_dc_groups

unfoldable pub hardswap_pending : MePoolState → Verdict
hardswap_pending s =
    if s.hardswap_enabled
    then (
      age_known s && at_least 1500 s.pending_age_seconds,
      no_pending s || (age_known s && at_least 1500 s.pending_age_seconds),
    )
    else unknown_verdict

unfoldable pub hardswap_deficit : MePoolState → Verdict
hardswap_deficit s =
    if s.hardswap_enabled
    then (
      coverage_known s && (positive s.writer_deficit || positive s.missing_dc_groups),
      no_pending s || coverage_known s,
    )
    else unknown_verdict

unfoldable pub hardswap_stale_map : MePoolState → Verdict
hardswap_stale_map s =
    if s.hardswap_enabled
    then (
      mature s && says false s.pending_map_current,
      no_pending s || (mature s && is_some s.pending_map_current),
    )
    else unknown_verdict

unfoldable pub backlog : Bool → Bool → Option ℕ → Verdict
backlog available busy observed =
    let sustained = busy && at_least 300 observed in
    (available && sustained, available && (not busy || sustained))

unfoldable pub orphan_writers : MePoolState → Verdict
orphan_writers s =
    backlog (is_some s.orphan_warm_writers) (positive s.orphan_warm_writers)
      s.orphan_observed_seconds

unfoldable pub replacement_busy : MePoolState → Verdict
replacement_busy s =
    backlog (is_some s.replacement_preparing && is_some s.replacement_retiring)
      (positive s.replacement_preparing || positive s.replacement_retiring)
      s.replacement_observed_seconds

-- The state that may be judged: `pool == nil || !pool.Enabled || pool.State == nil ||
-- pool.Reason != "" || !freshMEPool(pool.At, now)` leaves none.
unfoldable pub usable_state : Option MePool → ℕ → Option MePoolState
unfolding fresh_me_pool
usable_state none now = none
usable_state (some pool) now =
    if pool.enabled && (pool.reason == "") && fresh_me_pool pool.at now then pool.state else none

abbrev pub me_finding : String → String → Verdict → Finding
me_finding kind message v = finding kind message v.0 v.1

abbrev pub judge : (MePoolState → Verdict) → Option MePoolState → Verdict
judge check none = unknown_verdict
judge check (some s) = check s

unfoldable pub me_pool_findings : Option MePool → ℕ → List Finding
me_pool_findings pool now =
    let s = usable_state pool now in
    me_finding "me_hardswap_pending"
      "Middle Proxy hardswap has been pending for at least 25 minutes" (judge hardswap_pending s)
    ∷ me_finding "me_hardswap_deficit"
        "Middle Proxy pending generation has a persistent writer or DC-family deficit"
        (judge hardswap_deficit s)
    ∷ me_finding "me_hardswap_stale_map"
        "Middle Proxy pending generation targets a stale endpoint map" (judge hardswap_stale_map s)
    ∷ me_finding "me_orphan_warm_writers"
        "Middle Proxy orphan warm writers persist for at least 5 minutes" (judge orphan_writers s)
    ∷ me_finding "me_replacement_busy"
        "Middle Proxy writer replacements remain busy for at least 5 minutes"
        (judge replacement_busy s)
    ∷ []

-- `float64(w.Failed)/float64(w.Success+w.Failed) > .2`
unfoldable pub connection_findings : Option Window → ℕ → List Finding
connection_findings none now = []
connection_findings (some w) now =
    if is_recent w.at now && ltb 0 (w.success + w.failed)
    then finding "connection_failures" "Recent Telegram connection failures exceed 20%"
        (ltb (w.success + w.failed) (w.failed * 5)) true
      ∷ []
    else []

unfoldable pub route_findings : List Route → List Finding
route_findings [] = []
route_findings (r ∷ rs) =
    finding "upstream_failure" "A Telegram egress route is unavailable"
      (any (λ route. not route.healthy) (r ∷ rs))
      (all (λ route. leb_ℤ route.age (pos 120)) (r ∷ rs))
    ∷ []

unfoldable pub dc_findings : (ℤ → String) → List Dc → List Finding
dc_findings itoa [] = []
dc_findings itoa (dc ∷ dcs) =
    let rest = dc_findings itoa dcs in
    if ltb_ℤ (pos 0) dc.required
    then finding (concat "dc_" (itoa dc.id)) "Telegram DC has no live Middle Proxy writers"
        (leb_ℤ dc.alive (pos 0) && leb_ℤ (pos 0) dc.alive) true
      ∷ rest
    else rest

-- `float64(*used)/float64(*limit) >= .9`
unfoldable pub ratio : String → String → Option ℕ → Option ℕ → List Finding
ratio kind message (some used) (some limit) =
    if ltb 0 limit then finding kind message (leb (limit * 9) (used * 10)) true ∷ [] else []
ratio kind message used limit = []

unfoldable pub inode_findings : Option ℕ → List Finding
inode_findings none = []
inode_findings (some percent) =
    finding "inode_pressure" "Filesystem inodes are at least 90% full" (leb 90000 percent) true ∷ []

unfoldable pub findings : (ℤ → String) → Report → ℕ → List Finding
findings itoa r now =
    if leb_ℤ r.version (pos 0) && leb_ℤ (pos 0) r.version || ltb (r.at + 120 * second) now
    then []
    else connection_findings r.connections now
      ++ (route_findings r.routes
          ++ (dc_findings itoa r.dcs
              ++ (me_pool_findings r.me_pool now
                  ++ (ratio "fd_pressure" "Telemt is using at least 90% of its file descriptors"
                        r.resources.fd_used r.resources.fd_limit
                      ++ (ratio "conntrack_pressure" "Connection tracking is at least 90% full"
                            r.resources.conntrack_used r.resources.conntrack_limit
                          ++ inode_findings r.resources.inodes_used_percent)))))
