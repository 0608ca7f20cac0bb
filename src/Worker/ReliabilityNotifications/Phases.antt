-- ===== src/Worker/ReliabilityNotifications/Phases.antt =====
-- The phase of a node from its rows, and the alerts that count as an open diagnostic.
use tgproxy_panel.Prelude.{
  ℕ, ◌+◌, ◌≤◌, String, ◌≡◌, refl, ap, ◌≢◌, ◌↔◌, Bool, true, false, ◌||◌, List, [], ◌∷◌, arith,
  eq_iff, ltb, length, keep_if, any, All,
}
use tgproxy_panel.Worker.Incidents.{Alert}
use tgproxy_panel.Worker.ReliabilityNotifications.{
  Observed, bad, freshness, healthy, is_bad, is_counted, is_unknown, lifetime_counter_alert,
  open_diagnostic, phase_of,
}

-- What a row of the node says at a time, blocking evidence left out: it is a fresh failure, or it
-- is fresh and passed.
abbrev pub Fails : ℕ → Observed → Type 0
Fails now r = (r.failed ≡ true) × (r.known ≡ true) × (now ≤ r.observed_at + freshness)

abbrev pub Passes : ℕ → Observed → Type 0
Passes now r = (r.failed ≡ false) × (r.known ≡ true) × (now ≤ r.observed_at + freshness)

tests-Passes :
    (now : ℕ) (rows : List Observed)
    → any (is_bad now) rows ≡ false
    → any (is_unknown now) rows ≡ false
    → All (Passes now) rows
tests-Passes now [] b u = tt
tests-Passes now (r ∷ rows) b u =
    (ground arith, tests-Passes now rows (ground arith) (ground arith))

Passes-tests :
    (now : ℕ) (rows : List Observed)
    → All (Passes now) rows
    → (any (is_bad now) rows ≡ false) × (any (is_unknown now) rows ≡ false)
Passes-tests now [] h = (refl, refl)
Passes-tests now (r ∷ rows) h = ground (arith, Passes-tests now rows h.1, h.0)

has_rows : (rows : List Observed) → (ltb 0 (length rows) ≡ true) ↔ (rows ≢ [])
has_rows [] = (λ h. ground arith, λ ne. absurd (ne refl))
has_rows (r ∷ rows) = (λ h e. omega (arith, ap length e), λ ne. ground arith)

-- A node is healthy exactly when its health is known, it has rows, each of them is known, fresh and
-- passed, and no diagnostic is open.
pub phase_healthy_iff :
    (node : String) (now : ℕ) (known diagnostic : Bool) (rows : List Observed)
    → (phase_of node now known diagnostic rows ≡ healthy)
      ↔ (known ≡ true)
        × (diagnostic ≡ false)
        × (keep_if (is_counted node) rows ≢ [])
        × All (Passes now) (keep_if (is_counted node) rows)
unfolding phase_of
phase_healthy_iff node now known diagnostic rows =
    let counted = keep_if (is_counted node) rows in
    (
      λ h. (
        ground arith,
        ground arith,
        (has_rows counted).0 (ground arith),
        tests-Passes now counted (ground arith) (ground arith),
      ),
      λ (fresh, closed, some_row, pass).
          ground (arith, Passes-tests now counted pass, (has_rows counted).1 some_row),
    )

-- A node is bad exactly when its health is known and some row of it is a fresh failure, or a
-- diagnostic is open.
pub phase_bad_iff :
    (node : String) (now : ℕ) (known diagnostic : Bool) (rows : List Observed)
    → (phase_of node now known diagnostic rows ≡ bad)
      ↔ (known ≡ true) × (any (is_bad now) (keep_if (is_counted node) rows) || diagnostic ≡ true)
unfolding phase_of
phase_bad_iff node now known diagnostic rows = ground arith

-- An alert about a counter that only ever grows does not make a diagnostic open: when every open
-- diagnostic alert of the node is of that kind, none counts.
pub open_diagnostic-counters :
    (node : String) (alerts : List Alert)
    → All
        (λ (a : Alert). a.node ≡ node → a.resolved ≡ false → lifetime_counter_alert a.kind ≡ true)
        alerts
    → open_diagnostic node alerts ≡ false
unfolding open_diagnostic
open_diagnostic-counters node [] h = refl
open_diagnostic-counters node (a ∷ alerts) h =
    ground (arith, open_diagnostic-counters node alerts h.1, h.0, eq_iff a.node node)
