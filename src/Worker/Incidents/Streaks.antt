-- ===== src/Worker/Incidents/Streaks.antt =====
-- The run that a streak counts, against the history of observations.
use tgproxy_panel.Prelude.{
  ℕ, suc, ◌≡◌, refl, Bool, true, false, Option, none, some, List, [], ◌∷◌, arith, ℤ, pos_part,
  neg_part,
}
use tgproxy_panel.Worker.Incidents.{next_run, run_length, run_of}

-- What the sweeps saw of one check, the latest first.
pub data Seen : Type 0 where
  unknown : Seen
  checked : Bool → Seen

-- How many observations in a row, from the latest, were `checked failed`.
unfoldable pub held : Bool → List Seen → ℕ
held failed [] = 0
held failed (unknown ∷ past) = 0
held true (checked true ∷ past) = suc (held true past)
held true (checked false ∷ past) = 0
held false (checked true ∷ past) = 0
held false (checked false ∷ past) = suc (held false past)

-- The streak after a history.
unfoldable pub streak : List Seen → Option ℤ
streak [] = none
streak (unknown ∷ past) = none
streak (checked failed ∷ past) = some (next_run failed (run_of (streak past)))

-- The integer of the streak holds both counts.
abbrev OfCounts : List Seen → ℤ → Type 0
OfCounts past run = (pos_part run ≡ held true past) × (neg_part run ≡ held false past)

next_failed :
    (past : List Seen) (run : ℤ)
    → OfCounts past run
    → OfCounts (checked true ∷ past) (next_run true run)
unfolding next_run held
next_failed past run h = ground arith

next_clear :
    (past : List Seen) (run : ℤ)
    → OfCounts past run
    → OfCounts (checked false ∷ past) (next_run false run)
unfolding next_run held
next_clear past run h = ground arith

streak-OfCounts : (past : List Seen) → OfCounts past (run_of (streak past))
unfolding streak held run_of
streak-OfCounts [] = (refl, refl)
streak-OfCounts (unknown ∷ past) = (refl, refl)
streak-OfCounts (checked true ∷ past) =
    next_failed past (run_of (streak past)) (streak-OfCounts past)
streak-OfCounts (checked false ∷ past) =
    next_clear past (run_of (streak past)) (streak-OfCounts past)

-- The length that findingRun returns is the number of sweeps in a row that saw this outcome.
pub run_length-streak :
    (failed : Bool) (past : List Seen)
    → run_length (next_run failed (run_of (streak past))) ≡ held failed (checked failed ∷ past)
unfolding run_length next_run held
run_length-streak true past = ground (arith, streak-OfCounts past)
run_length-streak false past = ground (arith, streak-OfCounts past)
