-- ===== src/Worker/ApplySchedule/Tests.antt =====
-- The schedule on small inputs: node 7 at revision 1 fails, waits, and is claimed again.
use tgproxy_panel.Prelude.{
  insert, lookup, ℕ, ◌*◌, ◌/◌, ◌≤◌, ◌≡◌, refl, inl, true, false, List, [], ◌∷◌, arith, length,
  Distinct, keys, lookup, insert, remove, nat_eq, string_eq,
}
use tgproxy_panel.Worker.ApplySchedule.{
  ApplySchedule, apply_retry_delay, ceiling, claim, finish, forget, idle, second,
}
use tgproxy_panel.Worker.ApplySchedule.Delay.{DrawsBelow, apply_retry_delay_bounds}
use tgproxy_panel.Worker.ApplySchedule.Claims.{
  finish-claim_waits, finish-claim_granted, forgotten, nothing, retried, claimed,
}
use tgproxy_panel.Worker.ApplySchedule.Traces.{Run, start, claimed, Run-exclusive, forgotten}

-- The draw that always takes the smallest value.
abbrev lowest : ℕ → ℕ
lowest n = 0

lowest-DrawsBelow : DrawsBelow lowest
lowest-DrawsBelow n h = h

abbrev taken : ApplySchedule
taken = (claim idle 7 1 100).0

ceilings : (ceiling 1 ≡ 45 * second) × (ceiling 3 ≡ 180 * second) × (ceiling 9 ≡ 900 * second)
unfolding ceiling
ceilings = (refl, refl, refl)

delays : (apply_retry_delay lowest 1 ≡ 45 * second) × (apply_retry_delay lowest 4 ≡ 180 * second)
unfolding apply_retry_delay
delays = (refl, refl)

fifth_refused :
    let s = (claim (claim (claim (claim idle 1 1 0).0 2 1 0).0 3 1 0).0 4 1 0).0 in
    (claim s 5 1 0).1 ≡ false
unfolding claim lookup insert
fifth_refused = refl

taken_granted : (claim idle 7 1 100).1 ≡ true
unfolding claim lookup
taken_granted = refl

apply_retry_delay_bounds_example :
    (45 * second ≤ apply_retry_delay lowest 4)
    × (ceiling 4 / 2 ≤ apply_retry_delay lowest 4)
    × (apply_retry_delay lowest 4 ≤ ceiling 4)
    × (ceiling 4 ≤ 900 * second)
apply_retry_delay_bounds_example = apply_retry_delay_bounds lowest 4 lowest-DrawsBelow

-- The node is asked for again at once, and another node is forgotten.
abbrev asked_again : ApplySchedule
asked_again = forget (claim (finish lowest taken 7 1 100 true) 7 1 150).0 8

finish-claim_waits_example : (claim asked_again 7 1 200).1 ≡ false
finish-claim_waits_example =
    finish-claim_waits lowest taken 7 1 100 lowest-DrawsBelow 200
      (forgotten 8 (retried 150 nothing (omega arith)) (λ e. absurd (omega (arith, e))))
      (omega arith)

finish-claim_granted_example : (claim (finish lowest taken 7 1 100 true) 7 2 200).1 ≡ true
unfolding claim lookup insert remove
finish-claim_granted_example =
    finish-claim_granted lowest taken 7 1 100 lowest-DrawsBelow 2 200 (omega arith)
      (inl (λ e. absurd (omega (arith, e))))

abbrev holders : List ℕ
holders = 7 ∷ []

abbrev later : List ℕ
later = 50 ∷ []

one-Run : Run taken holders
one-Run = claimed 7 1 100 start taken_granted

Run-exclusive_example : Distinct holders × (length holders ≤ 4) × (keys taken.running ≡ holders)
Run-exclusive_example = Run-exclusive one-Run
