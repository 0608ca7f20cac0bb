-- ===== src/Agent/Recovery/Tests.antt =====
-- Ticks on a node whose control API does not answer.
use tgproxy_panel.Prelude.{
  ℕ, ◌*◌, ◌≤◌, ◌≡◌, refl, ◌≢◌, Bool, true, false, Option, none, some, List, [], ◌∷◌, ◌++◌, arith,
  if◌then◌else◌, pos, ◌≤ℤ◌,
}
use tgproxy_panel.Reliability.Policy.{endpoint_ok, validate}
use tgproxy_panel.Agent.Recovery.{
  Recovery, add_event, admission_closed, attempted, bad_service, cooling, judge_tick, may_judge,
  may_repair, no_repair, recovery_event, recovery_tick, repair, repair_of, restart_engine,
  route_bad, save_recovery, try_repair, web_paused,
}
use tgproxy_panel.Agent.Recovery.Guards.{attempts}
use tgproxy_panel.Agent.Recovery.Rate.{Run, Run-attempts, starts, ticks}
use tgproxy_panel.Agent.Recovery.Failures
use tgproxy_panel.Agent.Recovery.Failures.{
  Justified, Seen, fails, leading, starts, tick_repair_sustained, ticks,
}
use tgproxy_panel.Agent.Samples.{direct_engine, node_at_rest, restarts_engine, silent_at, small_net}
use tgproxy_panel.Agent.Files.{write_atomic}
use tgproxy_panel.Agent.Recovery.Times.{Spaced, recent}
use tgproxy_panel.Reliability.Report.{second}

abbrev once : Recovery
once = (recovery_tick (silent_at 7970) node_at_rest direct_engine).0

abbrev twice : Recovery
twice = (recovery_tick (silent_at 8000) once direct_engine).0

second_restarts :
    (attempts (silent_at 7970) node_at_rest ≡ false)
    × (attempts (silent_at 8000) once ≡ true)
    × ((recovery_tick (silent_at 8000) once direct_engine).2 ≡ restart_engine)
    × (attempts (silent_at 8030) twice ≡ false)
unfolding recovery_tick judge_tick may_judge may_repair bad_service route_bad cooling try_repair
    attempted save_recovery repair_of repair recovery_event add_event write_atomic
second_restarts = (refl, refl, refl, refl)

valid : validate small_net restarts_engine ≡ none
unfolding validate endpoint_ok
valid = refl

abbrev tries : List ℕ
tries =
    let before : List ℕ =
      if attempts (silent_at 7970) node_at_rest then [] ++ 7970000000000 ∷ [] else [] in
    if attempts (silent_at 8000) once then before ++ 8000000000000 ∷ [] else before

two_ticks : Run restarts_engine twice tries 8000000000005
two_ticks =
    ticks (silent_at 8000) direct_engine (omega arith) (omega arith)
      (ticks (silent_at 7970) direct_engine (omega arith) (omega arith) (starts 0 refl refl refl))

Run-attempts_example :
    ((t : ℕ) → 8000000000005 ≤ t → recent t tries ≤ 2) × Spaced (60 * second) tries
Run-attempts_example = Run-attempts small_net restarts_engine valid two_ticks

abbrev first_tick : Option Bool
first_tick =
    if may_judge (silent_at 7970) node_at_rest.policy
    then some (fails (silent_at 7970) node_at_rest)
    else none

one_failure : Seen once (first_tick ∷ [])
one_failure = Failures.ticks (silent_at 7970) direct_engine (Failures.starts refl)

restarts : (recovery_tick (silent_at 8000) once direct_engine).2 ≢ no_repair
restarts e = ground (arith, second_restarts.2)

tick_repair_sustained_example :
    (once.policy.maintenance ≡ false)
    × ((silent_at 8000).journal_clear ≡ true)
    × ((silent_at 8000).unit_active ≡ true)
    × (web_paused (silent_at 8000).web ≡ false)
    × (admission_closed (silent_at 8000).ready ≡ false)
    × (once.policy.failure_threshold
        ≤ℤ pos (leading (some (fails (silent_at 8000) once) ∷ first_tick ∷ [])))
    × Justified (silent_at 8000) once (recovery_tick (silent_at 8000) once direct_engine).2
tick_repair_sustained_example =
    tick_repair_sustained (silent_at 8000) direct_engine one_failure restarts
