-- ===== src/Agent/Recovery/Failures.antt =====
-- When a node is repaired: after how many failing ticks in a row, and under which conditions.
use tgproxy_panel.Prelude.{
  ℕ, ◌+◌, ◌≡◌, ◌∙◌, ◌≢◌, inl, inr, Bool, true, false, ◌&&◌, ◌||◌, Option, none, some, List, [], ◌∷◌,
  arith, eq_iff, if◌then◌else◌, ◌==◌, ◌!=◌, Bool-cases, pos, ◌≤ℤ◌, nat_eq, string_eq,
}
use tgproxy_panel.Agent.Egress.{Engine}
use tgproxy_panel.Agent.Recovery.{
  Recovery, Repair, Sight, admission_closed, attempted, bad_service, judge_tick, may_judge,
  may_repair, no_repair, recovery_tick, repair_of, restart_engine, route_bad, switch_route,
  try_repair, web_paused,
}
use tgproxy_panel.Agent.Recovery.Guards.{attempts, tick_attempt, tick_idle, tick_tries}

abbrev pub fails : Sight → Recovery → Bool
fails v r = bad_service v.ready || route_bad r.policy v.stats

-- Ticks of an agent from its start, and what each of them found, the newest first: whether the
-- service or the route failed, or none of a tick that returned early.
pub data Seen : Recovery → List (Option Bool) → Type 0 where
  starts : {r : Recovery} → r.failures ≡ 0 → Seen r []
  ticks :
      {r : Recovery} {past : List (Option Bool)} (v : Sight) (e : Engine)
      → Seen r past
      → Seen
          (recovery_tick v r e).0
          ((if may_judge v r.policy then some (fails v r) else none) ∷ past)

-- The failing ticks since the newest tick that found service and route well, whatever ticks that
-- returned early lie between.
abbrev pub leading : List (Option Bool) → ℕ
leading [] = 0
leading (some true ∷ past) = leading past + 1
leading (some false ∷ past) = 0
leading (none ∷ past) = leading past

tick_unseen :
    (v : Sight) (r : Recovery) (e : Engine)
    → may_judge v r.policy ≡ false
    → (recovery_tick v r e).0.failures ≡ r.failures
unfolding recovery_tick
tick_unseen v r e h = ground arith

tick_fine :
    (v : Sight) (r : Recovery) (e : Engine)
    → may_judge v r.policy ≡ true
    → fails v r ≡ false
    → (recovery_tick v r e).0.failures ≡ 0
unfolding recovery_tick judge_tick
tick_fine v r e h f = ground arith

tick_failing :
    (v : Sight) (r : Recovery) (e : Engine)
    → may_judge v r.policy ≡ true
    → fails v r ≡ true
    → (recovery_tick v r e).0.failures ≡ r.failures + 1
tick_failing v r e h f = elim (Bool-cases (attempts v r)) [
  | inl tried ↦ (tick_attempt v r e tried).2
  | inr idle ↦ unfold recovery_tick judge_tick in ground arith
]

-- In every run the counter is the number of failing ticks since the newest tick that found all well.
pub Seen-failures :
    {r : Recovery} {past : List (Option Bool)} → Seen r past → r.failures ≡ leading past
Seen-failures (starts new_recovery) = new_recovery
Seen-failures (ticks {r} {past} v e seen) = elim (Bool-cases (may_judge v r.policy)) [
  | inr unseen ↦ rw unseen (tick_unseen v r e unseen ∙ Seen-failures seen)
  | inl judged ↦ elim (Bool-cases (fails v r)) [
    | inl failing ↦
        rw (judged, failing) (omega (arith, tick_failing v r e judged failing, Seen-failures seen))
    | inr fine ↦ rw (judged, fine) (tick_fine v r e judged fine)
  ]
]

-- What the policy and the node must say for a repair of each kind.
abbrev pub Justified : Sight → Recovery → Repair → Type 0
Justified v r no_repair = Unit
Justified v r restart_engine = (bad_service v.ready ≡ true) × (r.policy.recovery ≡ "restart")
Justified v r switch_route =
    (route_bad r.policy v.stats ≡ true)
    × (r.policy.automatic_failover ≡ true)
    × (r.active_egress ≢ r.policy.reserve_socks_address)

repair_of-Justified :
    (v : Sight) (r : Recovery)
    → Justified v r
        (repair_of r.policy r.active_egress (bad_service v.ready) (route_bad r.policy v.stats))
unfolding repair_of
repair_of-Justified v r =
    let service = bad_service v.ready in
    let route = route_bad r.policy v.stats in
    let leaves = r.active_egress != r.policy.reserve_socks_address in
    elim (Bool-cases (route && r.policy.automatic_failover && leaves)) [
      | inl moves ↦ rw moves (
        ground arith,
        ground arith,
        ground (arith, eq_iff r.active_egress r.policy.reserve_socks_address),
      )
      | inr stays ↦ elim (Bool-cases (service && (r.policy.recovery == "restart"))) [
        | inl restarts ↦
            rw (stays, restarts) (ground arith, ground (arith, eq_iff r.policy.recovery "restart"))
        | inr nothing ↦ rw (stays, nothing) tt
      ]
    ]

try_repair-Justified : (v : Sight) (r : Recovery) (e : Engine) → Justified v r (try_repair v r e).2
unfolding try_repair
try_repair-Justified v r e = elim (Bool-cases (attempted v r).1) [
  | inl is_saved ↦ rw is_saved (repair_of-Justified v r)
  | inr lost ↦ rw lost tt
]

idle_or_tried :
    (v : Sight) (r : Recovery) (e : Engine)
    → (recovery_tick v r e).2 ≢ no_repair
    → attempts v r ≡ true
idle_or_tried v r e acts = elim (Bool-cases (attempts v r)) [
  | inl tried ↦ tried
  | inr idle ↦ absurd (acts (tick_idle v r e idle).0)
]

-- After any run of ticks, a tick repairs the node only if the policy is not in maintenance, no
-- interrupted update waits, the unit runs, WEB admission is not paused and telemt does not report
-- admission as closed; if, this one included, at least `failure_threshold` ticks have failed since
-- the newest tick that found service and route well, where ticks that returned early (in maintenance,
-- with an update waiting, with admission paused) neither count nor reset; and it restarts the engine only for a bad service under the policy "restart", and
-- changes the route only for a dead route under failover, away from the reserve.
pub tick_repair_sustained :
    {r : Recovery} {past : List (Option Bool)} (v : Sight) (e : Engine)
    → Seen r past
    → (recovery_tick v r e).2 ≢ no_repair
    → (r.policy.maintenance ≡ false)
      × (v.journal_clear ≡ true)
      × (v.unit_active ≡ true)
      × (web_paused v.web ≡ false)
      × (admission_closed v.ready ≡ false)
      × (r.policy.failure_threshold ≤ℤ pos (leading (some (fails v r) ∷ past)))
      × Justified v r (recovery_tick v r e).2
unfolding may_repair
tick_repair_sustained {r} {past} v e seen acts =
    let tried = idle_or_tried v r e acts in
    let counted = Seen-failures seen in
    let justified : Justified v r (recovery_tick v r e).2 =
      rw (tick_tries v r e tried) (try_repair-Justified v r e) in
    let judged : may_judge v r.policy ≡ true = ground arith in
    let failing : fails v r ≡ true = ground arith in
    let enough : r.policy.failure_threshold ≤ℤ pos (r.failures + 1) = ground arith in
    (
      unfold may_judge in ground arith,
      unfold may_judge in ground arith,
      unfold may_judge in ground arith,
      unfold may_judge in ground arith,
      unfold may_judge in ground arith,
      rw failing (omega (arith, enough, counted)),
      justified,
    )
