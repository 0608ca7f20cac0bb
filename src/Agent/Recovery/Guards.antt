-- ===== src/Agent/Recovery/Guards.antt =====
-- What a tick leaves alone, and what it does to the log when it makes an attempt.
use tgproxy_panel.Prelude.{
  ℕ, ◌+◌, ◌≡◌, refl, ◌∙◌, ◌⊎◌, inl, inr, Bool, true, false, ◌&&◌, ◌||◌, some, [], ◌∷◌, ◌++◌, arith,
  if◌then◌else◌, ◌==◌, Bool-cases, nat_eq, string_eq,
}
use tgproxy_panel.Agent.Egress.{Engine, apply_egress}
use tgproxy_panel.Agent.Recovery.{
  Event, Recovery, Repair, Sight, add_event, bad_service, judge_tick, keep_last, may_judge,
  may_repair, no_repair, recovery_event, recovery_tick, repair, restart_engine, route_bad,
  save_recovery, switch_route, attempted, note_result, repair_of, result_text, try_repair,
}

-- Whether a tick logs an attempt.
abbrev pub attempts : Sight → Recovery → Bool
attempts v r =
    let route = route_bad r.policy v.stats in
    may_judge v r.policy
    && (bad_service v.ready || route)
    && may_repair r.policy route (record r { failures = r.failures + 1 }) v.now

abbrev pub attempt_entry : ℕ → Event
attempt_entry now = record { at = now; action = "attempt"; result = "confirmed repeated failure" }

abbrev result_entry : Sight → Bool → Event
result_entry v fine = record { at = v.done_at; action = "result"; result = result_text v fine }

-- What every repair keeps, and the entry that it adds, which is no attempt.
abbrev Keeps : Recovery → Recovery → Type 0
Keeps r r' =
    (r'.policy ≡ r.policy)
    × (r'.last ≡ r.last)
    × (r'.failures ≡ r.failures)
    × ((r'.events ≡ r.events)
        ⊎ ((x : Event) × ((x.action == "attempt") ≡ false)
            × (r'.events ≡ keep_last (r.events ++ x ∷ []))))

note_result-Keeps : (v : Sight) (fine : Bool) (r : Recovery) → Keeps r (note_result v fine r)
unfolding recovery_event save_recovery add_event
note_result-Keeps v fine r = (refl, refl, refl, inr (result_entry v fine, refl, refl))

repair-Keeps : (v : Sight) (way : Repair) (r : Recovery) (e : Engine) → Keeps r (repair v way r e).0
unfolding repair
repair-Keeps v no_repair r e = (refl, refl, refl, inl refl)
repair-Keeps v restart_engine r e = note_result-Keeps v v.restart r
repair-Keeps v switch_route r e =
    elim (Bool-cases (apply_egress v.egress e r.policy.reserve_socks_address).1) [
      | inl up ↦
          rw up
            (note_result-Keeps v true (record r { active_egress = r.policy.reserve_socks_address }))
      | inr down ↦ rw down (note_result-Keeps v false r)
    ]

try_repair-Keeps :
    (v : Sight) (r : Recovery) (e : Engine) → Keeps (attempted v r).0 (try_repair v r e).0
unfolding try_repair
try_repair-Keeps v r e =
    repair-Keeps v
      (if (attempted v r).1
        then repair_of r.policy r.active_egress (bad_service v.ready) (route_bad r.policy v.stats)
        else no_repair)
      (attempted v r).0 e

-- A tick that makes an attempt is its try.
pub tick_tries :
    (v : Sight) (r : Recovery) (e : Engine)
    → attempts v r ≡ true
    → recovery_tick v r e ≡ try_repair v r e
unfolding recovery_tick judge_tick
tick_tries v r e h = ground arith

attempted_fields :
    (v : Sight) (r : Recovery)
    → ((attempted v r).0.policy ≡ r.policy)
      × ((attempted v r).0.last ≡ some v.now)
      × ((attempted v r).0.failures ≡ r.failures + 1)
      × ((attempted v r).0.events ≡ keep_last (r.events ++ attempt_entry v.now ∷ []))
unfolding attempted save_recovery add_event
attempted_fields v r = (refl, refl, refl, refl)

-- A tick that makes no attempt repairs nothing, and leaves the policy, the engine, the log, the time
-- of the last attempt, the active route and the file as they are.
pub tick_idle :
    (v : Sight) (r : Recovery) (e : Engine)
    → attempts v r ≡ false
    → let (r', e', way) = recovery_tick v r e in
      (way ≡ no_repair)
      × (e' ≡ e)
      × (r'.policy ≡ r.policy)
      × (r'.events ≡ r.events)
      × (r'.last ≡ r.last)
      × (r'.active_egress ≡ r.active_egress)
      × (r'.file ≡ r.file)
unfolding recovery_tick judge_tick
tick_idle v r e h = ground arith

-- A tick that makes an attempt is the last attempt, and logs it before the result, if any.
pub tick_attempt :
    (v : Sight) (r : Recovery) (e : Engine)
    → attempts v r ≡ true
    → let r' = (recovery_tick v r e).0 in
      let tried = keep_last (r.events ++ attempt_entry v.now ∷ []) in
      (r'.policy ≡ r.policy)
      × (r'.last ≡ some v.now)
      × (r'.failures ≡ r.failures + 1)
      × ((r'.events ≡ tried)
          ⊎ ((x : Event) × ((x.action == "attempt") ≡ false)
              × (r'.events ≡ keep_last (tried ++ x ∷ []))))
tick_attempt v r e h =
    let (p, l, f, es) = attempted_fields v r in
    let (p', l', f', es') = try_repair-Keeps v r e in
    rw (tick_tries v r e h) (p' ∙ p, l' ∙ l, f' ∙ f, rw es at es')
