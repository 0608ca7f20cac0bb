-- ===== src/Agent/Lives.antt =====
-- The recovery of an agent over its whole life, with ticks, requests of the panel and restarts: what
-- a process that starts again finds in reliability.json.
mod Tests
use tgproxy_panel.Prelude.{
  ◌≡◌, refl, ◌≢◌, ◌⊎◌, inl, inr, Bool, true, false, Option, none, some, arith, if◌then◌else◌,
  Bool-cases,
}
use tgproxy_panel.Reliability.Policy.{Net, Policy, default_policy, endpoint_ok, validate}
use tgproxy_panel.Agent.Files.{Write, done, failed_early, failed_late, holds, missing, write_atomic}
use tgproxy_panel.Agent.Egress.{Engine, apply_egress}
use tgproxy_panel.Agent.Recovery.{
  Recovery, Repair, Sight, attempted, new_recovery, load_recovery, no_repair, note_result,
  recovery_event, recovery_tick, repair, restart_engine, save_recovery, start, saved_state,
  switch_route, try_repair,
}
use tgproxy_panel.Agent.Recovery.Guards.{attempts, tick_attempt, tick_idle, tick_tries}
use tgproxy_panel.Agent.Configure.{
  ConfigureHost, adopt, change_route, changes_route, configure, keeps_route, set_policy,
}

-- The recoveries that an agent comes to on a state directory that starts out empty, as long as no
-- write of a tick fails and no write of a request fails after its rename.
pub data Life (net : Net) : Recovery → Type 0 where
  boots : Life net (new_recovery missing)
  ticks :
      {r : Recovery} (v : Sight) (e : Engine)
      → v.attempt_write ≡ done
      → v.result_write ≡ done
      → Life net r
      → Life net (recovery_tick v r e).0
  sets :
      {r : Recovery} (h : ConfigureHost) (request : Option (Option Policy)) (e : Engine)
      → h.write ≢ failed_late
      → Life net r
      → Life net (configure net h request r e).0
  restarts : {r : Recovery} → Life net r → Life net (start net r.file).0

-- The policy is valid, and the file has what the memory has.
abbrev Stored : Net → Recovery → Type 0
Stored net r =
    (validate net r.policy ≡ none) × (start net r.file ≡ (record r { failures = 0 }, true))

abbrev Saved : Recovery → Type 0
Saved r = r.file ≡ holds (saved_state r)

Saved-Stored : (net : Net) (r : Recovery) → validate net r.policy ≡ none → Saved r → Stored net r
unfolding start load_recovery new_recovery saved_state
Saved-Stored net r valid on_disk = (valid, rw on_disk (ground arith))

note_result-Saved :
    (v : Sight) (fine : Bool) (r : Recovery) → v.result_write ≡ done → Saved (note_result v fine r)
unfolding recovery_event save_recovery write_atomic saved_state
note_result-Saved v fine r ok = rw ok refl

repair-Saved :
    (v : Sight) (way : Repair) (r : Recovery) (e : Engine)
    → v.result_write ≡ done
    → Saved r
    → Saved (repair v way r e).0
unfolding repair
repair-Saved v no_repair r e ok saved = saved
repair-Saved v restart_engine r e ok saved = note_result-Saved v v.restart r ok
repair-Saved v switch_route r e ok saved =
    let up = (apply_egress v.egress e r.policy.reserve_socks_address).1 in
    note_result-Saved v up
      (if up then record r { active_egress = r.policy.reserve_socks_address } else r) ok

attempted-Saved : (v : Sight) (r : Recovery) → v.attempt_write ≡ done → Saved (attempted v r).0
unfolding attempted save_recovery write_atomic saved_state
attempted-Saved v r ok = rw ok refl

tick-Stored :
    (net : Net) (v : Sight) (r : Recovery) (e : Engine)
    → v.attempt_write ≡ done
    → v.result_write ≡ done
    → Stored net r
    → Stored net (recovery_tick v r e).0
unfolding try_repair
tick-Stored net v r e first second stored = elim (Bool-cases (attempts v r)) [
  | inr idle ↦ let (_, _, p, es, l, a, f) = tick_idle v r e idle in rw (p, es, l, a, f) stored
  | inl tried ↦
      let (p, _, _, _) = tick_attempt v r e tried in
      Saved-Stored net (recovery_tick v r e).0 (rw p stored.0) (
        rw (tick_tries v r e tried)
          (repair-Saved v _ (attempted v r).0 e second (attempted-Saved v r first)))
]

sure_write : (w : Write) → w ≢ failed_late → (w ≡ done) ⊎ (w ≡ failed_early)
sure_write failed_early sure = inr refl
sure_write failed_late sure = absurd (sure refl)
sure_write done sure = inl refl

adopt-Saved :
    (h : ConfigureHost) (change : Bool) (p : Policy) (r : Recovery) (before e : Engine)
    → h.write ≡ done
    → ((adopt h change p r before e).0.policy ≡ record p { restore_primary = false })
      × Saved (adopt h change p r before e).0
unfolding adopt save_recovery write_atomic saved_state
adopt-Saved h change p r before e ok = rw ok (refl, refl)

adopt_refused :
    (h : ConfigureHost) (change : Bool) (p : Policy) (r : Recovery) (before e : Engine)
    → h.write ≡ failed_early
    → (adopt h change p r before e).0 ≡ r
unfolding adopt save_recovery write_atomic
adopt_refused h change p r before e lost = rw lost refl

adopt-Stored :
    (net : Net) (h : ConfigureHost) (change : Bool) (p : Policy) (r : Recovery) (before e : Engine)
    → h.write ≢ failed_late
    → validate net p ≡ none
    → Stored net r
    → Stored net (adopt h change p r before e).0
unfolding validate
adopt-Stored net h change p r before e sure valid stored = elim (sure_write h.write sure) [
  | inl ok ↦
      let (policy, saved) = adopt-Saved h change p r before e ok in
      Saved-Stored net (adopt h change p r before e).0 (rw policy valid) saved
  | inr lost ↦ rw (adopt_refused h change p r before e lost) stored
]

set_policy-Stored :
    (net : Net) (h : ConfigureHost) (p : Policy) (r : Recovery) (e : Engine)
    → h.write ≢ failed_late
    → validate net p ≡ none
    → Stored net r
    → Stored net (set_policy h p r e).0
unfolding set_policy
set_policy-Stored net h p r e sure valid stored =
    let change = changes_route p r.policy r.active_egress in
    let routed = change_route h change p e in
    let adopted : Stored net (adopt h change p r e routed.0).0 =
      adopt-Stored net h change p r e routed.0 sure valid stored in
    elim (Bool-cases (keeps_route p r.policy r.active_egress)) [
      | inl keeps ↦ rw keeps stored
      | inr goes ↦ elim (Bool-cases routed.1) [
        | inl up ↦ rw (goes, up) adopted
        | inr down ↦ rw (goes, down) stored
      ]
    ]

configure-Stored :
    (net : Net) (h : ConfigureHost) (request : Option (Option Policy)) (r : Recovery) (e : Engine)
    → h.write ≢ failed_late
    → Stored net r
    → Stored net (configure net h request r e).0
unfolding configure
configure-Stored net h none r e sure stored = ground arith
configure-Stored net h (some none) r e sure stored = ground arith
configure-Stored net h (some (some p)) r e sure stored =
    ground (arith, set_policy-Stored net h p r e sure)

boot-Stored : (net : Net) → Stored net (new_recovery missing)
unfolding start load_recovery new_recovery default_policy validate endpoint_ok
boot-Stored net = (refl, refl)

start-Stored : (net : Net) (r : Recovery) → Stored net r → Stored net (start net r.file).0
start-Stored net r (valid, same) = rw same (valid, same)

Life-Stored : (net : Net) {r : Recovery} → Life net r → Stored net r
Life-Stored net boots = boot-Stored net
Life-Stored net (ticks {r} v e first second life) =
    tick-Stored net v r e first second (Life-Stored net life)
Life-Stored net (sets {r} h request e sure life) =
    configure-Stored net h request r e sure (Life-Stored net life)
Life-Stored net (restarts {r} life) = start-Stored net r (Life-Stored net life)

-- At any moment of the life of an agent whose state directory starts out empty, with ticks, requests
-- and restarts, as long as no write of a tick fails and no write of a request fails after its rename,
-- a process that starts again comes up, and has the policy, the active route, the log and the time of
-- the last attempt that the one before it had; only its count of failures is zero again.
pub start-survives :
    {r : Recovery} (net : Net) → Life net r → start net r.file ≡ (record r { failures = 0 }, true)
start-survives net life = (Life-Stored net life).1
