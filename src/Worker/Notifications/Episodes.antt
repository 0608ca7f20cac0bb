-- ===== src/Worker/Notifications/Episodes.antt =====
-- Sequences of problems and recoveries of one key: what each destination has received.
use tgproxy_panel.Prelude.{
  Map, insert, lookup, ℕ, ◌+◌, ◌≤◌, String, ◌≡◌, refl, true, false, List, [], ◌∷◌, ◌++◌, arith, Map,
  lookup, insert, lookup-insert_self, nat_eq, string_eq,
}
use tgproxy_panel.Worker.Notifications.{
  Delivery, Destination, NotificationState, Outcome, Outside, Storage, database, failed_after,
  failed_before, memory, problem, recovered, saved, state_of, to_telegram, to_webhook, with_state,
}
use tgproxy_panel.Worker.Notifications.Deliveries.{delivered_to}
use tgproxy_panel.Worker.Notifications.Balance.{
  Balance, delivered_to-append, mark, problem-Balance, recovered-Balance,
}

-- A problem or a recovery that is handled, and where its state is kept: in the process, or in the
-- database with the way its transaction ends.
pub data Event : Type 0 where
  report : Storage → Outside → Event
  resolve : Storage → Outside → Event

unfoldable pub handle :
    String
    → String
    → ℕ
    → Event
    → Map String NotificationState
    → Map String NotificationState × List Delivery
handle key kind cooldown (report store o) states =
    with_state store states key (problem kind cooldown o)
handle key kind cooldown (resolve store o) states = with_state store states key (recovered o)

unfoldable pub run :
    String
    → String
    → ℕ
    → List Event
    → Map String NotificationState
    → Map String NotificationState × List Delivery
unfolding handle
run key kind cooldown [] states = (states, [])
run key kind cooldown (e ∷ es) states =
    let (states₁, sent₁) = handle key kind cooldown e states in
    let (states₂, sent₂) = run key kind cooldown es states₁ in (states₂, sent₁ ++ sent₂)

-- Whether a call delivers and then cannot save its state.
abbrev pub is_lost : Storage → ℕ
is_lost memory = 0
is_lost (database failed_before) = 0
is_lost (database failed_after) = 1
is_lost (database saved) = 0

-- The events of a sequence whose state was lost after the deliveries.
abbrev pub lost : List Event → ℕ
lost [] = 0
lost (report store o ∷ es) = is_lost store + lost es
lost (resolve store o ∷ es) = is_lost store + lost es

-- The mark that is kept for the key.
abbrev pub mark_at : Destination → String → Map String NotificationState → ℕ
mark_at d key states = mark d (state_of (lookup key states))

mark_le : (d : Destination) (s : NotificationState) → mark d s ≤ 1
mark_le to_webhook s = ground arith
mark_le to_telegram s = ground arith

-- Up to the states that were lost, recoveries are not ahead of the problems and the mark, and of an
-- outage neither is behind.
abbrev KeptBalance :
    Destination
    → String
    → String
    → ℕ
    → Map String NotificationState
    → Map String NotificationState × List Delivery
    → Type 0
KeptBalance d key kind unsaved states (after, sent) =
    (mark_at d key after + delivered_to d true sent
      ≤ mark_at d key states + delivered_to d false sent + unsaved)
    × (kind ≡ "node_offline"
        → mark_at d key states + delivered_to d false sent
          ≤ mark_at d key after + delivered_to d true sent + unsaved)

saved-KeptBalance :
    (d : Destination) (key kind : String) (states : Map String NotificationState) (out : Outcome)
    → Balance d kind (state_of (lookup key states)) out
    → KeptBalance d key kind 0 states (insert key out.0 states, out.1)
unfolding state_of
saved-KeptBalance d key kind states out fits =
    rw (lookup-insert_self key out.0 states) (omega (arith, fits.0), λ k. omega (arith, fits.1 k))

with_state-KeptBalance :
    (d : Destination) (key kind : String) (store : Storage) (states : Map String NotificationState)
    (fn : NotificationState → Outcome)
    → Balance d kind (state_of (lookup key states)) (fn (state_of (lookup key states)))
    → KeptBalance d key kind (is_lost store) states (with_state store states key fn)
unfolding with_state
with_state-KeptBalance d key kind memory states fn fits =
    saved-KeptBalance d key kind states (fn (state_of (lookup key states))) fits
with_state-KeptBalance d key kind (database saved) states fn fits =
    saved-KeptBalance d key kind states (fn (state_of (lookup key states))) fits
with_state-KeptBalance d key kind (database failed_before) states fn fits =
    (omega arith, λ k. omega arith)
with_state-KeptBalance d key kind (database failed_after) states fn fits =
    let before = state_of (lookup key states) in
    (
      omega (arith, fits.0, mark_le d before, mark_le d (fn before).0),
      λ k. omega (arith, fits.1 k, mark_le d before, mark_le d (fn before).0),
    )

handle-KeptBalance :
    (d : Destination) (key kind : String) (cooldown : ℕ) (e : Event)
    (states : Map String NotificationState)
    → KeptBalance d key kind (lost (e ∷ [])) states (handle key kind cooldown e states)
unfolding handle
handle-KeptBalance d key kind cooldown (report store o) states =
    let s = state_of (lookup key states) in
    let kept =
      with_state-KeptBalance d key kind store states (problem kind cooldown o)
        (problem-Balance d kind cooldown o s) in
    (omega (arith, kept.0), λ k. omega (arith, kept.1 k))
handle-KeptBalance d key kind cooldown (resolve store o) states =
    let s = state_of (lookup key states) in
    let kept =
      with_state-KeptBalance d key kind store states (recovered o) (recovered-Balance d kind o s) in
    (omega (arith, kept.0), λ k. omega (arith, kept.1 k))

lost-cons : (e : Event) (es : List Event) → lost (e ∷ es) ≡ lost (e ∷ []) + lost es
lost-cons (report store o) es = omega arith
lost-cons (resolve store o) es = omega arith

run-KeptBalance :
    (d : Destination) (key kind : String) (cooldown : ℕ) (es : List Event)
    (states : Map String NotificationState)
    → KeptBalance d key kind (lost es) states (run key kind cooldown es states)
unfolding run
run-KeptBalance d key kind cooldown [] states = (omega arith, λ k. omega arith)
run-KeptBalance d key kind cooldown (e ∷ es) states =
    let now = handle key kind cooldown e states in
    let later = run key kind cooldown es now.0 in
    let first = handle-KeptBalance d key kind cooldown e states in
    let rest = run-KeptBalance d key kind cooldown es now.0 in
    rw
      (
        delivered_to-append d true now.1 later.1,
        delivered_to-append d false now.1 later.1,
        lost-cons e es,
      )
      (omega (arith, first.0, rest.0), λ k. omega (arith, first.1 k, rest.1 k))

none_marked : (d : Destination) (key : String) → mark_at d key [] ≡ 0
unfolding state_of lookup
none_marked to_webhook key = refl
none_marked to_telegram key = refl

-- Over any sequence of problems and recoveries of one key, under any settings, delivery results and
-- clock readings, and wherever the state is kept: a destination receives at most as many recoveries as
-- problems, and one more for each call whose state could not be saved after its deliveries.
pub run-recoveries_le :
    (d : Destination) (key kind : String) (cooldown : ℕ) (es : List Event)
    → delivered_to d true (run key kind cooldown es []).1
      ≤ delivered_to d false (run key kind cooldown es []).1 + lost es
run-recoveries_le d key kind cooldown es =
    omega (arith, (run-KeptBalance d key kind cooldown es []).0, none_marked d key)

-- Over any sequence of outages and recoveries of one key, under any settings, delivery results and
-- clock readings, and wherever the state is kept: the problems that a destination has received are its
-- recoveries, and one more while it is marked, up to a difference of at most one for each call whose
-- state could not be saved after its deliveries. So without such calls a destination is marked exactly
-- while it is one problem ahead, and is never more than one ahead.
pub run-outage_alternates :
    (d : Destination) (key : String) (cooldown : ℕ) (es : List Event)
    → let (after, sent) = run key "node_offline" cooldown es [] in
      (delivered_to d false sent ≤ delivered_to d true sent + mark_at d key after + lost es)
      × (delivered_to d true sent + mark_at d key after ≤ delivered_to d false sent + lost es)
run-outage_alternates d key cooldown es =
    let kept = run-KeptBalance d key "node_offline" cooldown es [] in
    (omega (arith, kept.1 refl, none_marked d key), omega (arith, kept.0, none_marked d key))
