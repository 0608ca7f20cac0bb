-- ===== src/Worker/Notifications/Stored.antt =====
-- Where the states live: what withState does to its key, to other keys, and after a failure.
use tgproxy_panel.Prelude.{
  String, ◌≡◌, refl, ◌≢◌, ◌⊎◌, [], arith, eq_iff, Map, lookup, lookup-insert, lookup-insert_self,
  nat_eq, string_eq,
}
use tgproxy_panel.Worker.Notifications.{
  NotificationState, Outcome, Storage, database, failed_after, failed_before, memory, saved,
  state_of, with_state,
}

-- A call touches the state of its own key only, wherever the states live and however it ends.
pub with_state-other :
    (store : Storage) (states : Map String NotificationState) (key j : String)
    (fn : NotificationState → Outcome)
    → key ≢ j
    → lookup j (with_state store states key fn).0 ≡ lookup j states
unfolding with_state
with_state-other memory states key j fn ne =
    ground (arith, eq_iff key j, lookup-insert key j (fn (state_of (lookup key states))).0 states)
with_state-other (database failed_before) states key j fn ne = refl
with_state-other (database failed_after) states key j fn ne = refl
with_state-other (database saved) states key j fn ne =
    ground (arith, eq_iff key j, lookup-insert key j (fn (state_of (lookup key states))).0 states)

-- A failed transaction keeps every state: before the function runs nothing is delivered, after it
-- the deliveries are made and will be made again by the next call that meets the same outside.
pub with_state-failed :
    (states : Map String NotificationState) (key : String) (fn : NotificationState → Outcome)
    → (with_state (database failed_before) states key fn ≡ (states, []))
      × ((with_state (database failed_after) states key fn).0 ≡ states)
      × (with_state (database saved) (with_state (database failed_after) states key fn).0 key fn
          ≡ with_state (database saved) states key fn)
      × ((with_state (database failed_after) states key fn).1
          ≡ (with_state (database saved) states key fn).1)
unfolding with_state
with_state-failed states key fn = (refl, refl, refl, refl)

-- Saved transactions and the process's own map run the same state machine: what one call stores
-- is what the next call of the key starts from.
pub with_state-with_state :
    (store : Storage) (states : Map String NotificationState) (key : String)
    (fn gn : NotificationState → Outcome)
    → (store ≡ memory) ⊎ (store ≡ database saved)
    → (with_state store (with_state store states key fn).0 key gn).1
      ≡ (gn (fn (state_of (lookup key states))).0).1
unfolding with_state
with_state-with_state memory states key fn gn h = rw lookup-insert_self
with_state-with_state (database failed_before) states key fn gn h = ground arith
with_state-with_state (database failed_after) states key fn gn h = ground arith
with_state-with_state (database saved) states key fn gn h = rw lookup-insert_self
