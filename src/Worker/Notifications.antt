-- ===== src/Worker/Notifications.antt =====
-- internal/worker/alerts.go and notification_state.go: one notification per node and kind, its
-- delivery to two destinations, and its recovery.
-- What a call meets outside (settings, delivery results, clock readings, the database) is its
-- `Outside`. A time is a number of nanoseconds; the zero time is none. Message texts and log lines
-- are left out: a delivery is recorded with its destination and its result.
pub mod Deliveries
mod Balance
pub mod Episodes
pub mod Stored
mod Tests
use tgproxy_panel.Prelude.{
  ℕ, ◌+◌, ◌*◌, String, Bool, true, false, not, ◌&&◌, ◌||◌, Option, none, some, List, [], ◌∷◌, ◌++◌,
  ltb, if◌then◌else◌, ◌!=◌, Map, lookup, insert, concat, nat_eq, string_eq,
}

abbrev pub minute : ℕ
minute = 60000000000

abbrev pub offline_cooldown : ℕ
offline_cooldown = 15 * minute

abbrev pub apply_cooldown : ℕ
apply_cooldown = 60 * minute

abbrev pub incident_cooldown : ℕ
incident_cooldown = 180 * minute

pub record NotificationState : Type 0 where
  pub last_problem : Option ℕ
  pub pending : Bool
  pub telegram : Bool
  pub webhook : Bool

abbrev pub fresh_state : NotificationState
fresh_state = record { last_problem = none; pending = false; telegram = false; webhook = false }

pub data Destination : Type 0 where
  to_webhook to_telegram : Destination

-- One attempt to deliver: where to, of a problem or of its recovery, and whether it succeeded.
pub record Delivery : Type 0 where
  pub destination : Destination
  pub recovery : Bool
  pub delivered : Bool

pub record Outside : Type 0 where
  -- a.Webhook != nil, and its URL
  pub webhook : Option String
  pub webhook_works : Bool
  -- the error and the three values that a.src returns
  pub config_error : Bool
  pub enabled : Bool
  pub token : String
  pub chat_id : String
  pub telegram_works : Bool
  -- a.clock() at the cooldown test and after the deliveries
  pub now : ℕ
  pub sent_at : ℕ

-- `enabled && token != "" && chatID != ""`
unfoldable pub telegram_ready : Outside → Bool
telegram_ready o = o.enabled && (o.token != "") && (o.chat_id != "")

-- `a.Webhook != nil && a.Webhook.URL != ""`
unfoldable pub webhook_ready : Outside → Bool
webhook_ready o = elim o.webhook [ none ↦ false | some url ↦ url != "" ]

unfoldable pub webhook_set : Outside → Bool
webhook_set o = elim o.webhook [ none ↦ false | some url ↦ true ]

abbrev pub Outcome : Type 0
Outcome = NotificationState × List Delivery

-- The webhook's part of sendProblem, with the flag `complete`.
unfoldable pub problem_webhook :
    Outside → NotificationState → NotificationState × Bool × List Delivery
unfolding webhook_ready
problem_webhook o s =
    let sent =
      record { destination = to_webhook; recovery = false; delivered = o.webhook_works } ∷ [] in
    if webhook_ready o && not s.webhook
    then if o.webhook_works then (record s { webhook = true }, true, sent) else (s, false, sent)
    else (s, true, [])

-- Telegram's part. A failed read of the settings clears `complete` and does not return.
unfoldable pub problem_telegram :
    Outside → NotificationState → Bool → NotificationState × Bool × List Delivery
unfolding telegram_ready
problem_telegram o s complete =
    let still = complete && not o.config_error in
    let sent =
      record { destination = to_telegram; recovery = false; delivered = o.telegram_works } ∷ [] in
    if telegram_ready o && not s.telegram
    then if o.telegram_works then (record s { telegram = true }, still, sent) else (s, false, sent)
    else (s, still, [])

unfoldable pub send_problem : Outside → NotificationState → Outcome
send_problem o s =
    let (s₁, complete₁, sent₁) = problem_webhook o s in
    let (s₂, complete₂, sent₂) = problem_telegram o s₁ complete₁ in
    (
      if complete₂ && (s₂.telegram || s₂.webhook)
          then record s₂ { pending = false; last_problem = some o.sent_at }
          else s₂,
      sent₁ ++ sent₂,
    )

unfoldable pub recovery_webhook : Outside → NotificationState → Outcome
unfolding webhook_set
recovery_webhook o s =
    if s.webhook && webhook_set o
    then (
      if o.webhook_works then record s { webhook = false } else s,
      record { destination = to_webhook; recovery = true; delivered = o.webhook_works } ∷ [],
    )
    else (s, [])

unfoldable pub recovery_telegram : Outside → NotificationState → Outcome
unfolding telegram_ready
recovery_telegram o s =
    if s.telegram && not o.config_error && telegram_ready o
    then (
      if o.telegram_works then record s { telegram = false } else s,
      record { destination = to_telegram; recovery = true; delivered = o.telegram_works } ∷ [],
    )
    else (s, [])

unfoldable pub send_recovery : Outside → NotificationState → Outcome
send_recovery o s =
    let (s₁, sent₁) = recovery_webhook o s in
    let (s₂, sent₂) = recovery_telegram o s₁ in (s₂, sent₁ ++ sent₂)

-- `!state.Pending && !state.LastProblem.IsZero() && a.clock().Sub(state.LastProblem) < cooldown`
unfoldable pub in_cooldown : NotificationState → ℕ → ℕ → Bool
in_cooldown s cooldown now =
    not s.pending && (elim s.last_problem [ none ↦ false | some at ↦ ltb now (at + cooldown) ])

-- The start of a new delivery period, for every kind but an outage.
unfoldable pub new_period : String → NotificationState → NotificationState
new_period kind s =
    if not s.pending && (kind != "node_offline")
    then record s { telegram = false; webhook = false }
    else s

-- The function that `problem` runs under withState.
unfoldable pub problem : String → ℕ → Outside → NotificationState → Outcome
problem kind cooldown o s =
    if in_cooldown s cooldown o.now
    then (s, [])
    else send_problem o (record (new_period kind s) { pending = true })

unfoldable pub recovered : Outside → NotificationState → Outcome
recovered o s = send_recovery o (record s { pending = false })

-- How a transaction of withState ends: before the function runs (no delivery slot, Begin, INSERT,
-- SELECT FOR UPDATE or Unmarshal fails), after it (Marshal, UPDATE or Commit fails), or saved.
pub data Transaction : Type 0 where
  failed_before failed_after saved : Transaction

-- Where the states live: the map of the process (`a.pool == nil`), or the database.
pub data Storage : Type 0 where
  memory : Storage
  database : Transaction → Storage

unfoldable pub state_of : Option NotificationState → NotificationState
state_of none = fresh_state
state_of (some s) = s

-- The key is `nodeID + "|" + kind`. The lock of the key, or the row's, makes a call one step.
unfoldable pub with_state :
    Storage
    → Map String NotificationState
    → String
    → (NotificationState → Outcome)
    → Map String NotificationState × List Delivery
unfolding state_of
with_state memory states key fn =
    let (s, sent) = fn (state_of (lookup key states)) in (insert key s states, sent)
with_state (database failed_before) states key fn = (states, [])
with_state (database failed_after) states key fn = (states, (fn (state_of (lookup key states))).1)
with_state (database saved) states key fn =
    let (s, sent) = fn (state_of (lookup key states)) in (insert key s states, sent)

abbrev pub state_key : String → String → String
state_key node kind = concat node (concat "|" kind)

-- NodeOffline, NodeOnline and ApplyFailed of an Alerts that is not nil.
unfoldable pub node_offline :
    Storage
    → Map String NotificationState
    → String
    → Outside
    → Map String NotificationState × List Delivery
node_offline store states node o =
    with_state store states (state_key node "node_offline")
      (problem "node_offline" offline_cooldown o)

unfoldable pub node_online :
    Storage
    → Map String NotificationState
    → String
    → Outside
    → Map String NotificationState × List Delivery
node_online store states node o =
    with_state store states (state_key node "node_offline") (recovered o)

unfoldable pub apply_failed :
    Storage
    → Map String NotificationState
    → String
    → Outside
    → Map String NotificationState × List Delivery
apply_failed store states node o =
    with_state store states (state_key node "apply_failed")
      (problem "apply_failed" apply_cooldown o)
