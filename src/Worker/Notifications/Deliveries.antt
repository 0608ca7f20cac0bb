-- ===== src/Worker/Notifications/Deliveries.antt =====
-- What one problem or one recovery delivers, and when a problem counts as announced.
use tgproxy_panel.Prelude.{
  ℕ, ◌+◌, ◌<◌, String, ◌≡◌, refl, Bool, true, false, not, ◌&&◌, ◌||◌, some, List, [], arith,
  if◌then◌else◌, lt→ltb, ◌==◌, length, keep_if, nat_eq, string_eq,
}
use tgproxy_panel.Worker.Notifications.{
  Delivery, Destination, NotificationState, Outside, in_cooldown, problem, send_problem,
  send_recovery, telegram_ready, to_telegram, to_webhook, webhook_ready, new_period,
  problem_telegram, problem_webhook, recovery_telegram, recovery_webhook,
}

abbrev pub is_to : Destination → Destination → Bool
is_to to_webhook to_webhook = true
is_to to_telegram to_telegram = true
is_to _ _ = false

abbrev pub acknowledged : Destination → NotificationState → Bool
acknowledged to_webhook s = s.webhook
acknowledged to_telegram s = s.telegram

abbrev pub ready : Destination → Outside → Bool
ready to_webhook o = webhook_ready o
ready to_telegram o = telegram_ready o

abbrev pub works : Destination → Outside → Bool
works to_webhook o = o.webhook_works
works to_telegram o = o.telegram_works

-- The attempts of a log that went to one destination, and those among them that were delivered.
abbrev pub attempts_to : Destination → List Delivery → List Delivery
attempts_to d = keep_if (λ x. is_to d x.destination)

abbrev pub is_delivered : Destination → Bool → Delivery → Bool
is_delivered d true x = is_to d x.destination && x.delivered && x.recovery
is_delivered d false x = is_to d x.destination && x.delivered && not x.recovery

abbrev pub delivered_to : Destination → Bool → List Delivery → ℕ
delivered_to d recovery log = length (keep_if (is_delivered d recovery) log)

-- A problem goes to each destination that is ready and has not acknowledged it, once; afterwards
-- exactly the destinations that had acknowledged it or have just accepted it are marked.
pub send_problem_deliveries :
    (d : Destination) (o : Outside) (s : NotificationState)
    → (length (attempts_to d (send_problem o s).1)
        ≡ (if ready d o && not (acknowledged d s) then 1 else 0))
      × (acknowledged d (send_problem o s).0 ≡ (acknowledged d s || (ready d o && works d o)))
unfolding send_problem problem_webhook problem_telegram
send_problem_deliveries to_webhook o s = ground arith
send_problem_deliveries to_telegram o s = ground arith

-- A problem is announced, and leaves the pending state, exactly when the settings could be read,
-- every ready destination has acknowledged it, and at least one destination has; its time is then
-- the end of the deliveries. Otherwise it stays pending with its old time.
pub send_problem-announced :
    (o : Outside) (s : NotificationState)
    → let after = (send_problem o s).0 in
      let announced =
        not o.config_error
        && (not (webhook_ready o) || after.webhook)
        && (not (telegram_ready o) || after.telegram)
        && (after.telegram || after.webhook) in
      (after.pending ≡ (if announced then false else s.pending))
      × (after.last_problem ≡ (if announced then some o.sent_at else s.last_problem))
unfolding send_problem problem_webhook problem_telegram
send_problem-announced o s = ground arith

-- A recovery goes only to destinations that acknowledged the problem, and a mark is taken back
-- exactly when its recovery was delivered.
pub send_recovery_deliveries :
    (d : Destination) (o : Outside) (s : NotificationState)
    → (delivered_to d false (send_recovery o s).1 ≡ 0)
      × (acknowledged d s ≡ false → attempts_to d (send_recovery o s).1 ≡ [])
      × (acknowledged d (send_recovery o s).0
          ≡ (acknowledged d s && (delivered_to d true (send_recovery o s).1 == 0)))
unfolding send_recovery recovery_webhook recovery_telegram
send_recovery_deliveries to_webhook o s = ground arith
send_recovery_deliveries to_telegram o s = ground arith

announced_at :
    (o : Outside) (s : NotificationState)
    → s.pending ≡ true
    → (send_problem o s).0.pending ≡ false
    → (send_problem o s).0.last_problem ≡ some o.sent_at
announced_at o s open_ h = ground (arith, send_problem-announced o s)

pub problem-of_quiet :
    (kind : String) (cooldown : ℕ) (o : Outside) (s : NotificationState)
    → in_cooldown s cooldown o.now ≡ true
    → problem kind cooldown o s ≡ (s, [])
unfolding problem
problem-of_quiet kind cooldown o s h = rw h

pub problem-of_awake :
    (kind : String) (cooldown : ℕ) (o : Outside) (s : NotificationState)
    → in_cooldown s cooldown o.now ≡ false
    → problem kind cooldown o s ≡ send_problem o (record (new_period kind s) { pending = true })
unfolding problem
problem-of_awake kind cooldown o s h = rw h

in_cooldown-of_announced :
    (s : NotificationState) (cooldown now at : ℕ)
    → s.pending ≡ false
    → s.last_problem ≡ some at
    → now < at + cooldown
    → in_cooldown s cooldown now ≡ true
unfolding in_cooldown
in_cooldown-of_announced s cooldown now at p l h = rw (p, l) (lt→ltb _ _ h)

-- After an announcement the same problem is quiet for its whole cooldown: nothing is sent and the
-- state stays, for every kind.
pub problem_quiet :
    (kind : String) (cooldown : ℕ) (o o' : Outside) (s : NotificationState)
    → (problem kind cooldown o s).0.pending ≡ false
    → in_cooldown s cooldown o.now ≡ false
    → o'.now < o.sent_at + cooldown
    → problem kind cooldown o' (problem kind cooldown o s).0 ≡ ((problem kind cooldown o s).0, [])
problem_quiet kind cooldown o o' s announced awake soon =
    let opened = record (new_period kind s) { pending = true } in
    let sent = problem-of_awake kind cooldown o s awake in
    let announced' = rw sent at announced in
    problem-of_quiet kind cooldown o' (problem kind cooldown o s).0 (
      rw sent (
        in_cooldown-of_announced (send_problem o opened).0 cooldown o'.now o.sent_at announced'
          (announced_at o opened refl announced') soon))
