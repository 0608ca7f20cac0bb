-- ===== src/Worker/Notifications/Balance.antt =====
-- What one call delivers to a destination, against the mark of the destination before and after it.
use tgproxy_panel.Prelude.{
  ℕ, ◌+◌, ◌≤◌, String, ◌≡◌, refl, inl, inr, Bool, true, false, ◌&&◌, ◌||◌, some, List, [], ◌∷◌,
  ◌++◌, arith, eq_iff, if◌then◌else◌, Bool-cases,
}
use tgproxy_panel.Worker.Notifications.{
  Delivery, Destination, NotificationState, Outcome, Outside, in_cooldown, new_period, problem,
  problem_telegram, problem_webhook, recovered, recovery_telegram, recovery_webhook, send_problem,
  send_recovery, to_telegram, to_webhook,
}
use tgproxy_panel.Worker.Notifications.Deliveries.{
  acknowledged, delivered_to, problem-of_awake, problem-of_quiet,
}

-- Whether a destination is marked, as a number.
abbrev pub mark : Destination → NotificationState → ℕ
mark d s = if acknowledged d s then 1 else 0

pub delivered_to-append :
    (d : Destination) (recovery : Bool) (xs ys : List Delivery)
    → delivered_to d recovery (xs ++ ys) ≡ delivered_to d recovery xs + delivered_to d recovery ys
delivered_to-append d recovery [] ys = omega arith
delivered_to-append d recovery (x ∷ xs) ys = ground (arith, delivered_to-append d recovery xs ys)

module _ (o : Outside) (s : NotificationState) where
  problem_webhook-balance :
      (d : Destination)
      → (mark d (problem_webhook o s).0 ≡ mark d s + delivered_to d false (problem_webhook o s).2)
        × (delivered_to d true (problem_webhook o s).2 ≡ 0)
  unfolding problem_webhook
  problem_webhook-balance to_webhook = ground arith
  problem_webhook-balance to_telegram = ground arith

  problem_telegram-balance :
      (d : Destination) (c : Bool)
      → (mark d (problem_telegram o s c).0
          ≡ mark d s + delivered_to d false (problem_telegram o s c).2)
        × (delivered_to d true (problem_telegram o s c).2 ≡ 0)
  unfolding problem_telegram
  problem_telegram-balance to_webhook c = ground arith
  problem_telegram-balance to_telegram c = ground arith

mark-announced :
    (d : Destination) (b : Bool) (at : ℕ) (s : NotificationState)
    → mark d (if b then record s { pending = false; last_problem = some at } else s) ≡ mark d s
mark-announced to_webhook b at s = ground arith
mark-announced to_telegram b at s = ground arith

send_problem-balance :
    (d : Destination) (o : Outside) (s : NotificationState)
    → (mark d (send_problem o s).0 ≡ mark d s + delivered_to d false (send_problem o s).1)
      × (delivered_to d true (send_problem o s).1 ≡ 0)
unfolding send_problem
send_problem-balance d o s =
    let (s₁, c₁, sent₁) = problem_webhook o s in
    let (s₂, c₂, sent₂) = problem_telegram o s₁ c₁ in
    rw (delivered_to-append d false sent₁ sent₂, delivered_to-append d true sent₁ sent₂)
      (omega (
        arith,
        problem_webhook-balance o s d,
        problem_telegram-balance o s₁ d c₁,
        mark-announced d (c₂ && (s₂.telegram || s₂.webhook)) o.sent_at s₂,
      ))

send_recovery-balance :
    (d : Destination) (o : Outside) (s : NotificationState)
    → (mark d (send_recovery o s).0 + delivered_to d true (send_recovery o s).1 ≡ mark d s)
      × (delivered_to d false (send_recovery o s).1 ≡ 0)
unfolding send_recovery recovery_webhook recovery_telegram
send_recovery-balance to_webhook o s = ground arith
send_recovery-balance to_telegram o s = ground arith

-- A new period takes marks back only of a kind that is not an outage.
new_period-mark :
    (d : Destination) (kind : String) (s : NotificationState)
    → (mark d (new_period kind s) ≤ mark d s)
      × (kind ≡ "node_offline" → mark d (new_period kind s) ≡ mark d s)
unfolding new_period
new_period-mark to_webhook kind s = ground (arith, eq_iff kind "node_offline")
new_period-mark to_telegram kind s = ground (arith, eq_iff kind "node_offline")

mark-pending :
    (d : Destination) (b : Bool) (s : NotificationState)
    → mark d (record s { pending = b }) ≡ mark d s
mark-pending to_webhook b s = refl
mark-pending to_telegram b s = refl

abbrev pub Balance : Destination → String → NotificationState → Outcome → Type 0
Balance d kind s out =
    (mark d out.0 + delivered_to d true out.1 ≤ mark d s + delivered_to d false out.1)
    × (kind ≡ "node_offline"
        → mark d out.0 + delivered_to d true out.1 ≡ mark d s + delivered_to d false out.1)

pub problem-Balance :
    (d : Destination) (kind : String) (cooldown : ℕ) (o : Outside) (s : NotificationState)
    → Balance d kind s (problem kind cooldown o s)
problem-Balance d kind cooldown o s = elim (Bool-cases (in_cooldown s cooldown o.now)) [
  | inl quiet ↦ rw (problem-of_quiet kind cooldown o s quiet) (omega arith, λ k. omega arith)
  | inr awake ↦
      let opened = record (new_period kind s) { pending = true } in
      rw (problem-of_awake kind cooldown o s awake) (
        omega (
          arith,
          send_problem-balance d o opened,
          new_period-mark d kind s,
          mark-pending d true (new_period kind s),
        ),
        λ k. omega (
          arith,
          send_problem-balance d o opened,
          (new_period-mark d kind s).1 k,
          mark-pending d true (new_period kind s),
        ),
      )
]

pub recovered-Balance :
    (d : Destination) (kind : String) (o : Outside) (s : NotificationState)
    → Balance d kind s (recovered o s)
unfolding recovered
recovered-Balance d kind o s = (
  omega (arith, send_recovery-balance d o (record s { pending = false }), mark-pending d false s),
  λ k.
      omega
        (arith, send_recovery-balance d o (record s { pending = false }), mark-pending d false s),
)
