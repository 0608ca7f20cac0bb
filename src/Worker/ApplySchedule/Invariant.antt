-- ===== src/Worker/ApplySchedule/Invariant.antt =====
-- What holds of the schedule between two calls: at most four nodes are being applied, and every
-- retry has counted between one and ten attempts.
use tgproxy_panel.Prelude.{
  ℕ, ◌≤◌, ◌≡◌, refl, Bool, true, false, Option, none, some, arith, length, lookup, lookup-insert,
  lookup-remove, length-insert-le, length-remove-le, nat_eq,
}
use tgproxy_panel.Worker.ApplySchedule.{
  ApplySchedule, ApplyRetry, idle, max_background_applies, claim, finish, forget, failed_retry,
}

pub record IsBounded (s : ApplySchedule) : Type 0 where
  pub slots : length s.running ≤ max_background_applies
  pub counted :
      (id : ℕ) (retry : ApplyRetry)
      → lookup id s.retries ≡ some retry
      → (1 ≤ retry.attempts) × (retry.attempts ≤ 10)

pub idle-IsBounded : IsBounded idle
unfolding lookup
idle-IsBounded = record { slots = omega arith; counted = λ id retry h. cc }

-- `claim` keeps the bounds, whether it grants the slot or not.
pub claim-IsBounded :
    (s : ApplySchedule) (id revision now : ℕ) → IsBounded s → IsBounded (claim s id revision now).0
unfolding claim
claim-IsBounded s id revision now b = record {
  slots = ground (arith, b.slots, length-insert-le id true s.running);
  counted = λ j retry h. ground (arith, b.counted j retry, lookup-remove id j s.retries);
}

failed_retry_counted :
    (draw : ℕ → ℕ) (old : Option ApplyRetry) (revision now : ℕ)
    → ((r : ApplyRetry) → old ≡ some r → r.attempts ≤ 10)
    → (1 ≤ (failed_retry draw old revision now).attempts)
      × ((failed_retry draw old revision now).attempts ≤ 10)
unfolding failed_retry
failed_retry_counted draw none revision now h = ground arith
failed_retry_counted draw (some r) revision now h = ground (arith, h r refl)

-- `finish` keeps the bounds, whether the apply failed or not.
pub finish-IsBounded :
    (draw : ℕ → ℕ) (s : ApplySchedule) (id revision now : ℕ) (failed : Bool)
    → IsBounded s
    → IsBounded (finish draw s id revision now failed)
unfolding finish
finish-IsBounded draw s id revision now true b = record {
  slots = omega (arith, b.slots, length-remove-le id s.running);
  counted = λ j retry h.
      let new =
        failed_retry_counted draw (lookup id s.retries) revision now
          (λ r e. (b.counted id r e).1) in
      ground (
        arith,
        b.counted j retry,
        lookup-insert id j (failed_retry draw (lookup id s.retries) revision now) s.retries,
        new,
      );
}
finish-IsBounded draw s id revision now false b = record {
  slots = omega (arith, b.slots, length-remove-le id s.running);
  counted = λ j retry h. ground (arith, b.counted j retry, lookup-remove id j s.retries);
}

pub forget-IsBounded : (s : ApplySchedule) (id : ℕ) → IsBounded s → IsBounded (forget s id)
unfolding forget
forget-IsBounded s id b = record {
  slots = b.slots;
  counted = λ j retry h. ground (arith, b.counted j retry, lookup-remove id j s.retries);
}
