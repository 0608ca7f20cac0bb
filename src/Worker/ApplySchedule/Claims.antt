-- ===== src/Worker/ApplySchedule/Claims.antt =====
-- What a claim, and a finish after it, mean for the next claim of the same node.
use tgproxy_panel.Prelude.{
  lookup, ℕ, ◌+◌, ◌*◌, ◌≤◌, ◌<◌, ◌≡◌, ◌∙◌, ◌≢◌, ◌↔◌, ◌⊎◌, Bool, true, false, Option, none, some,
  arith, length, lookup, remove, lookup-insert, lookup-remove, lookup-insert_self,
  lookup-remove_self, nat_eq, string_eq,
}
use tgproxy_panel.Worker.ApplySchedule.{
  ApplyRetry, ApplySchedule, apply_retry_delay, claim, failed_retry, finish, forget, is_running,
  max_background_applies, must_wait, second,
}
use tgproxy_panel.Worker.ApplySchedule.Delay.{DrawsBelow, apply_retry_delay_bounds}

-- A granted claim shuts out every later claim of the node until it is finished: the claim is
-- refused and the schedule stays as it is, at any revision and any time.
pub claim-claim_refused :
    (s : ApplySchedule) (id revision now revision' now' : ℕ)
    → (claim s id revision now).1 ≡ true
    → claim (claim s id revision now).0 id revision' now' ≡ ((claim s id revision now).0, false)
unfolding claim
claim-claim_refused s id revision now revision' now' h =
    ground (arith, lookup-insert_self id true s.running)

-- A claim is granted exactly when the node is not being applied, a slot is free, and no retry of
-- the same revision is still to be waited for; a refused claim changes nothing.
pub claim_granted_iff :
    (s : ApplySchedule) (id revision now : ℕ)
    → ((claim s id revision now).1 ≡ true ↔ (
        (is_running s id ≡ false)
        × (length s.running < max_background_applies)
        × (must_wait (lookup id s.retries) revision now ≡ false)))
      × ((claim s id revision now).1 ≡ false → (claim s id revision now).0 ≡ s)
unfolding claim
claim_granted_iff s id revision now = ground arith

failed_retry_fields :
    (draw : ℕ → ℕ) (old : Option ApplyRetry) (revision now : ℕ)
    → ((failed_retry draw old revision now).revision ≡ revision)
      × ((failed_retry draw old revision now).after
          ≡ now + apply_retry_delay draw (failed_retry draw old revision now).attempts)
unfolding failed_retry
failed_retry_fields draw none revision now = ground arith
failed_retry_fields draw (some r) revision now = ground arith

-- What can happen to a schedule while one node's retry is pending, whose end is `limit`: refused claims
-- of any node, claims of that node at the same revision before the end, and anything that is done for
-- other nodes. Left out are, for that node, a `forget`, a `finish` and a granted claim at another
-- revision or after the end.
pub data Meanwhile (id revision limit : ℕ) (s : ApplySchedule) : ApplySchedule → Type 0 where
  nothing : Meanwhile id revision limit s s
  refused :
      {u : ApplySchedule} (j r now : ℕ)
      → Meanwhile id revision limit s u
      → (claim u j r now).1 ≡ false
      → Meanwhile id revision limit s (claim u j r now).0
  retried :
      {u : ApplySchedule} (now : ℕ)
      → Meanwhile id revision limit s u
      → now < limit
      → Meanwhile id revision limit s (claim u id revision now).0
  claimed :
      {u : ApplySchedule} (j r now : ℕ)
      → Meanwhile id revision limit s u
      → j ≢ id
      → Meanwhile id revision limit s (claim u j r now).0
  finished :
      {u : ApplySchedule} (draw : ℕ → ℕ) (j r now : ℕ) (failed : Bool)
      → Meanwhile id revision limit s u
      → j ≢ id
      → Meanwhile id revision limit s (finish draw u j r now failed)
  forgotten :
      {u : ApplySchedule} (j : ℕ)
      → Meanwhile id revision limit s u
      → j ≢ id
      → Meanwhile id revision limit s (forget u j)

-- The node has a retry of the revision, not before the limit.
abbrev IsDue : ℕ → ℕ → ℕ → ApplySchedule → Type 0
IsDue id revision limit s =
    (retry : ApplyRetry) × (lookup id s.retries ≡ some retry)
    × (retry.revision ≡ revision)
    × (limit ≤ retry.after)

claim-of_due :
    (id revision limit now : ℕ) (s : ApplySchedule)
    → IsDue id revision limit s
    → now < limit
    → (claim s id revision now).1 ≡ false
unfolding claim
claim-of_due id revision limit now s (retry, found, same, le) soon = ground arith

claim-retries_other :
    (s : ApplySchedule) (j r now id : ℕ)
    → j ≢ id
    → lookup id (claim s j r now).0.retries ≡ lookup id s.retries
unfolding claim
claim-retries_other s j r now id other = ground (arith, lookup-remove j id s.retries)

finish-retries_other :
    (draw : ℕ → ℕ) (s : ApplySchedule) (j r now : ℕ) (failed : Bool) (id : ℕ)
    → j ≢ id
    → lookup id (finish draw s j r now failed).retries ≡ lookup id s.retries
unfolding finish
finish-retries_other draw s j r now failed id other =
    let retry = failed_retry draw (lookup j s.retries) r now in
    ground (arith, lookup-remove j id s.retries, lookup-insert j id retry s.retries)

forget-retries_other :
    (s : ApplySchedule) (j id : ℕ) → j ≢ id → lookup id (forget s j).retries ≡ lookup id s.retries
unfolding forget
forget-retries_other s j id other = ground (arith, lookup-remove j id s.retries)

IsDue-same :
    (id revision limit : ℕ) (s u : ApplySchedule)
    → lookup id u.retries ≡ lookup id s.retries
    → IsDue id revision limit s
    → IsDue id revision limit u
IsDue-same id revision limit s u same (retry, found, of_revision, le) =
    (retry, same ∙ found, of_revision, le)

Meanwhile-IsDue :
    {id revision limit : ℕ} {s u : ApplySchedule}
    → Meanwhile id revision limit s u
    → IsDue id revision limit s
    → IsDue id revision limit u
Meanwhile-IsDue nothing due = due
Meanwhile-IsDue {id} {revision} {limit} (refused {u} j r now before denied) due =
    rw ((claim_granted_iff u j r now).1 denied) (Meanwhile-IsDue before due)
Meanwhile-IsDue {id} {revision} {limit} (retried {u} now before soon) due =
    let due_u = Meanwhile-IsDue before due in
    rw ((claim_granted_iff u id revision now).1 (claim-of_due id revision limit now u due_u soon))
      due_u
Meanwhile-IsDue {id} {revision} {limit} (claimed {u} j r now before other) due =
    IsDue-same id revision limit u (claim u j r now).0 (claim-retries_other u j r now id other)
      (Meanwhile-IsDue before due)
Meanwhile-IsDue {id} {revision} {limit} (finished {u} draw j r now failed before other) due =
    IsDue-same id revision limit u (finish draw u j r now failed)
      (finish-retries_other draw u j r now failed id other) (Meanwhile-IsDue before due)
Meanwhile-IsDue {id} {revision} {limit} (forgotten {u} j before other) due =
    IsDue-same id revision limit u (forget u j) (forget-retries_other u j id other)
      (Meanwhile-IsDue before due)

module _ (draw : ℕ → ℕ) (s : ApplySchedule) (id revision now : ℕ) (below : DrawsBelow draw) where
  finish-IsDue : IsDue id revision (now + 45 * second) (finish draw s id revision now true)
  unfolding finish
  finish-IsDue =
      let retry = failed_retry draw (lookup id s.retries) revision now in
      let fields = failed_retry_fields draw (lookup id s.retries) revision now in
      (
        retry,
        lookup-insert_self id retry s.retries,
        fields.0,
        omega (arith, fields.1, apply_retry_delay_bounds draw retry.attempts below),
      )

  -- For 45 seconds after a failed apply every claim of the node at the same revision is refused,
  -- whatever claims, finishes and forgets of other nodes, refused claims of any node and earlier
  -- claims of this revision lie between; in between there is no forget or finish of the node, and no
  -- granted claim of it at another revision.
  pub finish-claim_waits :
      {u : ApplySchedule} (now' : ℕ)
      → Meanwhile id revision (now + 45 * second) (finish draw s id revision now true) u
      → now' < now + 45 * second
      → (claim u id revision now').1 ≡ false
  finish-claim_waits {u} now' between soon =
      claim-of_due id revision (now + 45 * second) now' u (Meanwhile-IsDue between finish-IsDue)
        soon

  -- After a failed apply the node is free again: with a slot left, another revision is granted at
  -- once, and the same revision 15 minutes later at the latest.
  pub finish-claim_granted :
      (revision' now' : ℕ)
      → length (remove id s.running) < max_background_applies
      → (revision' ≢ revision) ⊎ (now + 900 * second ≤ now')
      → (claim (finish draw s id revision now true) id revision' now').1 ≡ true
  unfolding claim finish
  finish-claim_granted revision' now' room h =
      let retry = failed_retry draw (lookup id s.retries) revision now in
      ground (
        arith,
        failed_retry_fields draw (lookup id s.retries) revision now,
        lookup-insert_self id retry s.retries,
        lookup-remove_self id s.running,
        apply_retry_delay_bounds draw retry.attempts below,
      )

-- A successful apply, and `forget`, leave nothing to wait for: with a slot left the next claim of
-- the node is granted at any revision and time after a success.
pub finish-claim_success :
    (draw : ℕ → ℕ) (s : ApplySchedule) (id revision now revision' now' : ℕ)
    → length (remove id s.running) < max_background_applies
    → (claim (finish draw s id revision now false) id revision' now').1 ≡ true
unfolding claim finish
finish-claim_success draw s id revision now revision' now' room =
    ground (arith, lookup-remove_self id s.retries, lookup-remove_self id s.running)
