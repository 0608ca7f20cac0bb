-- ===== src/Worker/ApplySchedule/Traces.antt =====
-- Sequences of calls: the workers that hold a node, and a run of failures of one revision.
use tgproxy_panel.Prelude.{
  ℕ, suc, ◌+◌, ◌≤◌, min, ◌≡◌, refl, ◌≢◌, Bool, true, false, none, some, List, [], ◌∷◌, ◌++◌, arith,
  if◌then◌else◌, ◌!=◌, length, keep_if, Distinct, Distinct-append_one, Distinct-keep_if,
  contains-keys, keys-insert_new, keys-remove, length-keys, contains, Map, keys, lookup, insert,
  remove, lookup-insert, lookup-remove, lookup-insert_self, nat_eq,
}
use tgproxy_panel.Worker.ApplySchedule.{
  ApplySchedule, ApplyRetry, idle, claim, finish, forget, failed_retry,
}
use tgproxy_panel.Worker.ApplySchedule.Invariant.{
  IsBounded, idle-IsBounded, claim-IsBounded, finish-IsBounded, forget-IsBounded,
}

-- A run of the schedule with the nodes that workers hold, the oldest claim first: a worker starts
-- after a granted claim and calls `finish` for its own node.
pub data Run : ApplySchedule → List ℕ → Type 0 where
  start : Run idle []
  claimed :
      {s : ApplySchedule} {held : List ℕ} (id revision now : ℕ)
      → Run s held
      → (claim s id revision now).1 ≡ true
      → Run (claim s id revision now).0 (held ++ id ∷ [])
  refused :
      {s : ApplySchedule} {held : List ℕ} (id revision now : ℕ)
      → Run s held
      → (claim s id revision now).1 ≡ false
      → Run (claim s id revision now).0 held
  finished :
      {s : ApplySchedule} {held : List ℕ} (draw : ℕ → ℕ) (id revision now : ℕ) (failed : Bool)
      → Run s held
      → contains held id ≡ true
      → Run (finish draw s id revision now failed) (keep_if (λ j. j != id) held)
  forgotten : {s : ApplySchedule} {held : List ℕ} (id : ℕ) → Run s held → Run (forget s id) held

record Tracks (s : ApplySchedule) (held : List ℕ) : Type 0 where
  bounded : IsBounded s
  tracked : keys s.running ≡ held
  distinct : Distinct held
  set : (id : ℕ) → lookup id s.running ≢ some false

claim-running :
    (s : ApplySchedule) (id revision now : ℕ)
    → (claim s id revision now).0.running
      ≡ (if (claim s id revision now).1 then insert id true s.running else s.running)
unfolding claim
claim-running s id revision now = ground arith

claim-missing :
    (s : ApplySchedule) (id revision now : ℕ)
    → ((j : ℕ) → lookup j s.running ≢ some false)
    → (claim s id revision now).1 ≡ true
    → lookup id s.running ≡ none
unfolding claim
claim-missing s id revision now set h = ground (arith, set id)

set-insert :
    (id : ℕ) (m : Map ℕ Bool)
    → ((j : ℕ) → lookup j m ≢ some false)
    → (j : ℕ) → lookup j (insert id true m) ≢ some false
set-insert id m set j h = ground (arith, lookup-insert id j true m, set j)

set-remove :
    (id : ℕ) (m : Map ℕ Bool)
    → ((j : ℕ) → lookup j m ≢ some false)
    → (j : ℕ) → lookup j (remove id m) ≢ some false
set-remove id m set j h = ground (arith, lookup-remove id j m, set j)

finish-running :
    (draw : ℕ → ℕ) (s : ApplySchedule) (id revision now : ℕ) (failed : Bool)
    → (finish draw s id revision now failed).running ≡ remove id s.running
unfolding finish
finish-running draw s id revision now failed = ground arith

forget-running : (s : ApplySchedule) (id : ℕ) → (forget s id).running ≡ s.running
unfolding forget
forget-running s id = refl

Run-Tracks : {s : ApplySchedule} {held : List ℕ} → Run s held → Tracks s held
Run-Tracks start = record {
  bounded = idle-IsBounded;
  tracked = refl;
  distinct = tt;
  set = λ id h. unfold lookup in cc;
}
Run-Tracks (claimed {s} {held} id revision now r granted) =
    let t = Run-Tracks r in
    let missing = claim-missing s id revision now t.set granted in
    record {
      bounded = claim-IsBounded s id revision now t.bounded;
      tracked = rw (claim-running, granted, keys-insert_new id true s.running missing, t.tracked);
      distinct =
          Distinct-append_one held id t.distinct
            (rw (← t.tracked) (contains-keys id s.running missing));
      set = rw (claim-running, granted) (set-insert id s.running t.set);
    }
Run-Tracks (refused {s} id revision now r no_slot) =
    let t = Run-Tracks r in
    record {
      bounded = claim-IsBounded s id revision now t.bounded;
      tracked = rw (claim-running, no_slot) t.tracked;
      distinct = t.distinct;
      set = rw (claim-running, no_slot) t.set;
    }
Run-Tracks (finished {s} {held} draw id revision now failed r mine) =
    let t = Run-Tracks r in
    record {
      bounded = finish-IsBounded draw s id revision now failed t.bounded;
      tracked = rw (finish-running, keys-remove, t.tracked);
      distinct = Distinct-keep_if (λ j. j != id) held t.distinct;
      set = rw finish-running (set-remove id s.running t.set);
    }
Run-Tracks (forgotten {s} id r) =
    let t = Run-Tracks r in
    record {
      bounded = forget-IsBounded s id t.bounded;
      tracked = rw forget-running t.tracked;
      distinct = t.distinct;
      set = rw forget-running t.set;
    }

-- In every run, whatever the order of claims, refusals, finishes and forgets: no node is held by
-- two workers, at most four nodes are held, and the nodes marked as running are exactly the held
-- ones.
pub Run-exclusive :
    {s : ApplySchedule} {held : List ℕ}
    → Run s held
    → Distinct held × (length held ≤ 4) × (keys s.running ≡ held)
Run-exclusive {s} r =
    let t = Run-Tracks r in (t.distinct, rw (← t.tracked, length-keys) t.bounded.slots, t.tracked)

-- Failures of one node at one revision, at the given times.
unfoldable pub fail_at : (ℕ → ℕ) → ApplySchedule → ℕ → ℕ → List ℕ → ApplySchedule
fail_at draw s id revision [] = s
fail_at draw s id revision (now ∷ times) =
    fail_at draw (finish draw s id revision now true) id revision times

finish_counts :
    (draw : ℕ → ℕ) (s : ApplySchedule) (id revision now : ℕ) (r : ApplyRetry)
    → lookup id s.retries ≡ some r
    → r.revision ≡ revision
    → r.attempts ≤ 10
    → (r' : ApplyRetry) × (lookup id (finish draw s id revision now true).retries ≡ some r')
      × (r'.revision ≡ revision)
      × (r'.attempts ≡ min 10 (suc r.attempts))
unfolding finish failed_retry
finish_counts draw s id revision now r found same few = (
  failed_retry draw (some r) revision now,
  rw (lookup-insert_self, found),
  ground arith,
  ground arith,
)

fail_at-attempts :
    (draw : ℕ → ℕ) (times : List ℕ) (s : ApplySchedule) (id revision : ℕ) (r : ApplyRetry)
    → lookup id s.retries ≡ some r
    → r.revision ≡ revision
    → r.attempts ≤ 10
    → (r' : ApplyRetry) × (lookup id (fail_at draw s id revision times).retries ≡ some r')
      × (r'.revision ≡ revision)
      × (r'.attempts ≡ min 10 (r.attempts + length times))
unfolding fail_at
fail_at-attempts draw [] s id revision r found same few = (r, found, same, omega arith)
fail_at-attempts draw (now ∷ times) s id revision r found same few =
    let (r', found', same', count') = finish_counts draw s id revision now r found same few in
    let (q, found_q, same_q, count_q) =
      fail_at-attempts draw times (finish draw s id revision now true) id revision r' found' same'
        (omega arith) in
    (q, found_q, same_q, omega arith)

finish_first :
    (draw : ℕ → ℕ) (s : ApplySchedule) (id revision now : ℕ)
    → lookup id s.retries ≡ none
    → (r' : ApplyRetry) × (lookup id (finish draw s id revision now true).retries ≡ some r')
      × (r'.revision ≡ revision)
      × (r'.attempts ≡ 1)
unfolding finish failed_retry
finish_first draw s id revision now missing = (
  failed_retry draw none revision now,
  rw (lookup-insert_self, missing),
  ground arith,
  ground arith,
)

-- After n + 1 failures of one revision in a row, from a schedule with no retry of the node, its
-- retry is of that revision and has counted n + 1 attempts, but never more than ten.
pub fail_at_counts :
    (draw : ℕ → ℕ) (s : ApplySchedule) (id revision now : ℕ) (times : List ℕ)
    → lookup id s.retries ≡ none
    → (r : ApplyRetry) × (lookup id (fail_at draw s id revision (now ∷ times)).retries ≡ some r)
      × (r.revision ≡ revision)
      × (r.attempts ≡ min 10 (1 + length times))
unfolding fail_at
fail_at_counts draw s id revision now times missing =
    let (r, found, same, one) = finish_first draw s id revision now missing in
    let (q, found_q, same_q, count_q) =
      fail_at-attempts draw times (finish draw s id revision now true) id revision r found same
        (omega arith) in
    (q, found_q, same_q, omega arith)
