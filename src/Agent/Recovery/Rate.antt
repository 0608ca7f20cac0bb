-- ===== src/Agent/Recovery/Rate.antt =====
-- How often a node is repaired: the cooldown between attempts, and the attempts of an hour.
use mathlib.Core.Path.{subst}
use tgproxy_panel.Prelude.{
  All-append_one, All-weaken, ℕ, ◌+◌, ◌*◌, ◌≤◌, ◌<◌, ◌≡◌, refl, sym, ◌∙◌, inl, inr, true, false,
  none, List, [], ◌∷◌, ◌++◌, arith, if◌then◌else◌, Bool-cases, All, ℤ, pos, negsuc, pos_part, ◌≤ℤ◌,
}
use tgproxy_panel.Reliability.Policy.{Policy, Net, validate}
use tgproxy_panel.Reliability.Policy.Rules.{validate_iff}
use tgproxy_panel.Reliability.Report.{second}
use tgproxy_panel.Agent.Egress.{Engine}
use tgproxy_panel.Agent.Recovery.{
  Recovery, Sight, recent_attempts, recovery_tick, cooling, may_repair,
}
use tgproxy_panel.Agent.Recovery.Log.{Knows, Sparse, attempt_times}
use tgproxy_panel.Agent.Recovery.Guards.{attempts, tick_attempt, tick_idle}
use tgproxy_panel.Agent.Recovery.Times.{
  Latest, Spaced, Spaced-append_one, cooled, newest-Latest, rate_after, recent,
}
use tgproxy_panel.Agent.Recovery.Entries.{log_of_attempt}

-- Ticks of an agent that starts with an empty log and never changes its policy: its state, the times
-- of its attempts, the oldest first, and the time by which the last tick ended.
pub data Run (p : Policy) : Recovery → List ℕ → ℕ → Type 0 where
  starts :
      {r : Recovery} (clock : ℕ) → r.policy ≡ p → r.events ≡ [] → r.last ≡ none → Run p r [] clock
  ticks :
      {r : Recovery} {tries : List ℕ} {clock : ℕ} (v : Sight) (e : Engine)
      → clock ≤ v.now
      → v.now ≤ v.done_at
      → Run p r tries clock
      → Run p
          (recovery_tick v r e).0
          (if attempts v r then tries ++ v.now ∷ [] else tries)
          v.done_at

-- What holds of every run.
record Kept (p : Policy) (r : Recovery) (tries : List ℕ) (clock : ℕ) : Type 0 where
  policy : r.policy ≡ p
  sparse : Sparse 0 r.events
  knows : Knows tries r.events
  spaced : Spaced (pos_part p.cooldown_seconds * second) tries
  latest : Latest r.last tries
  past : All (λ x. x ≤ clock) tries
  rate : (t : ℕ) → clock ≤ t → recent t tries ≤ pos_part p.max_actions_hour

granted :
    (v : Sight) (r : Recovery)
    → attempts v r ≡ true
    → (recent_attempts v.now r.events < pos_part r.policy.max_actions_hour)
      × (cooling r.last r.policy.cooldown_seconds v.now ≡ false)
unfolding may_repair
granted v r h = ground arith

few_actions : (z : ℤ) → z ≤ℤ pos 6 → pos_part z ≤ 6
few_actions (pos n) h = omega arith
few_actions (negsuc n) h = omega arith

start-Kept :
    (p : Policy) (r : Recovery) (clock : ℕ)
    → r.policy ≡ p
    → r.events ≡ []
    → r.last ≡ none
    → Kept p r [] clock
unfolding attempt_times
start-Kept p r clock e quiet new_recovery = record {
  policy = e;
  sparse = rw quiet tt;
  knows = record { lost = []; split = rw quiet refl; many = inl refl };
  spaced = tt;
  latest = rw new_recovery refl;
  past = tt;
  rate = λ t le. omega arith;
}

idle-Kept :
    (p : Policy) (r : Recovery) (tries : List ℕ) (clock : ℕ) (v : Sight) (e : Engine)
    → clock ≤ v.done_at
    → attempts v r ≡ false
    → Kept p r tries clock
    → Kept p (recovery_tick v r e).0 tries v.done_at
idle-Kept p r tries clock v e le h k =
    let (_, _, same_policy, same_events, same_last, _, _) = tick_idle v r e h in
    record {
      policy = same_policy ∙ k.policy;
      sparse = subst (Sparse 0) (sym same_events) k.sparse;
      knows = subst (Knows tries) (sym same_events) k.knows;
      spaced = k.spaced;
      latest = subst (λ l. Latest l tries) (sym same_last) k.latest;
      past = All-weaken (λ x. x ≤ clock) (λ x. x ≤ v.done_at) tries (λ x q. omega arith) k.past;
      rate = λ t late. k.rate t (omega arith);
    }

attempt-Kept :
    (p : Policy) (r : Recovery) (tries : List ℕ) (clock : ℕ) (v : Sight) (e : Engine)
    → p.max_actions_hour ≤ℤ pos 6
    → clock ≤ v.now
    → v.now ≤ v.done_at
    → attempts v r ≡ true
    → Kept p r tries clock
    → Kept p (recovery_tick v r e).0 (tries ++ v.now ∷ []) v.done_at
attempt-Kept p r tries clock v e small le late h k =
    let (same_policy, newest, _, ends) = tick_attempt v r e h in
    let (few, cold) = granted v r h in
    let logged = log_of_attempt tries r (recovery_tick v r e).0 v.now k.sparse k.knows ends in
    let gap = pos_part p.cooldown_seconds * second in
    let apart : All (λ x. x + pos_part p.cooldown_seconds * second ≤ v.now) tries =
      subst (λ q. All (λ x. x + pos_part q.cooldown_seconds * second ≤ v.now) tries) k.policy
        (cooled r.last r.policy.cooldown_seconds v.now tries k.latest cold) in
    let few_of : recent_attempts v.now r.events < pos_part p.max_actions_hour =
      subst (λ q. recent_attempts v.now r.events < pos_part q.max_actions_hour) k.policy few in
    record {
      policy = same_policy ∙ k.policy;
      sparse = logged.sparse;
      knows = logged.knows;
      spaced = Spaced-append_one gap tries v.now k.spaced apart;
      latest = newest-Latest gap v.now (recovery_tick v r e).0.last tries newest apart;
      past =
          All-append_one (λ x. x ≤ v.done_at) tries v.now
            (All-weaken (λ x. x ≤ clock) (λ x. x ≤ v.done_at) tries (λ x q. omega arith) k.past)
            late;
      rate = λ t after.
          rate_after (pos_part p.max_actions_hour) gap v.now tries r.events k.knows k.spaced
            (few_actions p.max_actions_hour small) few_of t (omega arith);
    }

Run-Kept :
    {p : Policy} {r : Recovery} {tries : List ℕ} {clock : ℕ}
    → p.max_actions_hour ≤ℤ pos 6
    → Run p r tries clock
    → Kept p r tries clock
Run-Kept {p} small (starts {r} clock e quiet new_recovery) =
    start-Kept p r clock e quiet new_recovery
Run-Kept {p} small (ticks {r} {tries} {clock} v e le late run) = elim (Bool-cases (attempts v r)) [
  | inl tried ↦ rw tried (attempt-Kept p r tries clock v e small le late tried (Run-Kept small run))
  | inr idle ↦ rw idle (idle-Kept p r tries clock v e (omega arith) idle (Run-Kept small run))
]

-- With a policy that passes validation, in every run and at every time after it, the attempts of the
-- last hour are at most the policy's `max_actions_hour`, although the log they are counted from
-- keeps 50 entries; and each attempt comes at least the cooldown after every earlier one.
pub Run-attempts :
    {r : Recovery} {tries : List ℕ} {clock : ℕ} (net : Net) (p : Policy)
    → validate net p ≡ none
    → Run p r tries clock
    → ((t : ℕ) → clock ≤ t → recent t tries ≤ pos_part p.max_actions_hour)
      × Spaced (pos_part p.cooldown_seconds * second) tries
Run-attempts net p valid run =
    let rules = (validate_iff net p).0 valid in
    let kept = Run-Kept rules.actions.1 run in (kept.rate, kept.spaced)
