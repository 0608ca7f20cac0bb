-- ===== src/Agent/Recovery/Entries.antt =====
-- What the log of a node still knows after an attempt and its result.
use mathlib.Core.Path.{subst}
use mathlib.Core.List.{append-nil}
use tgproxy_panel.Prelude.{
  ℕ, ◌-◌, ◌≡◌, refl, sym, ap, ◌∙◌, ◌⊎◌, inl, inr, false, List, [], ◌∷◌, ◌++◌, arith, ◌==◌, length,
  nat_eq, string_eq,
}
use tgproxy_panel.Agent.Recovery.{Event, Recovery, keep_last}
use tgproxy_panel.Agent.Recovery.Log.{
  Knows, Sparse, Sparse-attempt, Sparse-drop, Sparse-result, Sparse-weaken, append-Knows,
  attempt_times, keep_last-Knows,
}
use tgproxy_panel.Agent.Recovery.Guards.{attempt_entry}

-- The log of a run after one more entry.
pub record Logged (tries : List ℕ) (es : List Event) : Type 0 where
  pub sparse : Sparse 0 es
  pub knows : Knows tries es

entry_times_attempt : (now : ℕ) → attempt_times (attempt_entry now ∷ []) ≡ now ∷ []
unfolding attempt_times
entry_times_attempt now = refl

entry_times_other : (x : Event) → (x.action == "attempt") ≡ false → attempt_times (x ∷ []) ≡ []
unfolding attempt_times
entry_times_other x h = ground arith

log_attempt :
    (tries : List ℕ) (es : List Event) (now : ℕ)
    → Sparse 0 es
    → Knows tries es
    → let tried = keep_last (es ++ attempt_entry now ∷ []) in
      Sparse 1 tried × Knows (tries ++ now ∷ []) tried
log_attempt tries es now s k =
    let longer = es ++ attempt_entry now ∷ [] in
    let dense : Sparse 1 (keep_last longer) =
      unfold keep_last in
      Sparse-drop 1 (length longer - 50) longer (Sparse-attempt es (attempt_entry now) refl s) in
    (
      dense,
      keep_last-Knows (tries ++ now ∷ []) longer (Sparse-weaken (keep_last longer) dense) (
          subst (λ ts. Knows (tries ++ ts) longer) (entry_times_attempt now)
            (append-Knows tries es (attempt_entry now) k)),
    )

log_result :
    (tries : List ℕ) (es : List Event) (x : Event)
    → (x.action == "attempt") ≡ false
    → Sparse 1 es
    → Knows tries es
    → Logged tries (keep_last (es ++ x ∷ []))
log_result tries es x unrelated s k =
    let longer = es ++ x ∷ [] in
    let dense : Sparse 0 (keep_last longer) =
      unfold keep_last in Sparse-drop 0 (length longer - 50) longer (Sparse-result es x s) in
    let same : tries ++ attempt_times (x ∷ []) ≡ tries =
      ap (λ ts. tries ++ ts) (entry_times_other x unrelated) ∙ append-nil tries in
    record {
      sparse = dense;
      knows =
          keep_last-Knows tries longer dense
            (subst (λ ts. Knows ts longer) same (append-Knows tries es x k));
    }

pub log_of_attempt :
    (tries : List ℕ) (r r' : Recovery) (now : ℕ)
    → Sparse 0 r.events
    → Knows tries r.events
    → (r'.events ≡ keep_last (r.events ++ attempt_entry now ∷ []))
      ⊎ ((x : Event) × ((x.action == "attempt") ≡ false)
          × (r'.events ≡ keep_last (keep_last (r.events ++ attempt_entry now ∷ []) ++ x ∷ [])))
    → Logged (tries ++ now ∷ []) r'.events
log_of_attempt tries r r' now s k ends =
    let (dense, known) = log_attempt tries r.events now s k in
    let tried = keep_last (r.events ++ attempt_entry now ∷ []) in
    elim ends [
      | inl e ↦
          subst (Logged (tries ++ now ∷ [])) (sym e)
            (record { sparse = Sparse-weaken tried dense; knows = known })
      | inr (x, unrelated, e) ↦
          subst (Logged (tries ++ now ∷ [])) (sym e)
            (log_result (tries ++ now ∷ []) tried x unrelated dense known)
    ]
