-- ===== src/Agent/Recovery/Log.antt =====
-- The log of a node and the attempts in it: what the cut to 50 entries can lose.
use mathlib.Core.Path.{subst}
use mathlib.Core.List.{append_assoc}
use tgproxy_panel.Prelude.{
  ℕ, zero, suc, ◌+◌, ◌-◌, ◌*◌, ◌≤◌, ◌<◌, ◌≡◌, refl, sym, ap, ◌∙◌, ◌⊎◌, inl, inr, true, List, [],
  ◌∷◌, ◌++◌, arith, leb, if◌then◌else◌, ◌==◌, Bool-cases, length, drop, all, length-append,
  length-drop, nat_eq, string_eq,
}
use tgproxy_panel.Agent.Recovery.{Event, keep_last}

-- The times of the attempts of a log, the oldest first.
unfoldable pub attempt_times : List Event → List ℕ
attempt_times [] = []
attempt_times (e ∷ es) =
    let rest = attempt_times es in if e.action == "attempt" then e.at ∷ rest else rest

attempt_times-append :
    (xs ys : List Event) → attempt_times (xs ++ ys) ≡ attempt_times xs ++ attempt_times ys
unfolding attempt_times
attempt_times-append [] ys = refl
attempt_times-append (x ∷ xs) ys = ground (arith, attempt_times-append xs ys)

-- A cut drops the oldest attempts.
pub attempt_times-drop :
    (n : ℕ) (es : List Event)
    → (lost : List ℕ) × (attempt_times es ≡ lost ++ attempt_times (drop n es))
unfolding attempt_times
attempt_times-drop zero es = ([], refl)
attempt_times-drop (suc n) [] = ([], refl)
attempt_times-drop (suc n) (e ∷ es) =
    let (lost, kept) = attempt_times-drop n es in
    elim (Bool-cases (e.action == "attempt")) [
      | inl attempt ↦ (e.at ∷ lost, rw (attempt, kept) refl)
      | inr other ↦ (lost, rw (other, kept) refl)
    ]

-- In each end of the log the entries, and `k` more, are at most one more than twice the attempts.
abbrev pub Sparse : ℕ → List Event → Type 0
Sparse k [] = Unit
Sparse k (e ∷ es) = (length (e ∷ es) + k ≤ 2 * length (attempt_times (e ∷ es)) + 1) × Sparse k es

pub Sparse-drop : (k n : ℕ) (es : List Event) → Sparse k es → Sparse k (drop n es)
Sparse-drop k zero es s = s
Sparse-drop k (suc n) [] s = tt
Sparse-drop k (suc n) (e ∷ es) s = Sparse-drop k n es s.1

pub Sparse-weaken : (es : List Event) → Sparse 1 es → Sparse 0 es
Sparse-weaken [] s = tt
Sparse-weaken (e ∷ es) s = (omega arith, Sparse-weaken es s.1)

length-attempt_times-append :
    (es : List Event) (x : Event)
    → length (attempt_times (es ++ x ∷ []))
      ≡ length (attempt_times es) + (if x.action == "attempt" then 1 else 0)
unfolding attempt_times
length-attempt_times-append [] x = ground arith
length-attempt_times-append (e ∷ es) x = ground (arith, length-attempt_times-append es x)

-- An attempt makes room for the entry that tells its result.
pub Sparse-attempt :
    (es : List Event) (x : Event)
    → (x.action == "attempt") ≡ true
    → Sparse 0 es
    → Sparse 1 (es ++ x ∷ [])
unfolding attempt_times
Sparse-attempt [] x is_attempt s = (ground arith, tt)
Sparse-attempt (e ∷ es) x is_attempt s = (
  ground (arith, length-attempt_times-append (e ∷ es) x, length-append (e ∷ es) (x ∷ [])),
  Sparse-attempt es x is_attempt s.1,
)

pub Sparse-result : (es : List Event) (x : Event) → Sparse 1 es → Sparse 0 (es ++ x ∷ [])
unfolding attempt_times
Sparse-result [] x s = (ground arith, tt)
Sparse-result (e ∷ es) x s = (
  ground (arith, length-attempt_times-append (e ∷ es) x, length-append (e ∷ es) (x ∷ [])),
  Sparse-result es x s.1,
)

-- What the log knows of all attempts so far: the newest of them, and at least 24 when any is lost.
pub record Knows (tries : List ℕ) (es : List Event) : Type 0 where
  pub lost : List ℕ
  pub split : tries ≡ lost ++ attempt_times es
  pub many : (lost ≡ []) ⊎ (24 ≤ length (attempt_times es))

Sparse-length :
    (xs : List Event) → 0 < length xs → Sparse 0 xs → length xs ≤ 2 * length (attempt_times xs) + 1
Sparse-length [] h s = absurd (omega arith)
Sparse-length (x ∷ xs) h s = omega arith

enough_kept :
    (es : List Event)
    → Sparse 0 (keep_last es)
    → 50 < length es
    → 24 ≤ length (attempt_times (keep_last es))
unfolding keep_last
enough_kept es s long =
    let left : length (keep_last es) ≡ 50 = omega (arith, length-drop (length es - 50) es) in
    omega (arith, Sparse-length (keep_last es) (omega arith) s)

-- The cut keeps what the log knows, when attempts are dense enough in what is left.
pub keep_last-Knows :
    (tries : List ℕ) (es : List Event)
    → Sparse 0 (keep_last es)
    → Knows tries es
    → Knows tries (keep_last es)
unfolding keep_last
keep_last-Knows tries es s k = elim (Bool-cases (leb (length es) 50)) [
  | inl short ↦
      let none_cut : length es - 50 ≡ 0 = ground arith in
      subst (λ n. Knows tries (drop n es)) (sym none_cut) k
  | inr long ↦
      let (cut, kept) = attempt_times-drop (length es - 50) es in
      record {
        lost = k.lost ++ cut;
        split =
            k.split
            ∙ ap (λ ts. k.lost ++ ts) kept
            ∙ sym (append_assoc k.lost cut (attempt_times (keep_last es)));
        many = inr (enough_kept es s (ground arith));
      }
]

pub append-Knows :
    (tries : List ℕ) (es : List Event) (x : Event)
    → Knows tries es
    → Knows (tries ++ attempt_times (x ∷ [])) (es ++ x ∷ [])
append-Knows tries es x k = record {
  lost = k.lost;
  split =
      ap (λ ts. ts ++ attempt_times (x ∷ [])) k.split
      ∙ append_assoc k.lost (attempt_times es) (attempt_times (x ∷ []))
      ∙ ap (λ ts. k.lost ++ ts) (sym (attempt_times-append es (x ∷ [])));
  many = elim k.many [
    | inl all ↦ inl all
    | inr some_lost ↦ inr (ground (arith, length-attempt_times-append es x))
  ];
}
