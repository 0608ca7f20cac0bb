-- ===== src/Agent/Recovery/Times.antt =====
-- The times of attempts: how far apart they are, and how many an hour holds.
use mathlib.Core.Path.{subst}
use tgproxy_panel.Prelude.{
  All-append_one, All-weaken, ℕ, ◌+◌, ◌*◌, ◌≤◌, ◌<◌, ◌≡◌, refl, ap, ◌∙◌, inl, inr, false, Option,
  none, some, List, [], ◌∷◌, ◌++◌, arith, ltb, ltb→lt, Bool-cases, length, keep_if, All, ℤ,
  pos_part,
}
use tgproxy_panel.Reliability.Report.{second}
use tgproxy_panel.Agent.Recovery.{Event, cooling, recent_attempts}
use tgproxy_panel.Agent.Recovery.Log.{Knows, attempt_times}

-- The attempts less than an hour before a time.
abbrev pub recent : ℕ → List ℕ → ℕ
recent t tries = length (keep_if (λ x. ltb t (x + 3600 * second)) tries)

-- Each attempt comes at least `gap` before every later one.
abbrev pub Spaced : ℕ → List ℕ → Type 0
Spaced gap [] = Unit
Spaced gap (x ∷ xs) = All (λ y. x + gap ≤ y) xs × Spaced gap xs

abbrev pub Latest : Option ℕ → List ℕ → Type 0
Latest none tries = tries ≡ []
Latest (some l) tries = All (λ x. x ≤ l) tries

recent-attempt_times :
    (t : ℕ) (es : List Event) → recent_attempts t es ≡ recent t (attempt_times es)
unfolding attempt_times
recent-attempt_times t [] = refl
recent-attempt_times t (e ∷ es) = ground (arith, recent-attempt_times t es)

recent-append : (t : ℕ) (xs ys : List ℕ) → recent t (xs ++ ys) ≡ recent t xs + recent t ys
recent-append t [] ys = omega arith
recent-append t (x ∷ xs) ys = ground (arith, recent-append t xs ys)

recent_later : (t u : ℕ) (xs : List ℕ) → t ≤ u → recent u xs ≤ recent t xs
recent_later t u [] h = omega arith
recent_later t u (x ∷ xs) h = ground (arith, recent_later t u xs h)

none_older :
    (t x gap : ℕ) (ys : List ℕ)
    → t < x + 3600 * second
    → All (λ y. x + gap ≤ y) ys
    → recent t ys ≡ length ys
none_older t x gap [] h a = refl
none_older t x gap (y ∷ ys) h a = ground (arith, none_older t x gap ys h a.1)

All-suffix : (P : ℕ → Type 0) (xs ys : List ℕ) → All P (xs ++ ys) → All P ys
All-suffix P [] ys a = a
All-suffix P (x ∷ xs) ys a = All-suffix P xs ys a.1

-- When some attempt of the newer part is no longer recent, none of the older part is.
older_recent :
    (t gap : ℕ) (older newer : List ℕ)
    → Spaced gap (older ++ newer)
    → recent t newer < length newer
    → recent t older ≡ 0
older_recent t gap [] newer s h = refl
older_recent t gap (x ∷ older) newer s h = elim (Bool-cases (ltb t (x + 3600 * second))) [
  | inl still ↦
      absurd
        (omega (arith, none_older t x gap newer (ltb→lt _ _ still) (All-suffix _ older newer s.0)))
  | inr past ↦ rw past (older_recent t gap older newer s.1 h)
]

pub Spaced-append_one :
    (gap : ℕ) (tries : List ℕ) (now : ℕ)
    → Spaced gap tries
    → All (λ x. x + gap ≤ now) tries
    → Spaced gap (tries ++ now ∷ [])
Spaced-append_one gap [] now s a = (tt, tt)
Spaced-append_one gap (x ∷ tries) now s a =
    (All-append_one _ tries now s.0 a.0, Spaced-append_one gap tries now s.1 a.1)

-- The log shows enough of the attempts to count those of the last hour.
pub recent_known :
    (gap t : ℕ) (tries : List ℕ) (es : List Event)
    → Knows tries es
    → Spaced gap tries
    → recent_attempts t es < 24
    → recent t tries ≡ recent_attempts t es
recent_known gap t tries es k s few =
    let newer = attempt_times es in
    let all_of : recent t tries ≡ recent t k.lost + recent t newer =
      ap (recent t) k.split ∙ recent-append t k.lost newer in
    elim k.many [
      | inl none_lost ↦
          let empty : recent t k.lost ≡ 0 = ap (recent t) none_lost in
          omega (arith, all_of, empty, recent-attempt_times t es)
      | inr many ↦
          let count = recent-attempt_times t es in
          let old : recent t k.lost ≡ 0 =
            older_recent t gap k.lost newer (subst (Spaced gap) k.split s) (omega arith) in
          omega (arith, all_of, old, count)
    ]

pub cooled :
    (last : Option ℕ) (cooldown : ℤ) (now : ℕ) (tries : List ℕ)
    → Latest last tries
    → cooling last cooldown now ≡ false
    → All (λ x. x + pos_part cooldown * second ≤ now) tries
unfolding cooling
cooled none cooldown now tries l h = rw l tt
cooled (some t) cooldown now tries l h =
    All-weaken (λ x. x ≤ t) (λ x. x + pos_part cooldown * second ≤ now) tries (λ x le. ground arith)
      l

pub newest-Latest :
    (gap now : ℕ) (last : Option ℕ) (tries : List ℕ)
    → last ≡ some now
    → All (λ x. x + gap ≤ now) tries
    → Latest last (tries ++ now ∷ [])
newest-Latest gap now last tries e apart = rw e (
    All-append_one (λ x. x ≤ now) tries now
      (All-weaken (λ x. x + gap ≤ now) (λ x. x ≤ now) tries (λ x q. omega arith) apart)
      (omega arith))

pub rate_after :
    (cap gap now : ℕ) (tries : List ℕ) (es : List Event)
    → Knows tries es
    → Spaced gap tries
    → cap ≤ 6
    → recent_attempts now es < cap
    → (t : ℕ) → now ≤ t
    → recent t (tries ++ now ∷ []) ≤ cap
rate_after cap gap now tries es k s small few t le =
    let known = recent_known gap now tries es k s (omega arith) in
    let one : recent t (now ∷ []) ≤ 1 = ground arith in
    omega (arith, one, known, recent-append t tries (now ∷ []), recent_later now t tries le)
