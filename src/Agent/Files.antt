-- ===== src/Agent/Files.antt =====
-- internal/agent/files.go: a file is replaced by a temporary one and a rename.
use mathlib.Core.Bool.{true≢false}
use tgproxy_panel.Prelude.{◌≡◌, refl, sym, ap, ◌∙◌, ◌⊎◌, inl, inr, Bool, true, false}

-- How a call of writeAtomicAs ends: an error before the rename, an error of the directory's sync
-- after it, or success. The first leaves the file as it was, the second has replaced it.
pub data Write : Type 0 where
  failed_early failed_late done : Write

-- The file after the call, and whether the call returned nil.
unfoldable pub write_atomic {ℓ} : {A : Type ℓ} → Write → A → A → A × Bool
write_atomic failed_early new old = (old, false)
write_atomic failed_late new old = (new, false)
write_atomic done new old = (new, true)

pub write_atomic_cases {ℓ} :
    {A : Type ℓ} (w : Write) (new old : A)
    → (write_atomic w new old ≡ (old, false))
      ⊎ ((write_atomic w new old ≡ (new, false)) ⊎ (write_atomic w new old ≡ (new, true)))
unfolding write_atomic
write_atomic_cases failed_early new old = inl refl
write_atomic_cases failed_late new old = inr (inl refl)
write_atomic_cases done new old = inr (inr refl)

pub write_atomic_ok {ℓ} :
    {A : Type ℓ} (w : Write) (new old : A)
    → (write_atomic w new old).1 ≡ true
    → (write_atomic w new old).0 ≡ new
write_atomic_ok w new old ok = elim (write_atomic_cases w new old) [
  | inl early ↦ absurd (true≢false (sym ok ∙ ap (λ x. x.1) early))
  | inr (inl late) ↦ ap (λ x. x.0) late
  | inr (inr written) ↦ ap (λ x. x.0) written
]

-- What a read of a file with JSON in it yields: no such file, another error, a text that does not
-- decode, or the value.
pub data JsonFile (A : Type 0) : Type 0 where
  missing unreadable corrupt : JsonFile A
  holds : A → JsonFile A
