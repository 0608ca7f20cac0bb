-- ===== src/Totp/Codes.antt =====
-- The recovery codes that are handed out.
use mathlib.Core.Path.{subst}
use mathlib.Core.Option.{some-injective}
use tgproxy_panel.Prelude.{
  ℕ, zero, suc, ◌+◌, ◌*◌, ◌≤◌, String, ◌≡◌, inl, inr, true, false, Option, some, List, [], ◌∷◌,
  ◌++◌, arith, leb, if◌then◌else◌, ◌==◌, Bool-cases, Option-cases, length, Distinct,
  Distinct-append_one, length-append, contains, nat_eq, string_eq,
}
use tgproxy_panel.Totp.{collect_codes, new_recovery_codes, recovery_code}

added-Distinct :
    (out : List String) (c : String)
    → Distinct out
    → Distinct (if contains out c then out else out ++ c ∷ [])
added-Distinct out c d = elim (Bool-cases (contains out c)) [
  | inl taken ↦ rw taken d
  | inr free ↦ rw free (Distinct-append_one out c d free)
]

length-added :
    (out : List String) (c : String) (n : ℕ)
    → leb n (length out) ≡ false
    → length (if contains out c then out else out ++ c ∷ []) ≤ n
length-added out c n short = ground (arith, length-append out (c ∷ []))

enough :
    (n : ℕ) (out codes : List String)
    → Distinct out
    → length out ≤ n
    → leb n (length out) ≡ true
    → ◌≡◌ {A = Option (List String)} (some out) (some codes)
    → Distinct codes × (length codes ≡ n)
enough n out codes d le full e =
    subst (λ xs. Distinct xs × (length xs ≡ n)) (some-injective out codes e) (d, ground arith)

collect_codes-Distinct :
    (attempts n : ℕ) (out : List String) (bytes : List ℕ) (codes : List String)
    → Distinct out
    → length out ≤ n
    → collect_codes attempts n out bytes ≡ some codes
    → Distinct codes × (length codes ≡ n)
unfolding collect_codes
collect_codes-Distinct zero n out bytes codes d le h = elim (Bool-cases (leb n (length out))) [
  | inl full ↦ enough n out codes d le full (rw full at h)
  | inr short ↦ absurd (cc (rw short at h))
]
collect_codes-Distinct (suc attempts) n out bytes codes d le h =
    elim (Bool-cases (leb n (length out))) [
      | inl full ↦ enough n out codes d le full (rw full at h)
      | inr short ↦ elim (Option-cases (recovery_code bytes)) [
        | inl failed ↦ absurd (cc (rw (short, failed) at h))
        | inr (drawn, is_code) ↦
            collect_codes-Distinct attempts n
              (if contains out drawn.0 then out else out ++ drawn.0 ∷ []) drawn.1 codes
              (added-Distinct out drawn.0 d) (length-added out drawn.0 n short)
              (rw (short, is_code) at h)
      ]
    ]

-- The recovery codes that are handed out are as many as were asked for, and no two are the same.
pub new_recovery_codes-Distinct :
    (n : ℕ) (bytes : List ℕ) (codes : List String)
    → new_recovery_codes n bytes ≡ some codes
    → Distinct codes × (length codes ≡ n)
unfolding new_recovery_codes
new_recovery_codes-Distinct n bytes codes h = elim (Bool-cases (n == 0)) [
  | inl none_asked ↦ absurd (cc (rw none_asked at h))
  | inr some_asked ↦
      collect_codes-Distinct (100 * n + 1) n [] bytes codes tt (omega arith) (rw some_asked at h)
]
