-- ===== src/Totp.antt =====
-- internal/totp/totp.go: the recovery codes of two-factor login. The bytes that crypto/rand yields
-- are a list, whose end is a failed read. The codes themselves are pquerna/otp's and not modelled.
pub mod Codes
mod Tests
use tgproxy_panel.Prelude.{
  first_runes, after_runes, ℕ, zero, suc, ◌+◌, ◌-◌, ◌*◌, ◌%◌, String, Option, none, some, List, [],
  ◌∷◌, ◌++◌, ltb, leb, if◌then◌else◌, ◌==◌, length, contains, concat, nat_eq, string_eq,
}

abbrev pub recovery_alphabet : String
recovery_alphabet = "abcdefghijklmnopqrstuvwxyz0123456789"

-- randomLetter: bytes from 252 on are thrown away, so that each letter is as likely as any other.
unfoldable pub random_letter : List ℕ → Option (String × List ℕ)
random_letter [] = none
random_letter (b ∷ bytes) =
    let rest = random_letter bytes in
    if ltb b (256 - 256 % 36)
    then some (first_runes 1 (after_runes (b % 36) recovery_alphabet), bytes)
    else rest

-- The rounds of recoveryCode that are left: with five of them left, a dash comes first.
unfoldable pub code_letters : ℕ → List ℕ → Option (String × List ℕ)
code_letters zero bytes = some ("", bytes)
code_letters (suc rounds) bytes = elim (random_letter bytes) [
  | none ↦ none
  | some (letter, later) ↦ elim (code_letters rounds later) [
    | none ↦ none
    | some (code, rest) ↦
        some (concat (if rounds == 4 then concat "-" letter else letter) code, rest)
  ]
]

unfoldable pub recovery_code : List ℕ → Option (String × List ℕ)
recovery_code bytes = code_letters 10 bytes

-- The loop of NewRecoveryCodes, by the attempts that are left.
unfoldable pub collect_codes : ℕ → ℕ → List String → List ℕ → Option (List String)
collect_codes zero n out bytes = if leb n (length out) then some out else none
collect_codes (suc attempts) n out bytes =
    if leb n (length out) then some out else elim (recovery_code bytes) [
      | none ↦ none
      | some (c, rest) ↦
          collect_codes attempts n (if contains out c then out else out ++ c ∷ []) rest
    ]

-- NewRecoveryCodes: attempts 0 to 100 * n, and none for its errors.
unfoldable pub new_recovery_codes : ℕ → List ℕ → Option (List String)
new_recovery_codes n bytes = if n == 0 then none else collect_codes (100 * n + 1) n [] bytes
