-- ===== src/Totp/Tests.antt =====
-- Two codes from a run of bytes that repeats the first one.
use tgproxy_panel.Prelude.{
  first_runes, after_runes, ℕ, String, ◌≡◌, refl, none, some, List, [], ◌∷◌, ◌++◌, Distinct, nat_eq,
  string_eq,
}
use tgproxy_panel.Totp.{
  code_letters, collect_codes, new_recovery_codes, random_letter, recovery_code,
}
use tgproxy_panel.Totp.Codes.{new_recovery_codes-Distinct}

-- Ten letters a, then b to k with one byte thrown away; the first code comes twice.
abbrev ten_zeros : List ℕ
ten_zeros = 0 ∷ 36 ∷ 0 ∷ 0 ∷ 0 ∷ 0 ∷ 0 ∷ 0 ∷ 0 ∷ 0 ∷ []

abbrev drawn_bytes : List ℕ
drawn_bytes = ten_zeros ++ ten_zeros ++ 1 ∷ 2 ∷ 255 ∷ 3 ∷ 4 ∷ 5 ∷ 6 ∷ 7 ∷ 8 ∷ 9 ∷ 10 ∷ []

two_codes : new_recovery_codes 2 drawn_bytes ≡ some ("aaaaa-aaaaa" ∷ "bcdef-ghijk" ∷ [])
unfolding new_recovery_codes collect_codes recovery_code code_letters random_letter first_runes
    after_runes
two_codes = refl

too_few_bytes : new_recovery_codes 2 ten_zeros ≡ none
unfolding new_recovery_codes collect_codes recovery_code code_letters random_letter first_runes
    after_runes
too_few_bytes = refl

new_recovery_codes-Distinct_example :
    Distinct {A = String} ("aaaaa-aaaaa" ∷ "bcdef-ghijk" ∷ []) × (◌≡◌ {A = ℕ} 2 2)
new_recovery_codes-Distinct_example =
    new_recovery_codes-Distinct 2 drawn_bytes ("aaaaa-aaaaa" ∷ "bcdef-ghijk" ∷ []) two_codes
