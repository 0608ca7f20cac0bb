-- ===== src/Updates/Version.antt =====
-- parseSemver and Newer of internal/updates/updates.go. strconv.Atoi is the parameter `atoi`. Go
-- compares texts by their bytes, which for UTF-8 is the order of the code points.
pub mod Parts
pub mod Reading
pub mod Order
mod Tests
use Prim.Native.Char.{code}
use tgproxy_panel.Prelude.{
  after_runes, has_prefix, ℕ, String, Bool, true, false, ◌&&◌, ◌||◌, Option, none, some, List, [],
  ◌∷◌, ltb, if◌then◌else◌, ◌==◌, ◌!=◌, ℤ, pos, negsuc, concat, nat_eq, string_eq,
}

pub record Semver : Type 0 where
  pub major : ℕ
  pub minor : ℕ
  pub patch : ℕ
  pub pre : String

-- `t > s`
unfoldable pub text_lt : String → String → Bool
text_lt String.[] String.[] = false
text_lt String.[] (String.◌∷◌ d t) = true
text_lt (String.◌∷◌ c s) String.[] = false
text_lt (String.◌∷◌ c s) (String.◌∷◌ d t) =
    let rest = text_lt s t in ltb (code c) (code d) || ((code c == code d) && rest)

-- strings.TrimPrefix(s, "v")
unfoldable pub trim_v : String → String
trim_v s = if has_prefix s "v" then after_runes 1 s else s

-- The text before the first dash, and the text after it.
unfoldable pub cut_dash : String → String × Option String
cut_dash String.[] = ("", none)
cut_dash (String.◌∷◌ c s) =
    let (before, after) = cut_dash s in
    if String.◌∷◌ c "" == "-" then ("", some s) else (String.◌∷◌ c before, after)

unfoldable pub prepend_first : String → List String → List String
prepend_first s [] = s ∷ []
prepend_first s (part ∷ parts) = concat s part ∷ parts

-- strings.Split(s, ".")
unfoldable pub split_dots : String → List String
split_dots String.[] = "" ∷ []
split_dots (String.◌∷◌ c s) =
    let rest = split_dots s in
    if String.◌∷◌ c "" == "." then "" ∷ rest else prepend_first (String.◌∷◌ c "") rest

-- A part that Atoi reads as a number that is not negative.
unfoldable pub part_number : (String → Option ℤ) → String → Option ℕ
part_number atoi p =
    if p == ""
    then none
    else elim (atoi p) [ none ↦ none | some n ↦ elim n [ pos k ↦ some k | negsuc k ↦ none ] ]

unfoldable pub semver_of : Option ℕ → Option ℕ → Option ℕ → String → Option Semver
semver_of (some a) (some b) (some c) pre =
    some (record { major = a; minor = b; patch = c; pre = pre })
semver_of _ _ _ pre = none

unfoldable pub numbers : (String → Option ℤ) → List String → String → Option Semver
numbers atoi (a ∷ b ∷ c ∷ []) pre =
    semver_of (part_number atoi a) (part_number atoi b) (part_number atoi c) pre
numbers atoi _ pre = none

unfoldable pub parse_semver : (String → Option ℤ) → String → Option Semver
parse_semver atoi s =
    let (core, pre) = cut_dash (trim_v s) in
    elim pre [
      | none ↦ numbers atoi (split_dots core) ""
      | some p ↦ if p == "" then none else numbers atoi (split_dots core) p
    ]

-- The switch of Newer on the parts after the dash.
unfoldable pub newer_pre : String → String → Bool
newer_pre l c =
    if (l == "") && (c != "") then true else if (l != "") && (c == "") then false else text_lt c l

-- The loop over the three numbers, and the switch.
unfoldable pub newer_semver : Semver → Semver → Bool
newer_semver l c =
    if l.major != c.major
    then ltb c.major l.major
    else if l.minor != c.minor
    then ltb c.minor l.minor
    else if l.patch != c.patch
    then ltb c.patch l.patch
    else newer_pre l.pre c.pre

unfoldable pub newer_of : Option Semver → Option Semver → Bool
newer_of (some l) (some c) = newer_semver l c
newer_of _ _ = false

unfoldable pub newer : (String → Option ℤ) → String → String → Bool
unfolding newer_of
newer atoi latest current = newer_of (parse_semver atoi latest) (parse_semver atoi current)
