-- ===== src/Updates/Version/Tests.antt =====
-- Versions as texts, with a small reading of numbers.
use tgproxy_panel.Prelude.{
  first_runes, after_runes, has_prefix, String, ◌≡◌, refl, ◌↔◌, true, false, Option, none, some,
  if◌then◌else◌, ◌==◌, ℤ, pos, negsuc, nat_eq, string_eq,
}
use tgproxy_panel.Updates.Version.{
  Semver, cut_dash, newer, newer_of, newer_pre, newer_semver, numbers, parse_semver, part_number,
  prepend_first, semver_of, split_dots, text_lt, trim_v,
}
use tgproxy_panel.Updates.Version.Order.{IsNewer, newer_iff}

-- Reads the numbers of one digit up to three, and a negative one.
abbrev small : String → Option ℤ
small p =
    if p == "0"
    then some (pos 0)
    else if p == "1"
    then some (pos 1)
    else if p == "2"
    then some (pos 2)
    else if p == "-3"
    then some (negsuc 2)
    else none

abbrev final : Semver
final = record { major = 1; minor = 2; patch = 0; pre = "" }

readings :
    (parse_semver small "v1.2.0" ≡ some final)
    × (parse_semver small "1.2.0-rc.1" ≡ some (record final { pre = "rc.1" }))
    × (parse_semver small "1.2.0-" ≡ none)
    × (parse_semver small "1.2" ≡ none)
    × (parse_semver small "1..0" ≡ none)
unfolding parse_semver cut_dash trim_v has_prefix first_runes after_runes split_dots numbers
    prepend_first part_number semver_of
readings = (refl, refl, refl, refl, refl)

comparisons :
    (newer small "1.2.0" "1.2.0-rc.1" ≡ true)
    × (newer small "1.2.0-rc.2" "1.2.0-rc.1" ≡ true)
    × (newer small "1.1.2" "1.2.0" ≡ false)
    × (newer small "2.0.0" "dev" ≡ false)
unfolding newer newer_of newer_semver newer_pre text_lt parse_semver cut_dash trim_v has_prefix
    first_runes after_runes split_dots numbers prepend_first part_number semver_of
comparisons = (refl, refl, refl, refl)

newer_iff_example : (newer small "1.2.0" "1.2.0-rc.1" ≡ true) ↔ IsNewer small "1.2.0" "1.2.0-rc.1"
newer_iff_example = newer_iff small "1.2.0" "1.2.0-rc.1"
