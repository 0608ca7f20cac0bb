-- ===== src/Domain/WebCapacity/Tests.antt =====
-- The presets at single sizes.
use tgproxy_panel.Prelude.{lookup, ◌≡◌, refl, true, false, length, lookup, nat_eq, string_eq}
use tgproxy_panel.Domain.WebCapacity.{fields, web_max_profiles}
use tgproxy_panel.Domain.WebCapacity.Presets.{
  preset_128, preset_256, valid_web_capacity, web_capacity_preset,
}
use tgproxy_panel.Domain.WebCapacity.Rules.{IsProportional, web_capacity_preset-IsProportional}

sizes :
    (valid_web_capacity 512 ≡ true) × (valid_web_capacity 513 ≡ false) × (web_max_profiles 32 ≡ 33)
unfolding valid_web_capacity lookup web_max_profiles
sizes = (refl, refl, refl)

field_count : length (fields preset_128.limits) ≡ 23
unfolding fields
field_count = refl

web_capacity_preset-IsProportional_example : IsProportional 256 preset_256
unfolding web_capacity_preset lookup
web_capacity_preset-IsProportional_example = web_capacity_preset-IsProportional 256 preset_256 refl
