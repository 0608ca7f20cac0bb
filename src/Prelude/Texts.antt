-- ===== src/Prelude/Texts.antt =====
-- Joined texts, as `s + t` in Go, and the functions of the package strings that the code calls.
use Prim.Native.Nat.{ℕ, zero, suc}
use Prim.Native.String.{String, ◌++◌, count}
use mathlib.Core.Path.{◌≡◌}
use mathlib.Core.Bool.{Bool, ◌||◌}
use text.Mathlib.TextLemmas.{append_inj, append_cancel_left}
use tgproxy_panel.Prelude.Tests.{if◌then◌else◌, ◌==◌, string_eq}

abbrev pub concat : String → String → String
concat s t = s ++ t

-- The number of characters.
abbrev pub runes : String → ℕ
runes s = count s

pub concat_inj :
    (s s' t t' : String) → concat s t ≡ concat s' t' → runes s ≡ runes s' → (s ≡ s') × (t ≡ t')
concat_inj s s' t t' e h = append_inj e h

pub concat_cancel : (s t t' : String) → concat s t ≡ concat s t' → t ≡ t'
concat_cancel s t t' e = append_cancel_left s t t' e

-- strings.HasSuffix and strings.TrimSuffix.
unfoldable pub has_suffix : String → String → Bool
has_suffix String.[] suffix = "" == suffix
has_suffix (String.◌∷◌ c s) suffix = (String.◌∷◌ c s == suffix) || has_suffix s suffix

unfoldable pub trim_suffix : String → String → String
trim_suffix String.[] suffix = ""
trim_suffix (String.◌∷◌ c s) suffix =
    let rest = trim_suffix s suffix in if String.◌∷◌ c s == suffix then "" else String.◌∷◌ c rest

unfoldable pub first_runes : ℕ → String → String
first_runes zero s = ""
first_runes (suc n) String.[] = ""
first_runes (suc n) (String.◌∷◌ c s) = String.◌∷◌ c (first_runes n s)

unfoldable pub after_runes : ℕ → String → String
after_runes zero s = s
after_runes (suc n) String.[] = ""
after_runes (suc n) (String.◌∷◌ c s) = after_runes n s

-- strings.HasPrefix.
unfoldable pub has_prefix : String → String → Bool
has_prefix s prefix = first_runes (runes prefix) s == prefix
