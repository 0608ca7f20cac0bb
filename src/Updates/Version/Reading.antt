-- ===== src/Updates/Version/Reading.antt =====
-- Which texts are versions.
use mathlib.Core.Option.{some-injective}
use mathlib.Core.Bool.{true≢false}
use mathlib.Core.Path.{subst}
use tgproxy_panel.Prelude.{
  ℕ, String, ◌≡◌, refl, sym, ap, ◌∙◌, ◌≢◌, ◌↔◌, ◌⊎◌, inl, inr, true, false, Option, none, some,
  List, [], ◌∷◌, arith, eq_iff, if◌then◌else◌, ◌==◌, Bool-cases, ℤ, pos, concat, nat_eq, string_eq,
}
use tgproxy_panel.Updates.Version.{
  Semver, cut_dash, numbers, parse_semver, part_number, semver_of, split_dots, trim_v,
}
use tgproxy_panel.Updates.Version.Parts.{
  AreDotless, cut_dash-joined, cut_dash-of_joined, dots, joined, split_dots-PartsOf,
  split_dots-dots, without,
}

-- A number that Atoi reads and that is not negative.
abbrev pub IsNumber : (String → Option ℤ) → String → ℕ → Type 0
IsNumber atoi p n = (p ≢ "") × (atoi p ≡ some (pos n))

part_number_iff :
    (atoi : String → Option ℤ) (p : String) (n : ℕ)
    → (part_number atoi p ≡ some n) ↔ IsNumber atoi p n
unfolding part_number
part_number_iff atoi p n = elim (Bool-cases (p == "")) [
  | inl empty ↦ (λ h. absurd (ground arith), λ h. absurd (h.0 ((eq_iff p "").0 empty)))
  | inr set ↦ (λ h. (ground (arith, eq_iff p ""), ground arith), λ h. rw (set, h.1) refl)
]

-- A version: three numbers with dots between them, each without a dot, and after them nothing, or a
-- dash and a text that is not empty; the numbers contain no dash, and a "v" may stand before them.
abbrev pub IsVersion : (String → Option ℤ) → String → Semver → Type 0
IsVersion atoi s v =
    (x : String) × (y : String) × (z : String) × (AreDotless (x ∷ y ∷ z ∷ []))
    × (without "-" (dots (x ∷ y ∷ z ∷ [])) ≡ true)
    × IsNumber atoi x v.major
    × IsNumber atoi y v.minor
    × IsNumber atoi z v.patch
    × (((trim_v s ≡ dots (x ∷ y ∷ z ∷ [])) × (v.pre ≡ ""))
        ⊎ ((trim_v s ≡ concat (dots (x ∷ y ∷ z ∷ [])) (concat "-" v.pre)) × (v.pre ≢ "")))

semver_of-parts :
    (a b c : Option ℕ) (pre : String) (v : Semver)
    → semver_of a b c pre ≡ some v
    → (a ≡ some v.major) × (b ≡ some v.minor) × (c ≡ some v.patch) × (pre ≡ v.pre)
unfolding semver_of
semver_of-parts none b c pre v h = ground arith
semver_of-parts (some a) none c pre v h = ground arith
semver_of-parts (some a) (some b) none pre v h = ground arith
semver_of-parts (some a) (some b) (some c) pre v h =
    let read : Semver = record { major = a; minor = b; patch = c; pre = pre } in
    let same : read ≡ v = some-injective read v h in
    (
      ap (λ (w : Semver). some w.major) same,
      ap (λ (w : Semver). some w.minor) same,
      ap (λ (w : Semver). some w.patch) same,
      ap (λ (w : Semver). w.pre) same,
    )

abbrev ThreeOf : (String → Option ℤ) → List String → String → Semver → Type 0
ThreeOf atoi ps pre v =
    (x : String) × (y : String) × (z : String) × (ps ≡ x ∷ y ∷ z ∷ [])
    × IsNumber atoi x v.major
    × IsNumber atoi y v.minor
    × IsNumber atoi z v.patch
    × (pre ≡ v.pre)

numbers-ThreeOf :
    (atoi : String → Option ℤ) (ps : List String) (pre : String) (v : Semver)
    → numbers atoi ps pre ≡ some v
    → ThreeOf atoi ps pre v
unfolding numbers
numbers-ThreeOf atoi [] pre v h = ground arith
numbers-ThreeOf atoi (x ∷ []) pre v h = ground arith
numbers-ThreeOf atoi (x ∷ y ∷ []) pre v h = ground arith
numbers-ThreeOf atoi (x ∷ y ∷ z ∷ []) pre v h =
    let (a, b, c, same) =
      semver_of-parts (part_number atoi x) (part_number atoi y) (part_number atoi z) pre v h in
    (
      x,
      y,
      z,
      refl,
      (part_number_iff atoi x v.major).0 a,
      (part_number_iff atoi y v.minor).0 b,
      (part_number_iff atoi z v.patch).0 c,
      same,
    )
numbers-ThreeOf atoi (x ∷ y ∷ z ∷ w ∷ ps) pre v h = ground arith

-- The parts of split_dots have no dots, and put together are the text.
split_dots_whole : (s : String) → (s ≡ dots (split_dots s)) × AreDotless (split_dots s)
split_dots_whole s =
    let (p, ps, parts, (same, dotless)) = split_dots-PartsOf s in rw parts (same, dotless)

-- What parse_semver makes of the two parts of cut_dash.
abbrev read_parts : (String → Option ℤ) → String → Option String → Option Semver
read_parts atoi core none = numbers atoi (split_dots core) ""
read_parts atoi core (some p) = if p == "" then none else numbers atoi (split_dots core) p

parse_semver-read_parts :
    (atoi : String → Option ℤ) (s : String)
    → parse_semver atoi s ≡ read_parts atoi (cut_dash (trim_v s)).0 (cut_dash (trim_v s)).1
unfolding parse_semver
parse_semver-read_parts atoi s = refl

parse_semver-of_cut :
    (atoi : String → Option ℤ) (s core : String) (o : Option String)
    → cut_dash (trim_v s) ≡ (core, o)
    → parse_semver atoi s ≡ read_parts atoi core o
parse_semver-of_cut atoi s core o cut =
    parse_semver-read_parts atoi s
    ∙ ap (λ (x : String × Option String). read_parts atoi x.0 x.1) cut

read_parts-IsVersion :
    (atoi : String → Option ℤ) (s core : String) (o : Option String) (v : Semver)
    → trim_v s ≡ joined core o
    → without "-" core ≡ true
    → read_parts atoi core o ≡ some v
    → IsVersion atoi s v
unfolding joined
read_parts-IsVersion atoi s core none v same clear read =
    let (x, y, z, three, a, b, c, pre) = numbers-ThreeOf atoi (split_dots core) "" v read in
    let (whole, dotless) = split_dots_whole core in
    let is_core : core ≡ dots (x ∷ y ∷ z ∷ []) = whole ∙ ap dots three in
    (
      x,
      y,
      z,
      subst AreDotless three dotless,
      subst (λ t. without "-" t ≡ true) is_core clear,
      a,
      b,
      c,
      inl (same ∙ is_core, sym pre),
    )
read_parts-IsVersion atoi s core (some p) v same clear read =
    let some_text : (p == "") ≡ false = ground arith in
    let read' : numbers atoi (split_dots core) p ≡ some v = ground arith in
    let (x, y, z, three, a, b, c, pre) = numbers-ThreeOf atoi (split_dots core) p v read' in
    let (whole, dotless) = split_dots_whole core in
    let is_core : core ≡ dots (x ∷ y ∷ z ∷ []) = whole ∙ ap dots three in
    (
      x,
      y,
      z,
      subst AreDotless three dotless,
      subst (λ t. without "-" t ≡ true) is_core clear,
      a,
      b,
      c,
      inr (
        same
            ∙ ap (λ t. concat t (concat "-" p)) is_core
            ∙ ap (λ t. concat (dots (x ∷ y ∷ z ∷ [])) (concat "-" t)) pre,
        λ e. true≢false (sym ((eq_iff p "").1 (pre ∙ e)) ∙ some_text),
      ),
    )

numbers-of_three :
    (atoi : String → Option ℤ) (x y z pre : String) (v : Semver)
    → IsNumber atoi x v.major
    → IsNumber atoi y v.minor
    → IsNumber atoi z v.patch
    → numbers atoi (x ∷ y ∷ z ∷ []) pre ≡ some (record v { pre = pre })
unfolding numbers semver_of
numbers-of_three atoi x y z pre v a b c =
    rw
      (
        (part_number_iff atoi x v.major).1 a,
        (part_number_iff atoi y v.minor).1 b,
        (part_number_iff atoi z v.patch).1 c,
      )
      refl

-- A text is read as a version exactly when it is one, and then with its numbers and the text after
-- the dash.
pub parse_semver_iff :
    (atoi : String → Option ℤ) (s : String) (v : Semver)
    → (parse_semver atoi s ≡ some v) ↔ IsVersion atoi s v
parse_semver_iff atoi s v = (
  λ h.
      let cut = cut_dash (trim_v s) in
      let (same, clear) = cut_dash-joined (trim_v s) in
      read_parts-IsVersion atoi s cut.0 cut.1 v same clear
        (sym (parse_semver-of_cut atoi s cut.0 cut.1 refl) ∙ h),
  λ (x, y, z, dotless, clear, a, b, c, form).
      let core = dots (x ∷ y ∷ z ∷ []) in
      elim form [
        | inl (same, pre) ↦
            let cut : cut_dash (trim_v s) ≡ (core, none) =
              ap cut_dash same ∙ (unfold joined in cut_dash-of_joined core none clear) in
            parse_semver-of_cut atoi s core none cut
            ∙ ap (λ ps. numbers atoi ps "") (split_dots-dots x y z dotless)
            ∙ numbers-of_three atoi x y z "" v a b c
            ∙ ap (λ t. some (record v { pre = t })) (sym pre)
        | inr (same, pre) ↦
            let cut : cut_dash (trim_v s) ≡ (core, some v.pre) =
              ap cut_dash same ∙ (unfold joined in cut_dash-of_joined core (some v.pre) clear) in
            let set : (v.pre == "") ≡ false = ground (arith, eq_iff v.pre "") in
            parse_semver-of_cut atoi s core (some v.pre) cut
            ∙ (rw set (ap (λ ps. numbers atoi ps v.pre) (split_dots-dots x y z dotless)))
            ∙ numbers-of_three atoi x y z v.pre v a b c
      ],
)
