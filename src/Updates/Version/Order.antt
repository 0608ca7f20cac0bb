-- ===== src/Updates/Version/Order.antt =====
-- What Newer says of two versions, and that it is a strict order.
use Prim.Native.Char.{Char, code}
use mathlib.Core.Path.{subst}
use text.Mathlib.TextEquality.{codes_equal}
use tgproxy_panel.Prelude.{
  ◌<◌, String, ◌≡◌, refl, ◌≢◌, ◌↔◌, inl, inr, true, false, Option, none, some, arith, eq_iff, ltb,
  ◌==◌, ◌!=◌, Bool-cases, Option-cases, ℤ, nat_eq, string_eq,
}
use tgproxy_panel.Updates.Version.{
  Semver, newer, newer_pre, newer_semver, parse_semver, text_lt, newer_of,
}
use tgproxy_panel.Updates.Version.Reading.{IsVersion, parse_semver_iff}

text_lt_irrefl : (s : String) → text_lt s s ≡ false
unfolding text_lt
text_lt_irrefl String.[] = refl
text_lt_irrefl (String.◌∷◌ c s) = ground (arith, text_lt_irrefl s)

text_lt_trans : (s t u : String) → text_lt s t ≡ true → text_lt t u ≡ true → text_lt s u ≡ true
unfolding text_lt
text_lt_trans String.[] String.[] String.[] p q = p
text_lt_trans String.[] String.[] (String.◌∷◌ e u) p q = refl
text_lt_trans String.[] (String.◌∷◌ d t) String.[] p q = q
text_lt_trans String.[] (String.◌∷◌ d t) (String.◌∷◌ e u) p q = refl
text_lt_trans (String.◌∷◌ c s) String.[] String.[] p q = p
text_lt_trans (String.◌∷◌ c s) String.[] (String.◌∷◌ e u) p q = ground arith
text_lt_trans (String.◌∷◌ c s) (String.◌∷◌ d t) String.[] p q = q
text_lt_trans (String.◌∷◌ c s) (String.◌∷◌ d t) (String.◌∷◌ e u) p q =
    ground (arith, text_lt_trans s t u)

newer_pre_irrefl : (l : String) → newer_pre l l ≡ false
unfolding newer_pre
newer_pre_irrefl l = ground (arith, text_lt_irrefl l)

not_below_empty : (s : String) → text_lt s "" ≡ false
unfolding text_lt
not_below_empty String.[] = refl
not_below_empty (String.◌∷◌ c s) = refl

newer_pre_trans :
    (a b c : String) → newer_pre a b ≡ true → newer_pre b c ≡ true → newer_pre a c ≡ true
unfolding newer_pre
newer_pre_trans a b c p q =
    ground (arith, text_lt_trans c b a, eq_iff a "", eq_iff b "", eq_iff c "")

semver_irrefl : (l : Semver) → newer_semver l l ≡ false
unfolding newer_semver
semver_irrefl l = ground (arith, newer_pre_irrefl l.pre)

semver_trans :
    (a b c : Semver) → newer_semver a b ≡ true → newer_semver b c ≡ true → newer_semver a c ≡ true
unfolding newer_semver
semver_trans a b c p q = ground (arith, newer_pre_trans a.pre b.pre c.pre)

text_lt_total : (s t : String) → text_lt s t ≡ false → text_lt t s ≡ false → s ≡ t
unfolding text_lt
text_lt_total String.[] String.[] p q = refl
text_lt_total String.[] (String.◌∷◌ d t) p q = ground arith
text_lt_total (String.◌∷◌ c s) String.[] p q = ground arith
text_lt_total (String.◌∷◌ c s) (String.◌∷◌ d t) p q =
    let same_code : code c ≡ code d = ground arith in
    let same_rest : s ≡ t = text_lt_total s t (ground arith) (ground arith) in
    cc (codes_equal c d (ground arith), same_rest)

newer_pre_total : (a b : String) → newer_pre a b ≡ false → newer_pre b a ≡ false → a ≡ b
unfolding newer_pre
newer_pre_total a b p q = ground (arith, text_lt_total a b, eq_iff a "", eq_iff b "", eq_iff a b)

of_irrefl : (v : Option Semver) → newer_of v v ≡ false
unfolding newer_of
of_irrefl none = refl
of_irrefl (some l) = semver_irrefl l

of_trans : (a b c : Option Semver) → newer_of a b ≡ true → newer_of b c ≡ true → newer_of a c ≡ true
unfolding newer_of
of_trans none b c p q = absurd (cc p)
of_trans (some a) none c p q = absurd (cc p)
of_trans (some a) (some b) none p q = absurd (cc q)
of_trans (some a) (some b) (some c) p q = semver_trans a b c p q

-- The order of texts by the code points at the first place where they differ, a text before its
-- continuations.
pub data Below : String → String → Type 0 where
  shorter : (d : Char) (t : String) → Below "" (String.◌∷◌ d t)
  smaller : (c d : Char) (s t : String) → code c < code d → Below (String.◌∷◌ c s) (String.◌∷◌ d t)
  same_first : (c : Char) (s t : String) → Below s t → Below (String.◌∷◌ c s) (String.◌∷◌ c t)

text_lt-Below : (s t : String) → text_lt s t ≡ true → Below s t
unfolding text_lt
text_lt-Below String.[] String.[] h = ground arith
text_lt-Below String.[] (String.◌∷◌ d t) h = shorter d t
text_lt-Below (String.◌∷◌ c s) String.[] h = ground arith
text_lt-Below (String.◌∷◌ c s) (String.◌∷◌ d t) h = elim (Bool-cases (ltb (code c) (code d))) [
  | inl less ↦ smaller c d s t (ground arith)
  | inr same ↦
      let one : c ≡ d = codes_equal c d (ground arith) in
      let rest : Below s t = text_lt-Below s t (ground arith) in
      subst (λ x. Below (String.◌∷◌ c s) (String.◌∷◌ x t)) one (same_first c s t rest)
]

Below-text_lt : {s t : String} → Below s t → text_lt s t ≡ true
unfolding text_lt
Below-text_lt (shorter d t) = refl
Below-text_lt (smaller c d s t less) = ground arith
Below-text_lt (same_first c s t below) = ground (arith, Below-text_lt below)

-- The same three numbers.
abbrev pub SameNumbers : Semver → Semver → Type 0
SameNumbers v w = (v.major ≡ w.major) × (v.minor ≡ w.minor) × (v.patch ≡ w.patch)

-- One version after another: by the first of the three numbers in which they differ; with the same
-- numbers a release is after its pre-releases, and of two pre-releases the greater text is after.
pub data After (v w : Semver) : Type 0 where
  by_major : w.major < v.major → After v w
  by_minor : v.major ≡ w.major → w.minor < v.minor → After v w
  by_patch : v.major ≡ w.major → v.minor ≡ w.minor → w.patch < v.patch → After v w
  by_release : SameNumbers v w → v.pre ≡ "" → w.pre ≢ "" → After v w
  by_pre : SameNumbers v w → v.pre ≢ "" → w.pre ≢ "" → Below w.pre v.pre → After v w

pre-After : (v w : Semver) → SameNumbers v w → newer_pre v.pre w.pre ≡ true → After v w
unfolding newer_pre
pre-After v w same h = elim (Bool-cases (v.pre == "")) [
  | inl release ↦
      by_release same (ground (arith, eq_iff v.pre ""))
        (ground (arith, eq_iff v.pre "", eq_iff w.pre "", text_lt_irrefl ""))
  | inr pre ↦
      by_pre same (ground (arith, eq_iff v.pre "")) (ground (arith, eq_iff w.pre ""))
        (text_lt-Below w.pre v.pre (ground arith))
]

semver-After : (v w : Semver) → newer_semver v w ≡ true → After v w
unfolding newer_semver
semver-After v w h = elim (Bool-cases (v.major != w.major)) [
  | inl major ↦ by_major (ground arith)
  | inr same_major ↦ elim (Bool-cases (v.minor != w.minor)) [
    | inl minor ↦ by_minor (ground arith) (ground arith)
    | inr same_minor ↦ elim (Bool-cases (v.patch != w.patch)) [
      | inl patch ↦ by_patch (ground arith) (ground arith) (ground arith)
      | inr same_patch ↦ pre-After v w (ground arith, ground arith, ground arith) (ground arith)
    ]
  ]
]

After-semver : (v w : Semver) → After v w → newer_semver v w ≡ true
unfolding newer_semver newer_pre
After-semver v w (by_major major) = ground arith
After-semver v w (by_minor a minor) = ground arith
After-semver v w (by_patch a b patch) = ground arith
After-semver v w (by_release same release pre) = ground (arith, eq_iff v.pre "", eq_iff w.pre "")
After-semver v w (by_pre same p q below) =
    ground (arith, eq_iff v.pre "", eq_iff w.pre "", Below-text_lt below)

-- Both texts are versions, and the first is after the second.
abbrev pub IsNewer : (String → Option ℤ) → String → String → Type 0
IsNewer atoi a b = (v : Semver) × (w : Semver) × IsVersion atoi a v × IsVersion atoi b w × After v w

-- Newer is true exactly when both texts are versions (three numbers with dots between them, after an
-- optional "v", and then nothing or a dash and a text that is not empty) and the first is after the
-- second: greater in the first of major, minor and patch that differs, or, with the same three numbers,
-- a release against a pre-release, or of two pre-releases the one with the greater text after the
-- dash, by code points.
pub newer_iff :
    (atoi : String → Option ℤ) (a b : String) → (newer atoi a b ≡ true) ↔ IsNewer atoi a b
unfolding newer newer_of
newer_iff atoi a b = (
  λ h. elim (Option-cases (parse_semver atoi a)) [
    | inl missing ↦ absurd (ground arith)
    | inr (v, read_a) ↦ elim (Option-cases (parse_semver atoi b)) [
      | inl missing ↦ absurd (ground arith)
      | inr (w, read_b) ↦ (
        v,
        w,
        (parse_semver_iff atoi a v).0 read_a,
        (parse_semver_iff atoi b w).0 read_b,
        semver-After v w (rw (read_a, read_b) at h),
      )
    ]
  ],
  λ (v, w, is_a, is_b, is_after).
      rw ((parse_semver_iff atoi a v).1 is_a, (parse_semver_iff atoi b w).1 is_b)
        (After-semver v w is_after),
)

-- No version is newer than itself.
pub newer_irrefl : (atoi : String → Option ℤ) (v : String) → newer atoi v v ≡ false
unfolding newer
newer_irrefl atoi v = of_irrefl (parse_semver atoi v)

-- A version newer than one that is newer than a third is newer than the third.
pub newer_trans :
    (atoi : String → Option ℤ) (a b c : String)
    → newer atoi a b ≡ true
    → newer atoi b c ≡ true
    → newer atoi a c ≡ true
unfolding newer
newer_trans atoi a b c p q =
    of_trans (parse_semver atoi a) (parse_semver atoi b) (parse_semver atoi c) p q

-- Of two versions that can be read, neither of which is newer than the other, the three numbers and
-- the text after the dash are the same.
pub newer_total :
    (atoi : String → Option ℤ) (a b : String) (v w : Semver)
    → parse_semver atoi a ≡ some v
    → parse_semver atoi b ≡ some w
    → newer atoi a b ≡ false
    → newer atoi b a ≡ false
    → (v.major ≡ w.major) × (v.minor ≡ w.minor) × (v.patch ≡ w.patch) × (v.pre ≡ w.pre)
unfolding newer newer_of newer_semver
newer_total atoi a b v w read_a read_b p q =
    let not_above : newer_semver v w ≡ false = rw (read_a, read_b) at p in
    let not_below : newer_semver w v ≡ false = rw (read_a, read_b) at q in
    (
      ground arith,
      ground arith,
      ground arith,
      newer_pre_total v.pre w.pre (ground arith) (ground arith),
    )
