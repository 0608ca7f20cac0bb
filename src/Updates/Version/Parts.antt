-- ===== src/Updates/Version/Parts.antt =====
-- A text and its parts: what `cut_dash` and `split_dots` take apart, put together again.
use Prim.Native.Char.{Char}
use Prim.Native.String.append
use tgproxy_panel.Prelude.{
  String, ◌≡◌, refl, sym, ap, ◌∙◌, inl, inr, Bool, true, false, ◌&&◌, Option, none, some, List, [],
  ◌∷◌, arith, eq_iff, if◌then◌else◌, ◌==◌, ◌!=◌, Bool-cases, All, concat, nat_eq, string_eq,
}
use tgproxy_panel.Updates.Version.{cut_dash, prepend_first, split_dots}

-- Whether a text does not contain a character.
unfoldable pub without : String → String → Bool
without mark String.[] = true
without mark (String.◌∷◌ c s) = let rest = without mark s in (String.◌∷◌ c "" != mark) && rest

concat_cons : (c : Char) (s t : String) → concat (String.◌∷◌ c s) t ≡ String.◌∷◌ c (concat s t)
concat_cons c s t = append.cons c s t

concat_nil : (t : String) → concat "" t ≡ t
concat_nil t = append.nil t

concat_one : (c : Char) (t : String) → concat (String.◌∷◌ c "") t ≡ String.◌∷◌ c t
concat_one c t = concat_cons c "" t ∙ ap (String.◌∷◌ c) (concat_nil t)

is_mark :
    (c : Char) (mark t : String) → (String.◌∷◌ c "" == mark) ≡ true → concat mark t ≡ String.◌∷◌ c t
is_mark c mark t h =
    ap (λ x. concat x t) (sym ((eq_iff (String.◌∷◌ c "") mark).0 h)) ∙ concat_one c t

without-cons :
    (mark : String) (c : Char) (s : String)
    → without mark (String.◌∷◌ c s) ≡ true
    → ((String.◌∷◌ c "" == mark) ≡ false) × (without mark s ≡ true)
unfolding without
without-cons mark c s h = (ground arith, ground arith)

cut_dash-cons :
    (c : Char) (s : String)
    → cut_dash (String.◌∷◌ c s) ≡ (
        if String.◌∷◌ c "" == "-"
        then ("", some s)
        else (String.◌∷◌ c (cut_dash s).0, (cut_dash s).1))
unfolding cut_dash
cut_dash-cons c s = refl

split_dots-cons :
    (c : Char) (s : String)
    → split_dots (String.◌∷◌ c s) ≡ (
        if String.◌∷◌ c "" == "."
        then "" ∷ split_dots s
        else prepend_first (String.◌∷◌ c "") (split_dots s))
unfolding split_dots
split_dots-cons c s = refl

-- The text that the two parts of cut_dash come from.
unfoldable pub joined : String → Option String → String
joined before none = before
joined before (some rest) = concat before (concat "-" rest)

joined-cons :
    (c : Char) (before : String) (o : Option String)
    → joined (String.◌∷◌ c before) o ≡ String.◌∷◌ c (joined before o)
unfolding joined
joined-cons c before none = refl
joined-cons c before (some rest) = concat_cons c before (concat "-" rest)

without-of_cons :
    (mark : String) (c : Char) (s : String)
    → (String.◌∷◌ c "" == mark) ≡ false
    → without mark s ≡ true
    → without mark (String.◌∷◌ c s) ≡ true
unfolding without
without-of_cons mark c s apart h = ground arith

joined-dash :
    (c : Char) (s : String) → (String.◌∷◌ c "" == "-") ≡ true → String.◌∷◌ c s ≡ joined "" (some s)
unfolding joined
joined-dash c s dash = sym (concat_nil (concat "-" s) ∙ is_mark c "-" s dash)

without_nil : (mark : String) → without mark "" ≡ true
unfolding without
without_nil mark = refl

pub cut_dash-joined :
    (s : String) → (s ≡ joined (cut_dash s).0 (cut_dash s).1) × (without "-" (cut_dash s).0 ≡ true)
cut_dash-joined String.[] = unfold cut_dash in unfold joined in unfold without in (refl, refl)
cut_dash-joined (String.◌∷◌ c s) =
    let (same, clear) = cut_dash-joined s in
    rw (cut_dash-cons c s) (elim (Bool-cases (String.◌∷◌ c "" == "-")) [
      | inl dash ↦ rw dash (joined-dash c s dash, without_nil "-")
      | inr plain ↦ rw plain (
        ap (String.◌∷◌ c) same ∙ sym (joined-cons c (cut_dash s).0 (cut_dash s).1),
        without-of_cons "-" c (cut_dash s).0 plain clear,
      )
    ])

dash_first : (rest : String) → cut_dash (concat "-" rest) ≡ ("", some rest)
dash_first rest = rw (concat_one "-" rest) (cut_dash-cons "-" rest)

pub cut_dash-of_joined :
    (before : String) (o : Option String)
    → without "-" before ≡ true
    → cut_dash (joined before o) ≡ (before, o)
cut_dash-of_joined String.[] none h = unfold cut_dash in unfold joined in refl
cut_dash-of_joined String.[] (some rest) h =
    unfold joined in rw (concat_nil (concat "-" rest), dash_first rest) refl
cut_dash-of_joined (String.◌∷◌ c before) o h =
    let (plain, clear) = without-cons "-" c before h in
    rw
      (
        joined-cons c before o,
        cut_dash-cons c (joined before o),
        plain,
        cut_dash-of_joined before o clear,
      )
      refl

-- The parts with dots between them.
unfoldable pub dots : List String → String
dots [] = ""
dots (p ∷ []) = p
dots (p ∷ q ∷ ps) = concat p (concat "." (dots (q ∷ ps)))

abbrev pub AreDotless : List String → Type 0
AreDotless ps = All (λ p. without "." p ≡ true) ps

abbrev pub PartsOf : String → List String → Type 0
PartsOf s ps = (s ≡ dots ps) × AreDotless ps

dots-cons :
    (c : Char) (p : String) (ps : List String)
    → dots (String.◌∷◌ c p ∷ ps) ≡ String.◌∷◌ c (dots (p ∷ ps))
unfolding dots
dots-cons c p [] = refl
dots-cons c p (q ∷ ps) = concat_cons c p (concat "." (dots (q ∷ ps)))

dots-dot :
    (c : Char) (p : String) (ps : List String)
    → (String.◌∷◌ c "" == ".") ≡ true
    → String.◌∷◌ c (dots (p ∷ ps)) ≡ dots ("" ∷ p ∷ ps)
unfolding dots
dots-dot c p ps dot =
    sym (concat_nil (concat "." (dots (p ∷ ps))) ∙ is_mark c "." (dots (p ∷ ps)) dot)

prepend_first-cons :
    (c : Char) (p : String) (ps : List String)
    → prepend_first (String.◌∷◌ c "") (p ∷ ps) ≡ String.◌∷◌ c p ∷ ps
unfolding prepend_first
prepend_first-cons c p ps = rw (concat_one c p) refl

-- A text is split into one part at least, and the parts put together are the text.
pub split_dots-PartsOf :
    (s : String) → (p : String) × (ps : List String) × (split_dots s ≡ p ∷ ps) × PartsOf s (p ∷ ps)
split_dots-PartsOf String.[] =
    ("", [], unfold split_dots in refl, (unfold dots in refl, (without_nil ".", tt)))
split_dots-PartsOf (String.◌∷◌ c s) =
    let (p, ps, parts, (same, clear)) = split_dots-PartsOf s in
    elim (Bool-cases (String.◌∷◌ c "" == ".")) [
      | inl dot ↦ (
        "",
        p ∷ ps,
        rw (split_dots-cons c s, dot, parts) refl,
        (ap (String.◌∷◌ c) same ∙ dots-dot c p ps dot, (without_nil ".", clear)),
      )
      | inr plain ↦ (
        String.◌∷◌ c p,
        ps,
        rw (split_dots-cons c s, plain, parts) (prepend_first-cons c p ps),
        (
          ap (String.◌∷◌ c) same ∙ sym (dots-cons c p ps),
          (without-of_cons "." c p plain clear.0, clear.1),
        ),
      )
    ]

dot_first : (rest : String) → split_dots (concat "." rest) ≡ "" ∷ split_dots rest
dot_first rest = rw (concat_one "." rest) (split_dots-cons "." rest)

split_dots-of_one : (p : String) → without "." p ≡ true → split_dots p ≡ p ∷ []
split_dots-of_one String.[] h = unfold split_dots in refl
split_dots-of_one (String.◌∷◌ c p) h =
    let (plain, clear) = without-cons "." c p h in
    rw (split_dots-cons c p, plain, split_dots-of_one p clear) (prepend_first-cons c p [])

split_dots-of_concat :
    (p rest : String)
    → without "." p ≡ true
    → split_dots (concat p (concat "." rest)) ≡ p ∷ split_dots rest
split_dots-of_concat String.[] rest h = rw (concat_nil (concat "." rest)) (dot_first rest)
split_dots-of_concat (String.◌∷◌ c p) rest h =
    let (plain, clear) = without-cons "." c p h in
    rw
      (
        concat_cons c p (concat "." rest),
        split_dots-cons c (concat p (concat "." rest)),
        plain,
        split_dots-of_concat p rest clear,
      )
      (prepend_first-cons c p (split_dots rest))

pub split_dots-dots :
    (x y z : String)
    → AreDotless (x ∷ y ∷ z ∷ [])
    → split_dots (dots (x ∷ y ∷ z ∷ [])) ≡ x ∷ y ∷ z ∷ []
unfolding dots
split_dots-dots x y z (a, (b, (c, _))) =
    rw
      (
        split_dots-of_concat x (concat y (concat "." z)) a,
        split_dots-of_concat y z b,
        split_dots-of_one z c,
      )
      refl
