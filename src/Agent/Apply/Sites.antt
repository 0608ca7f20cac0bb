-- ===== src/Agent/Apply/Sites.antt =====
-- The files that a request asks for in the site, path by path, and the site after the change.
use mathlib.Core.Option.{some-injective}
use tgproxy_panel.Prelude.{
  insert, lookup, String, ◌≡◌, refl, sym, ap, ◌∙◌, ◌⊎◌, inl, inr, Bool, true, Option, none, some,
  List, [], ◌∷◌, arith, eq_iff, if◌then◌else◌, ◌==◌, Bool-cases, Option-cases, all, lookup, insert,
  lookup-insert, nat_eq, string_eq,
}
use tgproxy_panel.Agent.Apply.{
  ApplyRequest, RelayNode, Renderers, Site, new_site, safe_site_path, site_changes, site_equals,
  site_of,
}

-- The content that the files of a request give a path: that of the last file whose path is safe and
-- cleans to it.
unfoldable pub asked : Renderers → List (String × String) → String → Option String
asked t [] p = none
asked t ((path, content) ∷ files) p =
    let rest = asked t files p in
    elim rest [
      | some c ↦ some c
      | none ↦ elim (safe_site_path t path) [
        | none ↦ none
        | some q ↦ if q == p then some content else none
      ]
    ]

-- A path has its content, or is missing where the content is empty.
abbrev pub Has : Site → String → String → Type 0
Has site p content = (lookup p site ≡ some content) ⊎ ((lookup p site ≡ none) × (content ≡ ""))

abbrev asked_or : Renderers → List (String × String) → Site → String → Option String
asked_or t files site p = elim (asked t files p) [ some c ↦ some c | none ↦ lookup p site ]

asked_or-cons :
    (t : Renderers) (path content q : String) (files : List (String × String)) (site : Site)
    (p : String)
    → safe_site_path t path ≡ some q
    → asked_or t files (insert q content site) p ≡ asked_or t ((path, content) ∷ files) site p
unfolding asked
asked_or-cons t path content q files site p safe =
    ground (arith, safe, lookup-insert q p content site)

new_site-asked :
    (t : Renderers) (files : List (String × String)) (before site : Site) (p : String)
    → new_site t files before ≡ some site
    → lookup p site ≡ asked_or t files before p
unfolding new_site asked
new_site-asked t [] before site p h = ap (lookup p) (sym (some-injective before site h))
new_site-asked t ((path, content) ∷ files) before site p h =
    elim (Option-cases (safe_site_path t path)) [
      | inl unsafe ↦ absurd (ground arith)
      | inr (q, safe) ↦
          let ih =
            new_site-asked t files (insert q content before) site p (rw (safe, new_site) at h) in
          ih ∙ asked_or-cons t path content q files before p safe
    ]

all-lookup :
    (test : String × String → Bool) (site : Site) (p c : String)
    → all test site ≡ true
    → lookup p site ≡ some c
    → test (p, c) ≡ true
unfolding lookup
all-lookup test [] p c h found = ground arith
all-lookup test ((q, content) ∷ site) p c h found = elim (Bool-cases (q == p)) [
  | inl same ↦
      let same_path : q ≡ p = (eq_iff q p).0 same in
      let same_content : content ≡ c = some-injective content c (rw same at found) in
      rw (← same_path, ← same_content) (ground arith)
  | inr other ↦ all-lookup test site p c (ground arith) (rw other at found)
]

abbrev has_content : Site → String × String → Bool
has_content current f = elim (lookup f.0 current) [ none ↦ f.1 == "" | some c ↦ c == f.1 ]

has_content-Has :
    (current : Site) (p c : String) → has_content current (p, c) ≡ true → Has current p c
has_content-Has current p c h = elim (Option-cases (lookup p current)) [
  | inl missing ↦ inr (missing, (eq_iff c "").0 (rw (missing, has_content) at h))
  | inr (old, found) ↦ inl (found ∙ ap some ((eq_iff old c).0 (rw (found, has_content) at h)))
]

site_equals-Has :
    (current site : Site) (p c : String)
    → site_equals current site ≡ true
    → lookup p site ≡ some c
    → Has current p c
unfolding site_equals
site_equals-Has current site p c same found =
    has_content-Has current p c (all-lookup (has_content current) site p c (ground arith) found)

-- Every path that the files ask for has its content.
abbrev pub HasAsked : Renderers → List (String × String) → Site → Type 0
HasAsked t files site = (p c : String) → asked t files p ≡ some c → Has site p c

-- No path has a content that the files do not ask for.
abbrev pub HasNoOther : Renderers → List (String × String) → Site → Type 0
HasNoOther t files site = (p : String) → asked t files p ≡ none → lookup p site ≡ none

-- The site of a request: as before if none is given; else every path that is asked for has its
-- content, an index is among them, and there is no other path unless the site is as before.
pub data SiteAnswers (t : Renderers) (req : ApplyRequest) (before now : Site) : Type 0 where
  no_site : req.site ≡ none → now ≡ before → SiteAnswers t req before now
  new_files :
      (files : List (String × String)) (index : String)
      → req.site ≡ some files
      → asked t files "index.html" ≡ some index
      → HasAsked t files now
      → (now ≡ before) ⊎ HasNoOther t files now
      → SiteAnswers t req before now

asked_found :
    (t : Renderers) (files : List (String × String)) (site : Site) (p c : String)
    → new_site t files [] ≡ some site
    → asked t files p ≡ some c
    → lookup p site ≡ some c
asked_found t files site p c made is_asked =
    new_site-asked t files [] site p made ∙ (rw (is_asked, asked_or) refl)

found_asked :
    (t : Renderers) (files : List (String × String)) (site : Site) (p c : String)
    → new_site t files [] ≡ some site
    → lookup p site ≡ some c
    → asked t files p ≡ some c
unfolding lookup
found_asked t files site p c made found =
    let same = new_site-asked t files [] site p made in ground (arith, same)

not_asked :
    (t : Renderers) (files : List (String × String)) (site : Site) (p : String)
    → new_site t files [] ≡ some site
    → asked t files p ≡ none
    → lookup p site ≡ none
unfolding lookup
not_asked t files site p made unasked =
    new_site-asked t files [] site p made ∙ (rw (unasked, asked_or) refl)

pub site_changes-SiteAnswers :
    (t : Renderers) (req : ApplyRequest) (n : RelayNode) (change : Option Site)
    → site_changes t req n ≡ some change
    → SiteAnswers t req n.site (site_of change n.site)
unfolding site_changes
site_changes-SiteAnswers t req n change h = elim (Option-cases req.site) [
  | inl unasked ↦
      let same : none ≡ change = some-injective none change (rw unasked at h) in
      rw (← same) (no_site unasked refl)
  | inr (files, is_asked) ↦ elim (Option-cases (new_site t files [])) [
    | inl bad ↦ absurd (ground arith)
    | inr (site, made) ↦ elim (Option-cases (lookup "index.html" site)) [
      | inl no_index ↦ absurd (ground arith)
      | inr (index, has_index) ↦
          let is_index = found_asked t files site "index.html" index made has_index in
          let result : some (if site_equals n.site site then none else some site) ≡ some change =
            ground arith in
          let same =
            some-injective (if site_equals n.site site then none else some site) change result in
          rw (← same) (elim (Bool-cases (site_equals n.site site)) [
            | inl equal ↦ rw equal (
                new_files files index is_asked is_index
                  (λ p c a.
                    site_equals-Has n.site site p c equal (asked_found t files site p c made a))
                  (inl refl))
            | inr differ ↦ rw differ (
                new_files files index is_asked is_index
                  (λ p c a. inl (asked_found t files site p c made a))
                  (inr (λ p a. not_asked t files site p made a)))
          ])
    ]
  ]
]
