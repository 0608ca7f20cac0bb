-- ===== src/Agent/Apply/Requests.antt =====
-- The profiles and the environment that a request asks for, and the files after the change.
use mathlib.Core.Option.{some-injective}
use tgproxy_panel.Prelude.{
  String, ◌≡◌, refl, sym, ap, ◌∙◌, ◌⊎◌, inl, inr, true, false, Option, none, some, arith, eq_iff,
  if◌then◌else◌, ◌!=◌, Bool-cases, Option-cases, nat_eq, string_eq,
}
use tgproxy_panel.Agent.Apply.{
  ApplyHost, ApplyRequest, RelayNode, Renderers, or_old, profile_changes, read_or_empty,
}

-- The two files of a request: as before if it has no profiles; else profiles.json is the rendered one,
-- or the old one that differs from it in final newlines only, and mtproxy.env is the rendered one, or
-- the old one, whose canonical form is the rendered one. A file that cannot be read counts as empty.
pub data FilesAnswer (t : Renderers) (h : ApplyHost) (req : ApplyRequest) (before now : RelayNode)
    : Type 0 where
  no_profiles :
      req.apply_profiles ≡ false
      → now.profiles ≡ before.profiles
      → now.mtproxy_env ≡ before.mtproxy_env
      → FilesAnswer t h req before now
  new_profiles :
      (new : String)
      → req.apply_profiles ≡ true
      → t.profiles_json ≡ some new
      → (now.profiles ≡ some new)
        ⊎ ((now.profiles ≡ before.profiles)
            × (t.trim_newlines (read_or_empty h.reads_profiles before.profiles)
                ≡ t.trim_newlines new))
      → (let old = read_or_empty h.reads_env before.mtproxy_env in
          (now.mtproxy_env ≡ some (t.mtproxy_env old))
          ⊎ ((now.mtproxy_env ≡ before.mtproxy_env) × (t.canonical_env old ≡ t.mtproxy_env old)))
      → FilesAnswer t h req before now

abbrev Rendered : Renderers → String → Option String → Option String → Type 0
Rendered t old before env =
    (env ≡ some (t.mtproxy_env old)) ⊎ ((env ≡ before) × (t.canonical_env old ≡ t.mtproxy_env old))

or_old-Rendered :
    (t : Renderers) (old : String) (before : Option String)
    → Rendered t old before (
        or_old
          (if t.canonical_env old != t.mtproxy_env old then some (t.mtproxy_env old) else none)
          before)
or_old-Rendered t old before = elim (Bool-cases (t.canonical_env old != t.mtproxy_env old)) [
  | inl differ ↦ rw differ (inl refl)
  | inr same ↦
      rw same (inr (refl, ground (arith, eq_iff (t.canonical_env old) (t.mtproxy_env old))))
]

pub profile_changes-FilesAnswer :
    (t : Renderers) (h : ApplyHost) (req : ApplyRequest) (n now : RelayNode)
    (files : Option String × Option String)
    → profile_changes t h req n ≡ some files
    → now.profiles ≡ or_old files.0 n.profiles
    → now.mtproxy_env ≡ or_old files.1 n.mtproxy_env
    → FilesAnswer t h req n now
unfolding profile_changes
profile_changes-FilesAnswer t h req n now files made is_profiles is_env =
    elim (Bool-cases req.apply_profiles) [
      | inr without ↦
          let same : (none, none) ≡ files = some-injective (none, none) files (ground arith) in
          no_profiles without (is_profiles ∙ ap (λ x. or_old x.0 n.profiles) (sym same))
            (is_env ∙ ap (λ x. or_old x.1 n.mtproxy_env) (sym same))
      | inl asks ↦ elim (Option-cases t.profiles_json) [
        | inl bad ↦ absurd (ground arith)
        | inr (new, rendered) ↦
            let before = read_or_empty h.reads_profiles n.profiles in
            let old = read_or_empty h.reads_env n.mtproxy_env in
            let changed = t.trim_newlines before != t.trim_newlines new in
            let env : Option String =
              if t.canonical_env old != t.mtproxy_env old then some (t.mtproxy_env old) else none in
            let same : (if changed then some new else none, env) ≡ files =
              some-injective (if changed then some new else none, env) files (ground arith) in
            let profiles' : now.profiles ≡ or_old (if changed then some new else none) n.profiles =
              is_profiles ∙ ap (λ x. or_old x.0 n.profiles) (sym same) in
            let env' : now.mtproxy_env ≡ or_old env n.mtproxy_env =
              is_env ∙ ap (λ x. or_old x.1 n.mtproxy_env) (sym same) in
            new_profiles new asks rendered
              (elim (Bool-cases changed) [
                | inl differ ↦ inl (profiles' ∙ (rw differ refl))
                | inr equal ↦ inr (
                  profiles' ∙ (rw equal refl),
                  ground (arith, eq_iff (t.trim_newlines before) (t.trim_newlines new)),
                )
              ])
              (rw env' (or_old-Rendered t old n.mtproxy_env))
      ]
    ]
