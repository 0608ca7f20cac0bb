-- ===== src/Agent/Apply/Results.antt =====
-- What the result of an apply says about the node.
use mathlib.Core.Bool.{true≢false}
use mathlib.Core.Option.{some-injective}
use tgproxy_panel.Prelude.{
  option_when, if_when, if_both, String, ◌≡◌, refl, sym, ap, ◌∙◌, ◌≢◌, ◌⊎◌, inl, inr, Bool, true,
  false, not, ◌&&◌, ◌||◌, Option, none, some, arith, Bool-cases, Option-cases,
}
use tgproxy_panel.Agent.Files.{Write, write_atomic_ok}
use tgproxy_panel.Agent.Apply.{
  ApplyHost, ApplyRequest, ApplyResult, Changes, RelayNode, Renderers, Site, apply, backs_up,
  changes_of, install, is_set, not_applied, or_old, profile_changes, put_file, put_site, roll_back,
  site_changes, site_of,
}
use tgproxy_panel.Agent.Apply.Requests.{FilesAnswer, profile_changes-FilesAnswer}
use tgproxy_panel.Agent.Apply.Sites.{SiteAnswers, site_changes-SiteAnswers}
use tgproxy_panel.Agent.Apply.Rollback.{Cooperates, RolledBack, Undone, roll_back-RolledBack}

-- The node with the changes in place.
abbrev pub changed : Changes → RelayNode → RelayNode
changed p n = record {
  profiles = or_old p.profiles n.profiles;
  mtproxy_env = or_old p.mtproxy_env n.mtproxy_env;
  site = site_of p.site n.site;
}

put_file_ok :
    (w : Write) (new old : Option String)
    → (put_file w new old).1 ≡ true
    → (put_file w new old).0 ≡ or_old new old
unfolding put_file
put_file_ok w none old ok = refl
put_file_ok w (some new) old ok = write_atomic_ok w (some new) old ok

put_site_ok :
    (puts : Bool) (new : Option Site) (old : Site)
    → (put_site puts new old).1 ≡ true
    → (put_site puts new old).0 ≡ site_of new old
unfolding put_site
put_site_ok puts none old ok = refl
put_site_ok puts (some new) old ok = ground arith

put_site_none :
    (puts : Bool) (new : Option Site) (old : Site)
    → is_set new ≡ false
    → (put_site puts new old).0 ≡ old
unfolding put_site
put_site_none puts none old e = refl
put_site_none puts (some new) old e = ground arith

-- An apply that has started to write: the changes are in place, the services restarted and the relay
-- is healthy, or it was rolled back.
abbrev Installed : ApplyHost → Changes → RelayNode → RelayNode × ApplyResult → Type 0
Installed h p n (now, r) =
    ((r.ok ≡ true)
      × (r.rolled_back ≡ false)
      × (now ≡ changed p n)
      × (h.restarts_relay ≡ true)
      × (h.healthy ≡ true)
      × (is_set p.mtproxy_env ≡ true → h.restarts_mtproxy ≡ true))
    ⊎ RolledBack h.undo n (now, r)

install-Installed : (h : ApplyHost) (p : Changes) (n : RelayNode) → Installed h p n (install h p n)
unfolding install
install-Installed h p n =
    let P = Installed h p n in
    let profiles = put_file h.puts_profiles p.profiles n.profiles in
    let env = put_file h.puts_env p.mtproxy_env n.mtproxy_env in
    let site = put_site h.puts_site p.site n.site in
    let n1 = record n { profiles = profiles.0 } in
    let n2 = record n1 { mtproxy_env = env.0 } in
    let n3 = record n2 { site = site.0 } in
    let with_proxy : ApplyResult = record not_applied {
      restarted_mtproxy = is_set p.mtproxy_env;
    } in
    let same3 = put_site_none h.puts_site p.site n.site in
    let stop3 : (r : ApplyResult) → P (roll_back h.undo p n r n3) =
      λ r. inr (roll_back-RolledBack h.undo p n r n3 same3) in
    if_when P (not profiles.1)
      (λ e. inr (roll_back-RolledBack h.undo p n not_applied n1 (λ e. refl)))
      (λ put_profiles.
        if_when P (not env.1)
          (λ e. inr (roll_back-RolledBack h.undo p n not_applied n2 (λ e. refl)))
          (λ put_env.
            if_when P (not site.1) (λ e. stop3 not_applied)
              (λ put.
                if_when P (is_set p.mtproxy_env && not h.restarts_mtproxy) (λ e. stop3 not_applied)
                  (λ proxy.
                    if_when P (not h.restarts_relay) (λ e. stop3 with_proxy)
                      (λ relay.
                        if_when P (not h.healthy)
                          (λ e. stop3 (record with_proxy { restarted_relay = true }))
                          (λ healthy. inl (
                            refl,
                            refl,
                            rw
                                (
                                  put_file_ok h.puts_profiles p.profiles n.profiles (ground arith),
                                  put_file_ok h.puts_env p.mtproxy_env n.mtproxy_env (ground arith),
                                  put_site_ok h.puts_site p.site n.site (ground arith),
                                )
                                refl,
                            ground arith,
                            ground arith,
                            λ e. ground arith,
                          )))))))

-- What an apply comes to: it was refused with the node untouched, there was nothing to do, or it
-- started to write.
abbrev Applied : Renderers → ApplyHost → ApplyRequest → RelayNode → RelayNode × ApplyResult → Type 0
Applied t h req n (now, r) =
    ((now ≡ n) × (r ≡ not_applied))
    ⊎ ((p : Changes) × (changes_of t h req n ≡ some p)
        × (((is_set p.profiles || is_set p.mtproxy_env || is_set p.site) ≡ false)
              × (now ≡ n)
              × (r.ok ≡ true)
              × (r.rolled_back ≡ false)
            ⊎ Installed h p n (now, r)))

apply-Applied :
    (t : Renderers) (h : ApplyHost) (req : ApplyRequest) (n : RelayNode)
    → Applied t h req n (apply t h req n)
unfolding apply
apply-Applied t h req n =
    let P = Applied t h req n in
    if_both P (not h.mkdir) (inl (refl, refl)) (
      option_when P (changes_of t h req n) (λ e. inl (refl, refl))
        (λ p is_p.
          if_when P (not (is_set p.profiles || is_set p.mtproxy_env || is_set p.site))
            (λ e. inr (p, is_p, inl (ground arith, refl, refl, refl)))
            (λ e.
              if_both P (not (backs_up h p n)) (inl (refl, refl))
                (inr (p, is_p, inr (install-Installed h p n))))))

old_kept {ℓ} : {A : Type ℓ} (new old : Option A) → is_set new ≡ false → or_old new old ≡ old
old_kept none old e = refl
old_kept (some x) old e = ground arith

site_kept : (new : Option Site) (old : Site) → is_set new ≡ false → site_of new old ≡ old
site_kept none old e = refl
site_kept (some x) old e = ground arith

unchanged :
    (p : Changes) (n : RelayNode)
    → (is_set p.profiles || is_set p.mtproxy_env || is_set p.site) ≡ false
    → n ≡ changed p n
unchanged p n e =
    let a = old_kept p.profiles n.profiles (ground arith) in
    let b = old_kept p.mtproxy_env n.mtproxy_env (ground arith) in
    let c = site_kept p.site n.site (ground arith) in rw (a, b, c) refl

changes_of-parts :
    (t : Renderers) (h : ApplyHost) (req : ApplyRequest) (n : RelayNode) (p : Changes)
    → changes_of t h req n ≡ some p
    → (profile_changes t h req n ≡ some (p.profiles, p.mtproxy_env))
      × (site_changes t req n ≡ some p.site)
unfolding changes_of
changes_of-parts t h req n p made = elim (Option-cases (profile_changes t h req n)) [
  | inl bad ↦ absurd (ground arith)
  | inr (files, is_files) ↦ elim (Option-cases (site_changes t req n)) [
    | inl bad ↦ absurd (ground arith)
    | inr (site, is_site) ↦
        let whole : Changes = record { profiles = files.0; mtproxy_env = files.1; site = site } in
        let same : whole ≡ p = some-injective whole p (ground arith) in
        (
          is_files ∙ ap (λ (x : Changes). some (x.profiles, x.mtproxy_env)) same,
          is_site ∙ ap (λ (x : Changes). some x.site) same,
        )
  ]
]

-- What a request asks for is there.
abbrev pub Answers : Renderers → ApplyHost → ApplyRequest → RelayNode → RelayNode → Type 0
Answers t h req n now = FilesAnswer t h req n now × SiteAnswers t req n.site now.site

changed-Answers :
    (t : Renderers) (h : ApplyHost) (req : ApplyRequest) (n : RelayNode) (p : Changes)
    → changes_of t h req n ≡ some p
    → Answers t h req n (changed p n)
changed-Answers t h req n p made =
    let (files, site) = changes_of-parts t h req n p made in
    (
      profile_changes-FilesAnswer t h req n (changed p n) (p.profiles, p.mtproxy_env) files refl
          refl,
      site_changes-SiteAnswers t req n p.site site,
    )

-- An apply that reports success has what its request asks for. Without profiles both files are as
-- before. With them profiles.json is the rendered one, or the old one, equal to it but for the final
-- newlines; and mtproxy.env is the one rendered from the old one, or the old one, whose canonical form
-- is the rendered one (an old file that is missing or cannot be read counts as empty). Without a site
-- the site is as before; with one every path of its files has the content of the last file for it,
-- where a missing file stands for an empty one, an index is among them, and there is no other path
-- unless the site is as before. And if the node is not as before, the relay was restarted and is
-- healthy, and MTProxy was restarted if its environment is not as before.
pub apply_ok :
    (t : Renderers) (h : ApplyHost) (req : ApplyRequest) (n : RelayNode)
    → (apply t h req n).1.ok ≡ true
    → let now = (apply t h req n).0 in
      Answers t h req n now
      × (now ≢ n → (h.restarts_relay ≡ true) × (h.healthy ≡ true))
      × (now.mtproxy_env ≢ n.mtproxy_env → h.restarts_mtproxy ≡ true)
apply_ok t h req n ok = elim (apply-Applied t h req n) [
  | inl (same, r) ↦ absurd (true≢false (sym ok ∙ ap (λ x. x.ok) r))
  | inr (p, is_p, inl (none_set, same, _, _)) ↦
      let there : (apply t h req n).0 ≡ changed p n = same ∙ unchanged p n none_set in
      (
        rw there (changed-Answers t h req n p is_p),
        λ differ. absurd (differ same),
        λ differ. absurd (differ (ap (λ (x : RelayNode). x.mtproxy_env) same)),
      )
  | inr (p, is_p, inr (inl (_, _, same, relay, healthy, proxy))) ↦ (
    rw same (changed-Answers t h req n p is_p),
    λ differ. (relay, healthy),
    λ differ. elim (Bool-cases (is_set p.mtproxy_env)) [
      | inl set ↦ proxy set
      | inr unset ↦ absurd (
          differ (
            ap (λ (x : RelayNode). x.mtproxy_env) same
            ∙ old_kept p.mtproxy_env n.mtproxy_env unset))
    ],
  )
  | inr (p, is_p, inr (inr (not_ok, _, _))) ↦ absurd (true≢false (sym ok ∙ not_ok))
]

-- An apply that reports a rollback has put back every file that was there and the site, and the relay
-- was restarted and is healthy.
pub apply_rolled_back :
    (t : Renderers) (h : ApplyHost) (req : ApplyRequest) (n : RelayNode)
    → (apply t h req n).1.rolled_back ≡ true
    → Undone n (apply t h req n).0 × ((h.undo.restarts_relay ≡ true) × (h.undo.healthy ≡ true))
apply_rolled_back t h req n back = elim (apply-Applied t h req n) [
  | inl (same, r) ↦ absurd (true≢false (sym back ∙ ap (λ x. x.rolled_back) r))
  | inr (p, is_p, inl (_, _, _, not_back)) ↦ absurd (true≢false (sym back ∙ not_back))
  | inr (p, is_p, inr (inl (_, not_back, _, _, _, _))) ↦ absurd (true≢false (sym back ∙ not_back))
  | inr (p, is_p, inr (inr (_, undone, _))) ↦ undone back
]

-- An apply that fails leaves every file that was there and the site as before, when the calls of its
-- rollback succeed.
pub apply_restores :
    (t : Renderers) (h : ApplyHost) (req : ApplyRequest) (n : RelayNode)
    → (apply t h req n).1.ok ≡ false
    → Cooperates h.undo
    → Undone n (apply t h req n).0
apply_restores t h req n bad good = elim (apply-Applied t h req n) [
  | inl (same, r) ↦ rw same (λ text e. e, λ text e. e, refl)
  | inr (p, is_p, inl (_, same, _, _)) ↦ rw same (λ text e. e, λ text e. e, refl)
  | inr (p, is_p, inr (inl (ok, _, _, _, _, _))) ↦ absurd (true≢false (sym ok ∙ bad))
  | inr (p, is_p, inr (inr (_, undone, back))) ↦ (undone (back good)).0
]
