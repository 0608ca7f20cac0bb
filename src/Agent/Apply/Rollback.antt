-- ===== src/Agent/Apply/Rollback.antt =====
-- What the rollback of an apply puts back.
use tgproxy_panel.Prelude.{
  if_both, String, ◌≡◌, refl, ◌∙◌, Bool, true, false, Option, none, some, arith,
}
use tgproxy_panel.Agent.Files.{Write, done, write_atomic, write_atomic_ok}
use tgproxy_panel.Agent.Apply.{
  ApplyResult, Changes, RelayNode, UndoHost, is_set, put_back_file, roll_back,
}

-- A file that was there has its old content.
abbrev pub Back : Option String → Option String → Type 0
Back before now = (text : String) → before ≡ some text → now ≡ some text

put_back_file-Back :
    (reads : Bool) (w : Write) (before file : Option String)
    → (put_back_file reads w before file).1 ≡ true
    → Back before (put_back_file reads w before file).0
unfolding put_back_file
put_back_file-Back reads w none file ok text e = ground arith
put_back_file-Back reads w (some old) file ok text e =
    let P : Option String × Bool → Type 0 = λ x. x.1 ≡ true → x.0 ≡ some text in
    if_both P reads (λ k. write_atomic_ok w (some old) file k ∙ e) (λ k. ground arith) ok

-- The files that were there, and the site, are as before.
abbrev pub Undone : RelayNode → RelayNode → Type 0
Undone before now =
    Back before.profiles now.profiles
    × Back before.mtproxy_env now.mtproxy_env
    × (now.site ≡ before.site)

-- The answers with which a rollback can finish.
abbrev pub Cooperates : UndoHost → Type 0
Cooperates h =
    (h.reads_profiles ≡ true)
    × (h.puts_profiles ≡ done)
    × (h.reads_env ≡ true)
    × (h.puts_env ≡ done)
    × (h.puts_site ≡ true)
    × (h.restarts_mtproxy ≡ true)
    × (h.restarts_relay ≡ true)
    × (h.healthy ≡ true)

put_back_done :
    (reads : Bool) (w : Write) (before file : Option String)
    → reads ≡ true
    → w ≡ done
    → (put_back_file reads w before file).1 ≡ true
unfolding put_back_file write_atomic
put_back_done reads w none file r d = refl
put_back_done reads w (some old) file r d = rw (r, d) refl

abbrev pub RolledBack : UndoHost → RelayNode → RelayNode × ApplyResult → Type 0
RolledBack h before (now, r) =
    (r.ok ≡ false)
    × (r.rolled_back ≡ true → Undone before now × ((h.restarts_relay ≡ true) × (h.healthy ≡ true)))
    × (Cooperates h → r.rolled_back ≡ true)

pub roll_back-RolledBack :
    (h : UndoHost) (p : Changes) (before : RelayNode) (result : ApplyResult) (n : RelayNode)
    → (is_set p.site ≡ false → n.site ≡ before.site)
    → RolledBack h before (roll_back h p before result n)
unfolding roll_back
roll_back-RolledBack h p before result n same =
    let profiles = put_back_file-Back h.reads_profiles h.puts_profiles before.profiles n.profiles in
    let env = put_back_file-Back h.reads_env h.puts_env before.mtproxy_env n.mtproxy_env in
    (
      refl,
      λ ok. (
        (profiles (ground arith), env (ground arith), ground arith),
        (ground arith, ground arith),
      ),
      λ good.
          let (rp, wp, re, we, s, m, relay, healthy) = good in
          let pb =
            put_back_done h.reads_profiles h.puts_profiles before.profiles n.profiles rp wp in
          let eb = put_back_done h.reads_env h.puts_env before.mtproxy_env n.mtproxy_env re we in
          ground arith,
    )
