-- ===== src/Agent/Apply.antt =====
-- Apply of internal/agent/apply.go for the relay engine: the files of a node are checked, backed up,
-- written and restarted, and put back on failure. The renderers of the files and the system's answers
-- are arguments. A site is the map of its files; its directory is exchanged in one step.
pub mod Requests
pub mod Sites
pub mod Rollback
pub mod Results
mod Tests
use tgproxy_panel.Prelude.{
  Map, insert, lookup, String, Bool, true, false, not, ◌&&◌, ◌||◌, Option, none, some, List, [],
  ◌∷◌, if◌then◌else◌, ◌==◌, ◌!=◌, length, all, Map, lookup, insert, nat_eq, string_eq,
}
use tgproxy_panel.Agent.Files.{Write, write_atomic}

abbrev pub Site : Type 0
Site = Map String String

-- profiles.json, mtproxy.env and the site's directory; none for a file that is missing.
pub record RelayNode : Type 0 where
  pub profiles : Option String
  pub mtproxy_env : Option String
  pub site : Site

-- agentv1.ApplyRequest: whether it has profiles, and the files of its site.
pub record ApplyRequest : Type 0 where
  pub apply_profiles : Bool
  pub site : Option (List (String × String))

-- The renderers, with the request's profiles and secrets: RenderProfilesJSON, RenderMTProxyEnv of an
-- old file with the request's secrets, and with the secrets that it has; bytes.TrimRight of newlines,
-- filepath.Clean of "/" and a path, and whether a path has two dots.
pub record Renderers : Type 0 where
  pub profiles_json : Option String
  pub mtproxy_env : String → String
  pub canonical_env : String → String
  pub trim_newlines : String → String
  pub clean : String → String
  pub has_dots : String → Bool
  pub trim_slash : String → String

-- What a rollback meets.
pub record UndoHost : Type 0 where
  pub reads_profiles : Bool
  pub puts_profiles : Write
  pub reads_env : Bool
  pub puts_env : Write
  pub puts_site : Bool
  pub restarts_mtproxy : Bool
  pub restarts_relay : Bool
  pub healthy : Bool

-- What an apply meets.
pub record ApplyHost : Type 0 where
  pub mkdir : Bool
  pub reads_profiles : Bool
  pub reads_env : Bool
  pub puts_candidate : Write
  pub check : Bool
  -- the second read of a file and the writing of its copy
  pub backs_up_profiles : Bool
  pub backs_up_env : Bool
  pub backs_up_site : Bool
  pub puts_profiles : Write
  pub puts_env : Write
  pub puts_site : Bool
  pub restarts_mtproxy : Bool
  pub restarts_relay : Bool
  pub healthy : Bool
  pub undo : UndoHost

pub record ApplyResult : Type 0 where
  pub ok : Bool
  pub rolled_back : Bool
  pub restarted_mtproxy : Bool
  pub restarted_relay : Bool

abbrev pub not_applied : ApplyResult
not_applied = record {
  ok = false;
  rolled_back = false;
  restarted_mtproxy = false;
  restarted_relay = false;
}

-- `data, _ := os.ReadFile(path)`
abbrev pub read_or_empty : Bool → Option String → String
read_or_empty reads none = ""
read_or_empty reads (some text) = if reads then text else ""

unfoldable pub safe_site_path : Renderers → String → Option String
safe_site_path t p =
    if t.has_dots p || (t.clean p == "/") then none else some (t.trim_slash (t.clean p))

unfoldable pub new_site : Renderers → List (String × String) → Site → Option Site
new_site t [] site = some site
new_site t ((path, content) ∷ files) site = elim (safe_site_path t path) [
  | none ↦ none
  | some p ↦ new_site t files (insert p content site)
]

-- siteEquals: as many files, and the content of each.
unfoldable pub site_equals : Site → Site → Bool
site_equals current files =
    (length current == length files)
    && all (λ f. elim (lookup f.0 current) [ none ↦ f.1 == "" | some c ↦ c == f.1 ]) files

-- What an apply is going to write: none for a file that stays.
pub record Changes : Type 0 where
  pub profiles : Option String
  pub mtproxy_env : Option String
  pub site : Option Site

unfoldable pub profile_changes :
    Renderers → ApplyHost → ApplyRequest → RelayNode → Option (Option String × Option String)
profile_changes t h req n =
    if not req.apply_profiles then some (none, none) else elim t.profiles_json [
      | none ↦ none
      | some new ↦
          let changed =
            t.trim_newlines (read_or_empty h.reads_profiles n.profiles) != t.trim_newlines new in
          let old_env = read_or_empty h.reads_env n.mtproxy_env in
          let new_env = t.mtproxy_env old_env in
          let env : Option String =
            if t.canonical_env old_env != new_env then some new_env else none in
          if changed && not ((write_atomic h.puts_candidate true false).1 && h.check)
          then none
          else some (if changed then some new else none, env)
    ]

unfoldable pub site_changes : Renderers → ApplyRequest → RelayNode → Option (Option Site)
site_changes t req n = elim req.site [
  | none ↦ some none
  | some files ↦ elim (new_site t files []) [
    | none ↦ none
    | some site ↦ elim (lookup "index.html" site) [
      | none ↦ none
      | some index ↦ some (if site_equals n.site site then none else some site)
    ]
  ]
]

-- The changes of a request; none for a request that is refused.
unfoldable pub changes_of : Renderers → ApplyHost → ApplyRequest → RelayNode → Option Changes
changes_of t h req n = elim (profile_changes t h req n) [
  | none ↦ none
  | some files ↦ elim (site_changes t req n) [
    | none ↦ none
    | some site ↦ some (record { profiles = files.0; mtproxy_env = files.1; site = site })
  ]
]

abbrev pub is_set {ℓ} : {A : Type ℓ} → Option A → Bool
is_set none = false
is_set (some x) = true

unfoldable pub backs_up : ApplyHost → Changes → RelayNode → Bool
backs_up h p n =
    (not (is_set n.profiles) || h.backs_up_profiles)
    && (not (is_set n.mtproxy_env) || h.backs_up_env)
    && (not (is_set p.site) || h.backs_up_site)

-- A file that is put back from its backup, which is there when the file was.
unfoldable pub put_back_file : Bool → Write → Option String → Option String → Option String × Bool
put_back_file reads w none file = (file, true)
put_back_file reads w (some backup) file =
    if reads then write_atomic w (some backup) file else (file, false)

-- The rollback of an apply, from the node before and the node now.
unfoldable pub roll_back :
    UndoHost → Changes → RelayNode → ApplyResult → RelayNode → RelayNode × ApplyResult
roll_back h p before result n =
    let (profiles, profiles_back) =
      put_back_file h.reads_profiles h.puts_profiles before.profiles n.profiles in
    let (env, env_back) = put_back_file h.reads_env h.puts_env before.mtproxy_env n.mtproxy_env in
    let restored =
      profiles_back
      && env_back
      && (not (is_set p.site) || h.puts_site)
      && (not (is_set p.mtproxy_env) || h.restarts_mtproxy)
      && h.restarts_relay
      && h.healthy in
    (
      record {
        profiles = profiles;
        mtproxy_env = env;
        site = if is_set p.site && h.puts_site then before.site else n.site;
      },
      record result { ok = false; rolled_back = restored },
    )

-- A new content, or the old one.
abbrev pub or_old {ℓ} : {A : Type ℓ} → Option A → Option A → Option A
or_old none old = old
or_old (some new) old = some new

abbrev pub site_of : Option Site → Site → Site
site_of none old = old
site_of (some new) old = new

unfoldable pub put_file : Write → Option String → Option String → Option String × Bool
put_file w none old = (old, true)
put_file w (some new) old = write_atomic w (some new) old

unfoldable pub put_site : Bool → Option Site → Site → Site × Bool
put_site puts none old = (old, true)
put_site puts (some new) old = if puts then (new, true) else (old, false)

-- The apply from the first write on.
unfoldable pub install : ApplyHost → Changes → RelayNode → RelayNode × ApplyResult
install h p n =
    let (profiles, put_profiles) = put_file h.puts_profiles p.profiles n.profiles in
    let n1 = record n { profiles = profiles } in
    let (env, put_env) = put_file h.puts_env p.mtproxy_env n.mtproxy_env in
    let n2 = record n1 { mtproxy_env = env } in
    let (site, put) = put_site h.puts_site p.site n.site in
    let n3 = record n2 { site = site } in
    let with_proxy : ApplyResult = record not_applied {
      restarted_mtproxy = is_set p.mtproxy_env;
    } in
    let with_relay : ApplyResult = record with_proxy { restarted_relay = true } in
    if not put_profiles
    then roll_back h.undo p n not_applied n1
    else if not put_env
    then roll_back h.undo p n not_applied n2
    else if not put
    then roll_back h.undo p n not_applied n3
    else if is_set p.mtproxy_env && not h.restarts_mtproxy
    then roll_back h.undo p n not_applied n3
    else if not h.restarts_relay
    then roll_back h.undo p n with_proxy n3
    else if not h.healthy
    then roll_back h.undo p n with_relay n3
    else (n3, record with_relay { ok = true })

-- Apply, past the maintenance lock and the telemt engine.
unfoldable pub apply : Renderers → ApplyHost → ApplyRequest → RelayNode → RelayNode × ApplyResult
apply t h req n = if not h.mkdir then (n, not_applied) else elim (changes_of t h req n) [
  | none ↦ (n, not_applied)
  | some p ↦
      if not (is_set p.profiles || is_set p.mtproxy_env || is_set p.site)
      then (n, record not_applied { ok = true })
      else if not (backs_up h p n)
      then (n, not_applied)
      else install h p n
]
