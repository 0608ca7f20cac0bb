-- ===== src/Agent/Apply/Tests.antt =====
-- An apply of new profiles and a site, on a relay that comes up and on one that does not.
use tgproxy_panel.Prelude.{
  insert, lookup, ◌≡◌, refl, ◌≢◌, true, false, none, some, [], ◌∷◌, lookup, insert, nat_eq,
  string_eq,
}
use tgproxy_panel.Agent.Files.{done, write_atomic}
use tgproxy_panel.Agent.Apply.{
  ApplyHost, ApplyRequest, RelayNode, Renderers, UndoHost, apply, backs_up, changes_of, install,
  new_site, profile_changes, put_back_file, put_file, put_site, roll_back, safe_site_path,
  site_changes, site_equals,
}
use tgproxy_panel.Agent.Apply.Results.{Answers, apply_ok, apply_restores, apply_rolled_back}
use tgproxy_panel.Agent.Apply.Rollback.{Undone}

abbrev plain : Renderers
plain = record {
  profiles_json = some "[new]";
  mtproxy_env = λ old. old;
  canonical_env = λ old. old;
  trim_newlines = λ s. s;
  clean = λ s. s;
  has_dots = λ s. false;
  trim_slash = λ s. s;
}

abbrev calm_undo : UndoHost
calm_undo = record {
  reads_profiles = true;
  puts_profiles = done;
  reads_env = true;
  puts_env = done;
  puts_site = true;
  restarts_mtproxy = true;
  restarts_relay = true;
  healthy = true;
}

abbrev calm : ApplyHost
calm = record {
  mkdir = true;
  reads_profiles = true;
  reads_env = true;
  puts_candidate = done;
  check = true;
  backs_up_profiles = true;
  backs_up_env = true;
  backs_up_site = true;
  puts_profiles = done;
  puts_env = done;
  puts_site = true;
  restarts_mtproxy = true;
  restarts_relay = true;
  healthy = true;
  undo = calm_undo;
}

abbrev sick : ApplyHost
sick = record calm { healthy = false }

abbrev relay : RelayNode
relay = record { profiles = some "[old]"; mtproxy_env = none; site = ("index.html", "old") ∷ [] }

abbrev asks : ApplyRequest
asks = record { apply_profiles = true; site = some (("index.html", "new") ∷ []) }

results :
    ((apply plain calm asks relay).1.ok ≡ true)
    × ((apply plain calm asks relay).0.profiles ≡ some "[new]")
    × ((apply plain sick asks relay).1.ok ≡ false)
    × ((apply plain sick asks relay).1.rolled_back ≡ true)
    × ((apply plain sick asks relay).0 ≡ relay)
unfolding apply changes_of profile_changes site_changes new_site safe_site_path insert lookup
    site_equals backs_up install put_file put_site write_atomic roll_back put_back_file
results = (refl, refl, refl, refl, refl)

-- As many files, and a missing one for an empty one: the two count as the same.
missing_for_empty :
    site_equals
      (("index.html", "a") ∷ ("old.txt", "b") ∷ [])
      (("index.html", "a") ∷ ("empty.txt", "") ∷ [])
    ≡ true
unfolding site_equals lookup
missing_for_empty = refl

apply_ok_example :
    let now = (apply plain calm asks relay).0 in
    Answers plain calm asks relay now
    × (now ≢ relay → (true ≡ true) × (true ≡ true))
    × (now.mtproxy_env ≢ relay.mtproxy_env → true ≡ true)
apply_ok_example = apply_ok plain calm asks relay results.0

apply_rolled_back_example :
    Undone relay (apply plain sick asks relay).0
    × ((sick.undo.restarts_relay ≡ true) × (sick.undo.healthy ≡ true))
apply_rolled_back_example = apply_rolled_back plain sick asks relay results.3

apply_restores_example : Undone relay (apply plain sick asks relay).0
apply_restores_example =
    apply_restores plain sick asks relay results.2 (refl, refl, refl, refl, refl, refl, refl, refl)
