-- ===== src/Agent/Update/Tests.antt =====
-- An update whose new binary reports the wrong version, an agent that dies in it, and its next start.
use mathlib.Core.Path.{subst}
use tgproxy_panel.Prelude.{
  head, tail, Memᴰ, String, ◌≡◌, refl, ap, ◌⊎◌, true, false, none, some, [], ◌==◌, pos, nat_eq,
  string_eq,
}
use tgproxy_panel.Agent.Files.{done, holds, missing, write_atomic}
use tgproxy_panel.Agent.Update.{
  begin_step, change_last, end_update, finish_step, new_telemt_update, rolled_back,
}
use tgproxy_panel.Agent.Update.Disk.{
  Course, Disk, Restore, UpdateJournal, backed_up, backup_file, check_update_journal, intent_of,
  original_admission, prepare_update_journal, restore_file, save_verified_copy, store,
  write_update_journal,
}
use tgproxy_panel.Agent.Update.Preflight.{
  Text, UpdateTelemtRequest, normalize_version, same_telemt_version, same_version, update_preflight,
  valid_sha256,
}
use tgproxy_panel.Agent.Update.Steps.{
  ResumeHost, admission_is, swap_telemt_binary, update_pause, update_restart_and_verify,
  update_resume, verify_telemt_version,
}
use tgproxy_panel.Agent.Update.Run.{
  UpdateHost, close_journal, put_back, rollback_telemt, run_telemt_update, start_telemt_update,
  swap_and_verify, update_settled, with_intent,
}
use tgproxy_panel.Agent.Update.Prepare.{Safe}
use tgproxy_panel.Agent.Update.Restore.{RestoreHost, recover_update}
use tgproxy_panel.Agent.Update.Safety.{Concluded}
use tgproxy_panel.Agent.Update.Crashes.{
  Cooperates, Found, Found-Safe, at_start, crashes, disks, recover_restores,
  start_telemt_update-Concluded,
}
use tgproxy_panel.Agent.Update.Undo.{journal_of}
use tgproxy_panel.Agent.Update.Ended.{Over, run_telemt_update-Over}

abbrev plain_text : Text
plain_text = record {
  trim_space = λ s. s;
  trim_prefix = λ s p. s;
  equal_fold = λ a b. a == b;
  find_version = λ s. s;
  hex_bytes = λ s. some 32;
}

-- A checksum that is the text itself.
abbrev same_text : String → String
same_text s = s

abbrev request : UpdateTelemtRequest
request = record {
  version = "3.6.0";
  sha256 = "aa";
  url = "https://panel/telemt";
  require_drain = false;
  drain_timeout_secs = pos 60;
}

abbrev all_well : Restore
all_well = record { replaces = true; sets_mode = true }

abbrev reopens : ResumeHost
reopens = record { pause = true; web_status = some (some true) }

abbrev wrong_version : UpdateHost
wrong_version = record {
  system_info = some "3.5.0";
  capabilities = some (record {
    web_pause = true;
    web_resume = true;
    web_runtime = true;
    web_drain = false;
    drain_unknown = false;
  });
  staged = some "new";
  prepare = record {
    mkdir = true;
    web_status = some (some true);
    binary_copy = done;
    config_copy = done;
    intent = done;
  };
  pauses = true;
  drain_accepted = false;
  drain_polls = [];
  swap = record {
    backup_binary = backed_up;
    backup_config = backed_up;
    rename = true;
    chmod = true;
    restore = all_well;
  };
  unwind = reopens;
  verify = record { restart = true; system_info = some "3.5.9"; decoy = true; web_status = true };
  config_after = λ config. some "rewritten";
  rollback = record {
    restore_binary = all_well;
    restore_config = all_well;
    restart = true;
    system_info = some "3.5.0";
    resume = reopens;
  };
  resume = reopens;
  settled_status = some (some true);
  settled_write = done;
}

abbrev node : Disk
node = record {
  binary = some "old";
  config = some "conf";
  good_binary = none;
  good_config = none;
  binary_prev = none;
  config_prev = none;
  journal = missing;
}

abbrev start_of : Course
start_of = record { disk = node; past = []; update = new_telemt_update "" "3.6.0" }

abbrev rolled : Course
rolled = run_telemt_update same_text plain_text wrong_version request start_of

begins :
    start_telemt_update same_text plain_text true true wrong_version request none node ≡ some rolled
unfolding start_telemt_update check_update_journal
begins = refl

-- The disk with the new binary in place and the journal active.
abbrev half_way : Disk
half_way = record node {
  binary = some "new";
  good_binary = some "old";
  good_config = some "conf";
  binary_prev = some "old";
  config_prev = some "conf";
  journal = holds (intent_of true "3.5.0" "3.6.0" true "old" "conf");
}

runs :
    (rolled.update.outcome ≡ rolled_back)
    × (rolled.disk.binary ≡ some "old")
    × (rolled.disk.config ≡ some "conf")
    × Memᴰ half_way (disks rolled)
unfolding run_telemt_update update_preflight valid_sha256 same_telemt_version begin_step finish_step
    change_last end_update prepare_update_journal check_update_journal original_admission
    save_verified_copy write_atomic write_update_journal close_journal update_settled with_intent
    update_pause swap_and_verify swap_telemt_binary backup_file store update_restart_and_verify
    verify_telemt_version same_version restore_file normalize_version put_back rollback_telemt
    update_resume
runs = (refl, refl, refl, tail (tail (tail (tail (tail (tail (head refl)))))))

found : Found same_text plain_text "old" "conf" (some "new") half_way
found = crashes wrong_version request none node refl refl refl begins runs.3

strong : (text : String) → same_text text ≡ same_text "old" → text ≡ "old"
strong text e = e

Found-Safe_example : Safe same_text "old" "conf" (some "new") half_way
Found-Safe_example = Found-Safe same_text plain_text "old" "conf" (some "new") strong found

abbrev restores : RestoreHost
restores = record {
  has_engine = true;
  maintenance_free = true;
  binary_write = done;
  config_write = done;
  restart = true;
  system_info = some "3.5.0";
  sets_admission = true;
  web_status = some (some true);
  journal_write = done;
}

abbrev Answers : UpdateJournal → Type 0
Answers j =
    (verify_telemt_version plain_text restores.system_info j.version ≡ true)
    × (j.had_web ≡ true
        → (restores.sets_admission ≡ true)
          × (admission_is j.admission_open restores.web_status ≡ true))

fits : Cooperates plain_text restores half_way
unfolding journal_of verify_telemt_version same_version normalize_version
fits = (
  refl,
  refl,
  refl,
  refl,
  refl,
  refl,
  λ j e. subst Answers (ap (λ f. journal_of f j) e) (refl, λ web. (refl, refl)),
)

recover_restores_example :
    let (c, ok) = recover_update same_text plain_text restores (at_start half_way) in
    (ok ≡ true)
    × (check_update_journal c.disk.journal ≡ true)
    × (((c.disk.binary ≡ some "old") × (c.disk.config ≡ some "conf"))
        ⊎ ((new : String) × (some "new" ≡ some new) × (c.disk.binary ≡ some new)))
recover_restores_example =
    recover_restores same_text plain_text "old" "conf" (some "new") restores strong found fits

start_telemt_update-Concluded_example :
    Concluded plain_text wrong_version request "old" "conf" rolled
start_telemt_update-Concluded_example =
    start_telemt_update-Concluded same_text plain_text wrong_version request none node rolled "old"
      "conf" strong refl refl begins

run_telemt_update-Over_example : Over rolled
unfolding new_telemt_update
run_telemt_update-Over_example =
    run_telemt_update-Over same_text plain_text wrong_version request start_of tt
