-- ===== src/Examples/Files.antt =====
-- The update of a configuration file and the cleanup of a log, and the helper's cleanup.
use kylin_guard_agent.Base.{
  String, true, false, none, some, List, [], ◌∷◌, ◌≡◌, ◌↔◌, refl, string_eq, ℕ_discrete, contains,
  any, differ→≢, option_eq, has_substring, ends_with, after_prefix, rsplit, if◌then◌else◌,
}
use kylin_guard_agent.Base.Dict.{lookup, insert, erase}
use kylin_guard_agent.Base.Exec.{ok, ◌>>◌}
use kylin_guard_agent.Base.Triple.{After, on_error}
use kylin_guard_agent.Json.Print.{canonical_arguments}
use kylin_guard_agent.Guardrails.Approval.{consume, authenticate}
use kylin_guard_agent.Guardrails.Policy.PathGuard.{FilePath, path_eq, path_discrete, parents}
use kylin_guard_agent.Agent.Cleanup.{
  not_open, CleanupCandidate, CleanupPolicy, default_policy, Inspection,
}
use kylin_guard_agent.Agent.Cleanup.Classify.{classify}
use kylin_guard_agent.Agent.Cleanup.Eligible.{IsSafe, classify_eligible}
use kylin_guard_agent.Json.{pos}
use kylin_guard_agent.Executor.Machine.{Machine, Platform, ExecutionResult, use_approval}
use kylin_guard_agent.Executor.Files.{
  Disk, read_file, copy_file, replace_file, unlink_missing_ok, write_new, write_file, set_mode,
  unlink, is_file,
}
use kylin_guard_agent.Executor.Config
use kylin_guard_agent.Executor.Config.{ConfigTarget, ConfigValidator}
use kylin_guard_agent.Executor.Config.Update.Atomic.{
  IsUpdated, IsKept, resolved_target, execute_all_or_nothing,
}
use kylin_guard_agent.Executor.Cleanup
use kylin_guard_agent.Executor.Cleanup.{clean, restore_archive, backup_path}
use kylin_guard_agent.Executor.Cleanup.Archive.Safe as Safe
use kylin_guard_agent.Executor.Cleanup.Archive.Safe.{
  IsArchived, execute_loses_nothing, clean-restore_archive,
}
use kylin_guard_agent.Deploy.Privileged
use kylin_guard_agent.Deploy.Privileged.{main}
use kylin_guard_agent.Deploy.Privileged.Scope.{main_stays_in_scope}
use kylin_guard_agent.Examples.Fixtures.{plain_crypto}

abbrev uuid : String
uuid = "11111111-2222-3333-4444-555555555555"

abbrev hex : String
hex = "0123456789abcdef0123456789abcdef"

abbrev platform : String → String → Platform
platform tool digest = record {
  crypto = plain_crypto;
  decode = λ payload. some record {
    user_id = "alice";
    task_id = "task";
    tool_name = tool;
    arguments_hash = digest;
    risk_level = "L3";
    expires_at = 400;
    nonce = "n1";
  };
  now = 300;
  fresh_id = uuid;
  strip = λ text. text;
  has_space = λ text. false;
  show = λ n. "0";
  resolve = λ path. path;
}

abbrev nginx_conf : FilePath
nginx_conf = "nginx.conf" ∷ "nginx" ∷ "etc" ∷ []

abbrev backups : FilePath
backups = "backups" ∷ "kylin-guard" ∷ "lib" ∷ "var" ∷ []

abbrev config_host : Config.Host
config_host = record {
  platform = platform "config_safe_update" "{\"content\":\"new\",\"target_id\":\"nginx\"}";
  resolve = λ path. path;
  is_symlink = λ path. false;
  parse_path = λ raw. nginx_conf;
  show_path = λ path. "path";
  universal_newlines = λ text. text;
  byte_length = λ text. 3;
  candidate_hex = hex;
  rollback_hex = hex;
}

abbrev nginx : ConfigTarget
nginx = record {
  target_id = "nginx";
  path = nginx_conf;
  validator = "nginx";
  validator_path = "nginx" ∷ "sbin" ∷ [];
}

-- a validator that accepts everything
abbrev lenient : ConfigValidator
lenient target path files = ok true

abbrev before : Machine Disk
before = record {
  approvals = record { secret = "secret"; consumed = [] };
  world = record { files = (nginx_conf, "old") ∷ []; outcomes = [] };
}

execute_all_or_nothing_example :
    After {A = ExecutionResult}
      (λ _ t.
        IsUpdated config_host lenient
          (("nginx", nginx) ∷ [])
          backups
          (resolved_target config_host lenient (("nginx", nginx) ∷ []) backups nginx)
          "old"
          "new"
          t.world)
      (λ t. IsKept [] nginx_conf "old" "new" t.world)
      (Config.execute config_host lenient
        (("nginx", nginx) ∷ [])
        backups
        "alice"
        "task"
        "nginx"
        "new"
        "payload.ab12"
        before)
unfolding lookup string_eq path_discrete ℕ_discrete
execute_all_or_nothing_example =
    execute_all_or_nothing config_host lenient (("nginx", nginx) ∷ []) backups
      (record { change = refl; candidate = refl; rollback = refl }) (λ s t h. h) "alice" "task"
      "nginx" "new" "payload.ab12" "old" nginx before refl refl

abbrev old_log : FilePath
old_log = "app.log" ∷ "log" ∷ "var" ∷ []

abbrev policy : CleanupPolicy
policy = default_policy (("log" ∷ "var" ∷ []) ∷ []) (("etc" ∷ []) ∷ [])

abbrev inspection : Inspection
inspection = record {
  fs = record {
    absolute = λ raw. old_log;
    is_symlink = λ path. false;
    resolve = λ must_exist raw. ok old_log;
  };
  stat = λ path. some record {
    is_regular = true;
    size = 20000000;
    modified = 5;
    mtime_ns = 5000;
    inode = 7;
    device = 1;
  };
  now = 900000000000000;
  show_path = λ path. "/var/log/app.log";
  message = λ e. "error";
  lower = λ text. text;
  sha256 = λ text. text;
}

classify_eligible_example :
    ((classify policy inspection "/var/log/app.log" not_open).eligible ≡ true)
    ↔ IsSafe policy inspection "/var/log/app.log" not_open
classify_eligible_example = classify_eligible policy inspection "/var/log/app.log" not_open

abbrev cleanup_host : Cleanup.Host
cleanup_host = record {
  platform = platform "safe_log_cleanup" "{\"candidate_id\":\"cleanup-1\"}";
  inspect = λ disk. inspection;
  parse_path = λ raw. old_log;
  show_path = λ path. "path";
  resolve = λ path. path;
  compress = λ text. text;
  decompress = λ text. some text;
  restore_hex = hex;
}

abbrev candidate : CleanupCandidate
candidate = record {
  candidate_id = "cleanup-1";
  path = "/var/log/app.log";
  size_bytes = 20000000;
  modified_at = 5;
  inode = 7;
  device = 1;
  snapshot_hash =
      "{\"device\":1,\"inode\":7,\"mtime_ns\":5000,\"path\":\"/var/log/app.log\",\"size\":20000000}";
  classification = "SAFE_LOG_OR_CACHE_CANDIDATE";
  risk_level = "L3";
  requires_approval = true;
}

abbrev log_machine : Machine Disk
log_machine = record {
  approvals = record { secret = "secret"; consumed = [] };
  world = record { files = (old_log, "lines") ∷ []; outcomes = [] };
}

execute_loses_nothing_example :
    After {A = ExecutionResult}
      (λ _ t. IsArchived cleanup_host policy backups old_log "lines" t.world)
      (λ t. Safe.IsKept cleanup_host policy backups old_log "lines" t.world)
      (Cleanup.execute cleanup_host policy backups none "alice" "task" candidate "payload.ab12"
        not_open false log_machine)
unfolding lookup string_eq path_discrete
execute_loses_nothing_example =
    execute_loses_nothing cleanup_host policy backups old_log
      (record { change = refl; restore = refl }) (λ s t h. h) "lines" "alice" "task" candidate
      "payload.ab12" not_open false log_machine refl refl

clean-restore_archive_example :
    After {A = Unit {0}}
      (λ _ t. lookup old_log t.files ≡ some "lines")
      (Safe.IsKept cleanup_host policy backups old_log "lines")
      ((clean cleanup_host policy backups old_log false
          >> restore_archive cleanup_host policy backups
              (backup_path cleanup_host policy backups old_log)
              old_log)
        log_machine.world)
unfolding lookup string_eq path_discrete
clean-restore_archive_example =
    clean-restore_archive cleanup_host policy backups old_log
      (record { change = refl; restore = refl }) (λ s t h. h) "lines" false log_machine.world refl

abbrev helper_host : Privileged.Host
helper_host = record {
  system = λ disk. record {
    is_absolute = λ raw. true;
    path_of = λ raw. old_log;
    exists = λ path. true;
    is_symlink = λ path. false;
    resolve = λ must_exist raw. if must_exist then ok old_log else ok backups;
    stat = λ path. ok record {
      is_regular = true;
      size = 7;
      modified = 5;
      mtime_ns = 5000;
      inode = 7;
      device = 7;
    };
  };
  lower = λ text. text;
  sha256 = λ text. text;
  compress = λ text. text;
  decompress = λ text. some text;
  to_int = λ raw. some 7;
  fresh_id = uuid;
  show_path = λ path. "path";
  restart = ok (pos 0);
  start = ok (pos 0);
}

abbrev shadow : FilePath
shadow = "shadow" ∷ "etc" ∷ []

abbrev root_disk : Disk
root_disk = record { files = (shadow, "secret") ∷ (old_log, "lines") ∷ []; outcomes = [] }

abbrev helper_arguments : List String
helper_arguments =
    "safe_log_cleanup" ∷ "cleanup-1" ∷ "/var/log/app.log" ∷ "7" ∷ "7" ∷ "7"
    ∷ "{\"device\":7,\"inode\":7,\"mtime_ns\":5000,\"path\":\"path\",\"size\":7}"
    ∷ "/var/lib/kylin-guard/backups" ∷ []

main_stays_in_scope_example :
    lookup shadow (main helper_host helper_arguments root_disk).1.files
    ≡ lookup shadow root_disk.files
unfolding string_eq path_discrete parents any contains Privileged.is_under
main_stays_in_scope_example =
    main_stays_in_scope helper_host shadow helper_arguments root_disk refl (differ→≢ _ _ refl)

-- These runs come to their end.
execute_updates :
    lookup nginx_conf
      (Config.execute config_host lenient
        (("nginx", nginx) ∷ [])
        backups
        "alice"
        "task"
        "nginx"
        "new"
        "payload.ab12"
        before).1.world.files
    ≡ some "new"
unfolding Config.execute Config.find_target Config.validate_content use_approval consume
    authenticate rsplit canonical_arguments Config.update Config.file_sha256 read_file on_error
    erase insert Config.backup_is_intact Config.replace_config Config.restore_config Config.validate
    copy_file replace_file unlink_missing_ok write_new lookup string_eq path_discrete ℕ_discrete
    contains is_file
execute_updates = refl

main_removes : lookup old_log (main helper_host helper_arguments root_disk).1.files ≡ none
unfolding main Privileged.safe_log_cleanup Privileged.clean_candidate
    Privileged.validate_cleanup_target Privileged.is_under Privileged.is_allowed_cleanup_path
    Privileged.crosses_symlink Privileged.has_forbidden_term erase insert option_eq has_substring
    Privileged.approved_size Privileged.archive_candidate Privileged.read_archive
    Privileged.snapshot_hash Privileged.stat_target Privileged.validate_backup_root read_file
    set_mode unlink write_file canonical_arguments lookup string_eq path_discrete ℕ_discrete
    contains is_file parents any ends_with after_prefix
main_removes = refl
