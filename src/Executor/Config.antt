-- ===== src/Executor/Config.antt =====
-- backend/app/executor/config_update.py: replacing a configuration file behind a syntax validator.
pub mod Update
use kylin_guard_agent.Base.{
  ℕ, String, ◌<>◌, Bool, true, false, Option, none, some, List, [], ◌∷◌, ◌==◌, string_eq, nat_eq,
  not, ◌||◌, ltb, contains, codes, is_empty, if◌then◌else◌, is_some, after_prefix, find,
}
use kylin_guard_agent.Base.Dict.{Dict, lookup}
use kylin_guard_agent.Base.Exec.{
  Error, value_error, os_error, Result, ok, err, Exec, pure, raise, raise_if, lift, gets, ◌>>=◌,
  ◌>>◌,
}
use kylin_guard_agent.Base.Triple.{on_error}
use kylin_guard_agent.Json.{ℤ, is_zero, Value, str, bool, Arguments}
use kylin_guard_agent.Guardrails.Crypto.{Crypto}
use kylin_guard_agent.Guardrails.Policy.PathGuard.{FilePath, path_eq}
use kylin_guard_agent.Guardrails.Policy.PathGuard.Names.{name_of, parent_of, with_name}
use kylin_guard_agent.Executor.Machine.{Machine, Platform, ExecutionResult, on_world, use_approval}
use kylin_guard_agent.Executor.Files.{
  Disk, read_file, write_new, copy_file, replace_file, unlink_missing_ok, is_file,
}

pub record ConfigTarget : Type 0 where
  pub target_id : String
  pub path : FilePath
  pub validator : String
  pub validator_path : FilePath

-- What the file system and Python answer beside the contents of files: `Path.resolve` and
-- `Path.is_symlink`, `Path(_)` and `str` of a path, the newline translation of `read_text`, the
-- number of bytes of a text; and the hexadecimal ids of the two temporary files.
pub record Host : Type 0 where
  pub platform : Platform
  pub resolve : FilePath → FilePath
  pub is_symlink : FilePath → Bool
  pub parse_path : String → FilePath
  pub show_path : FilePath → String
  pub universal_newlines : String → String
  pub byte_length : String → ℕ
  pub candidate_hex : String
  pub rollback_hex : String

-- `ConfigValidator`: it reads the candidate, may raise, and changes no file.
abbrev pub ConfigValidator : Type 0
ConfigValidator = ConfigTarget → FilePath → Dict FilePath String → Result Bool

-- `FixedConfigValidator.validate`, with `subprocess.run`, which gives the returncode or raises
unfoldable pub fixed_validate :
    Host → (List String → Dict FilePath String → Result ℤ) → ConfigValidator
fixed_validate host run target candidate files =
    let executable = host.resolve target.validator_path in
    if not (is_some (lookup executable files))
    then err os_error
    else if not (target.validator == "nginx") || not (name_of executable == "nginx")
    then err (value_error "VALIDATOR_NOT_ALLOWED")
    else elim (run (host.show_path executable ∷ "-t" ∷ "-c" ∷ host.show_path candidate ∷ [])
        files) [ ok returncode ↦ ok (is_zero returncode) | err e ↦ err e ]

module _ (host : Host) (validator : ConfigValidator) (targets : Dict String ConfigTarget)
    (backup_root : FilePath) where
  open host use {platform}
  open platform use {crypto}
  open crypto use {sha256}

  unfoldable pub file_sha256 : FilePath → Exec Disk String
  file_sha256 path = do text ← read_file path; pure (sha256 text)

  unfoldable pub validate : ConfigTarget → FilePath → Exec Disk Bool
  validate target candidate disk = (validator target candidate disk.files, disk)

  checked_target : Option ConfigTarget → Disk → Result ConfigTarget
  checked_target none disk = err (value_error "CONFIG_TARGET_NOT_ALLOWED")
  checked_target (some target) disk =
      let resolved = host.resolve target.path in
      if not (is_file resolved disk)
      then err os_error
      else if not (resolved == host.resolve target.path)
          || host.is_symlink target.path
          || not (is_file resolved disk)
      then err (value_error "CONFIG_TARGET_UNSAFE")
      else ok (record target { path = resolved })

  -- `_target`
  unfoldable pub find_target : String → Exec Disk ConfigTarget
  unfolding checked_target
  find_target target_id disk = (checked_target (lookup target_id targets) disk, disk)

  unfoldable pub validate_content : String → Exec (Machine Disk) Unit
  validate_content content =
      raise_if
        (is_empty (platform.strip content)
          || ltb 1048576 (host.byte_length content)
          || contains (codes content) 0)
        (value_error "CONFIG_CONTENT_INVALID")

  unfoldable pub dry_run : String → String → Exec (Machine Disk) Arguments
  dry_run target_id content = do
    target ← on_world (find_target target_id)
    validate_content content
    current_hash ← on_world (file_sha256 target.path)
    text ← on_world (read_file target.path)
    raise_if (host.universal_newlines text == content) (value_error "CONFIG_UNCHANGED")
    pure (
        ("tool_name", str "config_safe_update")
        ∷ ("target_id", str target_id)
        ∷ ("path", str (host.show_path target.path))
        ∷ ("current_hash", str current_hash)
        ∷ ("proposed_hash", str (sha256 content))
        ∷ ("risk_level", str "L3")
        ∷ ("requires_approval", bool true)
        ∷ ("backup", str "verified copy in protected backup root")
        ∷ (
          "verification",
          str ("fixed " <> (target.validator <> " syntax validator before and after replace")),
        )
        ∷ ("rollback", str "atomic restore of verified original copy")
        ∷ [])

  abbrev pub backup_path : ConfigTarget → FilePath
  backup_path target = (platform.fresh_id <> ("-" <> (name_of target.path <> ".bak"))) ∷ backup_root

  abbrev pub temporary_path : ConfigTarget → FilePath
  temporary_path target =
      with_name target.path ("." <> (name_of target.path <> (".candidate-" <> host.candidate_hex)))

  abbrev pub restore_path : ConfigTarget → FilePath
  restore_path target =
      with_name target.path ("." <> (name_of target.path <> (".rollback-" <> host.rollback_hex)))

  -- the `try` block of `execute`
  unfoldable pub replace_config : ConfigTarget → String → String → Exec Disk Unit
  replace_config target content original_hash = do
    copy_file target.path (backup_path target)
    saved_hash ← file_sha256 (backup_path target)
    raise_if (not (saved_hash == original_hash)) (value_error "BACKUP_VERIFICATION_FAILED")
    write_new (temporary_path target) content
    candidate_valid ← validate target (temporary_path target)
    raise_if (not candidate_valid) (value_error "CONFIG_VALIDATION_FAILED")
    replace_file (temporary_path target) target.path
    replaced_valid ← validate target target.path
    raise_if (not replaced_valid) (value_error "POSTCONDITION_FAILED")

  -- `backup.is_file() and self._sha256(backup) == original_hash`
  abbrev pub same_hash_if : Bool → FilePath → String → Exec Disk Bool
  same_hash_if false backup original_hash = pure false
  same_hash_if true backup original_hash = do
    saved_hash ← file_sha256 backup
    pure (saved_hash == original_hash)

  unfoldable pub backup_is_intact : FilePath → String → Exec Disk Bool
  backup_is_intact backup original_hash disk =
      same_hash_if (is_file backup disk) backup original_hash disk

  abbrev pub restore_if : Bool → ConfigTarget → Exec Disk Unit
  restore_if false target = pure tt
  restore_if true target = do
    copy_file (backup_path target) (restore_path target)
    replace_file (restore_path target) target.path

  -- the `except` clause of `execute`
  unfoldable pub restore_config : ConfigTarget → String → Exec Disk Unit
  restore_config target original_hash = do
    unlink_missing_ok (temporary_path target)
    intact ← backup_is_intact (backup_path target) original_hash
    restore_if intact target

  -- what follows the use of the approval
  unfoldable pub update : ConfigTarget → String → Exec Disk String
  update target content = do
    original_hash ← file_sha256 target.path
    on_error (replace_config target content original_hash) (restore_config target original_hash)
    file_sha256 target.path

  unfoldable pub execute :
      String → String → String → String → String → Exec (Machine Disk) ExecutionResult
  execute user_id task_id target_id content approval_token = do
    target ← on_world (find_target target_id)
    validate_content content
    use_approval platform approval_token user_id task_id "config_safe_update"
        (("target_id", str target_id) ∷ ("content", str content) ∷ [])
    config_hash ← on_world (update target content)
    pure record {
      change_id = platform.fresh_id;
      tool_name = "config_safe_update";
      status = "SUCCEEDED";
      backup_ref = some (host.show_path (backup_path target));
      verification = "validator=" <> (target.validator <> ("; config_sha256=" <> config_hash));
      rollback_status = none;
    }

  -- `Path(backup_ref).resolve(strict=True)`
  unfoldable pub resolve_strict : FilePath → Exec Disk FilePath
  resolve_strict path disk =
      (if is_file (host.resolve path) disk then ok (host.resolve path) else err os_error, disk)

  unfoldable pub discard_unless : Bool → FilePath → Exec Disk Unit
  discard_unless true restore = pure tt
  discard_unless false restore = do
    unlink_missing_ok restore
    raise (value_error "ROLLBACK_VALIDATION_FAILED")

  unfoldable pub restore_backup : ConfigTarget → FilePath → Exec Disk String
  restore_backup target backup = do
    copy_file backup (restore_path target)
    valid ← validate target (restore_path target)
    discard_unless valid (restore_path target)
    replace_file (restore_path target) target.path
    restored_valid ← validate target target.path
    raise_if (not restored_valid) (value_error "ROLLBACK_POSTCONDITION_FAILED")
    file_sha256 target.path

  unfoldable pub execute_rollback :
      String → String → String → String → String → String → Exec (Machine Disk) ExecutionResult
  execute_rollback user_id task_id change_id target_id backup_ref approval_token = do
    use_approval platform approval_token user_id task_id "rollback_change"
        (("change_id", str change_id) ∷ [])
    target ← on_world (find_target target_id)
    backup ← on_world (resolve_strict (host.parse_path backup_ref))
    raise_if
        (not (parent_of backup == backup_root)
          || not (is_some (after_prefix (change_id <> "-") (name_of backup))))
        (value_error "BACKUP_REF_REJECTED")
    restored_hash ← on_world (restore_backup target backup)
    pure record {
      change_id = change_id;
      tool_name = "rollback_change";
      status = "ROLLED_BACK";
      backup_ref = some (host.show_path backup);
      verification = "target_id=" <> (target_id <> ("; restored_sha256=" <> restored_hash));
      rollback_status = some "SUCCEEDED";
    }
