-- ===== src/Executor/Cleanup.antt =====
-- backend/app/executor/production.py: archiving and removing a candidate for cleanup.
pub mod Archive
use kylin_guard_agent.Base.{
  ℕ, String, ◌<>◌, Bool, true, false, Option, none, some, List, [], ◌∷◌, ◌==◌, string_eq, not, ◌||◌,
  is_some, if◌then◌else◌, after_prefix,
}
use kylin_guard_agent.Base.Exec.{
  Error, value_error, os_error, Result, ok, err, Exec, pure, raise, raise_if, lift, gets, ◌>>=◌,
  ◌>>◌,
}
use kylin_guard_agent.Base.Triple.{on_error}
use kylin_guard_agent.Json.{Value, str, int, pos, bool, Arguments}
use kylin_guard_agent.Guardrails.Crypto.{Crypto}
use kylin_guard_agent.Guardrails.Policy.PathGuard.{FilePath, path_eq, PathGuard}
use kylin_guard_agent.Guardrails.Policy.PathGuard as Guard
use kylin_guard_agent.Agent.Cleanup.{FileUseState, CleanupPolicy, CleanupCandidate, Inspection}
use kylin_guard_agent.Agent.Cleanup.Classify.{path_guard, revalidate}
use kylin_guard_agent.Executor.Machine.{Machine, Platform, ExecutionResult, on_world, use_approval}
use kylin_guard_agent.Executor.Files.{
  Disk, read_file, write_file, write_new, replace_file, unlink, is_file,
}
use kylin_guard_agent.Guardrails.Policy.PathGuard.Names.{name_of, parent_of, with_name}

-- `LocalExecutionBroker`, as this executor calls it; the payload's texts are the change, the backup
-- and the verification.
pub record CleanupBroker (W : Type 0) : Type 0 where
  pub is_available : W → Bool
  pub cleanup_file : String → String → String → String → Exec W (String × String × String)
  pub rollback_cleanup : String → String → String → String → Exec W (String × String × String)

-- What is outside the contents of files: the classifier's questions about a disk, `Path(_)`, `str`
-- and `resolve` of a path, gzip, the hexadecimal id of a temporary file.
pub record Host : Type 0 where
  pub platform : Platform
  pub inspect : Disk → Inspection
  pub parse_path : String → FilePath
  pub show_path : FilePath → String
  pub resolve : FilePath → FilePath
  pub compress : String → String
  pub decompress : String → Option String
  pub restore_hex : String

module _ (host : Host) (policy : CleanupPolicy) (backup_root : FilePath) where
  open host use {platform, inspect, parse_path, show_path, compress, decompress}
  open platform use {crypto, fresh_id}
  open crypto use {sha256}

  -- `_require_current`
  unfoldable pub require_current : CleanupCandidate → FileUseState → Exec Disk Unit
  require_current candidate use_state disk =
      raise_if (not (revalidate policy (inspect disk) candidate use_state))
        (value_error "CANDIDATE_STALE_OR_UNSAFE") disk

  unfoldable pub dry_run : CleanupCandidate → FileUseState → Exec Disk Arguments
  dry_run candidate use_state = do
    require_current candidate use_state
    pure (
        ("tool_name", str "safe_log_cleanup")
        ∷ ("candidate_id", str candidate.candidate_id)
        ∷ ("path", str candidate.path)
        ∷ ("size_bytes", int (pos candidate.size_bytes))
        ∷ ("snapshot_hash", str candidate.snapshot_hash)
        ∷ ("risk_level", str "L3")
        ∷ ("requires_approval", bool true)
        ∷ ("backup", str "gzip archive in protected backup root")
        ∷ ("verification", str "archive digest, target absence and candidate invalidation")
        ∷ ("rollback", str "restore gzip archive to original path")
        ∷ [])

  -- an archive that is no gzip file raises `BadGzipFile`, an OSError
  abbrev pub decompressed : Option String → Result String
  decompressed none = err os_error
  decompressed (some text) = ok text

  unfoldable pub read_archive : FilePath → Exec Disk String
  read_archive path = do archive ← read_file path; lift (decompressed (decompress archive))

  abbrev pub backup_path : FilePath → FilePath
  backup_path target = (fresh_id <> ("-" <> (name_of target <> ".gz"))) ∷ backup_root

  abbrev pub restore_path : FilePath → FilePath
  restore_path target =
      with_name target ("." <> (name_of target <> (".restore-" <> host.restore_hex)))

  -- `_restore`; making the parent directory changes no file
  unfoldable pub restore_archive : FilePath → FilePath → Exec Disk Unit
  restore_archive backup target = do
    text ← read_archive backup
    write_new (restore_path target) text
    replace_file (restore_path target) target

  -- the `try` block of `execute`
  unfoldable pub archive_and_unlink : FilePath → String → Bool → Exec Disk Unit
  archive_and_unlink target source_digest simulate_verification_failure = do
    source ← read_file target
    write_file (backup_path target) (compress source)
    archived ← read_archive (backup_path target)
    raise_if (not (sha256 archived == source_digest)) (value_error "BACKUP_VERIFICATION_FAILED")
    unlink target
    kept ← gets (is_file target)
    saved ← gets (is_file (backup_path target))
    raise_if (simulate_verification_failure || kept || not saved)
        (value_error "POSTCONDITION_FAILED")

  abbrev pub restore_if : Bool → FilePath → Exec Disk Unit
  restore_if false target = pure tt
  restore_if true target = restore_archive (backup_path target) target

  -- the `except` clause of `execute`
  unfoldable pub undo : FilePath → Exec Disk Unit
  undo target disk =
      restore_if (if is_file (backup_path target) disk then not (is_file target disk) else false)
        target disk

  -- what follows the checks: the digest of the file that is gone
  unfoldable pub clean : FilePath → Bool → Exec Disk String
  clean target simulate_verification_failure = do
    source ← read_file target
    on_error (archive_and_unlink target (sha256 source) simulate_verification_failure) (undo target)
    pure (sha256 source)

  abbrev pub succeeded : String → String → String → ExecutionResult
  succeeded change_id backup_ref verification = record {
    change_id = change_id;
    tool_name = "safe_log_cleanup";
    status = "SUCCEEDED";
    backup_ref = some backup_ref;
    verification = verification;
    rollback_status = none;
  }

  unfoldable pub execute_locally :
      String
      → String
      → CleanupCandidate
      → String
      → FileUseState
      → Bool
      → Exec (Machine Disk) ExecutionResult
  execute_locally user_id task_id candidate approval_token use_state simulate_verification_failure =
      do
        use_approval platform approval_token user_id task_id "safe_log_cleanup"
            (("candidate_id", str candidate.candidate_id) ∷ [])
        on_world (require_current candidate use_state)
        let target = parse_path candidate.path
        digest ← on_world (clean target simulate_verification_failure)
        pure (
            succeeded fresh_id (show_path (backup_path target))
              ("target_absent=true; archived_sha256=" <> digest))

  unfoldable pub execute_brokered :
      CleanupBroker Disk
      → String
      → String
      → CleanupCandidate
      → String
      → FileUseState
      → Exec (Machine Disk) ExecutionResult
  execute_brokered broker user_id task_id candidate approval_token use_state = do
    on_world (require_current candidate use_state)
    payload ← on_world (broker.cleanup_file candidate.candidate_id user_id task_id approval_token)
    pure (succeeded payload.0 payload.1 payload.2)

  -- the broker where there is one that is available
  abbrev pub available : Option (CleanupBroker Disk) → Disk → Option (CleanupBroker Disk)
  available none disk = none
  available (some broker) disk = if broker.is_available disk then some broker else none

  abbrev pub execute_by :
      Option (CleanupBroker Disk)
      → String
      → String
      → CleanupCandidate
      → String
      → FileUseState
      → Bool
      → Exec (Machine Disk) ExecutionResult
  execute_by (some broker) user_id task_id candidate approval_token use_state simulate =
      execute_brokered broker user_id task_id candidate approval_token use_state
  execute_by none user_id task_id candidate approval_token use_state simulate =
      execute_locally user_id task_id candidate approval_token use_state simulate

  unfoldable pub execute :
      Option (CleanupBroker Disk)
      → String
      → String
      → CleanupCandidate
      → String
      → FileUseState
      → Bool
      → Exec (Machine Disk) ExecutionResult
  execute broker user_id task_id candidate approval_token use_state simulate s =
      execute_by (available broker s.world) user_id task_id candidate approval_token use_state
        simulate s

  abbrev pub rolled_back : String → String → String → ExecutionResult
  rolled_back change_id backup_ref verification = record {
    change_id = change_id;
    tool_name = "rollback_change";
    status = "ROLLED_BACK";
    backup_ref = some backup_ref;
    verification = verification;
    rollback_status = some "SUCCEEDED";
  }

  -- `Path(backup_ref).resolve(strict=True)`
  unfoldable pub resolve_strict : FilePath → Exec Disk FilePath
  resolve_strict path disk =
      (if is_file (host.resolve path) disk then ok (host.resolve path) else err os_error, disk)

  -- `self.classifier.path_guard.validate(target_path, must_exist=False)`
  unfoldable pub validate_target : String → Exec Disk FilePath
  validate_target target_path disk =
      (Guard.validate (path_guard policy (inspect disk)) (inspect disk).fs target_path false, disk)

  unfoldable pub rollback : String → String → String → Exec Disk ExecutionResult
  rollback change_id backup_ref target_path = do
    backup ← resolve_strict (parse_path backup_ref)
    raise_if
        (not (parent_of backup == backup_root)
          || not (is_some (after_prefix (change_id <> "-") (name_of backup))))
        (value_error "BACKUP_REF_REJECTED")
    target ← validate_target target_path
    exists ← gets (is_file target)
    raise_if exists (value_error "ROLLBACK_TARGET_EXISTS")
    restore_archive backup target
    pure (rolled_back change_id (show_path backup) "target restored from verified gzip archive")

  abbrev pub rollback_by :
      Option (CleanupBroker Disk)
      → String
      → String
      → String
      → String
      → String
      → String
      → Exec (Machine Disk) ExecutionResult
  rollback_by (some broker) user_id task_id change_id backup_ref target_path approval_token = do
    payload ← on_world (broker.rollback_cleanup change_id user_id task_id approval_token)
    pure (rolled_back payload.0 payload.1 payload.2)
  rollback_by none user_id task_id change_id backup_ref target_path approval_token = do
    use_approval platform approval_token user_id task_id "rollback_change"
        (("change_id", str change_id) ∷ [])
    on_world (rollback change_id backup_ref target_path)

  unfoldable pub execute_rollback :
      Option (CleanupBroker Disk)
      → String
      → String
      → String
      → String
      → String
      → String
      → Exec (Machine Disk) ExecutionResult
  execute_rollback broker user_id task_id change_id backup_ref target_path approval_token s =
      rollback_by (available broker s.world) user_id task_id change_id backup_ref target_path
        approval_token s
