-- ===== src/Deploy/Privileged.antt =====
-- deploy/kylin_guard_privileged.py: the helper with fixed arguments that runs as root.
pub mod Scope
use kylin_guard_agent.Base.{
  ℕ, String, ◌<>◌, Bool, true, false, Option, none, some, List, [], ◌∷◌, ◌==◌, string_eq, nat_eq,
  option_eq, not, ◌||◌, ◌&&◌, any, contains, is_some, if◌then◌else◌, after_prefix, has_substring,
  ends_with,
}
use mathlib.Core.List.{reverse}
use kylin_guard_agent.Base.Exec.{
  Error, value_error, os_error, Result, ok, err, Exec, pure, raise_if, lift, gets, ◌>>=◌, ◌>>◌,
}
use kylin_guard_agent.Json.{ℤ, is_zero, Value, str, int, pos, Arguments}
use kylin_guard_agent.Json.Print.{canonical_arguments}
use kylin_guard_agent.Guardrails.Policy.PathGuard.{FilePath, path_eq, parents}
use kylin_guard_agent.Guardrails.Policy.PathGuard.Names.{name_of, parent_of}
use kylin_guard_agent.Agent.Cleanup.{Metadata}
use kylin_guard_agent.Executor.Files.{Disk, read_file, write_file, set_mode, unlink, is_file}

abbrev pub allowed_suffixes : List String
allowed_suffixes =
    ".log" ∷ ".gz" ∷ ".old" ∷ ".tmp" ∷ ".cache" ∷ ".msi" ∷ ".iso" ∷ ".zip" ∷ ".tar" ∷ ".tgz"
    ∷ ".tar.gz" ∷ ".7z" ∷ ".rar" ∷ ".rpm" ∷ ".deb" ∷ ".apk" ∷ ".dmg" ∷ ".pkg" ∷ ".exe" ∷ []

abbrev pub forbidden_terms : List String
forbidden_terms =
    "audit" ∷ "journal" ∷ "mysql-bin" ∷ "binlog" ∷ "postgresql" ∷ "transaction" ∷ "redo" ∷ "wal"
    ∷ "secret" ∷ "token" ∷ "password" ∷ "credential" ∷ "private-key" ∷ "id_rsa" ∷ []

-- Paths have their last part first.
abbrev pub protected_prefixes : List FilePath
protected_prefixes =
    ("etc" ∷ [])
    ∷ ("root" ∷ [])
    ∷ ("boot" ∷ [])
    ∷ ("proc" ∷ [])
    ∷ ("sys" ∷ [])
    ∷ ("dev" ∷ [])
    ∷ ("run" ∷ [])
    ∷ ("lib" ∷ "var" ∷ [])
    ∷ []

abbrev pub fixed_allowed_roots : List FilePath
fixed_allowed_roots =
    ("tmp" ∷ [])
    ∷ ("tmp" ∷ "var" ∷ [])
    ∷ ("log" ∷ "var" ∷ [])
    ∷ ("kylin-guard-managed" ∷ "log" ∷ "var" ∷ [])
    ∷ []

abbrev pub home_low_risk_dirs : List String
home_low_risk_dirs =
    ".cache" ∷ "Downloads" ∷ "Download" ∷ "downloads" ∷ "downlaods" ∷ "Desktop" ∷ "Documents"
    ∷ "tmp" ∷ []

abbrev pub expected_backup_root : FilePath
expected_backup_root = "backups" ∷ "kylin-guard" ∷ "lib" ∷ "var" ∷ []

-- `target == root or root in target.parents`
unfoldable pub is_under : List FilePath → FilePath → Bool
is_under roots target = any (λ root. target == root || contains (parents target) root) roots

-- the parts of a path under a home directory, from the top, without the last
abbrev pub without_last : List String → List String
without_last [] = []
without_last (part ∷ []) = []
without_last (part ∷ next ∷ parts) = part ∷ without_last (next ∷ parts)

-- `parts[3:-1]` where there are four parts, the root among them, and the second is `home`
abbrev pub home_parts : List String → List String
home_parts (top ∷ user ∷ part ∷ parts) = if top == "home" then without_last (part ∷ parts) else []
home_parts _ = []

unfoldable pub is_allowed_cleanup_path : FilePath → Bool
is_allowed_cleanup_path target =
    if is_under fixed_allowed_roots target
    then true
    else any (contains home_low_risk_dirs) (home_parts (reverse target))

-- What the helper asks of a disk beside the contents of files: `Path(raw).is_absolute()` and its
-- parts, `exists`, `is_symlink`, `resolve(strict=…)`, and `stat(follow_symlinks=False)`.
pub record System : Type 0 where
  pub is_absolute : String → Bool
  pub path_of : String → FilePath
  pub exists : FilePath → Bool
  pub is_symlink : FilePath → Bool
  pub resolve : Bool → String → Result FilePath
  pub stat : FilePath → Result Metadata

-- What is outside: `str.lower`, SHA-256, gzip, `int(_)` where it does not raise, `str(uuid.uuid4())`,
-- `str` of a path; the runs of the two systemctl commands, with their returncode or what they raise.
pub record Host : Type 0 where
  pub system : Disk → System
  pub lower : String → String
  pub sha256 : String → String
  pub compress : String → String
  pub decompress : String → Option String
  pub to_int : String → Option ℕ
  pub fresh_id : String
  pub show_path : FilePath → String
  pub restart : Result ℤ
  pub start : Result ℤ

-- the exit status, with the JSON object on standard output
pub record Exit : Type 0 where
  pub code : ℤ
  pub output : Option Arguments

-- the `while` loop up to the root, which is asked as well
unfoldable pub crosses_symlink : System → FilePath → Bool
crosses_symlink system [] = system.exists [] && system.is_symlink []
crosses_symlink system (name ∷ parent) =
    system.exists (name ∷ parent) && system.is_symlink (name ∷ parent)
    || crosses_symlink system parent

module _ (host : Host) where
  open host use {system, lower, sha256, compress, decompress, to_int, fresh_id, show_path}

  unfoldable pub has_forbidden_term : FilePath → Bool
  has_forbidden_term target =
      any (λ term. has_substring term (lower (name_of target))) forbidden_terms

  abbrev pub check_target : Bool → Disk → Result FilePath → Result FilePath
  check_target must_exist disk (err e) = err e
  check_target must_exist disk (ok target) =
      if must_exist && not (is_file target disk)
      then err (value_error "NOT_REGULAR_FILE")
      else if is_under protected_prefixes target
      then err (value_error "PROTECTED_PATH")
      else if not (is_allowed_cleanup_path target)
      then err (value_error "PATH_REJECTED")
      else if must_exist
          && not (any (λ suffix. ends_with suffix (lower (name_of target))) allowed_suffixes)
      then err (value_error "FILE_TYPE_NOT_ALLOWED")
      else if has_forbidden_term target
      then err (value_error "CRITICAL_OR_DATABASE_LOG")
      else ok target

  abbrev pub target_of : Bool → String → Disk → Result FilePath
  target_of must_exist raw_path disk =
      if not ((system disk).is_absolute raw_path)
      then err (value_error "PATH_REJECTED")
      else if crosses_symlink (system disk) ((system disk).path_of raw_path)
      then err (value_error "SYMLINK_REJECTED")
      else check_target must_exist disk ((system disk).resolve must_exist raw_path)

  unfoldable pub validate_cleanup_target : Bool → String → Exec Disk FilePath
  validate_cleanup_target must_exist raw_path disk = (target_of must_exist raw_path disk, disk)

  abbrev pub backup_root_of : Result FilePath → Result FilePath
  backup_root_of (err e) = err e
  backup_root_of (ok root) =
      if not (root == expected_backup_root)
      then err (value_error "BACKUP_ROOT_REJECTED")
      else ok root

  -- `_validate_backup_root`; making the directory changes no file
  unfoldable pub validate_backup_root : String → Exec Disk FilePath
  validate_backup_root raw_path disk = (backup_root_of ((system disk).resolve false raw_path), disk)

  unfoldable pub snapshot_hash : FilePath → Metadata → String
  snapshot_hash path metadata = sha256 (
      canonical_arguments (
        ("path", str (show_path path))
        ∷ ("size", int (pos metadata.size))
        ∷ ("mtime_ns", int (pos metadata.mtime_ns))
        ∷ ("inode", int (pos metadata.inode))
        ∷ ("device", int (pos metadata.device))
        ∷ []))

  abbrev pub decompressed : Option String → Result String
  decompressed none = err os_error
  decompressed (some text) = ok text

  unfoldable pub read_archive : FilePath → Exec Disk String
  read_archive path = do archive ← read_file path; lift (decompressed (decompress archive))

  -- `metadata.st_… != int(raw)`, where `int` may raise
  abbrev pub equals_int : ℕ → String → Bool
  equals_int n raw = to_int raw == some n

  unfoldable pub stat_target : FilePath → Exec Disk Metadata
  stat_target target disk = ((system disk).stat target, disk)

  abbrev pub is_stale : Metadata → String → String → String → Bool
  is_stale metadata raw_size raw_inode raw_device = not (
      equals_int metadata.size raw_size
      && equals_int metadata.inode raw_inode
      && equals_int metadata.device raw_device)

  -- the `try` block of `_safe_log_cleanup` up to the snapshot: the candidate's file, as approved
  unfoldable pub approved_size : FilePath → String → String → String → String → Exec Disk ℕ
  approved_size target raw_size raw_inode raw_device hash = do
    metadata ← stat_target target
    raise_if (is_stale metadata raw_size raw_inode raw_device)
        (value_error "CANDIDATE_STALE_OR_UNSAFE")
    raise_if (not (snapshot_hash target metadata == hash)) (value_error "SNAPSHOT_HASH_MISMATCH")
    pure metadata.size

  abbrev pub cleaned_output : FilePath → ℕ → String → Arguments
  cleaned_output backup size text =
      ("change_id", str fresh_id)
      ∷ ("backup_ref", str (show_path backup))
      ∷ ("released_bytes", int (pos size))
      ∷ ("verification", str ("target_absent=true; archived_sha256=" <> sha256 text))
      ∷ []

  abbrev pub restored_output : String → FilePath → Arguments
  restored_output change_id backup =
      ("change_id", str change_id)
      ∷ ("backup_ref", str (show_path backup))
      ∷ ("verification", str "target restored from verified gzip archive")
      ∷ []

  -- and from there on: the archive and the removal
  unfoldable pub archive_candidate : FilePath → ℕ → String → Exec Disk Arguments
  archive_candidate target size raw_backup_root = do
    root ← validate_backup_root raw_backup_root
    let backup : FilePath = (fresh_id <> ("-" <> (name_of target <> ".gz"))) ∷ root
    measured ← read_file target
    source ← read_file target
    write_file backup (compress source)
    set_mode backup
    archived ← read_archive backup
    raise_if (not (sha256 archived == sha256 measured)) (value_error "BACKUP_VERIFICATION_FAILED")
    unlink target
    kept ← gets (is_file target)
    raise_if kept (value_error "POSTCONDITION_FAILED")
    pure (cleaned_output backup size measured)

  unfoldable pub clean_candidate :
      String → String → String → String → String → String → String → Exec Disk Arguments
  clean_candidate candidate_id raw_path raw_size raw_inode raw_device hash raw_backup_root = do
    raise_if (not (is_some (after_prefix "cleanup-" candidate_id)))
        (value_error "CANDIDATE_ID_REJECTED")
    target ← validate_cleanup_target true raw_path
    size ← approved_size target raw_size raw_inode raw_device hash
    archive_candidate target size raw_backup_root

  -- the `try` block of `_cleanup_rollback`
  unfoldable pub roll_back : String → String → String → String → Exec Disk Arguments
  roll_back change_id raw_backup raw_target raw_backup_root = do
    root ← validate_backup_root raw_backup_root
    backup ← λ disk. ((system disk).resolve true raw_backup, disk)
    raise_if
        (not (parent_of backup == root)
          || not (is_some (after_prefix (change_id <> "-") (name_of backup))))
        (value_error "BACKUP_REF_REJECTED")
    target ← validate_cleanup_target false raw_target
    exists ← gets (is_file target)
    raise_if exists (value_error "ROLLBACK_TARGET_EXISTS")
    text ← read_archive backup
    write_file target text
    restored ← gets (is_file target)
    raise_if (not restored) (value_error "ROLLBACK_POSTCONDITION_FAILED")
    pure (restored_output change_id backup)

  -- the `except Exception` clause of both
  abbrev pub exit_with : ℕ → Result Arguments × Disk → Exit × Disk
  exit_with denied (ok output, disk) = (record { code = pos 0; output = some output }, disk)
  exit_with denied (err e, disk) = (record { code = pos denied; output = none }, disk)

  abbrev pub usage : Disk → Exit × Disk
  usage disk = (record { code = pos 64; output = none }, disk)

  abbrev pub cleanup_fields :
      List String → Option (String × String × String × String × String × String × String)
  cleanup_fields (candidate_id ∷ path ∷ size ∷ inode ∷ device ∷ hash ∷ root ∷ []) =
      some (candidate_id, path, size, inode, device, hash, root)
  cleanup_fields _ = none

  abbrev pub clean_fields :
      Option (String × String × String × String × String × String × String) → Disk → Exit × Disk
  clean_fields none disk = usage disk
  clean_fields (some (candidate_id, path, size, inode, device, hash, root)) disk =
      exit_with 73 (clean_candidate candidate_id path size inode device hash root disk)

  -- `_safe_log_cleanup`, with the arguments after the command
  unfoldable pub safe_log_cleanup : List String → Disk → Exit × Disk
  safe_log_cleanup arguments disk = clean_fields (cleanup_fields arguments) disk

  abbrev pub rollback_fields : List String → Option (String × String × String × String)
  rollback_fields (change_id ∷ backup ∷ target ∷ root ∷ []) = some (change_id, backup, target, root)
  rollback_fields _ = none

  abbrev pub roll_back_fields : Option (String × String × String × String) → Disk → Exit × Disk
  roll_back_fields none disk = usage disk
  roll_back_fields (some (change_id, backup, target, root)) disk =
      exit_with 74 (roll_back change_id backup target root disk)

  -- `_cleanup_rollback`
  unfoldable pub cleanup_rollback : List String → Disk → Exit × Disk
  cleanup_rollback arguments disk = roll_back_fields (rollback_fields arguments) disk

  -- An exception that nothing catches ends Python with status 1.
  abbrev pub recovered : ℤ → Result ℤ → ℤ
  recovered returncode (err e) = pos 1
  recovered returncode (ok started) = if is_zero started then returncode else pos 70

  abbrev pub restart_code : Result ℤ → ℤ
  restart_code (err e) = pos 1
  restart_code (ok returncode) =
      if is_zero returncode then pos 0 else recovered returncode host.start

  abbrev pub is_service_command : List String → Bool
  is_service_command (command ∷ service ∷ []) =
      service == "nginx" && (command == "service_restart" || command == "service_rollback")
  is_service_command _ = false

  abbrev pub restart_service : Bool → Disk → Exit × Disk
  restart_service false disk = usage disk
  restart_service true disk = (record { code = restart_code host.restart; output = none }, disk)

  unfoldable pub main : List String → Disk → Exit × Disk
  main [] disk = usage disk
  main (command ∷ arguments) disk =
      if command == "safe_log_cleanup"
      then safe_log_cleanup arguments disk
      else if command == "cleanup_rollback"
      then cleanup_rollback arguments disk
      else restart_service (is_service_command (command ∷ arguments)) disk
