-- ===== src/Agent/Cleanup.antt =====
-- backend/app/agent/cleanup.py: which files may be offered for cleanup.
pub mod Classify
pub mod Eligible
pub mod Analysis
use kylin_guard_agent.Base.{ℕ, String, Bool, true, false, Option, none, some, List, [], ◌∷◌}
use kylin_guard_agent.Base.Exec.{Error, Result, ok, err}
use kylin_guard_agent.Json.{ℤ}
use kylin_guard_agent.Guardrails.Policy.PathGuard.{FilePath, FileSystem}

pub data FileUseState : Type 0 where
  not_open is_open unknown : FileUseState

-- the fields with the defaults of the source in `default_policy`
pub record CleanupPolicy : Type 0 where
  pub allowed_roots : List FilePath
  pub protected_paths : List FilePath
  pub minimum_age_days : ℕ
  pub minimum_size_bytes : ℕ
  pub allowed_suffixes : List String
  pub low_risk_dir_names : List String
  pub forbidden_name_terms : List String

abbrev pub default_policy : List FilePath → List FilePath → CleanupPolicy
default_policy roots protected_paths = record {
  allowed_roots = roots;
  protected_paths = protected_paths;
  minimum_age_days = 7;
  minimum_size_bytes = 10000000;
  allowed_suffixes =
      ".log" ∷ ".gz" ∷ ".old" ∷ ".tmp" ∷ ".cache" ∷ ".msi" ∷ ".iso" ∷ ".zip" ∷ ".tar" ∷ ".tgz"
      ∷ ".tar.gz" ∷ ".7z" ∷ ".rar" ∷ ".rpm" ∷ ".deb" ∷ ".apk" ∷ ".dmg" ∷ ".pkg" ∷ ".exe" ∷ [];
  low_risk_dir_names =
      ".cache" ∷ "cache" ∷ "downloads" ∷ "download" ∷ "downlaods" ∷ "desktop" ∷ "documents" ∷ "tmp"
      ∷ "temp" ∷ [];
  forbidden_name_terms =
      "audit" ∷ "journal" ∷ "mysql-bin" ∷ "binlog" ∷ "postgresql" ∷ "transaction" ∷ "redo" ∷ "wal"
      ∷ "secret" ∷ "token" ∷ "password" ∷ "credential" ∷ "private-key" ∷ "id_rsa" ∷ [];
}

-- Times are counted in microseconds, as `datetime` does; `mtime_ns` in nanoseconds.
pub record CleanupCandidate : Type 0 where
  pub candidate_id : String
  pub path : String
  pub size_bytes : ℕ
  pub modified_at : ℕ
  pub inode : ℕ
  pub device : ℕ
  pub snapshot_hash : String
  pub classification : String
  pub risk_level : String
  pub requires_approval : Bool

pub record CleanupObservedFile : Type 0 where
  pub path : String
  pub size_bytes : ℤ
  pub modified_at : ℕ
  pub classification : String

pub record CleanupDecision : Type 0 where
  pub eligible : Bool
  pub reason_codes : List String
  pub candidate : Option CleanupCandidate
  pub observed_file : Option CleanupObservedFile

-- `os.stat_result`, and the time that `datetime.fromtimestamp` makes of `st_mtime`
pub record Metadata : Type 0 where
  pub is_regular : Bool
  pub size : ℕ
  pub modified : ℕ
  pub mtime_ns : ℕ
  pub inode : ℕ
  pub device : ℕ

-- What the classifier asks: the path guard's file system, `stat(follow_symlinks=False)` where it
-- does not raise, the clock, `str` of a path and of a caught exception, `str.lower`, SHA-256.
pub record Inspection : Type 0 where
  pub fs : FileSystem
  pub stat : FilePath → Option Metadata
  pub now : ℕ
  pub show_path : FilePath → String
  pub message : Error → String
  pub lower : String → String
  pub sha256 : String → String
