-- ===== src/Executor/Config/Update.antt =====
-- The update of a configuration file on a disk where anything may fail
-- (backend/app/executor/config_update.py).
pub mod Replace
pub mod Restore
pub mod Atomic
use kylin_guard_agent.Base.{
  not-false, ℕ, ◌+◌, String, ◌<>◌, Bool, true, false, Option, none, some, List, [], ◌∷◌, ◌==◌,
  string_eq, not, if◌then◌else◌, is_some, All, ◌≡◌, ◌≢◌, refl, ap, sym, arith, Bool-cases,
  Option-cases, eq→≡, eq_self, ◌⊎◌, inl, inr, length, codes, length-codes_append,
}
use kylin_guard_agent.Base.Dict.{Dict, lookup}
use kylin_guard_agent.Base.Exec.{
  Error, value_error, Result, ok, err, Exec, pure, raise_if, ◌>>=◌, ◌>>◌,
}
use kylin_guard_agent.Base.Triple.{
  After, Triple, weaken, given, either, returns, bind, catch, check, on_error,
}
use kylin_guard_agent.Guardrails.Crypto.{Crypto, IsCollisionFree}
use kylin_guard_agent.Guardrails.Policy.PathGuard.{FilePath, path_eq}
use kylin_guard_agent.Guardrails.Policy.PathGuard.Names.{name_of, chars, name_of-with_name, differs}
use kylin_guard_agent.Executor.Machine.{Platform}
use kylin_guard_agent.Executor.Files.{
  Disk, read_file, write_new, copy_file, replace_file, unlink_missing_ok, is_file,
}
use kylin_guard_agent.Executor.Files.Rules.{
  Facts, Fresh, Contents, IsCalm, Known, write_new-Known, copy_file-Known, read_file-Known,
  read_file-Known_fact, replace_file-Known, unlink_missing_ok-Known,
}
use kylin_guard_agent.Executor.Config.{
  ConfigTarget, Host, ConfigValidator, file_sha256, validate, backup_path, temporary_path,
  restore_path, replace_config, backup_is_intact, restore_if, restore_config, update,
}

-- `str(uuid.uuid4())` has 36 characters and `uuid.uuid4().hex` has 32.
pub record HasUuids (host : Host) : Type 0 where
  pub change : length (codes host.platform.fresh_id) ≡ 36
  pub candidate : length (codes host.candidate_hex) ≡ 32
  pub rollback : length (codes host.rollback_hex) ≡ 32

module _ (host : Host) (validator : ConfigValidator) (targets : Dict String ConfigTarget)
    (backup_root : FilePath) (target : ConfigTarget) (uuids : HasUuids host) where
  abbrev path : FilePath
  path = target.path

  abbrev backup : FilePath
  backup = backup_path host validator targets backup_root target

  abbrev temporary : FilePath
  temporary = temporary_path host validator targets backup_root target

  abbrev restore : FilePath
  restore = restore_path host validator targets backup_root target

  backup-chars : chars backup ≡ chars path + 41
  backup-chars =
      rw (length-codes_append, length-codes_append, length-codes_append, uuids.change) (omega arith)

  temporary-chars : chars temporary ≡ chars path + 44
  temporary-chars =
      rw
        (
          name_of-with_name, length-codes_append, length-codes_append, length-codes_append,
          uuids.candidate,
        )
        (omega arith)

  restore-chars : chars restore ≡ chars path + 43
  restore-chars =
      rw
        (
          name_of-with_name, length-codes_append, length-codes_append, length-codes_append,
          uuids.rollback,
        )
        (omega arith)

  path-backup : (path == backup) ≡ false
  path-backup = differs path backup (λ e. omega (arith, e, backup-chars))

  path-temporary : (path == temporary) ≡ false
  path-temporary = differs path temporary (λ e. omega (arith, e, temporary-chars))

  path-restore : (path == restore) ≡ false
  path-restore = differs path restore (λ e. omega (arith, e, restore-chars))

  backup-path : (backup == path) ≡ false
  backup-path = differs backup path (λ e. omega (arith, e, backup-chars))

  backup-temporary : (backup == temporary) ≡ false
  backup-temporary = differs backup temporary (λ e. omega (arith, e, backup-chars, temporary-chars))

  backup-restore : (backup == restore) ≡ false
  backup-restore = differs backup restore (λ e. omega (arith, e, backup-chars, restore-chars))

  abbrev sha256 : String → String
  sha256 = host.platform.crypto.sha256

  module _ (calm : Bool) where
    abbrev K : Facts → Disk → Type 0
    K = Known calm

    abbrev Anything : Dict FilePath String → Type 0
    Anything files = Unit

    hash_fact :
        (Frame : Dict FilePath String → Type 0) (file : FilePath) (text : String) (facts : Facts)
        → Triple
            (λ s. K ((file, text) ∷ facts) s × Frame s.files)
            (file_sha256 host validator targets backup_root file)
            (λ hash t. K ((file, text) ∷ facts) t × Frame t.files × (hash ≡ sha256 text))
            (λ t. K ((file, text) ∷ facts) t × Frame t.files × (calm ≡ false))
    unfolding file_sha256
    hash_fact Frame file text facts =
        bind (read_file-Known_fact calm Frame file text facts) (λ read.
          weaken (λ s h. (h.0, h.1, ap sha256 h.2)) (λ a t h. h) (λ t h. h)
            (returns (sha256 read)
              (λ hash t. K ((file, text) ∷ facts) t × Frame t.files × (hash ≡ sha256 text)) _))

    hash_any :
        (file : FilePath) (facts : Facts)
        → Triple
            (K facts)
            (file_sha256 host validator targets backup_root file)
            (λ hash t.
              K facts t
              × ((text : String) × (lookup file t.files ≡ some text) × (hash ≡ sha256 text)))
            (K facts)
    unfolding file_sha256
    hash_any file facts = bind (read_file-Known calm file facts) (λ read.
        weaken (λ s h. (h.0, (read, h.1, refl))) (λ a t h. h) (λ t h. h)
          (returns (sha256 read)
            (λ hash t.
              K facts t
              × ((text : String) × (lookup file t.files ≡ some text) × (hash ≡ sha256 text)))
            _))

    answered :
        (candidate : FilePath) (P : Disk → Type 0) (s : Disk) (answer : Result Bool)
        → validator target candidate s.files ≡ answer
        → P s
        → After (λ valid t. P t × (validator target candidate t.files ≡ ok valid)) P (answer, s)
    answered candidate P s (ok valid) e h = (h, e)
    answered candidate P s (err x) e h = h

    validate_asks :
        (candidate : FilePath) (P : Disk → Type 0)
        → Triple P
            (validate host validator targets backup_root target candidate)
            (λ valid t. P t × (validator target candidate t.files ≡ ok valid))
            P
    unfolding validate
    validate_asks candidate P = record { holds = λ s h. answered candidate P s _ refl h }

    -- a check of the validator that must succeed
    required :
        (candidate : FilePath) (P : Disk → Type 0) (code : String)
        → Triple P
            (validate host validator targets backup_root target candidate
              >>= (λ valid. raise_if (not valid) (value_error code)))
            (λ _ t. P t × (validator target candidate t.files ≡ ok true))
            P
    required candidate P code = bind (validate_asks candidate P) (λ valid.
        weaken (λ s h. h) (λ a t h. (h.0.0, rw (not-false valid h.1) at h.0.1)) (λ t h. h.0)
          (check (λ s. P s × (validator target candidate s.files ≡ ok valid)) (not valid)
            (value_error code)))
