-- ===== src/Deploy/Privileged/Scope.antt =====
-- Which files the helper can change (deploy/kylin_guard_privileged.py).
use kylin_guard_agent.Base.{
  ℕ, String, ◌<>◌, Bool, true, false, Option, none, some, List, [], ◌∷◌, ◌==◌, string_eq, not, ◌&&◌,
  if◌then◌else◌, ◌≡◌, ◌≢◌, refl, ap, sym, ◌∙◌, arith, Bool-cases, eq→≡, inl, inr,
}
use kylin_guard_agent.Base.Dict.{lookup}
use kylin_guard_agent.Base.Exec.{Error, value_error, Result, ok, err, Exec, raise_if, gets, ◌>>◌}
use kylin_guard_agent.Base.Triple.{
  After, Triple, weaken, given, returns, asks, answers, lifts, bind, check,
}
use kylin_guard_agent.Json.{Arguments}
use kylin_guard_agent.Guardrails.Policy.PathGuard.{FilePath, path_eq}
use kylin_guard_agent.Guardrails.Policy.PathGuard.Names.{name_of, parent_of}
use kylin_guard_agent.Executor.Files.{Disk, is_file}
use kylin_guard_agent.Executor.Files.Frame.{
  Keeps, read_file-Keeps, write_file-Keeps, set_mode-Keeps, unlink-Keeps,
}
use kylin_guard_agent.Deploy.Privileged.{
  protected_prefixes, expected_backup_root, is_under, is_allowed_cleanup_path, Host, Exit,
  has_forbidden_term, check_target, target_of, validate_cleanup_target, backup_root_of,
  validate_backup_root, decompressed, read_archive, stat_target, is_stale, snapshot_hash,
  approved_size, archive_candidate, clean_candidate, roll_back, exit_with, cleanup_fields,
  clean_fields, rollback_fields, roll_back_fields, cleaned_output, restored_output,
  safe_log_cleanup, cleanup_rollback, restart_service, is_service_command, main,
}

-- A path that lies in the scope of cleanups, under no protected directory, with a harmless name.
abbrev pub is_cleanable : Host → FilePath → Bool
is_cleanable host target =
    not (is_under protected_prefixes target)
    && is_allowed_cleanup_path target
    && not (has_forbidden_term host target)

differ : true ≢ false
differ h = ground arith

module _ (host : Host) where
  check_target-cleanable :
      (must_exist : Bool) (disk : Disk) (resolved : Result FilePath) (target : FilePath)
      → check_target host must_exist disk resolved ≡ ok target
      → is_cleanable host target ≡ true
  check_target-cleanable must_exist disk (err e) target h = ground arith
  check_target-cleanable must_exist disk (ok path) target h = ground arith

  target_of-cleanable :
      (must_exist : Bool) (raw : String) (disk : Disk) (target : FilePath)
      → target_of host must_exist raw disk ≡ ok target
      → is_cleanable host target ≡ true
  target_of-cleanable must_exist raw disk target h =
      check_target-cleanable must_exist disk ((host.system disk).resolve must_exist raw) target
        (ground arith)

  backup_root_of-expected :
      (resolved : Result FilePath) (root : FilePath)
      → backup_root_of host resolved ≡ ok root
      → root ≡ expected_backup_root
  backup_root_of-expected (err e) root h = ground arith
  backup_root_of-expected (ok path) root h = elim (Bool-cases (path == expected_backup_root)) [
    | inl e ↦ ground (arith, eq→≡ path expected_backup_root e)
    | inr e ↦ ground arith
  ]

  module _ (path : FilePath) (contents : Option String) (outside : is_cleanable host path ≡ false)
      (elsewhere : parent_of path ≢ expected_backup_root) where
    abbrev Kept : Disk → Type 0
    Kept = Keeps path contents

    -- the rest once a condition is checked
    then_check :
        {A : Type 0} (fails : Bool) (e : Error) (later : Exec Disk A) (Q : A → Disk → Type 0)
        → Triple Kept later Q Kept
        → Triple Kept (raise_if fails e >> later) Q Kept
    then_check fails e later Q h =
        bind (weaken (λ s k. k) (λ _ t k. k.0) (λ t k. k) (check Kept fails e)) (λ _. h)

    not_cleaned : (target : FilePath) → is_cleanable host target ≡ true → (path == target) ≡ false
    not_cleaned target h = elim (Bool-cases (path == target)) [
      | inl e ↦
          let same : is_cleanable host path ≡ is_cleanable host target =
            ap (is_cleanable host) (eq→≡ path target e) in
          absurd (differ (sym h ∙ (sym same ∙ outside)))
      | inr e ↦ e
    ]

    not_backed_up :
        (name : String) (root : FilePath)
        → root ≡ expected_backup_root
        → (path == (name ∷ root)) ≡ false
    not_backed_up name root e = elim (Bool-cases (path == (name ∷ root))) [
      | inl same ↦ absurd (elsewhere (ap parent_of (eq→≡ path (name ∷ root) same) ∙ e))
      | inr differs ↦ differs
    ]

    validate_cleanup_target-Kept :
        (must_exist : Bool) (raw : String)
        → Triple Kept
            (validate_cleanup_target host must_exist raw)
            (λ target t. Kept t × ((path == target) ≡ false))
            Kept
    unfolding validate_cleanup_target
    validate_cleanup_target-Kept must_exist raw =
        weaken (λ s h. h)
          (λ target t h.
            (h.0, not_cleaned target (target_of-cleanable must_exist raw t target h.1)))
          (λ t h. h) (answers (target_of host must_exist raw) Kept)

    validate_backup_root-Kept :
        (raw : String)
        → Triple Kept
            (validate_backup_root host raw)
            (λ root t. Kept t × (root ≡ expected_backup_root))
            Kept
    unfolding validate_backup_root
    validate_backup_root-Kept raw =
        weaken (λ s h. h) (λ root t h. (h.0, backup_root_of-expected _ root h.1)) (λ t h. h)
          (answers (λ disk. backup_root_of host ((host.system disk).resolve false raw)) Kept)

    stat_target-Kept : (target : FilePath) → Triple Kept (stat_target host target) (λ _. Kept) Kept
    unfolding stat_target
    stat_target-Kept target =
        weaken (λ s h. h) (λ _ t h. h.0) (λ t h. h)
          (answers (λ disk. (host.system disk).stat target) Kept)

    read_archive-Kept :
        (archive : FilePath) → Triple Kept (read_archive host archive) (λ _. Kept) Kept
    unfolding read_archive
    read_archive-Kept archive = bind (read_file-Keeps path contents archive) (λ packed.
        weaken (λ s h. h) (λ _ t h. h.0) (λ t h. h)
          (lifts (decompressed host (host.decompress packed)) Kept))

    is_file-Kept : (target : FilePath) → Triple Kept (gets (is_file target)) (λ _. Kept) Kept
    is_file-Kept target = weaken (λ s h. h) (λ _ t h. h.0) (λ t h. h) (asks (is_file target) Kept)

    approved_size-Kept :
        (target : FilePath) (raw_size raw_inode raw_device hash : String)
        → Triple Kept
            (approved_size host target raw_size raw_inode raw_device hash)
            (λ _. Kept)
            Kept
    unfolding approved_size
    approved_size-Kept target raw_size raw_inode raw_device hash =
        bind (stat_target-Kept target) (λ metadata.
          then_check (is_stale host metadata raw_size raw_inode raw_device)
            (value_error "CANDIDATE_STALE_OR_UNSAFE") _ (λ _. Kept)
            (then_check (not (snapshot_hash host target metadata == hash))
              (value_error "SNAPSHOT_HASH_MISMATCH") _ (λ _. Kept)
              (returns metadata.size (λ _. Kept) Kept)))

    archive_candidate-Kept :
        (target : FilePath) (size : ℕ) (raw_root : String)
        → (path == target) ≡ false
        → Triple Kept (archive_candidate host target size raw_root) (λ _. Kept) Kept
    unfolding archive_candidate
    archive_candidate-Kept target size raw_root other =
        bind (validate_backup_root-Kept raw_root) (λ root. given (λ expected.
          bind (read_file-Keeps path contents target) (λ measured.
            bind (read_file-Keeps path contents target) (λ source.
              bind (write_file-Keeps path contents _ _ (not_backed_up _ root expected)) (λ _.
                bind (set_mode-Keeps path contents _) (λ _. bind (read_archive-Kept _) (λ archived.
                  then_check _ _ _ (λ _. Kept)
                    (bind (unlink-Keeps path contents target other) (λ _.
                      bind (is_file-Kept target) (λ kept.
                        then_check kept (value_error "POSTCONDITION_FAILED") _ (λ _. Kept)
                          (returns
                            (cleaned_output host
                              ((host.fresh_id <> ("-" <> (name_of target <> ".gz"))) ∷ root) size
                              measured)
                            (λ _. Kept) Kept)))))))))))

    clean_candidate-Kept :
        (candidate_id raw_path raw_size raw_inode raw_device hash raw_root : String)
        → Triple Kept
            (clean_candidate host candidate_id raw_path raw_size raw_inode raw_device hash raw_root)
            (λ _. Kept)
            Kept
    unfolding clean_candidate
    clean_candidate-Kept candidate_id raw_path raw_size raw_inode raw_device hash raw_root =
        then_check _ _ _ (λ _. Kept)
          (bind (validate_cleanup_target-Kept true raw_path) (λ target. given (λ other.
            bind (approved_size-Kept target raw_size raw_inode raw_device hash)
              (λ size. archive_candidate-Kept target size raw_root other))))

    roll_back-Kept :
        (change_id raw_backup raw_target raw_root : String)
        → Triple Kept (roll_back host change_id raw_backup raw_target raw_root) (λ _. Kept) Kept
    unfolding roll_back
    roll_back-Kept change_id raw_backup raw_target raw_root =
        bind (weaken (λ s h. h) (λ _ t h. h.0) (λ t h. h) (validate_backup_root-Kept raw_root))
          (λ root.
            bind
              (weaken (λ s h. h) (λ _ t h. h.0) (λ t h. h)
                (answers (λ disk. (host.system disk).resolve true raw_backup) Kept))
              (λ backup.
                then_check _ _ _ (λ _. Kept)
                  (bind (validate_cleanup_target-Kept false raw_target) (λ target. given (λ other.
                    bind (is_file-Kept target) (λ exists.
                      then_check exists (value_error "ROLLBACK_TARGET_EXISTS") _ (λ _. Kept)
                        (bind (read_archive-Kept backup) (λ text.
                          bind (write_file-Keeps path contents target text other) (λ _.
                            bind (is_file-Kept target) (λ restored.
                              then_check (not restored)
                                (value_error "ROLLBACK_POSTCONDITION_FAILED") _ (λ _. Kept)
                                (returns (restored_output host change_id backup) (λ _. Kept)
                                  Kept)))))))))))

    after_exit :
        (denied : ℕ) (r : Result Arguments × Disk)
        → After (λ _. Kept) Kept r
        → Kept (exit_with host denied r).1
    after_exit denied (ok output, t) h = h
    after_exit denied (err e, t) h = h

    clean_fields-Kept :
        (fields : Option (String × String × String × String × String × String × String)) (s : Disk)
        → Kept s
        → Kept (clean_fields host fields s).1
    clean_fields-Kept none s h = h
    clean_fields-Kept (some (candidate_id, raw, size, inode, device, hash, root)) s h =
        after_exit 73 _
          ((clean_candidate-Kept candidate_id raw size inode device hash root).holds s h)

    roll_back_fields-Kept :
        (fields : Option (String × String × String × String)) (s : Disk)
        → Kept s
        → Kept (roll_back_fields host fields s).1
    roll_back_fields-Kept none s h = h
    roll_back_fields-Kept (some (change_id, backup, target, root)) s h =
        after_exit 74 _ ((roll_back-Kept change_id backup target root).holds s h)

    restart_service-Kept :
        (known : Bool) (s : Disk) → Kept s → Kept (restart_service host known s).1
    restart_service-Kept true s h = h
    restart_service-Kept false s h = h

  choose :
      (P : Exit × Disk → Type 0) (b : Bool) (x y : Exit × Disk) → P x → P y → P (if b then x else y)
  choose P true x y p q = p
  choose P false x y p q = q

  -- Whatever its arguments, and whatever operations fail, the helper leaves every file as it is
  -- that is not in the scope of cleanups (under a protected directory, outside the allowed ones,
  -- or with a forbidden term in its name) and not in the backup directory.
  pub main_stays_in_scope :
      (path : FilePath) (argv : List String) (disk : Disk)
      → is_cleanable host path ≡ false
      → parent_of path ≢ expected_backup_root
      → lookup path (main host argv disk).1.files ≡ lookup path disk.files
  unfolding main safe_log_cleanup cleanup_rollback
  main_stays_in_scope path [] disk outside elsewhere = refl
  main_stays_in_scope path (command ∷ arguments) disk outside elsewhere =
      let Same : Exit × Disk → Type 0 =
        λ ended. lookup path ended.1.files ≡ lookup path disk.files in
      choose Same (command == "safe_log_cleanup") _ _
        (clean_fields-Kept path (lookup path disk.files) outside elsewhere
          (cleanup_fields host arguments) disk refl)
        (choose Same (command == "cleanup_rollback") _ _
          (roll_back_fields-Kept path (lookup path disk.files) outside elsewhere
            (rollback_fields host arguments) disk refl)
          (restart_service-Kept path (lookup path disk.files) outside elsewhere
            (is_service_command host (command ∷ arguments)) disk refl))
