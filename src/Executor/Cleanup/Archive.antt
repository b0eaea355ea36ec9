-- ===== src/Executor/Cleanup/Archive.antt =====
-- Archiving, removing and restoring a file on a disk where anything may fail
-- (backend/app/executor/production.py).
pub mod Safe
use kylin_guard_agent.Base.{
  not-false, ℕ, ◌+◌, String, ◌<>◌, Bool, true, false, Option, none, some, List, [], ◌∷◌, ◌==◌,
  string_eq, not, ◌||◌, if◌then◌else◌, is_some, All, ◌≡◌, ◌≢◌, ◌∙◌, refl, ap, sym, arith,
  Bool-cases, eq→≡, ◌⊎◌, inl, inr, length, codes, length-codes_append,
}
use kylin_guard_agent.Base.Dict.{Dict, lookup}
use kylin_guard_agent.Base.Exec.{
  Error, value_error, os_error, Result, ok, err, Exec, pure, lift, gets, raise_if, ◌>>=◌, ◌>>◌,
}
use kylin_guard_agent.Base.Triple.{
  After, Triple, after_weaken, weaken, given, either, returns, asks, lifts, bind, catch, check,
  on_error,
}
use kylin_guard_agent.Guardrails.Crypto.{Crypto, IsCollisionFree}
use kylin_guard_agent.Guardrails.Policy.PathGuard.{FilePath, path_eq}
use kylin_guard_agent.Agent.Cleanup.{FileUseState, CleanupPolicy, CleanupCandidate}
use kylin_guard_agent.Agent.Cleanup.Classify.{revalidate}
use kylin_guard_agent.Executor.Machine.{
  Machine, Platform, ExecutionResult, on_world-Triple, use_approval-Triple,
}
use kylin_guard_agent.Executor.Files.{
  Outcome, Disk, read_file, write_file, write_new, replace_file, unlink, is_file,
}
use kylin_guard_agent.Executor.Files.Rules.{
  Facts, Fresh, Contents, IsCalm, Known, write_file-Known, write_new-Known, read_file-Known_fact,
  replace_file-Known, unlink-Known,
}
use kylin_guard_agent.Guardrails.Policy.PathGuard.Names.{name_of, chars, name_of-with_name, differs}
use kylin_guard_agent.Executor.Cleanup.{
  Host, require_current, decompressed, read_archive, backup_path, restore_path, restore_archive,
  archive_and_unlink, restore_if, undo, clean, execute_locally, execute,
}

-- `str(uuid.uuid4())` has 36 characters and `uuid.uuid4().hex` has 32.
pub record HasUuids (host : Host) : Type 0 where
  pub change : length (codes host.platform.fresh_id) ≡ 36
  pub restore : length (codes host.restore_hex) ≡ 32

decompressed-some :
    (host : Host) (policy : CleanupPolicy) (root : FilePath) (archive : Option String)
    (text : String)
    → decompressed host policy root archive ≡ ok text
    → archive ≡ some text
decompressed-some host policy root none text h = ground arith
decompressed-some host policy root (some other) text h = ground arith

module _ (host : Host) (policy : CleanupPolicy) (backup_root target : FilePath)
    (uuids : HasUuids host) (digest : IsCollisionFree host.platform.crypto.sha256)
    (original : String) where
  abbrev b : FilePath
  b = backup_path host policy backup_root target

  abbrev r : FilePath
  r = restore_path host policy backup_root target

  abbrev sha256 : String → String
  sha256 = host.platform.crypto.sha256

  abbrev packed : String
  packed = host.compress original

  backup-chars : chars b ≡ chars target + 40
  backup-chars =
      rw (length-codes_append, length-codes_append, length-codes_append, uuids.change) (omega arith)

  restore-chars : chars r ≡ chars target + 42
  restore-chars =
      rw
        (
          name_of-with_name, length-codes_append, length-codes_append, length-codes_append,
          uuids.restore,
        )
        (omega arith)

  target-backup : (target == b) ≡ false
  target-backup = differs target b (λ e. omega (arith, e, backup-chars))

  backup-target : (b == target) ≡ false
  backup-target = differs b target (λ e. omega (arith, e, backup-chars))

  backup-restore : (b == r) ≡ false
  backup-restore = differs b r (λ e. omega (arith, e, backup-chars, restore-chars))

  -- The file holds its text, or its archive in the backup directory does.
  abbrev pub IsPreserved : Disk → Type 0
  IsPreserved t =
      (lookup target t.files ≡ some original)
      ⊎ ((lookup b t.files ≡ some packed) × (host.decompress packed ≡ some original))

  abbrev Untouched : Disk → Type 0
  Untouched = Known false ((target, original) ∷ [])

  abbrev Archived : Disk → Type 0
  Archived t = Known false ((b, packed) ∷ []) t × (host.decompress packed ≡ some original)

  abbrev Started : Disk → Type 0
  Started t = Untouched t ⊎ Archived t

  from_Started : (t : Disk) → Started t → IsPreserved t
  from_Started t (inl h) = inl h.contents.0
  from_Started t (inr h) = inr (h.0.contents.0, h.1)

  -- after the archive is written, and after it is verified
  abbrev Both : Disk → Type 0
  Both = Known false ((b, packed) ∷ (target, original) ∷ [])

  abbrev Verified : Disk → Type 0
  Verified t = Both t × (host.decompress packed ≡ some original)

  from_Both : (t : Disk) → Both t → Started t
  from_Both t h = inl record { contents = h.contents.1; calm_disk = h.calm_disk }

  -- An archive with the digest of the original is one of the original.
  verified :
      (archived : String)
      → host.decompress packed ≡ some archived
      → not (sha256 archived == sha256 original) ≡ false
      → host.decompress packed ≡ some original
  verified archived unpacked h =
      unpacked ∙ ap some (digest archived original (eq→≡ _ _ (not-false _ h)))

  read_archive-packed :
      (facts : Facts)
      → Triple
          (Known false ((b, packed) ∷ facts))
          (read_archive host policy backup_root b)
          (λ text t. Known false ((b, packed) ∷ facts) t × (host.decompress packed ≡ some text))
          (Known false ((b, packed) ∷ facts))
  unfolding read_archive
  read_archive-packed facts =
      bind
        (weaken (λ s h. (h, tt)) (λ a t h. (h.0, h.2)) (λ t h. h.0)
          (read_file-Known_fact false (λ _. Unit) b packed facts))
        (λ archive. given (λ e. rw e (
          weaken (λ s h. h)
            (λ text t h. (h.0, decompressed-some host policy backup_root _ text h.1)) (λ t h. h)
            (lifts (decompressed host policy backup_root (host.decompress packed))
              (Known false ((b, packed) ∷ facts))))))

  kept_false : (simulate kept saved : Bool) → (simulate || kept || not saved) ≡ false → kept ≡ false
  kept_false simulate kept saved h = ground arith

  swap : (t : Disk) → Both t → Known false ((target, original) ∷ (b, packed) ∷ []) t
  swap t h = record { contents = (h.contents.1.0, (h.contents.0, tt)); calm_disk = h.calm_disk }

  swap_back : (t : Disk) → Known false ((target, original) ∷ (b, packed) ∷ []) t → Both t
  swap_back t h = record {
    contents = (h.contents.1.0, (h.contents.0, tt));
    calm_disk = h.calm_disk;
  }

  unlink-Verified :
      Triple Verified
        (unlink target)
        (λ _. Archived)
        (Known false ((target, original) ∷ (b, packed) ∷ []))
  unlink-Verified = given (λ unpacked.
      weaken swap (λ _ t h. (h, unpacked)) (λ t h. h)
        (unlink-Known false target original ((b, packed) ∷ []) (backup-target, tt)))

  abbrev Removed : Disk → Type 0
  Removed t = Archived t × (is_file target t ≡ false)

  archive_and_unlink-Removed :
      (simulate : Bool)
      → Triple Untouched
          (archive_and_unlink host policy backup_root target (sha256 original) simulate)
          (λ _. Removed)
          Started
  unfolding archive_and_unlink
  archive_and_unlink-Removed simulate =
      bind
        (weaken (λ s h. (h, tt)) (λ a t h. (h.0, h.2)) (λ t h. inl h.0)
          (read_file-Known_fact false (λ _. Unit) target original []))
        (λ source. given (λ e. rw e (
          bind
            (weaken (λ s h. h) (λ a t h. h) (λ t h. inl h.0)
              (write_file-Known false b packed ((target, original) ∷ []) (target-backup, tt)))
            (λ _.
              bind
                (weaken (λ s h. h) (λ a t h. h) from_Both
                  (read_archive-packed ((target, original) ∷ [])))
                (λ archived. given (λ unpacked.
                  bind
                    (weaken (λ s h. h) (λ _ t h. (h.0, verified archived unpacked h.1)) from_Both
                      (check Both _ _))
                    (λ _.
                      bind
                        (weaken (λ s h. h) (λ _ t h. h) (λ t h. from_Both t (swap_back t h))
                          unlink-Verified)
                        (λ _.
                          bind
                            (weaken (λ s h. h) (λ kept t h. h) (λ t h. inr h)
                              (asks (is_file target) Archived))
                            (λ kept.
                              bind
                                (weaken (λ s h. h) (λ saved t h. h.0) (λ t h. inr h.0)
                                  (asks (is_file b) (λ t. Archived t × (is_file target t ≡ kept))))
                                (λ saved.
                                  weaken (λ s h. h)
                                    (λ _ t h. (h.0.0, h.0.1 ∙ kept_false simulate kept saved h.1))
                                    (λ t h. inr h.0)
                                    (check (λ t. Archived t × (is_file target t ≡ kept))
                                      (simulate || kept || not saved)
                                      (value_error "POSTCONDITION_FAILED"))))))))))))

  restore_archive-Archived :
      Triple Archived
        (restore_archive host policy backup_root b target)
        (λ _ t. Archived t × (lookup target t.files ≡ some original))
        Archived
  unfolding restore_archive
  restore_archive-Archived = given (λ unpacked.
      bind (weaken (λ s h. h) (λ text t h. h) (λ t h. (h, unpacked)) (read_archive-packed []))
        (λ text. given (λ same.
          bind
            (weaken (λ s h. h) (λ _ t h. h) (λ t h. (h, unpacked))
              (write_new-Known false r text ((b, packed) ∷ []) (backup-restore, tt)))
            (λ _.
              weaken (λ s h. (h, tt))
                (λ _ t h. (
                  (record { contents = h.contents.1; calm_disk = h.calm_disk }, unpacked),
                  h.contents.0 ∙ (sym same ∙ unpacked),
                ))
                (λ t h. (h.0, unpacked))
                (replace_file-Known false r target text ((b, packed) ∷ []) [] (backup-restore, tt)
                  (backup-target, tt))))))

  restore_if-Archived :
      (restores : Bool)
      → Triple Archived
          (restore_if host policy backup_root restores target)
          (λ _. IsPreserved)
          IsPreserved
  restore_if-Archived false =
      weaken (λ s h. from_Started s (inr h)) (λ _ t h. h) (λ t h. h)
        (returns tt (λ _. IsPreserved) IsPreserved)
  restore_if-Archived true =
      weaken (λ s h. h) (λ _ t h. inl h.1) (λ t h. from_Started t (inr h)) restore_archive-Archived

  if_kept :
      (saved kept : Bool) (s : Disk)
      → kept ≡ true
      → IsPreserved s
      → After {A = Unit {0}}
          (λ _. IsPreserved)
          IsPreserved
          (restore_if host policy backup_root (if saved then not kept else false) target s)
  if_kept true true s e h = h
  if_kept false true s e h = h
  if_kept saved false s e h = ground arith

  undo-preserves :
      (s : Disk)
      → Started s
      → After {A = Unit {0}} (λ _. IsPreserved) IsPreserved (undo host policy backup_root target s)
  unfolding undo is_file
  undo-preserves s (inl h) =
      if_kept (is_file b s) (is_file target s) s (ap is_some h.contents.0) (inl h.contents.0)
  undo-preserves s (inr h) = (restore_if-Archived _).holds s h

  clean-Removed :
      (simulate : Bool)
      → Triple Untouched (clean host policy backup_root target simulate) (λ _. Removed) IsPreserved
  unfolding clean
  clean-Removed simulate =
      bind
        (weaken (λ s h. (h, tt)) (λ a t h. (h.0, h.2)) (λ t h. inl h.0.contents.0)
          (read_file-Known_fact false (λ _. Unit) target original []))
        (λ source. given (λ e. rw e (
          bind (catch (archive_and_unlink-Removed simulate) (record { holds = undo-preserves }))
            (λ _. returns _ (λ _. Removed) IsPreserved))))
