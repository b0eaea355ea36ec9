-- ===== src/Executor/Cleanup/Archive/Safe.antt =====
-- `execute` without a broker, and its undoing (backend/app/executor/production.py).
use kylin_guard_agent.Base.{
  String, Bool, false, Option, none, some, string_eq, not, is_some, ◌≡◌, refl, arith, ◌⊎◌, inl, inr,
}
use kylin_guard_agent.Base.Dict.{lookup}
use kylin_guard_agent.Base.Exec.{value_error, ◌>>◌}
use kylin_guard_agent.Base.Triple.{After, Triple, after_weaken, weaken, returns, bind, check}
use kylin_guard_agent.Guardrails.Crypto.{IsCollisionFree}
use kylin_guard_agent.Guardrails.Policy.PathGuard.{FilePath, path_eq}
use kylin_guard_agent.Agent.Cleanup.{FileUseState, CleanupPolicy, CleanupCandidate}
use kylin_guard_agent.Agent.Cleanup.Classify.{revalidate}
use kylin_guard_agent.Executor.Machine.{
  Machine, ExecutionResult, on_world-Triple, use_approval-Triple,
}
use kylin_guard_agent.Executor.Files.{Disk, is_file}
use kylin_guard_agent.Executor.Cleanup.{
  Host, require_current, backup_path, restore_archive, clean, execute_locally, execute,
}
use kylin_guard_agent.Executor.Cleanup.Archive.{
  HasUuids, IsPreserved, Untouched, Removed, clean-Removed, restore_archive-Archived,
}

-- The file holds its text, or its archive in the backup directory does.
abbrev pub IsKept : Host → CleanupPolicy → FilePath → FilePath → String → Disk → Type 0
IsKept host policy backup_root target original t =
    (lookup target t.files ≡ some original)
    ⊎ ((lookup (backup_path host policy backup_root target) t.files ≡ some (host.compress original))
        × (host.decompress (host.compress original) ≡ some original))

-- The file is gone, and its archive in the backup directory holds its text.
abbrev pub IsArchived : Host → CleanupPolicy → FilePath → FilePath → String → Disk → Type 0
IsArchived host policy backup_root target original t =
    (lookup target t.files ≡ none)
    × (lookup (backup_path host policy backup_root target) t.files ≡ some (host.compress original))
    × (host.decompress (host.compress original) ≡ some original)

absent : (found : Option String) → is_some found ≡ false → found ≡ none
absent none h = refl
absent (some text) h = ground arith

module _ (host : Host) (policy : CleanupPolicy) (backup_root target : FilePath)
    (uuids : HasUuids host) (digest : IsCollisionFree host.platform.crypto.sha256)
    (original : String) where
  abbrev Before : Disk → Type 0
  Before = Untouched host policy backup_root target uuids digest original

  abbrev Gone : Disk → Type 0
  Gone = Removed host policy backup_root target uuids digest original

  abbrev Kept : Disk → Type 0
  Kept = IsPreserved host policy backup_root target uuids digest original

  require_current-keeps :
      (P : Disk → Type 0) (candidate : CleanupCandidate) (use_state : FileUseState)
      → Triple P (require_current host policy backup_root candidate use_state) (λ _. P) P
  unfolding require_current
  require_current-keeps P candidate use_state = record {
    holds = λ s h.
        after_weaken {A = Unit {0}} (λ _ t. P t × (stale s ≡ false)) (λ _. P) P P _ (λ _ t k. k.0)
          (λ t k. k) ((check P (stale s) (value_error "CANDIDATE_STALE_OR_UNSAFE")).holds s h);
  }
    where
      stale : Disk → Bool
      stale s = not (revalidate policy (host.inspect s) candidate use_state)

  execute_locally-Removed :
      (user_id task_id : String) (candidate : CleanupCandidate) (approval_token : String)
      (use_state : FileUseState) (simulate : Bool)
      → host.parse_path candidate.path ≡ target
      → Triple
          (λ s. Before s.world)
          (execute_locally host policy backup_root user_id task_id candidate approval_token
            use_state simulate)
          (λ _ t. Gone t.world)
          (λ t. Kept t.world)
  unfolding execute_locally
  execute_locally-Removed user_id task_id candidate approval_token use_state simulate e =
      bind
        (weaken (λ s h. h) (λ a t h. h) (λ t h. inl h.contents.0)
          (use_approval-Triple Before host.platform approval_token user_id task_id
            "safe_log_cleanup" _))
        (λ _.
          bind
            (weaken (λ s h. h) (λ a t h. h) (λ t h. inl h.contents.0)
              (on_world-Triple Before (λ _. Before) Before _
                (require_current-keeps Before candidate use_state)))
            (λ _. rw e (
              bind
                (on_world-Triple Before (λ _. Gone) Kept _
                  (clean-Removed host policy backup_root target uuids digest original simulate))
                (λ hash. returns _ (λ _ (t : Machine Disk). Gone t.world) (λ t. Kept t.world)))))

  -- Whatever operations on the disk fail, a cleanup without a broker loses nothing. If it
  -- returns, the file is gone and its archive decompresses to its text; if it raises, the file
  -- has its text or the archive decompresses to it. The digest has no collision, and the fresh
  -- ids have the lengths of UUIDs.
  pub execute_loses_nothing :
      (user_id task_id : String) (candidate : CleanupCandidate) (approval_token : String)
      (use_state : FileUseState) (simulate : Bool) (s : Machine Disk)
      → host.parse_path candidate.path ≡ target
      → lookup target s.world.files ≡ some original
      → After {A = ExecutionResult}
          (λ _ t. IsArchived host policy backup_root target original t.world)
          (λ t. IsKept host policy backup_root target original t.world)
          (execute host policy backup_root none user_id task_id candidate approval_token use_state
            simulate s)
  unfolding execute is_file
  execute_loses_nothing user_id task_id candidate approval_token use_state simulate s e held =
      (weaken (λ s h. h) (λ _ t h. (absent _ h.1, h.0.0.contents.0, h.0.1)) (λ t h. h)
          (execute_locally-Removed user_id task_id candidate approval_token use_state simulate
            e)).holds
        s (record { contents = (held, tt); calm_disk = λ impossible. ground arith })

  -- A cleanup followed by the restoring of its archive gives the file its text back, where both
  -- return; where either raises, the file has its text or the archive decompresses to it. The
  -- digest has no collision, and the fresh ids have the lengths of UUIDs.
  pub clean-restore_archive :
      (simulate : Bool) (s : Disk)
      → lookup target s.files ≡ some original
      → After {A = Unit {0}}
          (λ _ t. lookup target t.files ≡ some original)
          (IsKept host policy backup_root target original)
          ((clean host policy backup_root target simulate
              >> restore_archive host policy backup_root
                  (backup_path host policy backup_root target)
                  target)
            s)
  clean-restore_archive simulate s held =
      (bind (clean-Removed host policy backup_root target uuids digest original simulate) (λ _.
          weaken (λ s h. h.0) (λ _ t h. h.1) (λ t h. inr (h.0.contents.0, h.1))
            (restore_archive-Archived host policy backup_root target uuids digest original))).holds
        s (record { contents = (held, tt); calm_disk = λ impossible. ground arith })
