-- ===== src/Executor/Config/Update/Atomic.antt =====
-- The update as a whole, and `execute`: all or nothing.
use kylin_guard_agent.Base.{
  String, Bool, true, false, some, List, [], ◌∷◌, ◌==◌, string_eq, not, ◌||◌, if◌then◌else◌, ◌≡◌,
  ◌≢◌, refl, arith, ◌⊎◌, inl, inr,
}
use kylin_guard_agent.Base.Dict.{Dict, lookup}
use kylin_guard_agent.Base.Exec.{Error, ok, err}
use kylin_guard_agent.Base.Triple.{After, Triple, weaken, given, returns, bind, catch, check}
use kylin_guard_agent.Guardrails.Crypto.{IsCollisionFree}
use kylin_guard_agent.Guardrails.Policy.PathGuard.{FilePath, path_eq}
use kylin_guard_agent.Executor.Machine.{Machine, on_world-Triple, use_approval-Triple}
use kylin_guard_agent.Executor.Files.{Outcome, Disk, is_file}
use kylin_guard_agent.Executor.Files.Rules.{IsCalm, Known}
use kylin_guard_agent.Executor.Config.{
  checked_target, find_target, validate_content, execute, ConfigTarget, Host, ConfigValidator,
  backup_path, update,
}
use kylin_guard_agent.Executor.Config.Update.{HasUuids, path, backup, hash_fact}
use kylin_guard_agent.Executor.Config.Update.Replace.{replace_config-Replaced}
use kylin_guard_agent.Executor.Config.Update.Restore.{Restored, restore_config-Restored}

module _ (host : Host) (validator : ConfigValidator) (targets : Dict String ConfigTarget)
    (backup_root : FilePath) (target : ConfigTarget) (original content : String) where
  -- The update has ended well: the new contents are in place and the validator accepts them, and
  -- the backup holds the old ones.
  abbrev pub IsUpdated : Disk → Type 0
  IsUpdated t =
      (lookup target.path t.files ≡ some content)
      × (validator target target.path t.files ≡ ok true)
      × (lookup (backup_path host validator targets backup_root target) t.files ≡ some original)

  module _ (uuids : HasUuids host) (digest : IsCollisionFree host.platform.crypto.sha256)
      (calm : Bool) where
    abbrev p : FilePath
    p = path host validator targets backup_root target uuids

    abbrev b : FilePath
    b = backup host validator targets backup_root target uuids

    abbrev Rescued : Disk → Type 0
    Rescued = Restored host validator targets backup_root target uuids calm original content digest

    update-IsUpdated :
        Triple
          (Known calm ((p, original) ∷ []))
          (update host validator targets backup_root target content)
          (λ _. IsUpdated)
          Rescued
    unfolding update
    update-IsUpdated =
        bind
          (weaken (λ s h. (h, tt)) (λ hash t h. (h.0, h.2)) (λ t h. inl h.0.contents.0)
            (hash_fact host validator targets backup_root target uuids calm (λ _. Unit) p original
              []))
          (λ hash. given (λ hashed. rw hashed (
            bind
              (catch
                (replace_config-Replaced host validator targets backup_root target uuids calm
                  original content)
                (restore_config-Restored host validator targets backup_root target uuids calm
                  original content digest))
              (λ _.
                weaken (λ s h. h) (λ final t h. (h.0.contents.0, h.1, h.0.contents.1.0))
                  (λ t h. inr (h.0.contents.0, h.2))
                  (hash_fact host validator targets backup_root target uuids calm
                    (λ files. validator target p files ≡ ok true) p content
                    ((b, original) ∷ []))))))

abbrev is_nil : List Outcome → Bool
is_nil [] = true
is_nil (_ ∷ _) = false

is_nil-IsCalm : (outcomes : List Outcome) → IsCalm (is_nil outcomes) outcomes
is_nil-IsCalm [] e = refl
is_nil-IsCalm (outcome ∷ later) e = ground arith

is_nil-fails : (outcomes : List Outcome) → is_nil outcomes ≡ false → outcomes ≢ []
is_nil-fails outcomes h e = ground arith

-- A failed change has left the contents as they were, or an operation on the disk failed after the
-- new ones were in place.
abbrev pub IsKept : List Outcome → FilePath → String → String → Disk → Type 0
IsKept outcomes path original content after =
    (lookup path after.files ≡ some original)
    ⊎ ((lookup path after.files ≡ some content) × (outcomes ≢ []))

module _ (host : Host) (validator : ConfigValidator) (targets : Dict String ConfigTarget)
    (backup_root : FilePath) where
  -- the registered target with its resolved path
  abbrev pub resolved_target : ConfigTarget → ConfigTarget
  resolved_target registered = record registered { path = host.resolve registered.path }

  after_guards :
      (P : Disk → Type 0) (registered : ConfigTarget) (s : Disk) (missing unsafe : Bool)
      (e e' : Error)
      → P s
      → After
          (λ target t. P t × (target ≡ resolved_target registered))
          P
          (if missing then err e else if unsafe then err e' else ok (resolved_target registered), s)
  after_guards P registered s true unsafe e e' h = h
  after_guards P registered s false true e e' h = h
  after_guards P registered s false false e e' h = (h, refl)

  after_target :
      (P : Disk → Type 0) (registered : ConfigTarget) (s : Disk)
      → P s
      → After
          (λ target t. P t × (target ≡ resolved_target registered))
          P
          (checked_target host validator targets backup_root (some registered) s, s)
  unfolding checked_target
  after_target P registered s h =
      after_guards P registered s (not (is_file (host.resolve registered.path) s))
        (not (host.resolve registered.path == host.resolve registered.path)
          || host.is_symlink registered.path
          || not (is_file (host.resolve registered.path) s))
        _ _ h

  find_target-resolved :
      (P : Disk → Type 0) (target_id : String) (registered : ConfigTarget)
      → lookup target_id targets ≡ some registered
      → Triple P
          (find_target host validator targets backup_root target_id)
          (λ target t. P t × (target ≡ resolved_target registered))
          P
  unfolding find_target
  find_target-resolved P target_id registered e = record {
    holds = λ s h. rw e (after_target P registered s h);
  }

  validate_content-keeps :
      (P : Disk → Type 0) (content : String)
      → Triple
          (λ (s : Machine Disk). P s.world)
          (validate_content host validator targets backup_root content)
          (λ _ t. P t.world)
          (λ t. P t.world)
  unfolding validate_content
  validate_content-keeps P content =
      weaken (λ s h. h) (λ a t h. h.0) (λ t h. h) (check (λ (s : Machine Disk). P s.world) _ _)

  module _ (uuids : HasUuids host) (digest : IsCollisionFree host.platform.crypto.sha256)
      (user_id task_id target_id content approval_token original : String)
      (registered : ConfigTarget) (known : lookup target_id targets ≡ some registered)
      (outcomes : List Outcome) where
    abbrev resolved : ConfigTarget
    resolved = resolved_target registered

    abbrev Before : Disk → Type 0
    Before = Known (is_nil outcomes) ((resolved.path, original) ∷ [])

    abbrev Updated : Disk → Type 0
    Updated = IsUpdated host validator targets backup_root resolved original content

    abbrev Kept : Disk → Type 0
    Kept = IsKept outcomes resolved.path original content

    from_Before : (s : Disk) → Before s → Kept s
    from_Before s h = inl h.contents.0

    update-Kept :
        Triple Before
          (update host validator targets backup_root resolved content)
          (λ _. Updated)
          Kept
    update-Kept =
        weaken (λ s h. h) (λ a t h. h)
          (λ t h. elim h [
            | inl same ↦ inl same
            | inr (put, e) ↦ inr (put, is_nil-fails outcomes e)
          ])
          (update-IsUpdated host validator targets backup_root resolved original content uuids
            digest (is_nil outcomes))

    execute-Kept :
        Triple
          (λ s. Before s.world)
          (execute host validator targets backup_root user_id task_id target_id content
            approval_token)
          (λ _ t. Updated t.world)
          (λ t. Kept t.world)
    unfolding execute
    execute-Kept =
        bind
          (weaken (λ s h. h) (λ a t h. h) (λ t h. from_Before t.world h)
            (on_world-Triple Before _ Before _
              (find_target-resolved Before target_id registered known)))
          (λ target. given (λ e. rw e (
            bind
              (weaken (λ s h. h) (λ a t h. h) (λ t h. from_Before t.world h)
                (validate_content-keeps Before content))
              (λ _.
                bind
                  (weaken (λ s h. h) (λ a t h. h) (λ t h. from_Before t.world h)
                    (use_approval-Triple Before host.platform approval_token user_id task_id
                      "config_safe_update" _))
                  (λ _.
                    bind (on_world-Triple Before (λ _. Updated) Kept _ update-Kept)
                      (λ hash. returns _ (λ _ (t : Machine Disk). Updated t.world) _))))))

  -- Whatever operations on the disk fail, and whatever the validator answers, an update of a
  -- registered target ends in one of two ways. It returns: the target then holds the new
  -- contents, the validator has accepted them in place, and the backup holds the old ones. Or it
  -- raises: the target then holds the old contents, or the new ones where an operation on the
  -- disk failed. The digest has no collision, and the fresh ids have the lengths of UUIDs.
  pub execute_all_or_nothing :
      HasUuids host
      → IsCollisionFree host.platform.crypto.sha256
      → (user_id task_id target_id content approval_token original : String)
        (registered : ConfigTarget) (s : Machine Disk)
      → lookup target_id targets ≡ some registered
      → let target = resolved_target registered in
        lookup target.path s.world.files ≡ some original
        → After
            (λ _ t. IsUpdated host validator targets backup_root target original content t.world)
            (λ t. IsKept s.world.outcomes target.path original content t.world)
            (execute host validator targets backup_root user_id task_id target_id content
              approval_token s)
  execute_all_or_nothing uuids digest user_id task_id target_id content approval_token original
        registered s known held =
      (execute-Kept uuids digest user_id task_id target_id content approval_token original
          registered known s.world.outcomes).holds
        s (record { contents = (held, tt); calm_disk = is_nil-IsCalm s.world.outcomes })
