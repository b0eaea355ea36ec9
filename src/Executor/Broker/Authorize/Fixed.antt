-- ===== src/Executor/Broker/Authorize/Fixed.antt =====
-- The fixed actions of the broker, described apart from the `if` ladder of `_authorize_and_consume`
-- (backend/app/executor/broker.py).
use kylin_guard_agent.Base.{
  String, ◌≡◌, refl, true, Option, none, some, [], ◌∷◌, ◌&&◌, ◌==◌, string_eq, arith, find,
  Bool-cases, inl, inr, eq→≡, find-holds,
}
use mathlib.Core.Path.{subst}
use kylin_guard_agent.Base.Dict.{lookup}
use kylin_guard_agent.Base.Exec.{ok}
use kylin_guard_agent.Json.{Value, str, Arguments}
use kylin_guard_agent.Models.{CleanupCandidateRecord, ExecutionRecord, BackupRecord}
use kylin_guard_agent.Executor.Broker.Request.{is_text}
use kylin_guard_agent.Executor.Broker.Authorize.{
  Database, Outside, Expected, text_of, show_ref, cleanup_args, cleanup_helper_args, rollback_args,
  cleanup_rollback_helper_args, with_args, expect_service_rollback, expect_cleanup,
  expect_cleanup_rollback, expected_action,
}
use kylin_guard_agent.Executor.Broker.Authorize.Rows.{Among, find-Among}

abbrev pub backups_path : String
backups_path = "/var/lib/kylin-guard/backups"

module _ (outside : Outside) where
  open outside use {show}

  -- The action asks for a tool and its arguments, and gives the helper its arguments: a restart of nginx,
  -- for a change that is rolled back or not; the cleanup of an eligible candidate of the task; or the
  -- rollback of a successful cleanup of the task that has a backup.
  pub data IsFixed (database : Database) (task_id : String) (request : Arguments) (action : String)
      (expected : Expected) : Type 0 where
    restarts :
        action ≡ "service_restart"
        → lookup "service" request ≡ some (str "nginx")
        → expected ≡ record {
          tool = "service_restart";
          arguments = ("service", str "nginx") ∷ [];
          helper_args = "service_restart" ∷ "nginx" ∷ [];
        }
        → IsFixed database task_id request action expected
    restarts_back :
        (change_id : String)
        → action ≡ "service_rollback"
        → lookup "service" request ≡ some (str "nginx")
        → text_of (lookup "change_id" request) ≡ some change_id
        → expected ≡ record {
          tool = "rollback_change";
          arguments = ("change_id", str change_id) ∷ [];
          helper_args = "service_rollback" ∷ "nginx" ∷ [];
        }
        → IsFixed database task_id request action expected
    cleans :
        (candidate_id : String) (row : CleanupCandidateRecord)
        → action ≡ "safe_log_cleanup"
        → text_of (lookup "candidate_id" request) ≡ some candidate_id
        → Among {A = String × CleanupCandidateRecord}
            (candidate_id, row)
            database.cleanup_candidates
        → row.task_id ≡ task_id
        → row.status ≡ "ELIGIBLE"
        → expected ≡ record {
          tool = "safe_log_cleanup";
          arguments = ("candidate_id", str candidate_id) ∷ [];
          helper_args =
              "safe_log_cleanup"
              ∷ candidate_id
              ∷ row.path
              ∷ show row.size_bytes
              ∷ show row.inode
              ∷ show row.device
              ∷ row.snapshot_hash
              ∷ backups_path
              ∷ [];
        }
        → IsFixed database task_id request action expected
    restores :
        (change_id key : String) (execution : ExecutionRecord) (backup : BackupRecord)
        → action ≡ "cleanup_rollback"
        → text_of (lookup "change_id" request) ≡ some change_id
        → Among {A = String × ExecutionRecord} (change_id, execution) database.executions
        → execution.task_id ≡ task_id
        → execution.status ≡ "SUCCEEDED"
        → execution.tool_name ≡ "safe_log_cleanup"
        → Among {A = String × BackupRecord} (key, backup) database.backups
        → backup.execution_id ≡ change_id
        → expected ≡ record {
          tool = "rollback_change";
          arguments = ("change_id", str change_id) ∷ [];
          helper_args =
              "cleanup_rollback"
              ∷ change_id
              ∷ backup.backup_ref
              ∷ show_ref outside execution.target_ref
              ∷ backups_path
              ∷ [];
        }
        → IsFixed database task_id request action expected

  is_text-str :
      (value : Option Value) (text : String) → is_text value text ≡ true → value ≡ some (str text)
  is_text-str (some (str s)) text h = ground (arith, eq→≡ s text)
  is_text-str none text h = ground arith
  is_text-str (some v) text h = ground arith

  cleans-IsFixed :
      (database : Database) (task_id action candidate_id : String) (request : Arguments)
      (expected : Expected) (found : Option (String × CleanupCandidateRecord))
      → action ≡ "safe_log_cleanup"
      → text_of (lookup "candidate_id" request) ≡ some candidate_id
      → find
          (λ (id, row). id == candidate_id && row.task_id == task_id && row.status == "ELIGIBLE")
          database.cleanup_candidates
        ≡ found
      → with_args outside "safe_log_cleanup"
          (("candidate_id", str candidate_id) ∷ [])
          (cleanup_args outside candidate_id found)
        ≡ ok expected
      → IsFixed database task_id request action expected
  unfolding cleanup_args with_args
  cleans-IsFixed database task_id action c request expected none a i f h = ground arith
  cleans-IsFixed database task_id action c request expected (some (id, row)) a i f h =
      let holds =
        find-holds
          (λ (x : String × CleanupCandidateRecord).
            x.0 == c && x.1.task_id == task_id && x.1.status == "ELIGIBLE")
          database.cleanup_candidates f in
      let same : id ≡ c = ground (arith, holds) in
      cleans c row a i
        (subst
          (λ k. Among {A = String × CleanupCandidateRecord} (k, row) database.cleanup_candidates)
          same (find-Among _ database.cleanup_candidates (id, row) f))
        (ground (arith, holds)) (ground (arith, holds)) (ground (arith, h))

  restores-IsFixed :
      (database : Database) (task_id action change_id : String) (request : Arguments)
      (expected : Expected) (execution : Option (String × ExecutionRecord))
      (backup : Option (String × BackupRecord))
      → action ≡ "cleanup_rollback"
      → text_of (lookup "change_id" request) ≡ some change_id
      → find
          (λ (id, e).
            id == change_id
            && e.task_id == task_id
            && e.status == "SUCCEEDED"
            && e.tool_name == "safe_log_cleanup")
          database.executions
        ≡ execution
      → find (λ (_, b). b.execution_id == change_id) database.backups ≡ backup
      → with_args outside "rollback_change"
          (("change_id", str change_id) ∷ [])
          (rollback_args outside change_id execution backup)
        ≡ ok expected
      → IsFixed database task_id request action expected
  unfolding rollback_args with_args
  restores-IsFixed database task_id action c request expected none backup a i f g h = ground arith
  restores-IsFixed database task_id action c request expected (some (id, e)) none a i f g h =
      ground arith
  restores-IsFixed database task_id action c request expected (some (id, e)) (some (key, b)) a i f g
        h =
      let holds =
        find-holds
          (λ (x : String × ExecutionRecord).
            x.0 == c
            && x.1.task_id == task_id
            && x.1.status == "SUCCEEDED"
            && x.1.tool_name == "safe_log_cleanup")
          database.executions f in
      let backed =
        find-holds (λ (x : String × BackupRecord). x.1.execution_id == c) database.backups g in
      let same : id ≡ c = ground (arith, holds) in
      restores c key e b a i
        (subst (λ k. Among {A = String × ExecutionRecord} (k, e) database.executions) same
          (find-Among _ database.executions (id, e) f))
        (ground (arith, holds)) (ground (arith, holds)) (ground (arith, holds))
        (find-Among _ database.backups (key, b) g) (ground (arith, backed)) (ground (arith, h))

  service-IsFixed :
      (database : Database) (task_id action : String) (request : Arguments) (expected : Expected)
      (change : Option String)
      → action ≡ "service_rollback"
      → lookup "service" request ≡ some (str "nginx")
      → text_of (lookup "change_id" request) ≡ change
      → expect_service_rollback outside change ≡ ok expected
      → IsFixed database task_id request action expected
  unfolding expect_service_rollback
  service-IsFixed database task_id action request expected none a s c h = ground arith
  service-IsFixed database task_id action request expected (some change_id) a s c h =
      restarts_back change_id a s c (ground arith)

  cleanup-IsFixed :
      (database : Database) (task_id action : String) (request : Arguments) (expected : Expected)
      (candidate : Option String)
      → action ≡ "safe_log_cleanup"
      → text_of (lookup "candidate_id" request) ≡ candidate
      → expect_cleanup outside database task_id candidate ≡ ok expected
      → IsFixed database task_id request action expected
  unfolding expect_cleanup cleanup_helper_args
  cleanup-IsFixed database task_id action request expected none a c h = ground arith
  cleanup-IsFixed database task_id action request expected (some candidate_id) a c h =
      cleans-IsFixed database task_id action candidate_id request expected _ a c refl h

  rollback-IsFixed :
      (database : Database) (task_id action : String) (request : Arguments) (expected : Expected)
      (change : Option String)
      → action ≡ "cleanup_rollback"
      → text_of (lookup "change_id" request) ≡ change
      → expect_cleanup_rollback outside database task_id change ≡ ok expected
      → IsFixed database task_id request action expected
  unfolding expect_cleanup_rollback cleanup_rollback_helper_args
  rollback-IsFixed database task_id action request expected none a c h = ground arith
  rollback-IsFixed database task_id action request expected (some change_id) a c h =
      restores-IsFixed database task_id action change_id request expected _ _ a c refl refl h

  pub expected_action-IsFixed :
      (database : Database) (action task_id : String) (request : Arguments) (expected : Expected)
      → expected_action outside database action task_id request ≡ ok expected
      → IsFixed database task_id request action expected
  unfolding expected_action
  expected_action-IsFixed database action task_id request expected h =
      elim (Bool-cases (action == "service_restart")) [
        | inl a ↦ elim (Bool-cases (is_text (lookup "service" request) "nginx")) [
          | inl s ↦ restarts (eq→≡ _ _ a) (is_text-str _ _ s) (ground arith)
          | inr s ↦ ground arith
        ]
        | inr a ↦ elim (Bool-cases (action == "service_rollback")) [
          | inl b ↦ elim (Bool-cases (is_text (lookup "service" request) "nginx")) [
            | inl s ↦
                service-IsFixed database task_id action request expected _ (eq→≡ _ _ b)
                  (is_text-str _ _ s) refl (rw (a, b, s) at h)
            | inr s ↦ ground arith
          ]
          | inr b ↦ elim (Bool-cases (action == "safe_log_cleanup")) [
            | inl c ↦
                cleanup-IsFixed database task_id action request expected _ (eq→≡ _ _ c) refl
                  (rw (a, b, c) at h)
            | inr c ↦ elim (Bool-cases (action == "cleanup_rollback")) [
              | inl d ↦
                  rollback-IsFixed database task_id action request expected _ (eq→≡ _ _ d) refl
                    (rw (a, b, c, d) at h)
              | inr d ↦ ground arith
            ]
          ]
        ]
      ]
