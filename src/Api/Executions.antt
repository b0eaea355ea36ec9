-- ===== src/Api/Executions.antt =====
-- `execution_run` of backend/app/api/router.py: an approved change, carried out and recorded.
-- The session's own writes are committed at the end, or not at all.
pub mod Planned
pub mod Recorded
pub mod SingleUse
use kylin_guard_agent.Base.{
  ℕ, String, ◌<>◌, Bool, true, false, Option, none, some, List, [], ◌∷◌, ◌++◌, ◌==◌, string_eq,
  option_eq, not, ◌&&◌, ◌||◌, is_some, find, any, prefix, after_prefix, if◌then◌else◌,
}
use kylin_guard_agent.Base.Dict.{Dict, lookup, insert}
use kylin_guard_agent.Base.Exec.{
  Error, value_error, app_error, os_error, type_error, timeout_expired, integrity_error,
  validation_error, rbac_denied, Result, ok, err, Exec, pure, raise, gets, modify, raise_if, ◌>>=◌,
  ◌>>◌,
}
use kylin_guard_agent.Json.{Value, str, Arguments}
use kylin_guard_agent.Models.{
  Approval, CleanupCandidateRecord, ProcessCandidateRecord, ExecutionRecord, BackupRecord,
  VerificationResultRecord, RollbackRecord,
}
use kylin_guard_agent.Executor.Machine.{ExecutionResult}
use kylin_guard_agent.Api.{Env, Db, Caller, log, require_roles, has_keys}
use kylin_guard_agent.Api.Approvals.{text_argument}
use kylin_guard_agent.Api.Executions.Planned.{
  ExecutionRequest, Site, Executors, Mark, apply_mark, Plan, is_valid, by_token, source_of,
  broker_managed, plan_execution,
}

module _ (env : Env) (caller : Caller) (body : ExecutionRequest) (approval_id : String)
    (approval : Approval) where
  -- `approval.status = "CONSUMED"`, unless the broker does it
  unfoldable pub consume_approval : Bool → Db → Db
  consume_approval true db = db
  consume_approval false db = record db {
    approvals = insert approval_id (record approval { status = "CONSUMED" }) db.approvals;
  }

  unfoldable pub record_failure : Option String → String → Db → Db
  record_failure target_ref code db =
      log env "EXECUTION_REJECTED"
        (("approval_id", str approval_id)
          ∷ ("tool_name", str body.tool_name)
          ∷ ("attempt_id", str env.fresh_id)
          ∷ ("failure_code", str (prefix 128 code))
          ∷ [])
        (some caller.id) (some body.task_id)
        (record db {
          executions =
              insert env.fresh_id
                record {
                  task_id = body.task_id;
                  approval_id = approval_id;
                  tool_name = body.tool_name;
                  arguments_hash = approval.arguments_hash;
                  target_ref = target_ref;
                  status = "FAILED";
                  completed_at = some env.now;
                }
                db.executions;
          verifications =
              db.verifications
              ++ record {
                execution_id = env.fresh_id;
                status = "FAILED";
                details = prefix 128 code;
              }
                ∷ [];
        })

  unfoldable pub record_rollback : String → ExecutionResult → Db → Db
  record_rollback change_id result db =
      log env "ROLLBACK_COMPLETED"
        (("approval_id", str approval_id) ∷ ("change_id", str change_id) ∷ []) (some caller.id)
        (some body.task_id)
        (record db {
          rollbacks =
              db.rollbacks
              ++ record {
                execution_id = change_id;
                status = "SUCCEEDED";
                details = result.verification;
              }
                ∷ [];
          verifications =
              db.verifications
              ++ record {
                execution_id = change_id;
                status = "ROLLBACK_VERIFIED";
                details = result.verification;
              }
                ∷ [];
        })

  backup_rows : ExecutionResult → List BackupRecord
  backup_rows result = elim result.backup_ref [
    | none ↦ []
    | some backup_ref ↦
        record { execution_id = result.change_id; backup_ref = backup_ref; status = "VERIFIED" }
        ∷ []
  ]

  unfoldable pub record_success : Option String → ExecutionResult → Db → Db
  unfolding backup_rows
  record_success target_ref result db =
      log env "EXECUTION_COMPLETED"
        (("approval_id", str approval_id)
          ∷ ("tool_name", str body.tool_name)
          ∷ ("change_id", str result.change_id)
          ∷ ("status", str result.status)
          ∷ ("verification", str result.verification)
          ∷ [])
        (some caller.id) (some body.task_id)
        (record db {
          executions =
              insert result.change_id
                record {
                  task_id = body.task_id;
                  approval_id = approval_id;
                  tool_name = body.tool_name;
                  arguments_hash = approval.arguments_hash;
                  target_ref = target_ref;
                  status = result.status;
                  completed_at = some env.now;
                }
                db.executions;
          backups = db.backups ++ backup_rows result;
          verifications =
              db.verifications
              ++ record {
                execution_id = result.change_id;
                status = if result.status == "SUCCEEDED" then "PASSED" else result.status;
                details = result.verification;
              }
                ∷ [];
        })

  abbrev pub record_result :
      Option (String × ExecutionRecord) → Option String → ExecutionResult → Db → Db
  record_result (some (change_id, _)) target_ref result db = record_rollback change_id result db
  record_result none target_ref result db = record_success target_ref result db

  -- A row with the new id, or one of the same approval, breaks the keys of `executions`.
  unfoldable pub has_execution : String → Db → Bool
  has_execution id db =
      any (λ (key, row). key == id || row.approval_id == approval_id) db.executions

  -- `db.commit()` with a new row in `executions`: an IntegrityError undoes the session's writes.
  unfoldable pub commit_execution :
      {H : Type 0} → String → Db → Result ExecutionResult → Exec (Site H) ExecutionResult
  commit_execution id db result site =
      if has_execution id site.db
      then (err integrity_error, site)
      else (result, record site { db = db })

  -- A rollback adds no row to `executions`.
  abbrev pub commit_result :
      {H : Type 0}
      → Option (String × ExecutionRecord)
      → ExecutionResult
      → Db
      → Exec (Site H) ExecutionResult
  commit_result (some source) result db site = (ok result, record site { db = db })
  commit_result none result db site = commit_execution result.change_id db (ok result) site

  -- What follows the executor's call, by what it returned or raised. An exception that is no
  -- ValueError leaves the session's writes uncommitted.
  unfoldable pub settle :
      {H : Type 0}
      → Bool
      → Option (String × ExecutionRecord)
      → Plan H
      → Result ExecutionResult
      → Exec (Site H) ExecutionResult
  settle managed source plan (ok result) site =
      commit_result source result
        (record_result source plan.target_ref result
          (apply_mark plan.mark (consume_approval managed site.db)))
        site
  settle managed source plan (err (value_error code)) site =
      commit_execution env.fresh_id
        (record_failure plan.target_ref code (consume_approval managed site.db))
        (err (app_error validation_error 422)) site
  settle managed source plan (err e) site = (err e, site)

module _ {H : Type 0} (executors : Executors H) (env : Env) (caller : Caller)
    (body : ExecutionRequest) where
  abbrev pub attempt : Plan H → Exec (Site H) (Result ExecutionResult)
  attempt plan site = let (r, after) = plan.call site in (ok r, after)

  -- from the approval's row on
  unfoldable pub run_approved : Option (String × Approval) → Exec (Site H) ExecutionResult
  run_approved none site = (err (app_error rbac_denied 403), site)
  run_approved (some (id, approval)) site =
      if is_valid env caller body (id, approval)
      then (let plan = plan_execution executors env caller body site.db in
          (attempt plan
              >>= settle env caller body id approval (broker_managed env body site.db)
                  (source_of body site.db) plan)
            site)
      else (err (app_error rbac_denied 403), site)

  unfoldable pub run_permitted : Result {0} Unit → Exec (Site H) ExecutionResult
  run_permitted (err e) site = (err e, site)
  run_permitted (ok _) site = run_approved (by_token env body site.db) site

  unfoldable pub execution_run : Exec (Site H) ExecutionResult
  execution_run site =
      run_permitted (require_roles ("operator" ∷ "admin" ∷ []) caller site.db).0 site
