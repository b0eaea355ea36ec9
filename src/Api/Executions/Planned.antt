-- ===== src/Api/Executions/Planned.antt =====
-- `execution_run` of backend/app/api/router.py up to the call of an executor: the approval's row,
-- who consumes it, and the branches of the `try` block.
-- The executors are the interface `Executors`: each acts on the host and, through the broker, on
-- the approvals.
use kylin_guard_agent.Base.{
  String, ◌<>◌, Bool, false, Option, none, some, [], ◌∷◌, ◌==◌, string_eq, option_eq, not, ◌&&◌,
  ◌||◌, is_some, find, after_prefix, if◌then◌else◌,
}
use kylin_guard_agent.Base.Dict.{lookup, insert}
use kylin_guard_agent.Base.Exec.{value_error, Exec, raise}
use kylin_guard_agent.Json.{Arguments}
use kylin_guard_agent.Models.{
  Approval, CleanupCandidateRecord, ProcessCandidateRecord, ExecutionRecord, BackupRecord,
}
use kylin_guard_agent.Executor.Machine.{ExecutionResult}
use kylin_guard_agent.Api.{Env, Db, Caller, has_keys}
use kylin_guard_agent.Api.Approvals.{text_argument}

pub record ExecutionRequest : Type 0 where
  pub task_id : String
  pub tool_name : String
  pub arguments : Arguments
  pub approval_token : String
  pub fault : Option String

-- The database as committed, and the host.
pub record Site (H : Type 0) : Type 0 where
  pub db : Db
  pub host : H

-- Each takes the user first. A rollback takes the change, its backup and its target.
pub record Executors (H : Type 0) : Type 0 where
  pub demo : String → ExecutionRequest → Exec (Site H) ExecutionResult
  pub cleanup :
      String → ExecutionRequest → String → CleanupCandidateRecord → Exec (Site H) ExecutionResult
  pub cleanup_rollback :
      String → ExecutionRequest → String → String → String → Exec (Site H) ExecutionResult
  pub service : String → ExecutionRequest → String → Exec (Site H) ExecutionResult
  pub service_rollback : String → ExecutionRequest → String → String → Exec (Site H) ExecutionResult
  pub config : String → ExecutionRequest → String → String → Exec (Site H) ExecutionResult
  pub config_rollback :
      String → ExecutionRequest → String → String → String → Exec (Site H) ExecutionResult
  pub process :
      String → ExecutionRequest → String → ProcessCandidateRecord → Exec (Site H) ExecutionResult
  pub process_rollback : String → ExecutionRequest → String → String → Exec (Site H) ExecutionResult

-- The session's write that follows a successful call.
pub data Mark : Type 0 where
  unmarked : Mark
  cleanup_consumed : String → CleanupCandidateRecord → Mark
  process_consumed : String → ProcessCandidateRecord → Mark
  change_rolled_back : String → ExecutionRecord → Mark

unfoldable pub apply_mark : Mark → Db → Db
apply_mark unmarked db = db
apply_mark (cleanup_consumed id row) db = record db {
  cleanup_candidates = insert id (record row { status = "CONSUMED" }) db.cleanup_candidates;
}
apply_mark (process_consumed id row) db = record db {
  process_candidates = insert id (record row { status = "CONSUMED" }) db.process_candidates;
}
apply_mark (change_rolled_back id row) db = record db {
  executions = insert id (record row { status = "ROLLED_BACK" }) db.executions;
}

-- What the `try` block has settled on: the target that is recorded, the call of the executor, and
-- the mark.
pub record Plan (H : Type 0) : Type 0 where
  pub target_ref : Option String
  pub call : Exec (Site H) ExecutionResult
  pub mark : Mark

unfoldable pub is_valid : Env → Caller → ExecutionRequest → String × Approval → Bool
is_valid env caller body (id, approval) =
    approval.status == "APPROVED"
    && approval.requester_id == caller.id
    && approval.task_id == body.task_id
    && approval.tool_name == body.tool_name

-- `db.scalar(select(Approval).where(Approval.token_hash == token_hash))`
unfoldable pub by_token : Env → ExecutionRequest → Db → Option (String × Approval)
by_token env body db =
    find (λ (_, approval). approval.token_hash == some (env.crypto.sha256 body.approval_token))
      db.approvals

-- the row of the change to roll back
unfoldable pub source_of : ExecutionRequest → Db → Option (String × ExecutionRecord)
source_of body db =
    if body.tool_name == "rollback_change"
    then (elim (text_argument "change_id" body.arguments) [
      | none ↦ none
      | some change_id ↦ elim (lookup change_id db.executions) [
        | none ↦ none
        | some row ↦ some (change_id, row)
      ]
    ])
    else none

-- the text after `start` in the target of a change
unfoldable pub target_after : String → ExecutionRecord → Option String
target_after start row = elim row.target_ref [
  | none ↦ none
  | some target ↦ after_prefix start target
]

source_broker_managed : Env → Option (String × ExecutionRecord) → Bool
source_broker_managed env none = false
source_broker_managed env (some (_, row)) =
    if row.tool_name == "safe_log_cleanup"
    then env.broker_available
    else row.tool_name == "service_restart" && is_some (target_after "systemd:" row)

-- Whether the broker, not the session, consumes the approval.
unfoldable pub broker_managed : Env → ExecutionRequest → Db → Bool
unfolding source_broker_managed
broker_managed env body db =
    env.mode == "CONTROLLED_EXECUTION"
    && (body.tool_name == "service_restart"
        || body.tool_name == "safe_log_cleanup" && env.broker_available
        || source_broker_managed env (source_of body db))

module _ {H : Type 0} where
  abbrev pub refuse : String → Plan H
  refuse code = record { target_ref = none; call = raise (value_error code); mark = unmarked }

  -- `_require_execution_broker()`
  abbrev pub with_broker : Env → Plan H → Plan H
  with_broker env plan =
      if env.broker_available then plan else refuse "EXECUTION_BROKER_UNAVAILABLE"

  abbrev pub without_fault : ExecutionRequest → Plan H → Plan H
  without_fault body plan = if is_some body.fault then refuse "FAULT_INJECTION_DEMO_ONLY" else plan

module _ {H : Type 0} (executors : Executors H) (env : Env) (caller : Caller)
    (body : ExecutionRequest) (db : Db) where
  cleanup_row : String → Option CleanupCandidateRecord → Plan H
  cleanup_row id none = refuse "CANDIDATE_NOT_FOUND_OR_CONSUMED"
  cleanup_row id (some row) =
      if row.status == "ELIGIBLE"
      then record {
        target_ref = some row.path;
        call = executors.cleanup caller.id body id row;
        mark = cleanup_consumed id row;
      }
      else refuse "CANDIDATE_NOT_FOUND_OR_CONSUMED"

  process_row : String → Option ProcessCandidateRecord → Plan H
  process_row id none = refuse "PROCESS_CANDIDATE_NOT_FOUND_OR_CONSUMED"
  process_row id (some row) =
      if row.status == "ELIGIBLE"
      then record {
        target_ref = some ("process:" <> row.service);
        call = executors.process caller.id body id row;
        mark = process_consumed id row;
      }
      else refuse "PROCESS_CANDIDATE_NOT_FOUND_OR_CONSUMED"

  -- one text argument, and no other argument
  single : String → (String → Plan H) → Plan H
  single name plan = elim (text_argument name body.arguments) [
    | none ↦ refuse "ARGUMENT_SCHEMA_INVALID"
    | some text ↦
        if has_keys body.arguments (name ∷ []) then plan text else refuse "ARGUMENT_SCHEMA_INVALID"
  ]

  service_plan : String → Plan H
  service_plan name = with_broker env record {
    target_ref = some ("systemd:" <> name);
    call = executors.service caller.id body name;
    mark = unmarked;
  }

  config_plan : Option String → Option String → Plan H
  config_plan (some target_id) (some content) = record {
    target_ref = some ("config:" <> target_id);
    call = executors.config caller.id body target_id content;
    mark = unmarked;
  }
  config_plan _ _ = refuse "ARGUMENT_SCHEMA_INVALID"

  -- the change is marked once its rollback has returned
  rolled_back : String → ExecutionRecord → Exec (Site H) ExecutionResult → Plan H
  rolled_back change_id row call = record {
    target_ref = none;
    call = call;
    mark = change_rolled_back change_id row;
  }

  with_backup : String → ExecutionRecord → (String → Exec (Site H) ExecutionResult) → Plan H
  unfolding rolled_back
  with_backup change_id row call =
      elim (find (λ (backup : BackupRecord). backup.execution_id == change_id) db.backups) [
        | none ↦ refuse "CHANGE_NOT_ROLLBACKABLE"
        | some backup ↦ rolled_back change_id row (call backup.backup_ref)
      ]

  with_target : String → ExecutionRecord → (String → Plan H) → Plan H
  with_target start row plan = elim (target_after start row) [
    | none ↦ refuse "CHANGE_NOT_ROLLBACKABLE"
    | some rest ↦ plan rest
  ]

  -- the rollback by the tool of the change
  change_plan : String → ExecutionRecord → Plan H
  unfolding with_backup with_target rolled_back
  change_plan change_id row =
      if row.tool_name == "safe_log_cleanup"
      then (with_target "" row λ path.
          with_backup change_id row
            λ backup. executors.cleanup_rollback caller.id body change_id backup path)
      else if row.tool_name == "config_safe_update"
      then (with_target "config:" row λ target_id.
          with_backup change_id row
            λ backup. executors.config_rollback caller.id body change_id target_id backup)
      else if row.tool_name == "terminate_process"
      then (with_target "process:" row λ name.
          rolled_back change_id row (executors.process_rollback caller.id body change_id name))
      else if row.tool_name == "service_restart"
      then (with_target "systemd:" row λ name.
          with_broker env
            (rolled_back change_id row (executors.service_rollback caller.id body change_id name)))
      else refuse "CHANGE_NOT_ROLLBACKABLE"

  rollback_plan : Option String → Option (String × ExecutionRecord) → Plan H
  unfolding change_plan
  rollback_plan none source = refuse "ARGUMENT_SCHEMA_INVALID"
  rollback_plan (some _) none = refuse "CHANGE_NOT_ROLLBACKABLE"
  rollback_plan (some _) (some (change_id, row)) =
      if row.task_id == body.task_id && row.status == "SUCCEEDED" && is_some row.target_ref
      then change_plan change_id row
      else refuse "CHANGE_NOT_ROLLBACKABLE"

  -- The branches of the `try` block.
  unfoldable pub plan_execution : Plan H
  unfolding cleanup_row process_row single service_plan config_plan rollback_plan
  plan_execution =
      if env.mode == "DEMO"
      then record { target_ref = none; call = executors.demo caller.id body; mark = unmarked }
      else if not (env.mode == "CONTROLLED_EXECUTION")
      then refuse "CONTROLLED_TOOL_NOT_ENABLED"
      else if body.tool_name == "safe_log_cleanup"
      then without_fault body
          (single "candidate_id" λ id. cleanup_row id (lookup id db.cleanup_candidates))
      else if body.tool_name == "service_restart"
      then without_fault body (single "service" service_plan)
      else if body.tool_name == "config_safe_update"
      then without_fault body (
          config_plan (text_argument "target_id" body.arguments)
            (text_argument "content" body.arguments))
      else if body.tool_name == "terminate_process"
      then without_fault body
          (single "candidate_id" λ id. process_row id (lookup id db.process_candidates))
      else if body.tool_name == "rollback_change"
      then without_fault body
          (rollback_plan (text_argument "change_id" body.arguments) (source_of body db))
      else refuse "CONTROLLED_TOOL_NOT_ENABLED"
