-- ===== src/Models.antt =====
-- backend/app/db/models.py: the rows of the tables. An instant is a number of microseconds in UTC.
-- A table is a dict from the primary key, so a row does not repeat its `id`.
use kylin_guard_agent.Base.{ℕ, String, Bool, Option, List, string_eq}
use kylin_guard_agent.Json.{Arguments}
use kylin_guard_agent.Agent.StateMachine.{TaskState}

-- `roles` holds the names of the user's roles.
pub record User : Type 0 where
  pub username : String
  pub password_hash : String
  pub is_active : Bool
  pub roles : List String

pub record UserSession : Type 0 where
  pub user_id : String
  pub token_hash : String
  pub expires_at : ℕ
  pub revoked_at : Option ℕ

pub record TaskStep : Type 0 where
  pub sequence : ℕ
  pub from_state : TaskState
  pub to_state : TaskState
  pub reason_code : String

-- `steps` is the relationship to the task's own `TaskStep` rows, in order.
pub record AgentTask : Type 0 where
  pub user_id : String
  pub goal : String
  pub mode : String
  pub state : TaskState
  pub version : ℕ
  pub steps : List TaskStep

-- `arguments_json` is kept as the arguments that it prints.
pub record Approval : Type 0 where
  pub task_id : String
  pub requester_id : String
  pub approver_id : Option String
  pub tool_name : String
  pub arguments : Arguments
  pub arguments_hash : String
  pub risk_level : String
  pub status : String
  pub expires_at : ℕ
  pub decided_at : Option ℕ
  pub token_hash : Option String

pub record CleanupCandidateRecord : Type 0 where
  pub task_id : String
  pub path : String
  pub size_bytes : ℕ
  pub modified_at : ℕ
  pub inode : ℕ
  pub device : ℕ
  pub snapshot_hash : String
  pub status : String

pub record ProcessCandidateRecord : Type 0 where
  pub task_id : String
  pub pid : ℕ
  pub process_name : String
  pub start_ticks : ℕ
  pub service : String
  pub status : String

-- `approval_id` is unique; `has_execution` of Api/Executions is the test of the keys.
pub record ExecutionRecord : Type 0 where
  pub task_id : String
  pub approval_id : String
  pub tool_name : String
  pub arguments_hash : String
  pub target_ref : Option String
  pub status : String
  pub completed_at : Option ℕ

pub record BackupRecord : Type 0 where
  pub execution_id : String
  pub backup_ref : String
  pub status : String

pub record VerificationResultRecord : Type 0 where
  pub execution_id : String
  pub status : String
  pub details : String

pub record RollbackRecord : Type 0 where
  pub execution_id : String
  pub status : String
  pub details : String
