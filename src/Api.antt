-- ===== src/Api.antt =====
-- backend/app/api/router.py: the request handlers over the database.
-- A handler starts with the role check of `require_roles`. What it has not committed when it
-- raises is undone. The clock, new ids and tokens, and the configuration are given by `Env`.
pub mod Tasks
pub mod Approvals
pub mod Executions
pub mod Sessions
pub mod Serving
use kylin_guard_agent.Base.{
  ℕ, String, Bool, true, false, Option, none, some, List, [], ◌∷◌, ◌==◌, string_eq, contains, any,
  not, ◌&&◌, ◌||◌, all,
}
use kylin_guard_agent.Base.Dict.{Dict}
use kylin_guard_agent.Base.Exec.{
  Error, ErrorCode, app_error, rbac_denied, Result, ok, err, Exec, raise_if,
}
use kylin_guard_agent.Json.{Value, str, Arguments}
use kylin_guard_agent.Guardrails.Crypto.{Crypto}
use kylin_guard_agent.Guardrails.Policy.{TextRules}
use kylin_guard_agent.Audit.{AuditLog, write_audit}
use kylin_guard_agent.Models.{
  User, UserSession, AgentTask, Approval, CleanupCandidateRecord, ProcessCandidateRecord,
  ExecutionRecord, BackupRecord, VerificationResultRecord, RollbackRecord,
}

-- What one request gets from outside.
pub record Env : Type 0 where
  pub crypto : Crypto
  pub rules : TextRules
  pub timestamp : ℕ → String
  pub redact : Arguments → Arguments
  pub now : ℕ  -- microseconds
  pub event_id : String
  pub fresh_id : String
  pub nonce : String
  pub secret : String  -- `APPROVAL_HMAC_KEY`, of at least 32 bytes
  pub mode : String
  pub allowed_services : List String
  pub managed_targets : List String
  pub broker_available : Bool

pub record Db : Type 0 where
  pub users : Dict String User
  pub sessions : Dict String UserSession
  pub tasks : Dict String AgentTask
  pub approvals : Dict String Approval
  pub cleanup_candidates : Dict String CleanupCandidateRecord
  pub process_candidates : Dict String ProcessCandidateRecord
  pub executions : Dict String ExecutionRecord
  pub backups : List BackupRecord
  pub verifications : List VerificationResultRecord
  pub rollbacks : List RollbackRecord
  pub audit : AuditLog

-- `write_audit(db, event_type, payload, actor_id=…, task_id=…)`
unfoldable pub log : Env → String → Arguments → Option String → Option String → Db → Db
log env event_type payload actor_id task_id db = record db {
  audit =
      write_audit env.crypto.sha256 env.timestamp env.redact env.event_id env.now event_type payload
        actor_id task_id db.audit;
}

-- An authenticated user, with the id.
pub record Caller : Type 0 where
  pub id : String
  pub roles : List String

-- `require_roles` of backend/app/auth/dependencies.py
unfoldable pub require_roles : List String → Caller → Exec Db Unit
require_roles allowed caller =
    raise_if (not (any (contains allowed) caller.roles)) (app_error rbac_denied 403)

-- `set(arguments) == names`
unfoldable pub has_keys : Arguments → List String → Bool
has_keys arguments names =
    all (λ (k, _). contains names k) arguments
    && all (λ name. any (λ (k, _). k == name) arguments) names
