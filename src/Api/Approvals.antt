-- ===== src/Api/Approvals.antt =====
-- `create_approval`, `approve`, `claim_approval_token`, `reject`: an approval up to its token.
pub mod FourEyes
use kylin_guard_agent.Base.{
  ℕ, ◌+◌, ◌-◌, ◌*◌, ◌/◌, String, Bool, true, false, Option, none, some, List, [], ◌∷◌, ◌==◌,
  string_eq, contains, not, leb, ◌&&◌, ◌||◌, is_some, if◌then◌else◌,
}
use kylin_guard_agent.Base.Dict.{Dict, lookup, insert}
use kylin_guard_agent.Base.Exec.{
  Error, app_error, validation_error, not_found, invalid_state_transition, rbac_denied, Exec, pure,
  raise, gets, modify, raise_if, ◌>>=◌, ◌>>◌,
}
use kylin_guard_agent.Json.{Value, str, bool, Arguments, as_str}
use kylin_guard_agent.Json.Print.{canonical_arguments}
use kylin_guard_agent.Guardrails.Approval.{ApprovalTokenManager, issue}
use kylin_guard_agent.Guardrails.Policy.{PolicyDecision, TextRules, authorize_tool}
use kylin_guard_agent.Models.{
  Approval, CleanupCandidateRecord, ExecutionRecord, ProcessCandidateRecord,
}
use kylin_guard_agent.Api.{Env, Db, Caller, log, require_roles, has_keys}
use kylin_guard_agent.Api.Tasks.{get_task}

-- `db.get(Approval, approval_id)`, with the 404
abbrev pub found_approval : Option Approval → Exec Db Approval
found_approval none = raise (app_error not_found 404)
found_approval (some approval) = pure approval

abbrev pub get_approval : String → Exec Db Approval
get_approval approval_id = do
  found ← gets (λ db. lookup approval_id db.approvals)
  found_approval found

abbrev pub put_approval : String → Approval → Db → Db
put_approval approval_id approval db = record db {
  approvals = insert approval_id approval db.approvals;
}

-- `arguments.get(name)` when it is a string
unfoldable pub text_argument : String → Arguments → Option String
text_argument name arguments = as_str (lookup name arguments)

is_eligible_cleanup : String → Option CleanupCandidateRecord → Bool
is_eligible_cleanup task_id none = false
is_eligible_cleanup task_id (some candidate) =
    candidate.task_id == task_id && candidate.status == "ELIGIBLE"

is_eligible_process : String → Option ProcessCandidateRecord → Bool
is_eligible_process task_id none = false
is_eligible_process task_id (some candidate) =
    candidate.task_id == task_id && candidate.status == "ELIGIBLE"

is_succeeded_change : String → Option ExecutionRecord → Bool
is_succeeded_change task_id none = false
is_succeeded_change task_id (some execution) =
    execution.task_id == task_id && execution.status == "SUCCEEDED"

-- the test of an optional text
holds : Option String → (String → Bool) → Bool
holds none test = false
holds (some text) test = test text

-- The checks of the arguments by tool, which apply in the mode CONTROLLED_EXECUTION.
unfoldable pub accepts_arguments : Env → Db → String → String → Arguments → Bool
unfolding holds is_eligible_cleanup is_eligible_process is_succeeded_change
accepts_arguments env db task_id tool_name arguments =
    if tool_name == "safe_log_cleanup"
    then (has_keys arguments ("candidate_id" ∷ [])
        && holds (text_argument "candidate_id" arguments)
            (λ id. is_eligible_cleanup task_id (lookup id db.cleanup_candidates)))
    else if tool_name == "rollback_change"
    then (has_keys arguments ("change_id" ∷ [])
        && holds (text_argument "change_id" arguments)
            (λ id. is_succeeded_change task_id (lookup id db.executions)))
    else if tool_name == "service_restart"
    then (has_keys arguments ("service" ∷ [])
        && holds (text_argument "service" arguments) (contains env.allowed_services))
    else if tool_name == "config_safe_update"
    then (has_keys arguments ("target_id" ∷ "content" ∷ [])
        && holds (text_argument "target_id" arguments) (contains env.managed_targets)
        && is_some (text_argument "content" arguments))
    else if tool_name == "terminate_process"
    then (has_keys arguments ("candidate_id" ∷ [])
        && holds (text_argument "candidate_id" arguments)
            (λ id. is_eligible_process task_id (lookup id db.process_candidates)))
    else true

-- `expires_in` is in seconds. The audit event of a refusal by the policy is committed first.
unfoldable pub create_approval : Env → Caller → String → String → Arguments → ℕ → Exec Db Approval
create_approval env caller task_id tool_name arguments expires_in = do
  require_roles ("operator" ∷ "admin" ∷ []) caller
  task ← get_task task_id
  acceptable ← gets (λ db. accepts_arguments env db task_id tool_name arguments)
  raise_if (env.mode == "CONTROLLED_EXECUTION" && not acceptable) (app_error validation_error 422)
  let decision = authorize_tool env.rules task.goal tool_name false env.mode none
  modify (
      if decision.allowed
      then (λ db. db)
      else log env "APPROVAL_REQUEST_BLOCKED"
          (("tool_name", str tool_name) ∷ ("reason", str decision.reason_code) ∷ [])
          (some caller.id) (some task_id))
  raise_if (not decision.allowed) (app_error rbac_denied 403)
  let approval : Approval = record {
    task_id = task_id;
    requester_id = caller.id;
    approver_id = none;
    tool_name = tool_name;
    arguments = arguments;
    arguments_hash = env.crypto.sha256 (canonical_arguments arguments);
    risk_level = "L3";
    status = "PENDING";
    expires_at = env.now + expires_in * 1000000;
    decided_at = none;
    token_hash = none;
  }
  modify (put_approval env.fresh_id approval)
  modify (
      log env "APPROVAL_REQUESTED"
        (("approval_id", str env.fresh_id)
          ∷ ("tool_name", str tool_name)
          ∷ ("arguments_hash", str approval.arguments_hash)
          ∷ [])
        (some caller.id) (some task_id))
  pure approval

unfoldable pub pending_approval : Env → String → Exec Db Approval
pending_approval env approval_id = do
  approval ← get_approval approval_id
  raise_if (not (approval.status == "PENDING") || leb approval.expires_at env.now)
      (app_error invalid_state_transition 409)
  pure approval

unfoldable pub approve : Env → Caller → String → String → Exec Db Approval
unfolding pending_approval
approve env caller approval_id reason = do
  require_roles ("approver" ∷ "admin" ∷ []) caller
  approval ← pending_approval env approval_id
  raise_if (approval.requester_id == caller.id) (app_error rbac_denied 403)
  let next : Approval = record approval {
    status = "APPROVED";
    approver_id = some caller.id;
    decided_at = some env.now;
  }
  modify (put_approval approval_id next)
  modify (
      log env "APPROVAL_APPROVED" (("approval_id", str approval_id) ∷ ("reason", str reason) ∷ [])
        (some caller.id) (some approval.task_id))
  pure next

unfoldable pub reject : Env → Caller → String → String → Exec Db Approval
unfolding pending_approval
reject env caller approval_id reason = do
  require_roles ("approver" ∷ "admin" ∷ []) caller
  approval ← pending_approval env approval_id
  let next : Approval = record approval {
    status = "REJECTED";
    approver_id = some caller.id;
    decided_at = some env.now;
  }
  modify (put_approval approval_id next)
  modify (
      log env "APPROVAL_REJECTED" (("approval_id", str approval_id) ∷ ("reason", str reason) ∷ [])
        (some caller.id) (some approval.task_id))
  pure next

-- The whole seconds that are left of an approval; 0 when there is none left.
unfoldable pub remaining_seconds : Env → Approval → ℕ
remaining_seconds env approval = (approval.expires_at - env.now) / 1000000

-- Returns the token. A late claim commits the status EXPIRED before it raises.
unfoldable pub claim_approval_token : Env → Caller → String → Exec Db String
unfolding remaining_seconds
claim_approval_token env caller approval_id = do
  require_roles ("operator" ∷ "admin" ∷ []) caller
  approval ← get_approval approval_id
  raise_if (not (approval.requester_id == caller.id) || not (approval.status == "APPROVED"))
      (app_error rbac_denied 403)
  let remaining = remaining_seconds env approval
  modify (
      if leb remaining 0
      then put_approval approval_id (record approval { status = "EXPIRED" })
      else λ db. db)
  raise_if (leb remaining 0) (app_error invalid_state_transition 409)
  let manager : ApprovalTokenManager = record { secret = env.secret; consumed = [] }
  let token =
      issue env.crypto manager approval.requester_id approval.task_id approval.tool_name
        approval.arguments remaining (env.now / 1000000) env.nonce
  modify
      (put_approval approval_id (record approval { token_hash = some (env.crypto.sha256 token) }))
  modify (
      log env "APPROVAL_TOKEN_CLAIMED"
        (("approval_id", str approval_id) ∷ ("token_rotated", bool true) ∷ []) (some caller.id)
        (some approval.task_id))
  pure token
