-- ===== src/Api/Executions/Recorded.antt =====
-- What `execution_run` needs, and what becomes of its approval (backend/app/api/router.py).
use kylin_guard_agent.Base.{
  String, Bool, true, false, Option, none, some, [], ◌∷◌, ◌==◌, string_eq, option_eq, find-holds,
  ◌||◌, any, contains, ◌≡◌, refl, arith, Bool-cases, inl, inr, eq→≡,
}
use kylin_guard_agent.Base.Dict.{lookup, lookup-insert_self}
use kylin_guard_agent.Base.Exec.{value_error, integrity_error, Result, ok, err}
use kylin_guard_agent.Models.{Approval, ExecutionRecord}
use kylin_guard_agent.Executor.Machine.{ExecutionResult}
use kylin_guard_agent.Api.{Env, Db, Caller, log, require_roles}
use kylin_guard_agent.Api.Executions.Planned.{
  ExecutionRequest, Site, Executors, Mark, unmarked, cleanup_consumed, process_consumed,
  change_rolled_back, apply_mark, Plan, is_valid, by_token, broker_managed, plan_execution,
}
use kylin_guard_agent.Api.Executions.{
  consume_approval, has_execution, commit_execution, record_failure, record_rollback,
  record_success, record_result, settle, run_approved, run_permitted, execution_run,
}

-- The approval that an execution went by.
pub record HasApproval (env : Env) (caller : Caller) (body : ExecutionRequest) (db : Db)
    : Type 0 where
  pub id : String
  pub approval : Approval
  pub found : by_token env body db ≡ some (id, approval)
  pub token : approval.token_hash ≡ some (env.crypto.sha256 body.approval_token)
  pub status : approval.status ≡ "APPROVED"
  pub requester : approval.requester_id ≡ caller.id
  pub task : approval.task_id ≡ body.task_id
  pub tool : approval.tool_name ≡ body.tool_name

-- A ValueError is recorded as a failure, any other exception is not.
unfoldable pub is_recorded : Result ExecutionResult → Bool
is_recorded (ok result) = true
is_recorded (err (value_error code)) = true
is_recorded (err e) = false

-- the id of the row that an execution adds
abbrev pub new_id : Env → Result ExecutionResult → String
new_id env (ok result) = result.change_id
new_id env (err e) = env.fresh_id

module _ {H : Type 0} (executors : Executors H) (env : Env) (caller : Caller)
    (body : ExecutionRequest) where
  found-HasApproval :
      (id : String) (approval : Approval) (db : Db)
      → by_token env body db ≡ some (id, approval)
      → is_valid env caller body (id, approval) ≡ true
      → HasApproval env caller body db
  unfolding is_valid by_token
  found-HasApproval id approval db e v = record {
    id = id;
    approval = approval;
    found = e;
    token = eq→≡ _ _ (
        find-holds (λ (_, row). row.token_hash == some (env.crypto.sha256 body.approval_token))
          db.approvals e);
    status = ground arith;
    requester = ground arith;
    task = ground arith;
    tool = ground arith;
  }

  approved-HasApproval :
      (found : Option (String × Approval)) (site after : Site H) (result : ExecutionResult)
      → by_token env body site.db ≡ found
      → run_approved executors env caller body found site ≡ (ok result, after)
      → HasApproval env caller body site.db
  unfolding run_approved
  approved-HasApproval none site after result e h = ground arith
  approved-HasApproval (some (id, approval)) site after result e h =
      elim (Bool-cases (is_valid env caller body (id, approval))) [
        | inl v ↦ found-HasApproval id approval site.db e v
        | inr v ↦ ground arith
      ]

  permitted-HasApproval :
      (permission : Result {0} Unit) (site after : Site H) (result : ExecutionResult)
      → run_permitted executors env caller body permission site ≡ (ok result, after)
      → HasApproval env caller body site.db
  unfolding run_permitted
  permitted-HasApproval (ok t) site after result h =
      approved-HasApproval (by_token env body site.db) site after result refl h
  permitted-HasApproval (err e) site after result h = ground arith

  -- An execution that returns a result goes by an approval with status APPROVED that has the
  -- digest of the presented token, was requested by the caller, and is for the task and the tool
  -- of the request.
  pub execution_run-HasApproval :
      (site after : Site H) (result : ExecutionResult)
      → execution_run executors env caller body site ≡ (ok result, after)
      → HasApproval env caller body site.db
  unfolding execution_run
  execution_run-HasApproval site after result h = permitted-HasApproval _ site after result h

  pub mark-approvals : (mark : Mark) (db : Db) → (apply_mark mark db).approvals ≡ db.approvals
  unfolding apply_mark
  mark-approvals unmarked db = refl
  mark-approvals (cleanup_consumed id row) db = refl
  mark-approvals (process_consumed id row) db = refl
  mark-approvals (change_rolled_back id row) db = refl

  pub record_result-approvals :
      (id : String) (approval : Approval) (source : Option (String × ExecutionRecord))
      (target : Option String) (result : ExecutionResult) (db : Db)
      → (record_result env caller body id approval source target result db).approvals ≡ db.approvals
  unfolding record_success record_rollback log
  record_result-approvals id approval none target result db = refl
  record_result-approvals id approval (some (change_id, row)) target result db = refl

  -- The approval is consumed, or the row to be added is refused by the keys of `executions`.
  pub data IsSettled (id : String) (approval : Approval) (new : String) (left : Site H)
      (ended : Result ExecutionResult × Site H) : Type 0 where
    settled :
        lookup id ended.1.db.approvals ≡ some (record approval { status = "CONSUMED" })
        → IsSettled id approval new left ended
    clashed :
        any (λ (key, row). key == new || row.approval_id == id) left.db.executions ≡ true
        → ended ≡ (err integrity_error, left)
        → IsSettled id approval new left ended

  commit_execution-IsSettled :
      (id : String) (approval : Approval) (new : String) (db : Db) (result : Result ExecutionResult)
      (site : Site H)
      → lookup id db.approvals ≡ some (record approval { status = "CONSUMED" })
      → IsSettled id approval new site
          (commit_execution env caller body id approval new db result site)
  unfolding commit_execution has_execution
  commit_execution-IsSettled id approval new db result site h =
      elim (Bool-cases
        (any (λ (key, row). key == new || row.approval_id == id) site.db.executions)) [
          | inl e ↦ clashed e (rw e refl)
          | inr e ↦ settled (rw e h)
        ]

  recorded-approvals :
      (id : String) (approval : Approval) (source : Option (String × ExecutionRecord))
      (plan : Plan H) (result : ExecutionResult) (db : Db)
      → lookup id
          (record_result env caller body id approval source plan.target_ref result (
            apply_mark plan.mark (consume_approval env caller body id approval false db))).approvals
        ≡ some (record approval { status = "CONSUMED" })
  unfolding consume_approval
  recorded-approvals id approval source plan result db =
      rw
        (
          record_result-approvals id approval source plan.target_ref result _,
          mark-approvals plan.mark _,
        )
        (lookup-insert_self id _ db.approvals)

  settle-IsSettled :
      (id : String) (approval : Approval) (source : Option (String × ExecutionRecord))
      (plan : Plan H) (outcome : Result ExecutionResult) (site : Site H)
      → is_recorded outcome ≡ true
      → IsSettled id approval
          (new_id env outcome)
          site
          (settle env caller body id approval false source plan outcome site)
  unfolding settle consume_approval record_failure log is_recorded
  settle-IsSettled id approval (some source) plan (ok result) site h =
      settled (recorded-approvals id approval (some source) plan result site.db)
  settle-IsSettled id approval none plan (ok result) site h =
      commit_execution-IsSettled id approval result.change_id _ (ok result) site
        (recorded-approvals id approval none plan result site.db)
  settle-IsSettled id approval source plan (err (value_error code)) site h =
      commit_execution-IsSettled id approval env.fresh_id _ _ site
        (lookup-insert_self id _ site.db.approvals)
  settle-IsSettled id approval source plan (err e) site h = ground arith

  -- Where the broker does not manage the approval, an execution by an operator or admin with a
  -- valid approval, whose call of the executor returns or raises a ValueError, leaves that
  -- approval CONSUMED; or, with a row of the new id or of the same approval already in
  -- `executions`, it ends with an IntegrityError and leaves the database as the executor left it.
  pub execution_run-consumed :
      (id : String) (approval : Approval) (site : Site H)
      → any (contains ("operator" ∷ "admin" ∷ [])) caller.roles ≡ true
      → by_token env body site.db ≡ some (id, approval)
      → is_valid env caller body (id, approval) ≡ true
      → broker_managed env body site.db ≡ false
      → is_recorded ((plan_execution executors env caller body site.db).call site).0 ≡ true
      → let (outcome, left) = (plan_execution executors env caller body site.db).call site in
        IsSettled id approval
          (new_id env outcome)
          left
          (execution_run executors env caller body site)
  unfolding execution_run run_permitted run_approved require_roles
  execution_run-consumed id approval site r e v m c =
      rw (r, e, v, m) (settle-IsSettled id approval _ _ _ _ c)
