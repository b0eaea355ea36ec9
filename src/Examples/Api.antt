-- ===== src/Examples/Api.antt =====
-- Requests on a small database.
use kylin_guard_agent.Base.{
  ℕ, ◌+◌, String, ◌≡◌, refl, true, none, some, List, [], ◌∷◌, arith, any, contains, find, string_eq,
  option_eq, ℕ_discrete, differ→≢, after_prefix,
}
use mathlib.Core.Path.{subst}
use kylin_guard_agent.Base.Dict.{lookup}
use kylin_guard_agent.Base.Exec.{app_error, rbac_denied, Result, ok, err}
use kylin_guard_agent.Json.{str}
use kylin_guard_agent.Agent.StateMachine.{
  TaskState, received, input_guard, intent_classified, context_collecting, planned, plan_guard,
  tool_calling, evidence_ready, root_cause_analyzed, action_proposed, action_guard, dry_run,
  waiting_approval, approved, backing_up, executing,
}
use kylin_guard_agent.Models.{AgentTask, TaskStep}
use kylin_guard_agent.Executor.Machine.{ExecutionResult}
use kylin_guard_agent.Api.{Db, require_roles}
use kylin_guard_agent.Api.Serving.{ask, accept, claim, serve, serve-AllConsistent}
use kylin_guard_agent.Api.Tasks.{transition_task}
use kylin_guard_agent.Api.Tasks.History.{IsConsistent, stepped, AllConsistent}
use kylin_guard_agent.Api.Approvals.FourEyes.{
  IsReviewed, AllReviewed, undecided, approved as reviewed_by,
}
use kylin_guard_agent.Api.Executions.Planned.{
  ExecutionRequest, Site, Executors, by_token, is_valid, broker_managed, plan_execution, source_of,
}
use kylin_guard_agent.Api.Executions.{
  execution_run, run_permitted, run_approved, settle, commit_execution, has_execution,
}
use kylin_guard_agent.Api.Executions.Recorded.{
  HasApproval, is_recorded, execution_run-HasApproval, execution_run-consumed, IsSettled,
}
use kylin_guard_agent.Api.Executions.SingleUse.{execution_run-refuses_used}
use kylin_guard_agent.Api.Sessions.{
  current_user, header_caller, session_of, session_caller, is_live, active_caller,
}
use kylin_guard_agent.Api.Sessions.Lifetime.{IsAuthenticated, current_user-IsAuthenticated}
use kylin_guard_agent.Examples.Fixtures.{
  demo_env, alice, bob, first_task, small_db, nginx_approval, pending_approval,
}

abbrev name_of : TaskState → String
name_of state = "STATE"

small_db-AllConsistent : AllConsistent small_db
unfolding AllConsistent lookup
small_db-AllConsistent id task e =
    let c : IsConsistent first_task = stepped refl refl in subst IsConsistent (ground arith) c

abbrev moved : Db
moved = (transition_task name_of demo_env alice "task" input_guard "CHECKED" small_db).1

-- the steps into the states given, from the one before
abbrev record_steps : TaskState → ℕ → List TaskState → List TaskStep
record_steps s n [] = []
record_steps s n (t ∷ ts) =
    record { sequence = n; from_state = s; to_state = t; reason_code = "OK" }
    ∷ record_steps t (n + 1) ts

abbrev executing_task : AgentTask
executing_task = record first_task {
  state = executing;
  version = 16;
  steps = record_steps received 1 (
      input_guard ∷ intent_classified ∷ context_collecting ∷ planned ∷ plan_guard ∷ tool_calling
      ∷ evidence_ready ∷ root_cause_analyzed ∷ action_proposed ∷ action_guard ∷ dry_run
      ∷ waiting_approval ∷ approved ∷ backing_up ∷ executing ∷ []);
}

abbrev waiting : Db
waiting = record small_db { approvals = ("approval", pending_approval) ∷ [] }

waiting-AllReviewed : AllReviewed waiting
unfolding AllReviewed lookup
waiting-AllReviewed id row e =
    let c : IsReviewed pending_approval = undecided refl refl in subst IsReviewed (ground arith) c

small_db-AllReviewed : AllReviewed small_db
unfolding AllReviewed lookup string_eq
small_db-AllReviewed id row e =
    let c : IsReviewed nginx_approval = reviewed_by "bob" refl (differ→≢ _ _ refl) in
    subst IsReviewed (ground arith) c

abbrev result : ExecutionResult
result = record {
  change_id = "change";
  tool_name = "service_restart";
  status = "SUCCEEDED";
  backup_ref = none;
  verification = "active";
  rollback_status = none;
}

-- Executors that all answer alike.
abbrev answering : Result ExecutionResult → Executors Unit
answering r = record {
  demo = λ user body site. (r, site);
  cleanup = λ user body id row site. (r, site);
  cleanup_rollback = λ user body change backup path site. (r, site);
  service = λ user body name site. (r, site);
  service_rollback = λ user body change name site. (r, site);
  config = λ user body target content site. (r, site);
  config_rollback = λ user body change target backup site. (r, site);
  process = λ user body id row site. (r, site);
  process_rollback = λ user body change name site. (r, site);
}

abbrev restart_request : ExecutionRequest
restart_request = record {
  task_id = "task";
  tool_name = "service_restart";
  arguments = ("service", str "nginx") ∷ [];
  approval_token = "the-token";
  fault = none;
}

abbrev site : Site Unit
site = record { db = small_db; host = tt }

execution_run-consumed_example :
    IsSettled
      (answering (ok result))
      demo_env
      alice
      restart_request
      "approval"
      nginx_approval
      "change"
      site
      (execution_run (answering (ok result)) demo_env alice restart_request site)
unfolding any contains by_token find is_valid broker_managed plan_execution string_eq option_eq
    ℕ_discrete is_recorded
execution_run-consumed_example =
    execution_run-consumed (answering (ok result)) demo_env alice restart_request "approval"
      nginx_approval site refl refl refl refl refl

-- Bob presents the token that Alice has used.
execution_run-refuses_used_example :
    let after = (execution_run (answering (ok result)) demo_env alice restart_request site).1 in
    execution_run (answering (ok result)) demo_env bob restart_request after
    ≡ (err (app_error rbac_denied 403), after)
unfolding any contains by_token find is_valid broker_managed plan_execution string_eq option_eq
    ℕ_discrete is_recorded
execution_run-refuses_used_example =
    execution_run-refuses_used (answering (ok result)) (answering (ok result)) demo_env demo_env
      alice bob restart_request restart_request "approval" nginx_approval site refl refl refl refl
      refl refl refl refl refl

execution_run-HasApproval_example : HasApproval demo_env alice restart_request small_db
unfolding source_of execution_run run_permitted run_approved settle commit_execution has_execution
    require_roles any contains by_token find is_valid broker_managed plan_execution string_eq
    option_eq ℕ_discrete
execution_run-HasApproval_example =
    execution_run-HasApproval (answering (ok result)) demo_env alice restart_request site
      (execution_run (answering (ok result)) demo_env alice restart_request site).1 result refl

current_user-IsAuthenticated_example :
    (header : String) × (text : String) × (some "Bearer bearer" ≡ some header)
    × (after_prefix "Bearer " header ≡ some text)
    × IsAuthenticated demo_env text small_db alice
unfolding current_user header_caller session_of session_caller is_live active_caller after_prefix
    find lookup string_eq ℕ_discrete
current_user-IsAuthenticated_example =
    current_user-IsAuthenticated demo_env (λ text. text) (λ password hash. true)
      (some "Bearer bearer") small_db small_db alice refl

-- Alice asks for another restart, Bob approves it, and she claims the token.
serve-AllConsistent_example :
    let served =
      serve name_of
        ((demo_env, alice, ask "task" "service_restart" (("service", str "nginx") ∷ []) 300)
          ∷ (demo_env, bob, accept "fresh" "ok")
          ∷ (demo_env, alice, claim "fresh")
          ∷ [])
        small_db in
    AllConsistent served × AllReviewed served
serve-AllConsistent_example =
    serve-AllConsistent name_of
      ((demo_env, alice, ask "task" "service_restart" (("service", str "nginx") ∷ []) 300)
        ∷ (demo_env, bob, accept "fresh" "ok")
        ∷ (demo_env, alice, claim "fresh")
        ∷ [])
      small_db small_db-AllConsistent small_db-AllReviewed
