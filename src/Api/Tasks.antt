-- ===== src/Api/Tasks.antt =====
-- `create_task`, `cancel_task`, `transition_task`, and what `run_task` does to the task's row.
pub mod History
use kylin_guard_agent.Base.{
  ℕ, ◌+◌, String, Bool, true, false, Option, none, some, List, [], ◌∷◌, ◌++◌, ◌==◌, string_eq,
  contains, length, not, is_some, if◌then◌else◌,
}
use kylin_guard_agent.Base.Dict.{Dict, lookup, insert}
use kylin_guard_agent.Base.Exec.{
  Error, app_error, validation_error, not_found, invalid_state_transition, Result, ok, err, Exec,
  pure, raise, lift, gets, modify, raise_if, ◌>>=◌, ◌>>◌,
}
use kylin_guard_agent.Json.{Value, str}
use kylin_guard_agent.Agent.StateMachine.{TaskState, received, cancelled, can_transition}
use kylin_guard_agent.Models.{AgentTask, TaskStep}
use kylin_guard_agent.Api.{Env, Db, Caller, log, require_roles}

-- `db.get(AgentTask, task_id)`, with the 404
abbrev pub found_task : Option AgentTask → Exec Db AgentTask
found_task none = raise (app_error not_found 404)
found_task (some task) = pure task

abbrev pub get_task : String → Exec Db AgentTask
get_task task_id = do found ← gets (λ db. lookup task_id db.tasks); found_task found

abbrev pub put_task : String → AgentTask → Db → Db
put_task task_id task db = record db { tasks = insert task_id task db.tasks }

module _ (state_name : TaskState → String) where
  -- `body.requested_mode or config.mode`
  unfoldable pub create_task : Env → Caller → String → Option String → Exec Db AgentTask
  create_task env caller goal requested_mode = do
    require_roles ("operator" ∷ "admin" ∷ []) caller
    raise_if (elim requested_mode [ none ↦ false | some requested ↦ not (requested == env.mode) ])
        (app_error validation_error 422)
    let task : AgentTask = record {
      user_id = caller.id;
      goal = goal;
      mode = env.mode;
      state = received;
      version = 1;
      steps = [];
    }
    modify (put_task env.fresh_id task)
    modify (
        log env "TASK_CREATED" (("goal", str goal) ∷ ("mode", str env.mode) ∷ []) (some caller.id)
          (some env.fresh_id))
    pure task

  unfoldable pub cancel_task : Env → Caller → String → Exec Db AgentTask
  cancel_task env caller task_id = do
    require_roles ("operator" ∷ "admin" ∷ []) caller
    task ← get_task task_id
    raise_if (not (can_transition task.state cancelled)) (app_error invalid_state_transition 409)
    let next : AgentTask = record task { state = cancelled; version = task.version + 1 }
    modify (put_task task_id next)
    modify (
        log env "TASK_CANCELLED" (("from", str (state_name task.state)) ∷ []) (some caller.id)
          (some task_id))
    pure next

  unfoldable pub transition_task : Env → Caller → String → TaskState → String → Exec Db AgentTask
  transition_task env caller task_id target_state reason_code = do
    require_roles ("operator" ∷ "admin" ∷ []) caller
    task ← get_task task_id
    raise_if (not (can_transition task.state target_state)) (app_error invalid_state_transition 409)
    let step : TaskStep = record {
      sequence = length task.steps + 1;
      from_state = task.state;
      to_state = target_state;
      reason_code = reason_code;
    }
    let next : AgentTask = record task {
      state = target_state;
      version = task.version + 1;
      steps = task.steps ++ step ∷ [];
    }
    modify (put_task task_id next)
    modify (
        log env "TASK_STATE_CHANGED"
          (("from", str (state_name task.state))
            ∷ ("to", str (state_name target_state))
            ∷ ("reason_code", str reason_code)
            ∷ [])
          (some caller.id) (some task_id))
    pure next

  -- The end of `run_task`: `status` is the orchestrator's verdict. The state is not compared.
  unfoldable pub finish_run : Env → Caller → String → TaskState → Value → Exec Db AgentTask
  finish_run env caller task_id status plan = do
    require_roles ("operator" ∷ "admin" ∷ []) caller
    task ← get_task task_id
    let next : AgentTask = record task { state = status; version = task.version + 1 }
    modify (put_task task_id next)
    modify (
        log env "AGENT_RUN_COMPLETED" (("status", str (state_name status)) ∷ ("plan", plan) ∷ [])
          (some caller.id) (some task_id))
    pure next
