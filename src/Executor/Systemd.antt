-- ===== src/Executor/Systemd.antt =====
-- backend/app/executor/systemd.py: restarting an allowed service, over a runner of systemctl.
-- `SystemctlRunner` and the brokered methods are the interface; Systemd/Brokered fills it.
pub mod Brokered
pub mod Verified
use kylin_guard_agent.Base.{
  ℕ, String, ◌<>◌, Bool, true, false, Option, none, some, List, [], ◌∷◌, ◌==◌, string_eq, nat_eq,
  contains, not, ltb, length, ◌||◌, is_empty, codes, if◌then◌else◌,
}
use kylin_guard_agent.Base.Exec.{Error, value_error, Exec, pure, raise, raise_if, ◌>>=◌, ◌>>◌}
use kylin_guard_agent.Json.{is_zero, Value, str, bool, obj, field, end, arr, cons, nil, Arguments}
use kylin_guard_agent.Executor.Machine.{
  Machine, Platform, ExecutionResult, CommandOutcome, on_world, use_approval,
}

-- `BrokeredServiceRunner`: the service, the user, the task, (the change) and the token
pub record BrokeredServiceRunner (W : Type 0) : Type 0 where
  pub restart_with_approval : String → String → String → String → Exec W CommandOutcome
  pub rollback_with_approval : String → String → String → String → String → Exec W CommandOutcome

-- `CommandRunner`, and the runner once more where it is a `BrokeredServiceRunner`
pub record CommandRunner (W : Type 0) : Type 0 where
  pub run : List String → ℕ → Exec W CommandOutcome
  pub brokered : Option (BrokeredServiceRunner W)

module _ {W : Type 0} (platform : Platform) (executable : String) (allowed_services : List String)
    (runner : CommandRunner W) where
  abbrev pub validate_service : String → Exec (Machine W) Unit
  validate_service service = do
    raise_if (not (contains allowed_services service)) (value_error "SERVICE_NOT_ALLOWED")
    raise_if (is_empty service || ltb 128 (length (codes service)) || platform.has_space service)
        (value_error "SERVICE_NAME_INVALID")

  -- a returncode of 0 and a service that is active
  reports_active : CommandOutcome → Exec (Machine W) Bool
  reports_active outcome =
      pure (if is_zero outcome.returncode then platform.strip outcome.stdout == "active" else false)

  unfoldable pub is_active : String → Exec (Machine W) Bool
  unfolding reports_active
  is_active service = do
    outcome ← on_world (runner.run (executable ∷ "is-active" ∷ service ∷ []) 10)
    reports_active outcome

  -- `outcome.returncode == 0 and self._is_active(service)`
  unfoldable pub came_up : CommandOutcome → String → Exec (Machine W) Bool
  came_up outcome service = if is_zero outcome.returncode then is_active service else pure false

  unfoldable pub dry_run : String → Exec (Machine W) Arguments
  dry_run service = do
    validate_service service
    before ← is_active service
    raise_if (not before) (value_error "SERVICE_NOT_ACTIVE")
    pure (
        ("tool_name", str "service_restart")
        ∷ ("service", str service)
        ∷ ("risk_level", str "L3")
        ∷ ("requires_approval", bool true)
        ∷ ("state_snapshot", obj (field "active" (bool true) end))
        ∷ (
          "argv_template",
          arr (
              cons (str executable)
                (cons (str "restart") (cons (str "<allowlisted-service>") nil))),
        )
        ∷ ("verification", str "systemctl is-active")
        ∷ ("rollback", str "restore captured active state")
        ∷ [])

  -- The restart itself: with the token through the broker, or by systemctl once the token is used.
  unfoldable pub restart :
      Option (BrokeredServiceRunner W)
      → String
      → String
      → String
      → String
      → Exec (Machine W) CommandOutcome
  restart (some broker) user_id task_id service approval_token =
      on_world (broker.restart_with_approval service user_id task_id approval_token)
  restart none user_id task_id service approval_token = do
    use_approval platform approval_token user_id task_id "service_restart"
        (("service", str service) ∷ [])
    on_world (runner.run (executable ∷ "restart" ∷ service ∷ []) 30)

  -- What follows a restart that has not brought the service up: it always raises.
  unfoldable pub recover : Option (BrokeredServiceRunner W) → String → Exec (Machine W) Unit
  recover (some broker) service = raise (value_error "SERVICE_RESTART_FAILED_ROLLED_BACK")
  recover none service = do
    rollback ← on_world (runner.run (executable ∷ "start" ∷ service ∷ []) 30)
    restored ← came_up rollback service
    raise_if (not restored) (value_error "SERVICE_RESTART_AND_ROLLBACK_FAILED")
    raise (value_error "SERVICE_RESTART_FAILED_ROLLED_BACK")

  abbrev pub recover_unless : Bool → String → Exec (Machine W) Unit
  recover_unless up service = if up then pure tt else recover runner.brokered service

  unfoldable pub execute : String → String → String → String → Exec (Machine W) ExecutionResult
  execute user_id task_id service approval_token = do
    validate_service service
    active ← is_active service
    raise_if (not active) (value_error "SERVICE_STATE_CHANGED")
    outcome ← restart runner.brokered user_id task_id service approval_token
    up ← came_up outcome service
    recover_unless up service
    pure record {
      change_id = platform.fresh_id;
      tool_name = "service_restart";
      status = "SUCCEEDED";
      backup_ref = none;
      verification = "service=" <> (service <> "; active=true; state_snapshot=active");
      rollback_status = none;
    }

  unfoldable pub restore : String → Exec (Machine W) Bool
  restore service = do
    validate_service service
    outcome ← on_world (runner.run (executable ∷ "restart" ∷ service ∷ []) 30)
    came_up outcome service

  unfoldable pub rollback_service :
      Option (BrokeredServiceRunner W)
      → String
      → String
      → String
      → String
      → String
      → Exec (Machine W) Bool
  rollback_service (some broker) user_id task_id change_id service approval_token = do
    outcome ←
        on_world (broker.rollback_with_approval service user_id task_id change_id approval_token)
    came_up outcome service
  rollback_service none user_id task_id change_id service approval_token = do
    use_approval platform approval_token user_id task_id "rollback_change"
        (("change_id", str change_id) ∷ [])
    restore service

  unfoldable pub execute_rollback :
      String → String → String → String → String → Exec (Machine W) ExecutionResult
  execute_rollback user_id task_id change_id service approval_token = do
    restored ← rollback_service runner.brokered user_id task_id change_id service approval_token
    raise_if (not restored) (value_error "SERVICE_ROLLBACK_FAILED")
    pure record {
      change_id = change_id;
      tool_name = "rollback_change";
      status = "ROLLED_BACK";
      backup_ref = none;
      verification = "service=" <> (service <> "; active=true; rollback_restart_verified=true");
      rollback_status = some "SUCCEEDED";
    }
