-- ===== src/Executor/Systemd/Brokered.antt =====
-- backend/app/executor/broker.py, the client's side: `LocalExecutionBroker` and
-- `BrokerSystemctlRunner`. The socket's exchange of one request for a response is a parameter,
-- as is the root's `systemctl is-active`.
use kylin_guard_agent.Base.{
  ℕ, String, Option, none, some, List, [], ◌∷◌, ◌==◌, string_eq, contains, not, ltb, length, ◌||◌,
  codes,
}
use kylin_guard_agent.Base.Exec.{value_error, Exec, raise, raise_if, ◌>>◌}
use kylin_guard_agent.Json.{str, int, pos, Arguments}
use kylin_guard_agent.Json.Print.{canonical_arguments}
use kylin_guard_agent.Executor.Machine.{Platform, CommandOutcome}
use kylin_guard_agent.Executor.Systemd.{CommandRunner}

-- `exchange` sends a payload and parses the reply; `query` is `subprocess.run` of systemctl.
pub record Client (W : Type 0) : Type 0 where
  pub exchange : String → Exec W CommandOutcome
  pub query : List String → ℕ → Exec W CommandOutcome

optional_change : Option String → Arguments
optional_change none = []
optional_change (some change_id) = ("change_id", str change_id) ∷ []

module _ {W : Type 0} (platform : Platform) (client : Client W) where
  -- `_execute`, and the size check of `_request`; the JSON is ASCII, so its length is its bytes'
  unfoldable pub execute_action :
      String → String → String → String → String → Option String → Exec W CommandOutcome
  unfolding optional_change
  execute_action action service user_id task_id approval_token change_id = do
    raise_if
        (not (service == "nginx")
          || not (contains ("service_restart" ∷ "service_rollback" ∷ []) action))
        (value_error "BROKER_ACTION_NOT_ALLOWED")
    let payload = canonical_arguments (
        ("version", int (pos 1))
        ∷ ("action", str action)
        ∷ ("service", str service)
        ∷ ("user_id", str user_id)
        ∷ ("task_id", str task_id)
        ∷ ("approval_token", str approval_token)
        ∷ optional_change change_id)
    raise_if (ltb 8192 (length (codes payload))) (value_error "BROKER_REQUEST_TOO_LARGE")
    client.exchange payload

  -- `BrokerSystemctlRunner.run`
  unfoldable pub run : String → List String → ℕ → Exec W CommandOutcome
  run executable (program ∷ action ∷ service ∷ []) timeout = do
    raise_if (not (platform.resolve program == executable)) (value_error "EXECUTABLE_NOT_ALLOWED")
    raise_if (not (action == "is-active") || not (service == "nginx"))
        (value_error "BROKER_ACTION_CONTEXT_REQUIRED")
    client.query (program ∷ action ∷ service ∷ []) timeout
  run executable _ timeout = raise (value_error "EXECUTABLE_NOT_ALLOWED")

  unfoldable pub restart_with_approval : String → String → String → String → Exec W CommandOutcome
  restart_with_approval service user_id task_id approval_token = do
    raise_if (not (service == "nginx")) (value_error "BROKER_ACTION_NOT_ALLOWED")
    execute_action "service_restart" service user_id task_id approval_token none

  unfoldable pub rollback_with_approval :
      String → String → String → String → String → Exec W CommandOutcome
  rollback_with_approval service user_id task_id change_id approval_token = do
    raise_if (not (service == "nginx")) (value_error "BROKER_ACTION_NOT_ALLOWED")
    execute_action "service_rollback" service user_id task_id approval_token (some change_id)

  unfoldable pub systemctl_runner : String → CommandRunner W
  systemctl_runner executable = record {
    run = run executable;
    brokered = some record {
      restart_with_approval = restart_with_approval;
      rollback_with_approval = rollback_with_approval;
    };
  }
