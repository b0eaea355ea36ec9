-- ===== src/Examples/Executor.antt =====
-- A restart and a termination.
use kylin_guard_agent.Base.{
  String, ◌≡◌, ◌≢◌, refl, Bool, true, false, none, some, [], ◌∷◌, contains, rsplit, string_eq,
  option_eq, nat_eq, ℕ_discrete, if◌then◌else◌,
}
use kylin_guard_agent.Base.Dict.{lookup}
use kylin_guard_agent.Base.Exec.{ok}
use kylin_guard_agent.Json.{pos}
use kylin_guard_agent.Json.Print.{canonical_arguments}
use kylin_guard_agent.Guardrails.Approval.{ApprovalTokenManager, consume, authenticate}
use kylin_guard_agent.Executor.Machine.{Platform, ExecutionResult, use_approval}
use kylin_guard_agent.Executor.Systemd.{
  CommandRunner, execute, restart, is_active, came_up, restore,
}
use kylin_guard_agent.Executor.Systemd.Brokered.{Client, systemctl_runner}
use kylin_guard_agent.Executor.Systemd.Verified.{IsVerified, execute-IsVerified}
use kylin_guard_agent.Executor.Processes
use kylin_guard_agent.Executor.Processes.{
  ProcessIdentity, ProcessCandidate, ProcessController, protect_pid, require_current, is_same,
  is_gone, wait, execute_rollback,
}
use kylin_guard_agent.Executor.Processes.Safe.{
  IsTerminated, execute-IsTerminated, execute_rollback-never,
}
use kylin_guard_agent.Examples.Fixtures.{plain_crypto}

-- A token for the tool and the arguments' digest given.
abbrev platform : String → String → Platform
platform tool digest = record {
  crypto = plain_crypto;
  decode = λ payload. some record {
    user_id = "alice";
    task_id = "task";
    tool_name = tool;
    arguments_hash = digest;
    risk_level = "L3";
    expires_at = 400;
    nonce = "n1";
  };
  now = 300;
  fresh_id = "change";
  strip = λ text. text;
  has_space = λ text. false;
  show = λ n. "0";
  resolve = λ path. path;
}

abbrev manager : ApprovalTokenManager
manager = record { secret = "secret"; consumed = [] }

abbrev spent : ApprovalTokenManager
spent = record { secret = "secret"; consumed = "n1" ∷ [] }

-- systemctl that always reports `active`
abbrev runner : CommandRunner Unit
runner = record {
  run = λ argv timeout w. (ok record { returncode = pos 0; stdout = "active"; stderr = "" }, w);
  brokered = none;
}

abbrev restarted : ExecutionResult
restarted = record {
  change_id = "change";
  tool_name = "service_restart";
  status = "SUCCEEDED";
  backup_ref = none;
  verification = "service=nginx; active=true; state_snapshot=active";
  rollback_status = none;
}

execute_example :
    execute
      (platform "service_restart" "{\"service\":\"nginx\"}")
      "/bin/systemctl"
      ("nginx" ∷ [])
      runner
      "alice"
      "task"
      "nginx"
      "payload.ab12"
      (record { approvals = manager; world = tt })
    ≡ (ok restarted, record { approvals = spent; world = tt })
unfolding execute restart is_active came_up use_approval consume authenticate rsplit contains
    string_eq ℕ_discrete canonical_arguments
execute_example = refl

execute-IsVerified_example :
    IsVerified
      (platform "service_restart" "{\"service\":\"nginx\"}")
      "/bin/systemctl"
      ("nginx" ∷ [])
      runner
      "alice"
      "task"
      "nginx"
      "payload.ab12"
      (record { approvals = manager; world = tt })
      (record { approvals = spent; world = tt })
execute-IsVerified_example =
    execute-IsVerified (platform "service_restart" "{\"service\":\"nginx\"}") "/bin/systemctl"
      ("nginx" ∷ []) runner "alice" "task" "nginx" "payload.ab12" restarted
      (record { approvals = manager; world = tt }) (record { approvals = spent; world = tt })
      execute_example

-- The world is whether the worker runs.
abbrev controller : ProcessController Bool
controller = record {
  inspect = λ pid alive. (
    ok (if alive then some record { pid = pid; name = "worker"; start_ticks = 77 } else none),
    alive,
  );
  terminate = λ pid alive. (ok tt, false);
}

abbrev worker : ProcessCandidate
worker = record {
  candidate_id = "process-1";
  pid = 4242;
  name = "worker";
  start_ticks = 77;
  service = "nginx";
}

abbrev terminated : ExecutionResult
terminated = record {
  change_id = "change";
  tool_name = "terminate_process";
  status = "SUCCEEDED";
  backup_ref = none;
  verification = "pid=0; original_start_ticks=0; absent=true; managed_service=nginx";
  rollback_status = none;
}

terminate_example :
    Processes.execute
      (platform "terminate_process" "{\"candidate_id\":\"process-1\"}")
      (1 ∷ 2 ∷ [])
      (("worker", "nginx") ∷ [])
      controller
      none
      1
      "alice"
      "task"
      worker
      "payload.ab12"
      (record { approvals = manager; world = true })
    ≡ (ok terminated, record { approvals = spent; world = false })
unfolding Processes.execute require_current protect_pid is_same is_gone wait use_approval consume
    authenticate rsplit contains lookup string_eq option_eq ℕ_discrete canonical_arguments
terminate_example = refl

execute-IsTerminated_example :
    IsTerminated
      (platform "terminate_process" "{\"candidate_id\":\"process-1\"}")
      (1 ∷ 2 ∷ [])
      (("worker", "nginx") ∷ [])
      controller
      none
      1
      "alice"
      "task"
      "payload.ab12"
      worker
      (record { approvals = manager; world = true })
      (record { approvals = spent; world = false })
execute-IsTerminated_example =
    execute-IsTerminated (platform "terminate_process" "{\"candidate_id\":\"process-1\"}")
      (1 ∷ 2 ∷ []) (("worker", "nginx") ∷ []) controller none 1 "alice" "task" "payload.ab12" worker
      terminated (record { approvals = manager; world = true })
      (record { approvals = spent; world = false }) terminate_example

abbrev client : Client Bool
client = record {
  exchange = λ payload w. (ok record { returncode = pos 0; stdout = "active"; stderr = "" }, w);
  query = λ argv timeout w. (ok record { returncode = pos 0; stdout = "active"; stderr = "" }, w);
}

execute_rollback-never_example :
    execute_rollback
      (platform "rollback_change" "{\"change_id\":\"change\"}")
      (1 ∷ 2 ∷ [])
      (("worker", "nginx") ∷ [])
      controller
      (some (
        restore
          (platform "rollback_change" "{\"change_id\":\"change\"}")
          "/bin/systemctl"
          ("nginx" ∷ [])
          (systemctl_runner
            (platform "rollback_change" "{\"change_id\":\"change\"}")
            client
            "/bin/systemctl")))
      1
      "alice"
      "task"
      "change"
      "nginx"
      "payload.ab12"
      (record { approvals = manager; world = true })
    ≢ (ok terminated, record { approvals = spent; world = true })
execute_rollback-never_example =
    execute_rollback-never (platform "rollback_change" "{\"change_id\":\"change\"}") (1 ∷ 2 ∷ [])
      (("worker", "nginx") ∷ []) controller 1 client "/bin/systemctl" ("nginx" ∷ []) "alice" "task"
      "change" "nginx" "payload.ab12" terminated (record { approvals = manager; world = true })
      (record { approvals = spent; world = true })
