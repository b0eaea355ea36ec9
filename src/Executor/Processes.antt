-- ===== src/Executor/Processes.antt =====
-- backend/app/executor/process.py: terminating a managed process.
-- The process table and signals are the interface `ProcessController`, the service restart the
-- interface `restore`. The wait is `polls` rounds: how often the clock is before the deadline.
pub mod Safe
use kylin_guard_agent.Base.{
  ℕ, zero, suc, String, ◌<>◌, Bool, true, false, Option, none, some, List, [], ◌∷◌, ◌==◌, string_eq,
  nat_eq, option_eq, contains, not, leb, ◌||◌, ◌&&◌, prefix, if◌then◌else◌,
}
use kylin_guard_agent.Base.Dict.{Dict, lookup}
use kylin_guard_agent.Base.Exec.{Error, value_error, Exec, pure, raise, raise_if, ◌>>=◌, ◌>>◌}
use kylin_guard_agent.Json.{Value, str, int, pos, bool, Arguments}
use kylin_guard_agent.Json.Print.{canonical_arguments}
use kylin_guard_agent.Executor.Machine.{Machine, Platform, ExecutionResult, on_world, use_approval}

pub record ProcessIdentity : Type 0 where
  pub pid : ℕ
  pub name : String
  pub start_ticks : ℕ

pub record ProcessCandidate : Type 0 where
  pub candidate_id : String
  pub pid : ℕ
  pub name : String
  pub start_ticks : ℕ
  pub service : String

pub record ProcessController (W : Type 0) : Type 0 where
  pub inspect : ℕ → Exec W (Option ProcessIdentity)
  pub terminate : ℕ → Exec W Unit

-- `own` holds `os.getpid()` and `os.getppid()`.
module _ {W : Type 0} (platform : Platform) (own : List ℕ) (managed_processes : Dict String String)
    (controller : ProcessController W) (restorer : Option (String → Exec (Machine W) Bool))
    (polls : ℕ) where
  unfoldable pub protect_pid : ℕ → Exec (Machine W) Unit
  protect_pid pid = raise_if (leb pid 1 || contains own pid) (value_error "PROCESS_PROTECTED")

  -- the snapshot's digest in an id
  abbrev pub candidate_id_of : ProcessIdentity → String → String
  candidate_id_of identity service =
      "process-"
      <> prefix 24 (
          platform.crypto.sha256 (
            canonical_arguments (
              ("pid", int (pos identity.pid))
              ∷ ("name", str identity.name)
              ∷ ("start_ticks", int (pos identity.start_ticks))
              ∷ ("service", str service)
              ∷ [])))

  candidate_of : ProcessIdentity → Option String → Exec (Machine W) ProcessCandidate
  candidate_of identity none = raise (value_error "PROCESS_NOT_MANAGED")
  candidate_of identity (some service) = pure record {
    candidate_id = candidate_id_of identity service;
    pid = identity.pid;
    name = identity.name;
    start_ticks = identity.start_ticks;
    service = service;
  }

  identified : Option ProcessIdentity → Exec (Machine W) ProcessCandidate
  unfolding candidate_of
  identified none = raise (value_error "PROCESS_NOT_FOUND")
  identified (some identity) = candidate_of identity (lookup identity.name managed_processes)

  unfoldable pub create_candidate : ℕ → Exec (Machine W) ProcessCandidate
  unfolding identified
  create_candidate pid = do
    protect_pid pid
    identity ← on_world (controller.inspect pid)
    identified identity

  -- the same process, by its name and its start
  unfoldable pub is_same : ProcessCandidate → Option ProcessIdentity → Bool
  is_same candidate none = false
  is_same candidate (some current) =
      current.name == candidate.name && current.start_ticks == candidate.start_ticks

  unfoldable pub require_current : ProcessCandidate → Exec (Machine W) Unit
  unfolding is_same
  require_current candidate = do
    protect_pid candidate.pid
    current ← on_world (controller.inspect candidate.pid)
    raise_if
        (not (is_same candidate current)
          || not (lookup candidate.name managed_processes == some candidate.service))
        (value_error "PROCESS_CANDIDATE_STALE_OR_UNSAFE")

  unfoldable pub dry_run : ProcessCandidate → Exec (Machine W) Arguments
  dry_run candidate = do
    require_current candidate
    pure (
        ("tool_name", str "terminate_process")
        ∷ ("candidate_id", str candidate.candidate_id)
        ∷ ("pid", int (pos candidate.pid))
        ∷ ("name", str candidate.name)
        ∷ ("service", str candidate.service)
        ∷ ("start_ticks", int (pos candidate.start_ticks))
        ∷ ("risk_level", str "L3")
        ∷ ("requires_approval", bool true)
        ∷ ("state_snapshot", str "pid, name, start_ticks and managing systemd service")
        ∷ ("verification", str "original process identity no longer exists")
        ∷ ("rollback", str "restart allowlisted managing service")
        ∷ [])

  -- `current is None or current.start_ticks != candidate.start_ticks`
  unfoldable pub is_gone : ProcessCandidate → Option ProcessIdentity → Bool
  is_gone candidate none = true
  is_gone candidate (some current) = not (current.start_ticks == candidate.start_ticks)

  -- The `while` loop: whether it broke off, so that its `else` is skipped.
  unfoldable pub wait : ℕ → ProcessCandidate → Exec (Machine W) Bool
  unfolding is_gone
  wait zero candidate = pure false
  wait (suc n) candidate =
      let rest = wait n candidate in
      do
        current ← on_world (controller.inspect candidate.pid)
        if is_gone candidate current then pure true else rest

  unfoldable pub restore_service :
      Option (String → Exec (Machine W) Bool) → String → Exec (Machine W) Unit
  restore_service none service = raise (value_error "PROCESS_ROLLBACK_FAILED")
  restore_service (some restore) service = do
    restored ← restore service
    raise_if (not restored) (value_error "PROCESS_ROLLBACK_FAILED")

  -- the `else` of the loop
  abbrev pub unless_gone : Bool → String → Exec (Machine W) Unit
  unless_gone true service = pure tt
  unless_gone false service = do
    restore_service restorer service
    raise (value_error "PROCESS_TERMINATION_FAILED_ROLLED_BACK")

  unfoldable pub execute :
      String → String → ProcessCandidate → String → Exec (Machine W) ExecutionResult
  execute user_id task_id candidate approval_token = do
    use_approval platform approval_token user_id task_id "terminate_process"
        (("candidate_id", str candidate.candidate_id) ∷ [])
    require_current candidate
    on_world (controller.terminate candidate.pid)
    gone ← wait polls candidate
    unless_gone gone candidate.service
    pure record {
      change_id = platform.fresh_id;
      tool_name = "terminate_process";
      status = "SUCCEEDED";
      backup_ref = none;
      verification =
          "pid="
          <> (platform.show candidate.pid
              <> ("; original_start_ticks="
                  <> (platform.show candidate.start_ticks
                      <> ("; absent=true; managed_service=" <> candidate.service))));
      rollback_status = none;
    }

  unfoldable pub execute_rollback :
      String → String → String → String → String → Exec (Machine W) ExecutionResult
  execute_rollback user_id task_id change_id service approval_token = do
    use_approval platform approval_token user_id task_id "rollback_change"
        (("change_id", str change_id) ∷ [])
    restore_service restorer service
    pure record {
      change_id = change_id;
      tool_name = "rollback_change";
      status = "ROLLED_BACK";
      backup_ref = none;
      verification = "managed_service=" <> (service <> "; restart_verified=true");
      rollback_status = some "SUCCEEDED";
    }
