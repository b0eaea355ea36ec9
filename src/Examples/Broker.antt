-- ===== src/Examples/Broker.antt =====
-- Connections to the broker.
use kylin_guard_agent.Base.{
  ℕ, ◌≤◌, ◌≡◌, ◌≢◌, ◌⊎◌, refl, true, none, some, List, [], ◌∷◌, arith, contains, string_eq,
  option_eq, nat_eq, any, ℕ_discrete, find, all, length,
}
use kylin_guard_agent.Base.Dict.{lookup}
use kylin_guard_agent.Base.Exec.{Error, type_error, ok, err}
use kylin_guard_agent.Json.{int, pos, str, arr, nil, obj, Fields, field, end, Arguments, as_str}
use kylin_guard_agent.Json.Print.{canonical_arguments}
use kylin_guard_agent.Executor.Broker.{Connection, escapes, Process, handle_connection}
use kylin_guard_agent.Executor.Broker.Request.{of_fields}
use kylin_guard_agent.Executor.Broker.Wire.{receive_line, receive, recv, line_of, max_message_bytes}
use kylin_guard_agent.Executor.Broker.Wire.Line.{bytes, receive_line_lem}
use kylin_guard_agent.Executor.Broker.Authorize.{
  Database, Outside, matches, consume_rows, expired, expected_action, authorize_and_consume,
}
use kylin_guard_agent.Executor.Broker.Authorize.Accepts.{IsAuthorized, authorize-IsAuthorized}
use kylin_guard_agent.Executor.Broker.Authorize.SingleUse.{live, authorize-refuses_used}
use kylin_guard_agent.Executor.Broker.Handling.{
  Ran, IsDenied, handle_connection-Ran, unhashable_action-escapes,
}
use kylin_guard_agent.Examples.Fixtures.{nginx_approval}

abbrev outside : Outside
outside = record {
  sha256 = λ text. text;
  column = λ instant. some "2026";
  parse_instant = λ text. some 9;
  show = λ n. "0";
  now = 5;
}

abbrev database : Database
database = record {
  approvals = ("approval", nginx_approval) ∷ [];
  cleanup_candidates = [];
  executions = [];
  backups = [];
}

abbrev spent : Database
spent = record database {
  approvals = ("approval", record nginx_approval { status = "CONSUMED" }) ∷ [];
}

abbrev request : Arguments
request =
    ("version", int (pos 1))
    ∷ ("action", str "service_restart")
    ∷ ("service", str "nginx")
    ∷ ("user_id", str "alice")
    ∷ ("task_id", str "task")
    ∷ ("approval_token", str "the-token")
    ∷ []

authorize_example :
    authorize_and_consume outside request database ≡ (ok ("service_restart" ∷ "nginx" ∷ []), spent)
unfolding authorize_and_consume expected_action matches consume_rows expired find lookup as_str
    string_eq option_eq ℕ_discrete canonical_arguments
authorize_example = refl

authorize-IsAuthorized_example :
    IsAuthorized outside request database spent ("service_restart" ∷ "nginx" ∷ [])
authorize-IsAuthorized_example =
    authorize-IsAuthorized outside request database spent ("service_restart" ∷ "nginx" ∷ [])
      authorize_example

authorize-refuses_used_example :
    (e : Error) × (authorize_and_consume (record outside { now = 6 }) request spent
      ≡ (err e, spent))
unfolding live lookup as_str string_eq option_eq ℕ_discrete
authorize-refuses_used_example =
    authorize-refuses_used outside request request "the-token" database spent
      ("service_restart" ∷ "nginx" ∷ []) 6 (omega arith) refl refl authorize_example

abbrev parsed : Fields
parsed = field "version" (int (pos 1)) (
    field "action" (arr nil) (
      field "user_id" (str "alice")
        (field "task_id" (str "task") (field "approval_token" (str "the-token") end))))

abbrev process : Process
process = record {
  loads = λ raw. ok (obj parsed);
  run_helper = λ args. ok record { returncode = pos 0; stdout = "active"; stderr = "" };
  type_name = λ e. "ValueError";
}

abbrev connection : Connection
connection = record { peer_uid = some 1000; stream = (123 ∷ 10 ∷ []) ∷ [] }

handle_connection-Ran_example :
    let (handled, after) = handle_connection outside process connection 1000 database in
    Ran outside process connection 1000 database after handled
    ⊎ ((after ≡ database) × IsDenied outside process handled)
handle_connection-Ran_example = handle_connection-Ran outside process connection 1000 database

unhashable_action-escapes_example :
    handle_connection outside process connection 1000 database ≡ (escapes type_error, database)
unfolding receive_line receive recv line_of contains all any of_fields lookup string_eq ℕ_discrete
unhashable_action-escapes_example =
    unhashable_action-escapes outside process connection 1000 database (123 ∷ []) parsed refl refl
      refl refl refl refl refl

receive_line_lem_example :
    (receive_line connection.stream ≢ none)
    × ((line : List ℕ)
        → receive_line connection.stream ≡ some (ok line)
        → (line ≡ line_of (bytes connection.stream))
          × (contains (bytes connection.stream) 10 ≡ true)
          × (length line ≤ max_message_bytes))
receive_line_lem_example = receive_line_lem connection.stream
