-- ===== src/Executor/Broker/Authorize.antt =====
-- `_authorize_and_consume`: the broker's own check of the persisted approval, which it consumes in
-- one transaction.
pub mod Rows
pub mod Fixed
pub mod Accepts
pub mod SingleUse
use kylin_guard_agent.Base.{
  ℕ, zero, suc, ◌+◌, String, ◌≡◌, Bool, true, false, Option, none, some, List, [], ◌∷◌, ◌<>◌, not,
  ◌&&◌, ◌||◌, ◌==◌, string_eq, option_eq, nat_eq, contains, leb, find, is_empty, if◌then◌else◌,
}
use kylin_guard_agent.Base.Dict.{Dict, lookup}
use kylin_guard_agent.Base.Exec.{
  Error, value_error, type_error, Result, ok, err, Exec, pure, raise, lift, gets, modify, raise_if,
  ◌>>=◌, ◌>>◌,
}
use kylin_guard_agent.Json.{Value, str, Arguments, as_str}
use kylin_guard_agent.Json.Print.{canonical_arguments}
use kylin_guard_agent.Models.{Approval, CleanupCandidateRecord, ExecutionRecord, BackupRecord}
use kylin_guard_agent.Executor.Broker.Request.{is_text}

-- The tables that the broker reads; only `approvals` is written.
pub record Database : Type 0 where
  pub approvals : Dict String Approval
  pub cleanup_candidates : Dict String CleanupCandidateRecord
  pub executions : Dict String ExecutionRecord
  pub backups : Dict String BackupRecord

-- What the broker gets from outside: the digest; how SQLite stores an instant; the instant of
-- `datetime.fromisoformat(value.replace("Z", "+00:00"))`; `str` of a number; the clock.
pub record Outside : Type 0 where
  pub sha256 : String → String
  pub column : ℕ → Option String
  pub parse_instant : String → Option ℕ
  pub show : ℕ → String
  pub now : ℕ

-- `isinstance(value, str) and value`
abbrev text_of : Option Value → Option String
text_of v = elim (as_str v) [ none ↦ none | some s ↦ if is_empty s then none else some s ]

-- What a valid action asks for: the tool and the arguments that must have been approved, and the
-- arguments of the root helper.
pub record Expected : Type 0 where
  pub tool : String
  pub arguments : Arguments
  pub helper_args : List String

-- the `WHERE` of the `SELECT`
unfoldable pub matches : String → String → String → String → String → Approval → Bool
matches token_hash user_id task_id tool arguments_hash row =
    row.token_hash == some token_hash
    && row.status == "APPROVED"
    && row.requester_id == user_id
    && row.task_id == task_id
    && row.tool_name == tool
    && row.arguments_hash == arguments_hash

-- the `UPDATE`, with its row count
unfoldable pub consume_rows : String → String → Dict String Approval → Dict String Approval × ℕ
consume_rows id token_hash [] = ([], 0)
consume_rows id token_hash ((key, row) ∷ rows) =
    let (rest, count) = consume_rows id token_hash rows in
    if key == id && row.status == "APPROVED" && row.token_hash == some token_hash
    then ((key, record row { status = "CONSUMED" }) ∷ rest, suc count)
    else ((key, row) ∷ rest, count)

module _ (outside : Outside) where
  open outside use {sha256, column, parse_instant, show, now}

  abbrev expired_at : Option ℕ → Bool
  expired_at none = true
  expired_at (some instant) = leb instant now

  -- `_expired`
  unfoldable pub expired : Option String → Bool
  expired none = true
  expired (some value) = expired_at (parse_instant value)

  cleanup_args : String → Option (String × CleanupCandidateRecord) → Result (List String)
  cleanup_args candidate_id none = err (value_error "BROKER_CLEANUP_CANDIDATE_DENIED")
  cleanup_args candidate_id (some (_, row)) = ok (
      "safe_log_cleanup"
      ∷ candidate_id
      ∷ row.path
      ∷ show row.size_bytes
      ∷ show row.inode
      ∷ show row.device
      ∷ row.snapshot_hash
      ∷ "/var/lib/kylin-guard/backups"
      ∷ [])

  -- `_cleanup_helper_args`
  unfoldable pub cleanup_helper_args : Database → String → String → Result (List String)
  unfolding cleanup_args
  cleanup_helper_args database task_id candidate_id = cleanup_args candidate_id (
      find (λ (id, row). id == candidate_id && row.task_id == task_id && row.status == "ELIGIBLE")
        database.cleanup_candidates)

  -- `str(row[0])` of a column that may be NULL
  abbrev show_ref : Option String → String
  show_ref none = "None"
  show_ref (some ref) = ref

  rollback_args :
      String
      → Option (String × ExecutionRecord)
      → Option (String × BackupRecord)
      → Result (List String)
  rollback_args change_id (some (_, execution)) (some (_, backup)) = ok (
      "cleanup_rollback"
      ∷ change_id
      ∷ backup.backup_ref
      ∷ show_ref execution.target_ref
      ∷ "/var/lib/kylin-guard/backups"
      ∷ [])
  rollback_args change_id _ _ = err (value_error "BROKER_ROLLBACK_DENIED")

  -- `_cleanup_rollback_helper_args`
  unfoldable pub cleanup_rollback_helper_args : Database → String → String → Result (List String)
  unfolding rollback_args
  cleanup_rollback_helper_args database task_id change_id =
      rollback_args change_id
        (find
          (λ (id, e).
            id == change_id
            && e.task_id == task_id
            && e.status == "SUCCEEDED"
            && e.tool_name == "safe_log_cleanup")
          database.executions)
        (find (λ (_, b). b.execution_id == change_id) database.backups)

  invalid : Result Expected
  invalid = err (value_error "BROKER_SCHEMA_INVALID")

  with_args : String → Arguments → Result (List String) → Result Expected
  with_args tool arguments (ok helper_args) =
      ok (record { tool = tool; arguments = arguments; helper_args = helper_args })
  with_args tool arguments (err e) = err e

  expect_service_rollback : Option String → Result Expected
  unfolding invalid
  expect_service_rollback none = invalid
  expect_service_rollback (some change_id) = ok (record {
    tool = "rollback_change";
    arguments = ("change_id", str change_id) ∷ [];
    helper_args = "service_rollback" ∷ "nginx" ∷ [];
  })

  expect_cleanup : Database → String → Option String → Result Expected
  unfolding invalid with_args
  expect_cleanup database task_id none = invalid
  expect_cleanup database task_id (some candidate_id) =
      with_args "safe_log_cleanup" (("candidate_id", str candidate_id) ∷ [])
        (cleanup_helper_args database task_id candidate_id)

  expect_cleanup_rollback : Database → String → Option String → Result Expected
  unfolding invalid with_args
  expect_cleanup_rollback database task_id none = invalid
  expect_cleanup_rollback database task_id (some change_id) =
      with_args "rollback_change" (("change_id", str change_id) ∷ [])
        (cleanup_rollback_helper_args database task_id change_id)

  -- the `if` ladder on the action
  unfoldable pub expected_action : Database → String → String → Arguments → Result Expected
  unfolding expect_service_rollback expect_cleanup expect_cleanup_rollback
  expected_action database action task_id request =
      if action == "service_restart"
      then (if is_text (lookup "service" request) "nginx"
          then ok (record {
            tool = "service_restart";
            arguments = ("service", str "nginx") ∷ [];
            helper_args = "service_restart" ∷ "nginx" ∷ [];
          })
          else err (value_error "BROKER_SERVICE_NOT_ALLOWED"))
      else if action == "service_rollback"
      then (if is_text (lookup "service" request) "nginx"
          then expect_service_rollback (text_of (lookup "change_id" request))
          else err (value_error "BROKER_SERVICE_NOT_ALLOWED"))
      else if action == "safe_log_cleanup"
      then expect_cleanup database task_id (text_of (lookup "candidate_id" request))
      else if action == "cleanup_rollback"
      then expect_cleanup_rollback database task_id (text_of (lookup "change_id" request))
      else err (value_error "BROKER_ACTION_NOT_ALLOWED")

  -- the transaction; what it wrote is undone where it raises
  update_row : String → String → List String → Exec Database (List String)
  update_row id token_hash helper_args database =
      let (rows, count) = consume_rows id token_hash database.approvals in
      if count == 1
      then (ok helper_args, record database { approvals = rows })
      else (err (value_error "BROKER_APPROVAL_REPLAYED"), database)

  transact : String → List String → Option (String × Approval) → Exec Database (List String)
  unfolding update_row
  transact token_hash helper_args none = raise (value_error "BROKER_APPROVAL_DENIED")
  transact token_hash helper_args (some (id, row)) =
      if expired (column row.expires_at)
      then raise (value_error "BROKER_APPROVAL_DENIED")
      else update_row id token_hash helper_args

  consume_approval : String → String → String → Expected → Exec Database (List String)
  unfolding transact
  consume_approval user_id task_id approval_token expected database =
      let token_hash = sha256 approval_token in
      transact token_hash expected.helper_args
        (find
          (λ (_, row).
            matches token_hash user_id task_id expected.tool
              (sha256 (canonical_arguments expected.arguments)) row)
          database.approvals)
        database

  authorize :
      Option String
      → Option String
      → Option String
      → Option String
      → Arguments
      → Exec Database (List String)
  unfolding consume_approval
  authorize (some action) (some user_id) (some task_id) (some approval_token) request = do
    expected ← λ database. (expected_action database action task_id request, database)
    consume_approval user_id task_id approval_token expected
  authorize _ _ _ _ request = raise (value_error "BROKER_SCHEMA_INVALID")

  -- `_authorize_and_consume`, on a request that `_parse_request` let through
  unfoldable pub authorize_and_consume : Arguments → Exec Database (List String)
  unfolding authorize
  authorize_and_consume request =
      authorize (text_of (lookup "action" request)) (text_of (lookup "user_id" request))
        (text_of (lookup "task_id" request)) (text_of (lookup "approval_token" request)) request
