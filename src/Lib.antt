-- ===== src/Lib.antt =====
-- KylinGuard Agent: the agent that inspects a server and changes it only by approved actions.
--
-- The program takes an operator's goal as a task, lets an approver decide on each change, and
-- carries an approved change out by a fixed tool, on its own or through a privileged broker.
-- Every step is written to a chain of hashes.
--
-- The parts, and the files that model them:
-- - Base: shared names, equality as an instance, lists, texts, dicts, and `Exec`, which is code
--   that changes a state and may raise (backend/app/core/errors.py).
-- - Agent/StateMachine: the states of a task (backend/app/agent/state_machine.py); Rank and Gates
--   hold its theorems.
-- - Agent/Planning: the plans of read-only steps (backend/app/agent/planning.py): Routing has the routes
--   from words to tools, Planner the validation, the fallback by rules and `plan`.
-- - Agent/Cleanup: which files may be cleaned up (backend/app/agent/cleanup.py): Classify is
--   `CleanupCandidateClassifier`, Analysis `CleanupAnalysisService`, Eligible an independent description.
-- - Agent/Running: a run of the agent (backend/app/agent/orchestrator.py, backend/app/agent/runners.py),
--   from the goal to the evidence of its steps.
-- - Tools/Registry: the registered tools with their risks, and their calls (mcp_server/registry.py,
--   mcp_server/schemas/models.py).
-- - Json: JSON values and the printer behind `canonical_arguments` (backend/app/guardrails/policy.py).
-- - Guardrails/Approval: `ApprovalTokenManager` (backend/app/guardrails/approval.py).
-- - Guardrails/Policy: `PolicyEngine`, and Policy/PathGuard: `PathGuard` (backend/app/guardrails/policy.py).
-- - Guardrails/Untrusted: `sanitize_untrusted` (backend/app/guardrails/untrusted.py).
-- - Audit: `redact`, `write_audit` and `verify_chain` (backend/app/audit/service.py).
-- - Models: the rows of the tables (backend/app/db/models.py).
-- - Executor/Broker: the broker's server side (backend/app/executor/broker.py): Wire reads a line,
--   Request parses it, Authorize consumes the approval in the database. Authorize/Fixed describes the
--   fixed actions apart from the code, Authorize/Rows the one row that is consumed.
-- - Executor/Systemd: `ControlledServiceExecutor` (backend/app/executor/systemd.py); Systemd/Brokered:
--   the client side of the broker. Executor/Processes: `ControlledProcessExecutor`
--   (backend/app/executor/process.py). Executor/Machine: what both share.
-- - Executor/Files: the files that executors change, where any operation may fail or leave a part of
--   its text; Files/Rules and Files/Frame say what each operation does, as triples of Base/Triple.
-- - Executor/Config: `ControlledConfigExecutor` (backend/app/executor/config_update.py); Config/Update
--   follows its `try` and `except` blocks. Executor/Cleanup: `ControlledCleanupExecutor`
--   (backend/app/executor/production.py).
-- - Deploy/Privileged: the helper that runs as root (deploy/kylin_guard_privileged.py).
-- - Api: the request handlers (backend/app/api/router.py) over the tables as one record: Tasks,
--   Approvals, Executions (`execution_run`, with Executions/Planned for the branches up to the call
--   of an executor), Sessions (with backend/app/auth/dependencies.py), and Serving, which is any
--   sequence of the requests of Tasks and Approvals.
-- - Examples: concrete runs.
--
-- How it is modelled: a handler is a function from the tables to a result and the tables, and what
-- it has not committed when it raises is undone. A row that breaks a unique key of `executions`
-- raises an IntegrityError. The clock, new ids, hashes, `json.loads`, SQLite's storage of instants,
-- sockets, subprocesses and the file system are arguments. Instants are
-- microseconds (seconds in tokens); identifiers and names are ASCII texts, so the printer of
-- `canonical_arguments` also stands for `json.dumps` with its default escapes. The broker's read
-- loop runs on fuel of 8194 rounds, as each round but the last adds a byte to at most 8193. The wait
-- for a process to end is a number of rounds, given as an argument.
--
-- Files hold the text that their bytes encode, and directories are not modelled: making one changes no
-- file. `shutil.copy2` and a write are one operation each, which may fail after a part; a list of
-- outcomes, one for each operation, decides which fail, and nothing bounds how many do.
--
-- What a peer sends ends: a connection that stays open and silent, on which `recv` would wait for ever,
-- is not represented. `redact` is modelled on JSON values; tuples, which its source leaves as they are,
-- do not occur in them. The provider of the model may raise any exception.
--
-- Not modelled: the demo's tools, what the orchestrator makes of the evidence, the providers of the
-- tool server, configuration, the knowledge base and the language model provider, and the web front end. `execution_run` takes
-- the executors as an interface. The planner's prompt and the texts for people are left out.
-- A token signature that is not ASCII, where `compare_digest` raises and the error is another code,
-- is treated as any other wrong signature. Process ids are taken to be natural numbers.
pub mod Base
pub mod Agent
pub mod Json
pub mod Guardrails
pub mod Audit
pub mod Models
pub mod Tools
pub mod Executor
pub mod Deploy
pub mod Api
pub mod Examples
