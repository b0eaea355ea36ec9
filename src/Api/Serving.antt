-- ===== src/Api/Serving.antt =====
-- Sequences of requests on tasks and approvals (backend/app/api/router.py), each with the clock and ids
-- of its own moment and its own caller. `run_task` and `execution_run` are not among them.
use kylin_guard_agent.Base.{ℕ, String, Option, List, [], ◌∷◌, ◌≡◌, arith}
use kylin_guard_agent.Json.{Arguments}
use kylin_guard_agent.Agent.StateMachine.{TaskState}
use kylin_guard_agent.Api.{Env, Db, Caller, log, require_roles}
use kylin_guard_agent.Api.Tasks.{create_task, cancel_task, transition_task}
use kylin_guard_agent.Api.Tasks.History.{
  AllConsistent, create_task-AllConsistent, cancel_task-AllConsistent,
  transition_task-AllConsistent,
}
use kylin_guard_agent.Api.Approvals.{
  create_approval, pending_approval, approve, reject, claim_approval_token,
}
use kylin_guard_agent.Api.Approvals.FourEyes.{
  AllReviewed, create_approval-AllReviewed, approve-AllReviewed, reject-AllReviewed,
  claim_approval_token-AllReviewed,
}

-- what the body and the path of a request say
pub data Request : Type 0 where
  create : String → Option String → Request
  cancel : String → Request
  transition : String → TaskState → String → Request
  ask : String → String → Arguments → ℕ → Request
  accept : String → String → Request
  decline : String → String → Request
  claim : String → Request

-- The tables after each handler, which is what the next one finds, whether it returned or raised.
module _ (state_name : TaskState → String) where
  abbrev pub handle : Env → Caller → Request → Db → Db
  handle env caller (create goal mode) db = (create_task state_name env caller goal mode db).1
  handle env caller (cancel id) db = (cancel_task state_name env caller id db).1
  handle env caller (transition id target code) db =
      (transition_task state_name env caller id target code db).1
  handle env caller (ask task tool arguments ttl) db =
      (create_approval env caller task tool arguments ttl db).1
  handle env caller (accept id reason) db = (approve env caller id reason db).1
  handle env caller (decline id reason) db = (reject env caller id reason db).1
  handle env caller (claim id) db = (claim_approval_token env caller id db).1

  unfoldable pub serve : List (Env × Caller × Request) → Db → Db
  serve [] db = db
  serve ((env, caller, request) ∷ requests) db = serve requests (handle env caller request db)

  create_task-approvals :
      (env : Env) (caller : Caller) (goal : String) (mode : Option String) (db : Db)
      → (create_task state_name env caller goal mode db).1.approvals ≡ db.approvals
  unfolding create_task require_roles log
  create_task-approvals env caller goal mode db = ground arith

  cancel_task-approvals :
      (env : Env) (caller : Caller) (id : String) (db : Db)
      → (cancel_task state_name env caller id db).1.approvals ≡ db.approvals
  unfolding cancel_task require_roles log
  cancel_task-approvals env caller id db = ground arith

  transition_task-approvals :
      (env : Env) (caller : Caller) (id : String) (target : TaskState) (code : String) (db : Db)
      → (transition_task state_name env caller id target code db).1.approvals ≡ db.approvals
  unfolding transition_task require_roles log
  transition_task-approvals env caller id target code db = ground arith

create_approval-tasks :
    (env : Env) (caller : Caller) (task tool : String) (arguments : Arguments) (ttl : ℕ) (db : Db)
    → (create_approval env caller task tool arguments ttl db).1.tasks ≡ db.tasks
unfolding create_approval require_roles log
create_approval-tasks env caller task tool arguments ttl db = ground arith

approve-tasks :
    (env : Env) (caller : Caller) (id reason : String) (db : Db)
    → (approve env caller id reason db).1.tasks ≡ db.tasks
unfolding approve pending_approval require_roles log
approve-tasks env caller id reason db = ground arith

reject-tasks :
    (env : Env) (caller : Caller) (id reason : String) (db : Db)
    → (reject env caller id reason db).1.tasks ≡ db.tasks
unfolding reject pending_approval require_roles log
reject-tasks env caller id reason db = ground arith

claim_approval_token-tasks :
    (env : Env) (caller : Caller) (id : String) (db : Db)
    → (claim_approval_token env caller id db).1.tasks ≡ db.tasks
unfolding claim_approval_token require_roles log
claim_approval_token-tasks env caller id db = ground arith

-- tables with the same tasks, and tables with the same approvals
same_tasks-AllConsistent :
    (db next : Db) → next.tasks ≡ db.tasks → AllConsistent db → AllConsistent next
unfolding AllConsistent
same_tasks-AllConsistent db next e h id task found = h id task (rw e at found)

same_approvals-AllReviewed :
    (db next : Db) → next.approvals ≡ db.approvals → AllReviewed db → AllReviewed next
unfolding AllReviewed
same_approvals-AllReviewed db next e h id row found = h id row (rw e at found)

module _ (state_name : TaskState → String) where
  handle-AllConsistent :
      (env : Env) (caller : Caller) (request : Request) (db : Db)
      → AllConsistent db
      → AllConsistent (handle state_name env caller request db)
  handle-AllConsistent env caller (create goal mode) db h =
      create_task-AllConsistent state_name env caller goal mode db h
  handle-AllConsistent env caller (cancel id) db h =
      cancel_task-AllConsistent state_name env caller id db h
  handle-AllConsistent env caller (transition id target code) db h =
      transition_task-AllConsistent state_name env caller id target code db h
  handle-AllConsistent env caller (ask task tool arguments ttl) db h =
      same_tasks-AllConsistent db _ (create_approval-tasks env caller task tool arguments ttl db) h
  handle-AllConsistent env caller (accept id reason) db h =
      same_tasks-AllConsistent db _ (approve-tasks env caller id reason db) h
  handle-AllConsistent env caller (decline id reason) db h =
      same_tasks-AllConsistent db _ (reject-tasks env caller id reason db) h
  handle-AllConsistent env caller (claim id) db h =
      same_tasks-AllConsistent db _ (claim_approval_token-tasks env caller id db) h

  handle-AllReviewed :
      (env : Env) (caller : Caller) (request : Request) (db : Db)
      → AllReviewed db
      → AllReviewed (handle state_name env caller request db)
  handle-AllReviewed env caller (create goal mode) db h =
      same_approvals-AllReviewed db _ (create_task-approvals state_name env caller goal mode db) h
  handle-AllReviewed env caller (cancel id) db h =
      same_approvals-AllReviewed db _ (cancel_task-approvals state_name env caller id db) h
  handle-AllReviewed env caller (transition id target code) db h =
      same_approvals-AllReviewed db _
        (transition_task-approvals state_name env caller id target code db) h
  handle-AllReviewed env caller (ask task tool arguments ttl) db h =
      create_approval-AllReviewed env caller task tool arguments ttl db h
  handle-AllReviewed env caller (accept id reason) db h =
      approve-AllReviewed env caller id reason db h
  handle-AllReviewed env caller (decline id reason) db h =
      reject-AllReviewed env caller id reason db h
  handle-AllReviewed env caller (claim id) db h =
      claim_approval_token-AllReviewed env caller id db h

  -- Whatever requests to create, cancel and move tasks and to ask for, approve, reject and claim
  -- approvals are served, in whatever order, by whatever callers and at whatever times: if before
  -- every task is consistent and every approval reviewed, so they are after. A consistent task
  -- has recorded steps numbered from 1 that lead by accepted transitions from `received` to its
  -- state, or to where it was cancelled from; a reviewed approval is PENDING, REJECTED, or has an
  -- approver other than its requester.
  pub serve-AllConsistent :
      (requests : List (Env × Caller × Request)) (db : Db)
      → AllConsistent db
      → AllReviewed db
      → AllConsistent (serve state_name requests db) × AllReviewed (serve state_name requests db)
  unfolding serve
  serve-AllConsistent [] db c r = (c, r)
  serve-AllConsistent ((env, caller, request) ∷ requests) db c r =
      serve-AllConsistent requests (handle state_name env caller request db)
        (handle-AllConsistent env caller request db c) (handle-AllReviewed env caller request db r)
