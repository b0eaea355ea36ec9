-- ===== src/Api/Executions/SingleUse.antt =====
-- A token over two requests to `execution_run` (backend/app/api/router.py).
use kylin_guard_agent.Base.{
  String, Bool, true, false, Option, none, some, [], ◌∷◌, ◌==◌, string_eq, option_eq, find,
  find-holds, any, contains, ◌||◌, ◌≡◌, refl, arith, Bool-cases, inl, inr, ap, sym, ◌∙◌, eq→≡,
  differ→≢,
}
use mathlib.Core.Option.{some-injective}
use mathlib.Core.Path.{subst}
use kylin_guard_agent.Base.Dict.{Dict, insert}
use kylin_guard_agent.Base.Exec.{value_error, app_error, rbac_denied, Result, ok, err}
use kylin_guard_agent.Models.{Approval, ExecutionRecord}
use kylin_guard_agent.Executor.Machine.{ExecutionResult}
use kylin_guard_agent.Api.{Env, Db, Caller, log, require_roles}
use kylin_guard_agent.Api.Executions.Planned.{
  ExecutionRequest, Site, Executors, Plan, is_valid, by_token, broker_managed, plan_execution,
}
use kylin_guard_agent.Api.Executions.{
  consume_approval, has_execution, commit_execution, record_failure, settle, run_approved,
  run_permitted, execution_run,
}
use kylin_guard_agent.Api.Executions.Recorded.{
  new_id, is_recorded, mark-approvals, record_result-approvals,
}

consumed_ne_approved : ◌==◌ {A = String} "CONSUMED" "APPROVED" ≡ false
unfolding string_eq
consumed_ne_approved = refl

-- A row that a query finds is found where it was replaced by another that the query takes.
find-insert :
    {A : Type 0} (p : String × A → Bool) (id : String) (a b : A) (rows : Dict String A)
    → find p rows ≡ some (id, a)
    → p (id, b) ≡ true
    → find p (insert id b rows) ≡ some (id, b)
unfolding find insert
find-insert p id a b [] h t = ground arith
find-insert {A} p id a b ((key, row) ∷ rows) h t = elim (Bool-cases (id == key)) [
  | inl e ↦ rw e (subst (λ k. find p ((k, b) ∷ rows) ≡ some (id, b)) (eq→≡ id key e) (rw t refl))
  | inr e ↦ elim (Bool-cases (p (key, row))) [
    | inl m ↦
        let same : ◌≡◌ {A = String × A} (key, row) (id, a) = some-injective _ _ (rw m at h) in
        absurd (differ→≢ id key e (sym (ap (λ (x : String × A). x.0) same)))
    | inr m ↦ rw (e, m) (find-insert p id a b rows (rw m at h) t)
  ]
]

module _ {H : Type 0} (executors : Executors H) (env : Env) (caller : Caller)
    (body : ExecutionRequest) where
  commit_execution-approvals :
      (id : String) (approval : Approval) (new : String) (db : Db) (result : Result ExecutionResult)
      (site : Site H)
      → any (λ (key, row). key == new || row.approval_id == id) site.db.executions ≡ false
      → (commit_execution env caller body id approval new db result site).1.db.approvals
        ≡ db.approvals
  unfolding commit_execution has_execution
  commit_execution-approvals id approval new db result site e = rw e refl

  settle-approvals :
      (id : String) (approval : Approval) (source : Option (String × ExecutionRecord))
      (plan : Plan H) (outcome : Result ExecutionResult) (site : Site H)
      → is_recorded outcome ≡ true
      → any (λ (key, row). key == new_id env outcome || row.approval_id == id) site.db.executions
        ≡ false
      → (settle env caller body id approval false source plan outcome site).1.db.approvals
        ≡ insert id (record approval { status = "CONSUMED" }) site.db.approvals
  unfolding settle consume_approval record_failure log is_recorded
  settle-approvals id approval (some source) plan (ok result) site h c =
      record_result-approvals executors env caller body id approval (some source) plan.target_ref
        result _
      ∙ mark-approvals executors env caller body plan.mark _
  settle-approvals id approval none plan (ok result) site h c =
      commit_execution-approvals id approval result.change_id _ (ok result) site c
      ∙ (record_result-approvals executors env caller body id approval none plan.target_ref result _
          ∙ mark-approvals executors env caller body plan.mark _)
  settle-approvals id approval source plan (err (value_error code)) site h c =
      commit_execution-approvals id approval env.fresh_id _ _ site c
  settle-approvals id approval source plan (err e) site h c = ground arith

  executed-approvals :
      (id : String) (approval : Approval) (site : Site H)
      → any (contains ("operator" ∷ "admin" ∷ [])) caller.roles ≡ true
      → by_token env body site.db ≡ some (id, approval)
      → is_valid env caller body (id, approval) ≡ true
      → broker_managed env body site.db ≡ false
      → let (outcome, left) = (plan_execution executors env caller body site.db).call site in
        is_recorded outcome ≡ true
        → left.db.approvals ≡ site.db.approvals
        → any (λ (key, row). key == new_id env outcome || row.approval_id == id) left.db.executions
          ≡ false
        → (execution_run executors env caller body site).1.db.approvals
          ≡ insert id (record approval { status = "CONSUMED" }) site.db.approvals
  unfolding execution_run run_permitted run_approved require_roles
  executed-approvals id approval site r e v m c kept fresh =
      rw (r, e, v, m)
        (settle-approvals id approval _ _ _ _ c fresh
          ∙ ap (insert id (record approval { status = "CONSUMED" })) kept)

  -- a used token
  refuses_consumed :
      (id : String) (approval : Approval) (site : Site H)
      → by_token env body site.db ≡ some (id, record approval { status = "CONSUMED" })
      → execution_run executors env caller body site ≡ (err (app_error rbac_denied 403), site)
  unfolding execution_run run_permitted run_approved require_roles is_valid
  refuses_consumed id approval site e =
      elim (Bool-cases (any (contains ("operator" ∷ "admin" ∷ [])) caller.roles)) [
        | inl r ↦ rw (r, e, consumed_ne_approved) refl
        | inr r ↦ rw r refl
      ]

module _ {H : Type 0} (executors again : Executors H) (env env_again : Env)
    (caller caller_again : Caller) (body body_again : ExecutionRequest) where
  -- An approval that the broker does not manage carries one execution: after one by an operator
  -- or admin with a valid approval, whose call of the executor returns or raises a ValueError,
  -- leaves the approvals alone and clashes with no row of `executions`, every later request with
  -- the same token is refused with RBAC_DENIED and changes nothing, whoever sends it and whatever
  -- else it says.
  pub execution_run-refuses_used :
      (id : String) (approval : Approval) (site : Site H)
      → any (contains ("operator" ∷ "admin" ∷ [])) caller.roles ≡ true
      → by_token env body site.db ≡ some (id, approval)
      → is_valid env caller body (id, approval) ≡ true
      → broker_managed env body site.db ≡ false
      → let (outcome, left) = (plan_execution executors env caller body site.db).call site in
        is_recorded outcome ≡ true
        → left.db.approvals ≡ site.db.approvals
        → any (λ (key, row). key == new_id env outcome || row.approval_id == id) left.db.executions
          ≡ false
        → env_again.crypto ≡ env.crypto
        → body_again.approval_token ≡ body.approval_token
        → let after = (execution_run executors env caller body site).1 in
          execution_run again env_again caller_again body_again after
          ≡ (err (app_error rbac_denied 403), after)
  unfolding by_token
  execution_run-refuses_used id approval site r e v m c kept fresh same_crypto same_token =
      refuses_consumed again env_again caller_again body_again id approval _ (
        rw
          (
            same_crypto,
            same_token,
            executed-approvals executors env caller body id approval site r e v m c kept fresh,
          )
          (find-insert _ id approval _ site.db.approvals e (
            find-holds (λ (_, row). row.token_hash == some (env.crypto.sha256 body.approval_token))
              site.db.approvals e)))
