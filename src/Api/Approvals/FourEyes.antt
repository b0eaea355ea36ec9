-- ===== src/Api/Approvals/FourEyes.antt =====
-- Who has reviewed an approval, under the handlers of backend/app/api/router.py.
use kylin_guard_agent.Base.{
  ℕ, String, false, none, some, ◌≡◌, refl, [], ◌∷◌, ◌==◌, string_eq, nat_eq, contains, any, not,
  leb, ◌&&◌, ◌||◌, arith, inl, inr, ◌≢◌, Bool-cases, Option-cases,
}
use mathlib.Core.Path.{subst}
use kylin_guard_agent.Base.Dict.{lookup, insert, lookup-insert}
use kylin_guard_agent.Json.{Arguments}
use kylin_guard_agent.Guardrails.Policy.{authorize_tool}
use kylin_guard_agent.Models.{Approval}
use kylin_guard_agent.Api.{Env, Db, Caller, log, require_roles}
use kylin_guard_agent.Api.Approvals.{
  accepts_arguments, create_approval, pending_approval, approve, reject, remaining_seconds,
  claim_approval_token,
}

-- How the row was reviewed: a pending row by nobody, a rejected one by somebody, and each other
-- row (APPROVED, EXPIRED, CONSUMED) by somebody else than its requester.
pub data IsReviewed (approval : Approval) : Type 0 where
  undecided : approval.status ≡ "PENDING" → approval.approver_id ≡ none → IsReviewed approval
  rejected :
      (approver : String)
      → approval.status ≡ "REJECTED"
      → approval.approver_id ≡ some approver
      → IsReviewed approval
  approved :
      (approver : String)
      → approval.approver_id ≡ some approver
      → approver ≢ approval.requester_id
      → IsReviewed approval

unfoldable pub AllReviewed : Db → Type 0
AllReviewed db = (id : String) (row : Approval) → lookup id db.approvals ≡ some row → IsReviewed row

pub put-AllReviewed :
    (db : Db) (id : String) (next : Approval)
    → AllReviewed db
    → IsReviewed next
    → (j : String) (row : Approval) → lookup j (insert id next db.approvals) ≡ some row
    → IsReviewed row
unfolding AllReviewed
put-AllReviewed db id next h c j row e = elim (Bool-cases (j == id)) [
  | inl same ↦ subst IsReviewed (ground (arith, lookup-insert j id next db.approvals)) c
  | inr other ↦ h j row (ground (arith, lookup-insert j id next db.approvals))
]

not_self : (a b : String) → (a == b) ≡ false → b ≢ a
not_self a b e = ground arith

pending-not_approved : ◌==◌ {A = String} "PENDING" "APPROVED" ≡ false
unfolding string_eq
pending-not_approved = refl

rejected-not_approved : ◌==◌ {A = String} "REJECTED" "APPROVED" ≡ false
unfolding string_eq
rejected-not_approved = refl

-- the row with another status or token, once it has been approved
approved-IsReviewed :
    (approval next : Approval)
    → IsReviewed approval
    → approval.status ≡ "APPROVED"
    → next.approver_id ≡ approval.approver_id
    → next.requester_id ≡ approval.requester_id
    → IsReviewed next
approved-IsReviewed approval next (undecided s a) e f g =
    ground (arith, not_self _ _ pending-not_approved)
approved-IsReviewed approval next (rejected x s a) e f g =
    ground (arith, not_self _ _ rejected-not_approved)
approved-IsReviewed approval next (approved x a n) e f g = approved x (rw f a) (rw g n)

-- `create_approval` keeps every approval reviewed, the new one included, on every branch.
pub create_approval-AllReviewed :
    (env : Env) (caller : Caller) (task_id tool_name : String) (arguments : Arguments)
    (expires_in : ℕ) (db : Db)
    → AllReviewed db
    → AllReviewed (create_approval env caller task_id tool_name arguments expires_in db).1
unfolding create_approval require_roles log AllReviewed
create_approval-AllReviewed env caller task_id tool_name arguments expires_in db h =
    elim (Bool-cases (any (contains ("operator" ∷ "admin" ∷ [])) caller.roles)) [
      | inr e ↦ rw e h
      | inl e ↦ elim (Option-cases (lookup task_id db.tasks)) [
        | inl f ↦ rw (e, f) h
        | inr (task, f) ↦
            elim (Bool-cases (
              env.mode == "CONTROLLED_EXECUTION"
              && not (accepts_arguments env db task_id tool_name arguments))) [
                | inl g ↦ rw (e, f, g) h
                | inr g ↦
                    elim (Bool-cases
                      (authorize_tool env.rules task.goal tool_name false env.mode none).allowed) [
                        | inr k ↦ rw (e, f, g, k) h
                        | inl k ↦
                            rw (e, f, g, k)
                              (put-AllReviewed db env.fresh_id _ h (undecided refl refl))
                      ]
              ]
      ]
    ]

-- `approve` keeps every approval reviewed: a row that is neither PENDING nor REJECTED has an
-- approver other than its requester.
pub approve-AllReviewed :
    (env : Env) (caller : Caller) (id reason : String) (db : Db)
    → AllReviewed db
    → AllReviewed (approve env caller id reason db).1
unfolding approve pending_approval require_roles log AllReviewed
approve-AllReviewed env caller id reason db h =
    elim (Bool-cases (any (contains ("approver" ∷ "admin" ∷ [])) caller.roles)) [
      | inr e ↦ rw e h
      | inl e ↦ elim (Option-cases (lookup id db.approvals)) [
        | inl f ↦ rw (e, f) h
        | inr (row, f) ↦
            elim (Bool-cases (not (row.status == "PENDING") || leb row.expires_at env.now)) [
              | inl g ↦ rw (e, f, g) h
              | inr g ↦ elim (Bool-cases (row.requester_id == caller.id)) [
                | inl k ↦ rw (e, f, g, k) h
                | inr k ↦
                    rw (e, f, g, k)
                      (put-AllReviewed db id _ h (approved caller.id refl (not_self _ _ k)))
              ]
            ]
      ]
    ]

-- `reject` keeps every approval reviewed.
pub reject-AllReviewed :
    (env : Env) (caller : Caller) (id reason : String) (db : Db)
    → AllReviewed db
    → AllReviewed (reject env caller id reason db).1
unfolding reject pending_approval require_roles log AllReviewed
reject-AllReviewed env caller id reason db h =
    elim (Bool-cases (any (contains ("approver" ∷ "admin" ∷ [])) caller.roles)) [
      | inr e ↦ rw e h
      | inl e ↦ elim (Option-cases (lookup id db.approvals)) [
        | inl f ↦ rw (e, f) h
        | inr (row, f) ↦
            elim (Bool-cases (not (row.status == "PENDING") || leb row.expires_at env.now)) [
              | inl g ↦ rw (e, f, g) h
              | inr g ↦ rw (e, f, g) (put-AllReviewed db id _ h (rejected caller.id refl refl))
            ]
      ]
    ]

claimable :
    (row : Approval) (id : String)
    → (not (row.requester_id == id) || not (row.status == "APPROVED")) ≡ false
    → row.status ≡ "APPROVED"
claimable row id e = ground arith

-- `claim_approval_token` keeps every approval reviewed, also where it marks a late one EXPIRED.
pub claim_approval_token-AllReviewed :
    (env : Env) (caller : Caller) (id : String) (db : Db)
    → AllReviewed db
    → AllReviewed (claim_approval_token env caller id db).1
unfolding claim_approval_token require_roles log AllReviewed
claim_approval_token-AllReviewed env caller id db h =
    elim (Bool-cases (any (contains ("operator" ∷ "admin" ∷ [])) caller.roles)) [
      | inr e ↦ rw e h
      | inl e ↦ elim (Option-cases (lookup id db.approvals)) [
        | inl f ↦ rw (e, f) h
        | inr (row, f) ↦
            elim (Bool-cases
              (not (row.requester_id == caller.id) || not (row.status == "APPROVED"))) [
                | inl g ↦ rw (e, f, g) h
                | inr g ↦ elim (Bool-cases (leb (remaining_seconds env row) 0)) [
                  | inl k ↦
                      rw (e, f, g, k)
                        (put-AllReviewed db id _ h (
                          approved-IsReviewed row _ (h id row f) (claimable row caller.id g) refl
                            refl))
                  | inr k ↦
                      rw (e, f, g, k)
                        (put-AllReviewed db id _ h (
                          approved-IsReviewed row _ (h id row f) (claimable row caller.id g) refl
                            refl))
                ]
              ]
      ]
    ]
