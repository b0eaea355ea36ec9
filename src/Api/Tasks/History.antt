-- ===== src/Api/Tasks/History.antt =====
-- The recorded steps of a task, under the task handlers of backend/app/api/router.py.
use kylin_guard_agent.Base.{
  ℕ, ◌+◌, String, ◌≡◌, refl, true, Option, none, some, List, [], ◌∷◌, ◌++◌, ◌==◌, string_eq,
  contains, any, length, length-append, arith, inl, inr, sym, ◌∙◌, Bool-cases, Option-cases,
}
use mathlib.Core.Path.{subst}
use kylin_guard_agent.Base.Dict.{lookup, insert, lookup-insert}
use kylin_guard_agent.Agent.StateMachine.{TaskState, received, cancelled, can_transition, state_eq}
use kylin_guard_agent.Agent.StateMachine.Gates.{can_transition-cancelled}
use kylin_guard_agent.Models.{AgentTask, TaskStep}
use kylin_guard_agent.Api.{Env, Db, Caller, log, require_roles}
use kylin_guard_agent.Api.Tasks.{create_task, cancel_task, transition_task}

-- The steps, numbered after `n`, lead from `s` to `last` by accepted transitions.
abbrev pub Follows : TaskState → ℕ → List TaskStep → TaskState → Type 0
Follows s n [] last = s ≡ last
Follows s n (step ∷ steps) last =
    (step.sequence ≡ n + 1)
    × (step.from_state ≡ s)
    × (can_transition s step.to_state ≡ true)
    × Follows step.to_state (n + 1) steps last

-- A task's state is where its steps lead, or it has been cancelled from there, which records no
-- step; its version counts the changes.
pub data IsConsistent (task : AgentTask) : Type 0 where
  stepped :
      Follows received 0 task.steps task.state
      → task.version ≡ length task.steps + 1
      → IsConsistent task
  was_cancelled :
      (last : TaskState)
      → Follows received 0 task.steps last
      → can_transition last cancelled ≡ true
      → task.state ≡ cancelled
      → task.version ≡ length task.steps + 2
      → IsConsistent task

Follows-append :
    (s last target : TaskState) (n : ℕ) (steps : List TaskStep) (step : TaskStep)
    → Follows s n steps last
    → step.sequence ≡ n + length steps + 1
    → step.from_state ≡ last
    → can_transition last target ≡ true
    → step.to_state ≡ target
    → Follows s n (steps ++ step ∷ []) target
Follows-append s last target n [] step f q e c t = (omega arith, e ∙ sym f, cc, t)
Follows-append s last target n (x ∷ steps) step f q e c t = (
  f.0,
  f.1,
  f.2,
  Follows-append x.to_state last target (n + 1) steps step f.3 (omega arith) e c t,
)

-- Every task of the database is consistent.
unfoldable pub AllConsistent : Db → Type 0
AllConsistent db =
    (id : String) (task : AgentTask) → lookup id db.tasks ≡ some task → IsConsistent task

put-AllConsistent :
    (db : Db) (id : String) (next : AgentTask)
    → AllConsistent db
    → IsConsistent next
    → (j : String) (task : AgentTask) → lookup j (insert id next db.tasks) ≡ some task
    → IsConsistent task
unfolding AllConsistent
put-AllConsistent db id next h c j task e = elim (Bool-cases (j == id)) [
  | inl same ↦ subst IsConsistent (ground (arith, lookup-insert j id next db.tasks)) c
  | inr other ↦ h j task (ground (arith, lookup-insert j id next db.tasks))
]

transitioned-IsConsistent :
    (task next : AgentTask) (step : TaskStep)
    → IsConsistent task
    → can_transition task.state step.to_state ≡ true
    → step.sequence ≡ length task.steps + 1
    → step.from_state ≡ task.state
    → next.steps ≡ task.steps ++ step ∷ []
    → next.state ≡ step.to_state
    → next.version ≡ task.version + 1
    → IsConsistent next
transitioned-IsConsistent task next step (stepped f v) c q e s t w =
    stepped
      (rw (s, t)
        (Follows-append received task.state step.to_state 0 task.steps step f (omega (arith, q)) e c
          refl))
      (rw (w, s, length-append task.steps (step ∷ [])) (omega (arith, v)))
transitioned-IsConsistent task next step (was_cancelled last f d z v) c q e s t w =
    ground (arith, can_transition-cancelled step.to_state)

cancelled-IsConsistent :
    (task next : AgentTask)
    → IsConsistent task
    → can_transition task.state cancelled ≡ true
    → next.steps ≡ task.steps
    → next.state ≡ cancelled
    → next.version ≡ task.version + 1
    → IsConsistent next
cancelled-IsConsistent task next (stepped f v) c s t w =
    was_cancelled task.state (subst (λ x. Follows received 0 x task.state) (sym s) f) c t
      (rw (w, v, s) (omega arith))
cancelled-IsConsistent task next (was_cancelled last f d z v) c s t w =
    ground (arith, can_transition-cancelled cancelled)

module _ (state_name : TaskState → String) where
  -- `create_task` keeps every task consistent, the new one included.
  pub create_task-AllConsistent :
      (env : Env) (caller : Caller) (goal : String) (mode : Option String) (db : Db)
      → AllConsistent db
      → AllConsistent (create_task state_name env caller goal mode db).1
  unfolding create_task require_roles log AllConsistent
  create_task-AllConsistent env caller goal none db h =
      elim (Bool-cases (any (contains ("operator" ∷ "admin" ∷ [])) caller.roles)) [
        | inl e ↦ rw e (put-AllConsistent db env.fresh_id _ h (stepped refl refl))
        | inr e ↦ rw e h
      ]
  create_task-AllConsistent env caller goal (some m) db h =
      elim (Bool-cases (any (contains ("operator" ∷ "admin" ∷ [])) caller.roles)) [
        | inl e ↦ elim (Bool-cases (m == env.mode)) [
          | inl f ↦ rw (e, f) (put-AllConsistent db env.fresh_id _ h (stepped refl refl))
          | inr f ↦ rw (e, f) h
        ]
        | inr e ↦ rw e h
      ]

  -- `cancel_task` keeps every task consistent: its recorded steps are numbered from 1 and lead by
  -- accepted transitions from `received` to its state, or to where it was cancelled from, and its
  -- version counts the changes.
  pub cancel_task-AllConsistent :
      (env : Env) (caller : Caller) (id : String) (db : Db)
      → AllConsistent db
      → AllConsistent (cancel_task state_name env caller id db).1
  unfolding cancel_task require_roles log AllConsistent
  cancel_task-AllConsistent env caller id db h =
      elim (Bool-cases (any (contains ("operator" ∷ "admin" ∷ [])) caller.roles)) [
        | inr e ↦ rw e h
        | inl e ↦ elim (Option-cases (lookup id db.tasks)) [
          | inl f ↦ rw (e, f) h
          | inr (task, f) ↦ elim (Bool-cases (can_transition task.state cancelled)) [
            | inr g ↦ rw (e, f, g) h
            | inl g ↦
                rw (e, f, g)
                  (put-AllConsistent db id _ h
                    (cancelled-IsConsistent task _ (h id task f) g refl refl refl))
          ]
        ]
      ]

  -- `transition_task` keeps every task consistent: its recorded steps are numbered from 1 and
  -- lead by accepted transitions from `received` to its state, or to where it was cancelled from,
  -- and its version counts the changes.
  pub transition_task-AllConsistent :
      (env : Env) (caller : Caller) (id : String) (target : TaskState) (code : String) (db : Db)
      → AllConsistent db
      → AllConsistent (transition_task state_name env caller id target code db).1
  unfolding transition_task require_roles log AllConsistent
  transition_task-AllConsistent env caller id target code db h =
      elim (Bool-cases (any (contains ("operator" ∷ "admin" ∷ [])) caller.roles)) [
        | inr e ↦ rw e h
        | inl e ↦ elim (Option-cases (lookup id db.tasks)) [
          | inl f ↦ rw (e, f) h
          | inr (task, f) ↦ elim (Bool-cases (can_transition task.state target)) [
            | inr g ↦ rw (e, f, g) h
            | inl g ↦
                rw (e, f, g)
                  (put-AllConsistent db id _ h
                    (transitioned-IsConsistent task _ _ (h id task f) g refl refl refl refl refl))
          ]
        ]
      ]
