-- ===== src/Agent/StateMachine/Gates.antt =====
-- The stages in front of a change in backend/app/agent/state_machine.py, and how a run can end.
use kylin_guard_agent.Base.{
  ◌≤◌, ◌≡◌, refl, true, false, List, [], ◌∷◌, arith, contains, ap, ◌≢◌, ◌∙◌,
}
use mathlib.Core.Path.{subst}
use kylin_guard_agent.Agent.StateMachine.{
  TaskState, received, input_guard, intent_classified, context_collecting, planned, plan_guard,
  tool_calling, evidence_ready, root_cause_analyzed, action_proposed, action_guard, dry_run,
  waiting_approval, approved, backing_up, executing, verifying, rolling_back, succeeded, failed,
  blocked, rolled_back, cancelled, TaskState-discrete, can_transition, terminal, state_eq,
}
use kylin_guard_agent.Agent.StateMachine.Rank.{rank, Accepted, final, rank-final}

abbrev from_approved : List TaskState
from_approved = backing_up ∷ executing ∷ []

abbrev from_proposed : List TaskState
from_proposed = action_guard ∷ dry_run ∷ waiting_approval ∷ approved ∷ from_approved

abbrev from_tools : List TaskState
from_tools = evidence_ready ∷ root_cause_analyzed ∷ action_proposed ∷ from_proposed

-- The stages that lie between a state and `executing`.
pub stages : TaskState → List TaskState
stages received =
    input_guard ∷ intent_classified ∷ context_collecting ∷ planned ∷ plan_guard ∷ tool_calling
    ∷ from_tools
stages input_guard =
    intent_classified ∷ context_collecting ∷ planned ∷ plan_guard ∷ tool_calling ∷ from_tools
stages intent_classified = context_collecting ∷ planned ∷ plan_guard ∷ tool_calling ∷ from_tools
stages context_collecting = planned ∷ plan_guard ∷ tool_calling ∷ from_tools
stages planned = plan_guard ∷ tool_calling ∷ from_tools
stages plan_guard = tool_calling ∷ from_tools
stages tool_calling = from_tools
stages evidence_ready = root_cause_analyzed ∷ action_proposed ∷ from_proposed
stages root_cause_analyzed = action_proposed ∷ from_proposed
stages action_proposed = from_proposed
stages action_guard = dry_run ∷ waiting_approval ∷ approved ∷ from_approved
stages dry_run = waiting_approval ∷ approved ∷ from_approved
stages waiting_approval = approved ∷ from_approved
stages approved = from_approved
stages backing_up = executing ∷ []
stages _ = []

stages-step : (s t : TaskState) → can_transition s t ≡ true → 3 ≤ rank t → t ∷ stages t ≡ stages s
unfolding can_transition rank TaskState-discrete stages
stages-step received t h r = ground arith
stages-step input_guard t h r = ground arith
stages-step _ t h r = ground arith

executing-rank :
    (s : TaskState) (targets : List TaskState)
    → Accepted s targets
    → final s targets ≡ executing
    → 3 ≤ rank s
unfolding rank
executing-rank s targets h e = subst (λ t. rank t ≤ rank s) e (rank-final s targets h)

-- A run of accepted transitions that ends in `executing` passes exactly the stages of its start,
-- in their order: no guard, dry run, approval or backup is skipped.
pub executing-stages :
    (s : TaskState) (targets : List TaskState)
    → Accepted s targets
    → final s targets ≡ executing
    → targets ≡ stages s
unfolding stages
executing-stages s [] h e = rw e
executing-stages s (t ∷ targets) h e =
    ap (λ rest. t ∷ rest) (executing-stages t targets h.1 e)
    ∙ stages-step s t h.0 (executing-rank t targets h.1 e)

-- The states from the backup on.
pub changing : List TaskState
changing = backing_up ∷ executing ∷ verifying ∷ rolling_back ∷ succeeded ∷ failed ∷ rolled_back ∷ []

changing-step :
    (s t : TaskState)
    → contains changing s ≡ true
    → can_transition s t ≡ true
    → contains changing t ≡ true
unfolding can_transition changing TaskState-discrete
changing-step received t c h = ground arith
changing-step input_guard t c h = ground arith
changing-step _ t c h = ground arith

changing-final :
    (s : TaskState) (targets : List TaskState)
    → contains changing s ≡ true
    → Accepted s targets
    → contains changing (final s targets) ≡ true
changing-final s [] c h = c
changing-final s (t ∷ targets) c h = changing-final t targets (changing-step s t c h.0) h.1

not-cancelled-changing :
    (s : TaskState) → contains changing s ≡ true → (s ≢ cancelled) × (s ≢ blocked)
unfolding changing contains TaskState-discrete
not-cancelled-changing s h = ground arith

-- Once the backup has begun, no run of accepted transitions ends in `cancelled` or `blocked`.
pub backing_up-not-cancelled :
    (targets : List TaskState)
    → Accepted backing_up targets
    → (final backing_up targets ≢ cancelled) × (final backing_up targets ≢ blocked)
unfolding changing contains TaskState-discrete
backing_up-not-cancelled targets h =
    not-cancelled-changing (final backing_up targets) (changing-final backing_up targets refl h)

-- A run that leads to a terminal state.
pub way_out : TaskState → List TaskState
way_out received = cancelled ∷ []
way_out action_proposed = cancelled ∷ []
way_out waiting_approval = cancelled ∷ []
way_out approved = blocked ∷ []
way_out verifying = succeeded ∷ []
way_out succeeded = []
way_out failed = []
way_out blocked = []
way_out rolled_back = []
way_out cancelled = []
way_out _ = failed ∷ []

-- From every state the run `way_out` of accepted transitions ends in a terminal state.
pub way_out_lem :
    (s : TaskState) → Accepted s (way_out s) × (contains terminal (final s (way_out s)) ≡ true)
unfolding can_transition way_out TaskState-discrete
way_out_lem received = ((refl, tt), refl)
way_out_lem action_proposed = ((refl, tt), refl)
way_out_lem waiting_approval = ((refl, tt), refl)
way_out_lem approved = ((refl, tt), refl)
way_out_lem verifying = ((refl, tt), refl)
way_out_lem succeeded = (tt, refl)
way_out_lem failed = (tt, refl)
way_out_lem blocked = (tt, refl)
way_out_lem rolled_back = (tt, refl)
way_out_lem cancelled = (tt, refl)
way_out_lem _ = ((refl, tt), refl)

pub can_transition-cancelled : (t : TaskState) → can_transition cancelled t ≡ false
unfolding can_transition TaskState-discrete
can_transition-cancelled t = refl
