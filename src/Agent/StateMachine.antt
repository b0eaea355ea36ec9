-- ===== src/Agent/StateMachine.antt =====
-- backend/app/agent/state_machine.py: the states of a task and the table of allowed transitions.
pub mod Rank
pub mod Gates
use kylin_guard_agent.Base.{
  ◌≡◌, refl, Bool, true, false, List, [], ◌∷◌, ◌==◌, Eq, contains, not, ◌&&◌,
}

pub data TaskState : Type 0 where
  received input_guard intent_classified context_collecting planned plan_guard : TaskState
  tool_calling evidence_ready root_cause_analyzed action_proposed action_guard : TaskState
  dry_run waiting_approval approved backing_up executing verifying rolling_back : TaskState
  succeeded failed blocked rolled_back cancelled : TaskState

unfoldable pub TaskState-discrete : Discrete TaskState
TaskState-discrete = hlevel

instance abbrev pub state_eq : Eq TaskState
state_eq = record { dec = TaskState-discrete }

-- `TERMINAL`
unfoldable pub terminal : List TaskState
terminal = succeeded ∷ failed ∷ blocked ∷ rolled_back ∷ cancelled ∷ []

-- `TRANSITIONS.get(current, set())`
unfoldable pub transitions : TaskState → List TaskState
transitions received = input_guard ∷ cancelled ∷ []
transitions input_guard = intent_classified ∷ blocked ∷ failed ∷ []
transitions intent_classified = context_collecting ∷ blocked ∷ failed ∷ []
transitions context_collecting = planned ∷ blocked ∷ failed ∷ []
transitions planned = plan_guard ∷ blocked ∷ failed ∷ []
transitions plan_guard = tool_calling ∷ blocked ∷ failed ∷ []
transitions tool_calling = evidence_ready ∷ blocked ∷ failed ∷ []
transitions evidence_ready = root_cause_analyzed ∷ succeeded ∷ failed ∷ []
transitions root_cause_analyzed = action_proposed ∷ succeeded ∷ failed ∷ []
transitions action_proposed = action_guard ∷ cancelled ∷ []
transitions action_guard = dry_run ∷ blocked ∷ failed ∷ []
transitions dry_run = waiting_approval ∷ failed ∷ []
transitions waiting_approval = approved ∷ blocked ∷ cancelled ∷ []
transitions approved = backing_up ∷ blocked ∷ []
transitions backing_up = executing ∷ failed ∷ []
transitions executing = verifying ∷ failed ∷ []
transitions verifying = succeeded ∷ rolling_back ∷ []
transitions rolling_back = rolled_back ∷ failed ∷ []
transitions _ = []

unfoldable pub can_transition : TaskState → TaskState → Bool
unfolding terminal transitions contains
can_transition current target =
    not (contains terminal current) && contains (transitions current) target
