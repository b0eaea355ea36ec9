-- ===== src/Agent/StateMachine/Rank.antt =====
-- Runs through `TRANSITIONS` of backend/app/agent/state_machine.py, and how long they can be.
use kylin_guard_agent.Base.{ℕ, ◌≤◌, ◌<◌, ◌≡◌, true, List, [], ◌∷◌, arith, length}
use kylin_guard_agent.Agent.StateMachine.{
  TaskState, received, input_guard, intent_classified, context_collecting, planned, plan_guard,
  tool_calling, evidence_ready, root_cause_analyzed, action_proposed, action_guard, dry_run,
  waiting_approval, approved, backing_up, executing, verifying, rolling_back, TaskState-discrete,
  can_transition,
}

-- how many transitions can still follow
unfoldable pub rank : TaskState → ℕ
rank received = 18
rank input_guard = 17
rank intent_classified = 16
rank context_collecting = 15
rank planned = 14
rank plan_guard = 13
rank tool_calling = 12
rank evidence_ready = 11
rank root_cause_analyzed = 10
rank action_proposed = 9
rank action_guard = 8
rank dry_run = 7
rank waiting_approval = 6
rank approved = 5
rank backing_up = 4
rank executing = 3
rank verifying = 2
rank rolling_back = 1
rank _ = 0

-- The run through `targets` from `s`: each transition is accepted.
abbrev pub Accepted : TaskState → List TaskState → Type 0
Accepted s [] = Unit
Accepted s (t ∷ targets) = (can_transition s t ≡ true) × Accepted t targets

pub rank-lt : (s t : TaskState) → can_transition s t ≡ true → rank t < rank s
unfolding can_transition rank TaskState-discrete
rank-lt received t h = ground arith
rank-lt input_guard t h = ground arith
rank-lt _ t h = ground arith

-- Every run of accepted transitions from a state has at most as many steps as its rank.
pub length-le-rank :
    (s : TaskState) (targets : List TaskState) → Accepted s targets → length targets ≤ rank s
length-le-rank s [] h = omega arith
length-le-rank s (t ∷ targets) h = omega (arith, rank-lt s t h.0, length-le-rank t targets h.1)

-- the state in which the run ends
abbrev pub final : TaskState → List TaskState → TaskState
final s [] = s
final s (t ∷ targets) = final t targets

pub rank-final :
    (s : TaskState) (targets : List TaskState)
    → Accepted s targets
    → rank (final s targets) ≤ rank s
rank-final s [] h = omega arith
rank-final s (t ∷ targets) h = omega (arith, rank-lt s t h.0, rank-final t targets h.1)
