-- ===== src/Examples/StateMachine.antt =====
-- Runs of the state machine.
use kylin_guard_agent.Base.{◌≤◌, ◌≡◌, ◌≢◌, refl, true, List, [], ◌∷◌, length, contains}
use kylin_guard_agent.Agent.StateMachine.{
  TaskState, TaskState-discrete, cancelled, blocked, action_guard, dry_run, waiting_approval,
  approved, backing_up, executing, verifying, rolling_back, rolled_back, can_transition, terminal,
  state_eq,
}
use kylin_guard_agent.Agent.StateMachine.Rank.{Accepted, final, rank, length-le-rank}
use kylin_guard_agent.Agent.StateMachine.Gates.{
  stages, executing-stages, backing_up-not-cancelled, way_out, way_out_lem,
}

abbrev guarded_run : List TaskState
guarded_run = dry_run ∷ waiting_approval ∷ approved ∷ backing_up ∷ executing ∷ []

executing-stages_example : guarded_run ≡ stages action_guard
unfolding can_transition TaskState-discrete
executing-stages_example =
    executing-stages action_guard guarded_run (refl, (refl, (refl, (refl, (refl, tt))))) refl

abbrev failed_change : List TaskState
failed_change = executing ∷ verifying ∷ rolling_back ∷ rolled_back ∷ []

backing_up-not-cancelled_example :
    (final backing_up failed_change ≢ cancelled) × (final backing_up failed_change ≢ blocked)
unfolding can_transition TaskState-discrete
backing_up-not-cancelled_example =
    backing_up-not-cancelled failed_change (refl, (refl, (refl, (refl, tt))))

length-le-rank_example : length failed_change ≤ rank backing_up
unfolding can_transition TaskState-discrete
length-le-rank_example = length-le-rank backing_up failed_change (refl, (refl, (refl, (refl, tt))))

way_out_lem_example :
    Accepted verifying (way_out verifying)
    × (contains terminal (final verifying (way_out verifying)) ≡ true)
way_out_lem_example = way_out_lem verifying
