-- ===== src/Agent.antt =====
-- backend/app/agent: the states of a task, and the planner.
pub mod StateMachine
pub mod Planning
pub mod Cleanup
pub mod Running
