-- ===== src/Examples.antt =====
-- Concrete runs: tests of the definitions, and the theorems applied to them.
mod Fixtures
mod StateMachine
mod Approval
mod Policy
mod Audit
mod Broker
mod Api
mod Executor
mod Planning
mod Files
