-- ===== src/Agent/Planning.antt =====
-- backend/app/agent/planning.py: plans of read-only steps for a goal.
pub mod Routing
pub mod Planner
use kylin_guard_agent.Base.{ℕ, String, Bool, List, Option}
use kylin_guard_agent.Json.{Arguments}
use kylin_guard_agent.Guardrails.Policy.{RiskLevel}

pub data Intent : Type 0 where
  query diagnosis inspection change cleanup recovery forbidden_intent : Intent

pub data Complexity : Type 0 where
  simple medium complex : Complexity

pub record PlanStep : Type 0 where
  pub sequence : ℕ
  pub tool_name : String
  pub arguments : Arguments
  pub purpose : String

-- The texts that are only shown to people (`summary`, `verification`, `rollback`, `public_reason`)
-- are left out.
pub record ActionPlan : Type 0 where
  pub plan_id : String
  pub user_goal : String
  pub intent : Intent
  pub complexity : Complexity
  pub steps : List PlanStep
  pub expected_evidence : List String
  pub risk_level : RiskLevel
  pub requires_approval : Bool

-- Python's text functions on a goal: `str.lower`, `str.strip`, the number that the regular
-- expression of one to five digits finds, and whether that of `ssh` and `sshd` finds a match.
pub record GoalText : Type 0 where
  pub lower : String → String
  pub strip : String → String
  pub number : String → Option ℕ
  pub mentions_ssh : String → Bool
