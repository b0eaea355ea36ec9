-- ===== src/Agent/Planning/Planner/Checked.antt =====
-- What a plan that `plan` returns has passed (backend/app/agent/planning.py).
use kylin_guard_agent.Base.{
  ◌≤◌, String, true, false, Option, none, some, List, [], ◌∷◌, ◌==◌, string_eq, All, ◌≡◌, refl,
  arith, ◌⊎◌, inl, inr, Bool-cases, eq→≡,
}
use mathlib.Core.Path.{subst}
use kylin_guard_agent.Base.Dict.{lookup}
use kylin_guard_agent.Base.Exec.{
  Result, ok, err, value_error, app_error, os_error, type_error, timeout_expired, integrity_error,
}
use kylin_guard_agent.Guardrails.Policy.{level, TextRules, classify_input, authorize_tool}
use kylin_guard_agent.Tools.Registry.{ToolMetadata, metadata}
use kylin_guard_agent.Agent.Planning.{PlanStep, ActionPlan, GoalText}
use kylin_guard_agent.Agent.Planning.Routing.{required_tools}
use kylin_guard_agent.Agent.Planning.Planner.{
  check_tool, and_then, check_steps, covers, check_required, validate_plan, rule_fallback,
  forbidden_plan, or_fallback, model_plan, plan,
}

module _ (text : GoalText) (rules : TextRules) (server_mode : String) where
  open text use {strip}

  -- The step names a registered tool whose risk the plan admits, and that the policy allows.
  pub record IsAllowed (candidate : ActionPlan) (step : PlanStep) : Type 0 where
    pub tool : ToolMetadata
    pub registered : lookup step.tool_name metadata ≡ some tool
    pub risk : level tool.risk_level ≤ level candidate.risk_level
    pub allowed :
        (authorize_tool rules candidate.user_goal step.tool_name tool.read_only server_mode
          none).allowed
        ≡ true

  pub record IsChecked (goal : String) (candidate : ActionPlan) : Type 0 where
    pub same_goal : strip candidate.user_goal ≡ strip goal
    pub steps : All (IsAllowed candidate) candidate.steps
    pub evidence : covers text rules server_mode (required_tools text goal) candidate.steps ≡ true

  check_tool-IsAllowed :
      (candidate : ActionPlan) (step : PlanStep) (found : Option ToolMetadata) (t : Unit)
      → lookup step.tool_name metadata ≡ found
      → check_tool text rules server_mode candidate step found ≡ ok t
      → IsAllowed candidate step
  unfolding check_tool
  check_tool-IsAllowed candidate step none t e h = ground arith
  check_tool-IsAllowed candidate step (some tool) t e h = record {
    tool = tool;
    registered = e;
    risk = ground arith;
    allowed = ground arith;
  }

  and_then-ok :
      (a b : Result {0} Unit) (t : Unit)
      → and_then text rules server_mode a b ≡ ok t
      → (a ≡ ok tt) × (b ≡ ok t)
  and_then-ok (ok tt) b t h = (refl, h)
  and_then-ok (err e) b t h = ground arith

  check_steps-IsAllowed :
      (candidate : ActionPlan) (steps : List PlanStep) (t : Unit)
      → check_steps text rules server_mode candidate steps ≡ ok t
      → All (IsAllowed candidate) steps
  unfolding check_steps
  check_steps-IsAllowed candidate [] t h = tt
  check_steps-IsAllowed candidate (step ∷ steps) t h =
      let (first, rest) = and_then-ok _ _ t h in
      (
        check_tool-IsAllowed candidate step (lookup step.tool_name metadata) tt refl first,
        check_steps-IsAllowed candidate steps t rest,
      )

  check_required-IsChecked :
      (goal : String) (candidate checked : ActionPlan) (steps : Result {0} Unit)
      → strip candidate.user_goal ≡ strip goal
      → check_steps text rules server_mode candidate candidate.steps ≡ steps
      → check_required text rules server_mode goal candidate steps ≡ ok checked
      → IsChecked goal checked
  unfolding check_required
  check_required-IsChecked goal candidate checked (err e) s c h = ground arith
  check_required-IsChecked goal candidate checked (ok t) s c h =
      elim (Bool-cases (covers text rules server_mode (required_tools text goal) candidate.steps)) [
        | inl e ↦ subst (IsChecked goal) (ground arith) (record {
          same_goal = s;
          steps = check_steps-IsAllowed candidate candidate.steps t c;
          evidence = e;
        })
        | inr e ↦ ground arith
      ]

  pub validate_plan-IsChecked :
      (candidate checked : ActionPlan) (goal : String)
      → validate_plan text rules server_mode candidate goal ≡ ok checked
      → IsChecked goal checked
  unfolding validate_plan
  validate_plan-IsChecked candidate checked goal h =
      elim (Bool-cases (strip candidate.user_goal == strip goal)) [
        | inl e ↦
            check_required-IsChecked goal _ checked _ (eq→≡ _ _ e) refl (rw (validate_plan, e) at h)
        | inr e ↦ ground arith
      ]

  or_fallback-IsChecked :
      (plan_id goal : String) (tried : Result ActionPlan) (returned : ActionPlan)
      → ((candidate : ActionPlan) → tried ≡ ok candidate → IsChecked goal candidate)
      → or_fallback text rules server_mode plan_id goal tried ≡ ok returned
      → IsChecked goal returned
  or_fallback-IsChecked plan_id goal (ok candidate) returned c h = c returned h
  or_fallback-IsChecked plan_id goal (err (value_error code)) returned c h =
      validate_plan-IsChecked (rule_fallback text rules server_mode plan_id goal) returned goal h
  or_fallback-IsChecked plan_id goal (err (app_error code status)) returned c h = ground arith
  or_fallback-IsChecked plan_id goal (err os_error) returned c h = ground arith
  or_fallback-IsChecked plan_id goal (err type_error) returned c h = ground arith
  or_fallback-IsChecked plan_id goal (err timeout_expired) returned c h = ground arith
  or_fallback-IsChecked plan_id goal (err integrity_error) returned c h = ground arith

  model_plan-IsChecked :
      (goal : String) (answer : Result ActionPlan) (candidate : ActionPlan)
      → model_plan text rules server_mode goal answer ≡ ok candidate
      → IsChecked goal candidate
  model_plan-IsChecked goal (err e) candidate h = ground arith
  model_plan-IsChecked goal (ok answer) candidate h =
      validate_plan-IsChecked answer candidate goal h

  -- Whatever the model answers, a returned plan is either the empty plan for a forbidden goal, or
  -- has the goal up to surrounding blanks, only steps of registered tools that the policy allows
  -- and whose risk the plan admits, and a step for each tool that the route requires.
  pub plan-IsChecked :
      (generate : String → Result ActionPlan) (plan_id goal : String) (returned : ActionPlan)
      → plan text rules server_mode generate plan_id goal ≡ ok returned
      → ((classify_input rules goal).allowed ≡ false)
          × (returned ≡ forbidden_plan text rules server_mode plan_id goal)
        ⊎ IsChecked goal returned
  unfolding plan
  plan-IsChecked generate plan_id goal returned h =
      elim (Bool-cases (classify_input rules goal).allowed) [
        | inr e ↦ inl (e, ground arith)
        | inl e ↦ inr (
            or_fallback-IsChecked plan_id goal
              (model_plan text rules server_mode goal (generate goal)) returned
              (model_plan-IsChecked goal (generate goal)) (rw (plan, e) at h))
      ]
