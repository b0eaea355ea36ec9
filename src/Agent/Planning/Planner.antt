-- ===== src/Agent/Planning/Planner.antt =====
-- `Planner.plan`: the model's plan if it validates, otherwise the fallback by rules.
-- The model is a parameter: for a goal it gives a plan, or none where it is unavailable or its
-- answer does not fit the schema. The prompt is not built.
pub mod Checked
pub mod Fallback
use kylin_guard_agent.Base.{
  ℕ, ◌+◌, String, Bool, true, false, Option, none, some, List, [], ◌∷◌, ◌++◌, ◌==◌, string_eq, any,
  all, contains, map, length, not, ◌&&◌, ◌||◌, if◌then◌else◌, ltb,
}
use kylin_guard_agent.Base.Dict.{lookup}
use kylin_guard_agent.Base.Exec.{Error, value_error, Result, ok, err}
use kylin_guard_agent.Json.{Value, int, pos, str, Arguments}
use kylin_guard_agent.Guardrails.Policy.{
  RiskLevel, l1, l2, l4, level, PolicyDecision, TextRules, classify_input, authorize_tool,
}
use kylin_guard_agent.Tools.Registry.{ToolMetadata, metadata}
use kylin_guard_agent.Agent.Planning.{
  Intent, cleanup, forbidden_intent, Complexity, simple, PlanStep, ActionPlan, GoalText,
}
use kylin_guard_agent.Agent.Planning.Routing.{
  disk_terms, cleanup_terms, contains_any, route, required_tools, service_name_from_goal,
  default_arguments, is_l2_tool,
}

abbrev pub is_cleanup : Intent → Bool
is_cleanup cleanup = true
is_cleanup _ = false

module _ (text : GoalText) (rules : TextRules) (server_mode : String) where
  open text use {lower, strip}

  -- the loop's body of `_normalize_plan_arguments`
  unfoldable pub normalize_step : String → PlanStep → PlanStep
  normalize_step goal step =
      if step.tool_name == "disk_usage_scan" && contains_any (lower goal) disk_terms
      then record step { arguments = ("path", str "/") ∷ [] }
      else if step.tool_name == "large_file_scan" && contains_any (lower goal) cleanup_terms
      then record step {
        arguments =
            ("path", str "__cleanup_roots__")
            ∷ ("min_bytes", int (pos 10000000))
            ∷ ("limit", int (pos 50))
            ∷ [];
      }
      else if step.tool_name == "port_owner_lookup"
      then record step { arguments = default_arguments text goal "port_owner_lookup" }
      else step

  check_tool : ActionPlan → PlanStep → Option ToolMetadata → Result {0} Unit
  check_tool plan step none = err (value_error "TOOL_NOT_REGISTERED")
  check_tool plan step (some tool) =
      let decision =
        authorize_tool rules plan.user_goal step.tool_name tool.read_only server_mode none in
      if ltb (level plan.risk_level) (level tool.risk_level)
      then err (value_error "RISK_DOWNGRADE_REJECTED")
      else if not decision.allowed
      then err (value_error decision.reason_code)
      else ok tt

  abbrev and_then : Result {0} Unit → Result {0} Unit → Result {0} Unit
  and_then (ok _) rest = rest
  and_then (err e) rest = err e

  -- the loop over the steps
  unfoldable pub check_steps : ActionPlan → List PlanStep → Result {0} Unit
  unfolding check_tool
  check_steps plan [] = ok tt
  check_steps plan (step ∷ steps) =
      and_then (check_tool plan step (lookup step.tool_name metadata)) (check_steps plan steps)

  abbrev pub covers : List String → List PlanStep → Bool
  covers required steps = all (contains (map (λ (step : PlanStep). step.tool_name) steps)) required

  check_required : String → ActionPlan → Result {0} Unit → Result ActionPlan
  check_required goal plan (err e) = err e
  check_required goal plan (ok _) =
      if covers (required_tools text goal) plan.steps
      then ok plan
      else err (value_error "REQUIRED_EVIDENCE_TOOL_MISSING")

  -- `_validate_plan`: the plan with its normalized arguments, or the ValueError
  unfoldable pub validate_plan : ActionPlan → String → Result ActionPlan
  unfolding check_required
  validate_plan plan original_goal =
      let normalized : ActionPlan = record plan {
        steps = map (normalize_step original_goal) plan.steps;
      } in
      if not (strip plan.user_goal == strip original_goal)
      then err (value_error "GOAL_MISMATCH")
      else check_required original_goal normalized (check_steps normalized normalized.steps)

  -- the enumerated steps, from the number given
  unfoldable pub fallback_steps : String → ℕ → List String → List PlanStep
  fallback_steps goal sequence [] = []
  fallback_steps goal sequence (tool ∷ tools) =
      record {
        sequence = sequence;
        tool_name = tool;
        arguments = default_arguments text goal tool;
        purpose = "采集只读系统证据";
      }
      ∷ fallback_steps goal (sequence + 1) tools

  -- the log of the service, where the main tool is `service_status`
  unfoldable pub journal_steps : String → String → ℕ → List PlanStep
  journal_steps goal primary_tool count =
      if primary_tool == "service_status"
      then record {
        sequence = count + 1;
        tool_name = "journal_query";
        arguments = ("unit", str (service_name_from_goal text goal)) ∷ ("lines", int (pos 50)) ∷ [];
        purpose = "采集服务最近日志作为辅助证据";
      }
        ∷ []
      else []

  unfoldable pub rule_fallback : String → String → ActionPlan
  rule_fallback plan_id goal =
      let (intent, complexity, primary_tool) = route text goal in
      let required = required_tools text goal in
      let first = fallback_steps goal 1 required in
      let steps = first ++ journal_steps goal primary_tool (length first) in
      record {
        plan_id = plan_id;
        user_goal = goal;
        intent = intent;
        complexity = complexity;
        steps = steps;
        expected_evidence = required;
        risk_level =
            if is_cleanup intent || any (λ (step : PlanStep). is_l2_tool step.tool_name) steps
            then l2
            else l1;
        requires_approval = false;
      }

  abbrev pub forbidden_plan : String → String → ActionPlan
  forbidden_plan plan_id goal = record {
    plan_id = plan_id;
    user_goal = goal;
    intent = forbidden_intent;
    complexity = simple;
    steps = [];
    expected_evidence = [];
    risk_level = l4;
    requires_approval = false;
  }

  abbrev pub or_fallback : String → String → Result ActionPlan → Result ActionPlan
  or_fallback plan_id goal (ok plan) = ok plan
  or_fallback plan_id goal (err (value_error _)) = validate_plan (rule_fallback plan_id goal) goal
  or_fallback plan_id goal (err e) = err e

  -- The `try` block. `LLMUnavailableError` and `ValueError` are both `value_error`; any other exception
  -- of the provider passes through.
  abbrev pub model_plan : String → Result ActionPlan → Result ActionPlan
  model_plan goal (err e) = err e
  model_plan goal (ok plan) = validate_plan plan goal

  -- `plan_id` is the new id of a plan that the planner makes itself.
  unfoldable pub plan : (String → Result ActionPlan) → String → String → Result ActionPlan
  plan generate plan_id goal =
      if not (classify_input rules goal).allowed
      then ok (forbidden_plan plan_id goal)
      else or_fallback plan_id goal (model_plan goal (generate goal))
