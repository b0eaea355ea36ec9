-- ===== src/Examples/Planning.antt =====
-- Plans for a goal about the disk.
use kylin_guard_agent.Base.{
  ◌≤◌, true, false, none, some, [], ◌∷◌, ◌≡◌, refl, ◌⊎◌, string_eq, ℕ_discrete, contains, any, all,
  has_substring, find,
}
use kylin_guard_agent.Base.Dict.{lookup}
use kylin_guard_agent.Base.Exec.{value_error, err, pure}
use kylin_guard_agent.Json.{str}
use kylin_guard_agent.Guardrails.Policy.{l1, classify_input, authorize_tool}
use kylin_guard_agent.Agent.Planning.{diagnosis, medium, GoalText, ActionPlan}
use kylin_guard_agent.Agent.Planning.Routing.{
  contains_any, route, required_tools, default_arguments, port_from_goal, is_l2_tool,
}
use kylin_guard_agent.Agent.Planning.Routing.Known.{port_from_goal-in_range}
use kylin_guard_agent.Agent.Planning.Planner.{
  normalize_step, check_steps, validate_plan, fallback_steps, journal_steps, rule_fallback,
  forbidden_plan, plan,
}
use kylin_guard_agent.Agent.Planning.Planner.Checked.{IsChecked, plan-IsChecked}
use kylin_guard_agent.Agent.Running.{Screening, collect, dump, observe, run_plan, RunResult, run}
use kylin_guard_agent.Agent.Running.Traced.{IsTraced, run-IsTraced}
use kylin_guard_agent.Tools.Registry.{metadata, ToolResult}
use kylin_guard_agent.Examples.Fixtures.{plain_rules}

abbrev goal_text : GoalText
goal_text = record {
  lower = λ text. text;
  strip = λ text. text;
  number = λ text. some 70000;
  mentions_ssh = λ text. false;
}

abbrev disk_plan : ActionPlan
disk_plan = record {
  plan_id = "p";
  user_goal = "disk";
  intent = diagnosis;
  complexity = medium;
  steps =
      record {
        sequence = 1;
        tool_name = "disk_usage_scan";
        arguments = ("path", str "/") ∷ [];
        purpose = "采集只读系统证据";
      }
      ∷ [];
  expected_evidence = "disk_usage_scan" ∷ [];
  risk_level = l1;
  requires_approval = false;
}

plan-IsChecked_example :
    ((classify_input plain_rules "disk").allowed ≡ false)
      × (disk_plan ≡ forbidden_plan goal_text plain_rules "READ_ONLY" "p" "disk")
    ⊎ IsChecked goal_text plain_rules "READ_ONLY" "disk" disk_plan
unfolding plan classify_input validate_plan check_steps authorize_tool rule_fallback fallback_steps
    journal_steps route required_tools default_arguments contains_any normalize_step is_l2_tool
    metadata lookup string_eq ℕ_discrete contains any all has_substring
plan-IsChecked_example =
    plan-IsChecked goal_text plain_rules "READ_ONLY" (λ goal. err (value_error "LLM_UNAVAILABLE"))
      "p" "disk" disk_plan refl

port_from_goal-in_range_example :
    (1 ≤ port_from_goal goal_text "port 70000") × (port_from_goal goal_text "port 70000" ≤ 65535)
port_from_goal-in_range_example = port_from_goal-in_range goal_text "port 70000"

abbrev screening : Screening
screening = record {
  sanitize_text = λ size text. text;
  lower = λ text. text;
  contains_instruction_like_data = λ payload. false;
}

-- the answer of the tool, which the state does not change
abbrev disk_result : ToolResult
disk_result = record {
  tool_name = "disk_usage_scan";
  status = "SUCCEEDED";
  payload = ("used", str "40%") ∷ [];
  warnings = [];
  truncated = false;
  is_demo = true;
  error_code = none;
}

abbrev disk_run : RunResult
disk_run = record {
  plan = disk_plan;
  evidence = collect screening "disk_usage_scan" (dump disk_result) ∷ [];
  status = "SUCCEEDED";
  cleanup_analysis = [];
}

run-IsTraced_example :
    IsTraced goal_text plain_rules "READ_ONLY" screening
      (λ goal. err (value_error "LLM_UNAVAILABLE"))
      (λ tool_name arguments. pure disk_result)
      (λ payload. pure [])
      "disk"
      tt
      tt
      disk_run
unfolding run run_plan observe plan classify_input validate_plan check_steps authorize_tool
    rule_fallback fallback_steps journal_steps route required_tools default_arguments contains_any
    normalize_step is_l2_tool metadata lookup string_eq ℕ_discrete contains any all has_substring
    collect find
run-IsTraced_example =
    run-IsTraced goal_text plain_rules "READ_ONLY" screening
      (λ goal. err (value_error "LLM_UNAVAILABLE")) (λ tool_name arguments. pure disk_result)
      (λ payload. pure []) "p" "disk" tt tt disk_run refl
