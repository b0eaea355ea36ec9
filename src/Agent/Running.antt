-- ===== src/Agent/Running.antt =====
-- backend/app/agent/runners.py, and `run` of backend/app/agent/orchestrator.py up to its evidence: the
-- normalized evidence, the root causes, the knowledge hits and the texts for people are left out.
pub mod Traced
use kylin_guard_agent.Base.{
  ℕ, String, Bool, true, false, Option, none, some, List, [], ◌∷◌, ◌==◌, string_eq, if◌then◌else◌,
  take, map, find,
}
use kylin_guard_agent.Base.Exec.{Error, Result, Exec, pure, lift, ◌>>=◌}
use kylin_guard_agent.Json.{
  Value, null, bool, str, arr, obj, Items, nil, cons, Fields, field, end, Arguments, to_fields,
  to_arguments,
}
use kylin_guard_agent.Guardrails.Policy.{TextRules}
use kylin_guard_agent.Guardrails.Untrusted.{sanitize_untrusted}
use kylin_guard_agent.Tools.Registry.{ToolResult}
use kylin_guard_agent.Agent.Planning.{Intent, forbidden_intent, PlanStep, ActionPlan, GoalText}
use kylin_guard_agent.Agent.Planning.Planner.{plan}
use kylin_guard_agent.Agent.Cleanup.{CleanupDecision}

pub record EvidenceRecord : Type 0 where
  pub tool_name : String
  pub payload : Arguments
  pub trust_label : String
  pub injection_suspected : Bool

abbrev pub texts : List String → Items
texts [] = nil
texts (text ∷ more) = cons (str text) (texts more)

abbrev pub or_null : Option String → Value
or_null none = null
or_null (some text) = str text

-- `result.model_dump(mode="json")`
abbrev pub dump : ToolResult → Value
dump result = obj (
    field "tool_name" (str result.tool_name) (
      field "status" (str result.status) (
        field "data" (obj (to_fields result.payload)) (
          field "warnings" (arr (texts result.warnings)) (
            field "truncated" (bool result.truncated) (
              field "trust_label" (str "UNTRUSTED_DATA") (
                field "is_demo" (bool result.is_demo)
                  (field "error_code" (or_null result.error_code) end))))))))

-- `sanitized if isinstance(sanitized, dict) else {"value": sanitized}`
abbrev pub payload_of : Value → Arguments
payload_of (obj members) = to_arguments members
payload_of value = ("value", value) ∷ []

-- What the evidence goes through: `sanitize_text`, `str.lower`, and the search for the injection markers.
pub record Screening : Type 0 where
  pub sanitize_text : ℕ → String → String
  pub lower : String → String
  pub contains_instruction_like_data : Arguments → Bool

unfoldable pub collect : Screening → String → Value → EvidenceRecord
collect screening tool_name payload =
    let safe_payload =
      payload_of (sanitize_untrusted screening.sanitize_text screening.lower 0 payload) in
    record {
      tool_name = tool_name;
      payload = safe_payload;
      trust_label = "UNTRUSTED_DATA";
      injection_suspected = screening.contains_instruction_like_data safe_payload;
    }

-- the default of `max_steps`
abbrev pub max_steps : ℕ
max_steps = 5

module _ {W : Type 0} (screening : Screening)
    (call_tool : String → Arguments → Exec W ToolResult) where
  abbrev pub observe_while :
      Bool → Exec W (List EvidenceRecord × String) → Exec W (List EvidenceRecord × String)
  observe_while true later = later
  observe_while false later = pure ([], "FAILED")

  -- the loop of `ReActRunner.run`
  unfoldable pub observe : List PlanStep → Exec W (List EvidenceRecord × String)
  observe [] = pure ([], "SUCCEEDED")
  observe (step ∷ steps) = do
    result ← call_tool step.tool_name step.arguments
    rest ← observe_while (result.status == "SUCCEEDED") (observe steps)
    pure (collect screening step.tool_name (dump result) ∷ rest.0, rest.1)

  unfoldable pub run_plan : ActionPlan → Exec W (List EvidenceRecord × String)
  run_plan plan = observe (take max_steps plan.steps)

pub record RunResult : Type 0 where
  pub plan : ActionPlan
  pub evidence : List EvidenceRecord
  pub status : String
  pub cleanup_analysis : List CleanupDecision

abbrev pub is_forbidden : Intent → Bool
is_forbidden forbidden_intent = true
is_forbidden _ = false

module _ {W : Type 0} (text : GoalText) (rules : TextRules) (server_mode : String)
    (screening : Screening) (generate : String → Result ActionPlan)
    (call_tool : String → Arguments → Exec W ToolResult)
    (analyze : Arguments → Exec W (List CleanupDecision)) where
  -- the analysis of the first record of `large_file_scan`
  abbrev pub analyze_record : Option EvidenceRecord → Exec W (List CleanupDecision)
  analyze_record none = pure []
  analyze_record (some evidence) = analyze evidence.payload

  abbrev pub run_intent : Bool → ActionPlan → Exec W RunResult
  run_intent true candidate =
      pure (record { plan = candidate; evidence = []; status = "BLOCKED"; cleanup_analysis = [] })
  run_intent false candidate = do
    observed ← run_plan screening call_tool candidate
    decisions ←
        analyze_record (find (λ (e : EvidenceRecord). e.tool_name == "large_file_scan") observed.0)
    pure (record {
      plan = candidate;
      evidence = observed.0;
      status = observed.1;
      cleanup_analysis = decisions;
    })

  -- `AgentOrchestrator.run`
  unfoldable pub run : String → String → Exec W RunResult
  run plan_id goal = do
    candidate ← lift (plan text rules server_mode generate plan_id goal)
    run_intent (is_forbidden candidate.intent) candidate
