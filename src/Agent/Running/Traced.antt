-- ===== src/Agent/Running/Traced.antt =====
-- What a run of the agent has called (backend/app/agent/orchestrator.py, backend/app/agent/runners.py).
use kylin_guard_agent.Base.{
  ◌≤◌, String, Bool, true, false, List, [], ◌∷◌, ◌==◌, string_eq, take, map, length, find, arith,
  ◌≡◌, refl, inl, inr,
}
use mathlib.Core.Path.{subst}
use kylin_guard_agent.Base.Exec.{Result, ok, Exec, lift, passed}
use kylin_guard_agent.Json.{Arguments}
use kylin_guard_agent.Guardrails.Policy.{TextRules}
use kylin_guard_agent.Tools.Registry.{ToolResult}
use kylin_guard_agent.Agent.Planning.{PlanStep, ActionPlan, GoalText}
use kylin_guard_agent.Agent.Planning.Planner.{plan}
use kylin_guard_agent.Agent.Planning.Planner.Checked.{IsChecked, plan-IsChecked}
use kylin_guard_agent.Agent.Cleanup.{CleanupDecision}
use kylin_guard_agent.Agent.Running.{
  EvidenceRecord, Screening, dump, collect, max_steps, observe_while, observe, run_plan, RunResult,
  is_forbidden, analyze_record, run_intent, run,
}

abbrev pub tool_of : EvidenceRecord → String
tool_of record_ = record_.tool_name

abbrev pub named : PlanStep → String
named step = step.tool_name

-- The evidence comes from the first steps, in their order, and from all of them after a success.
pub record IsTrace (steps : List PlanStep) (evidence : List EvidenceRecord) (status : String)
    : Type 0 where
  pub in_order : map tool_of evidence ≡ take (length evidence) (map named steps)
  pub bounded : length evidence ≤ length steps
  pub complete : (status == "SUCCEEDED") ≡ true → length evidence ≡ length steps

cons-IsTrace :
    (step : PlanStep) (steps : List PlanStep) (first : EvidenceRecord)
    (evidence : List EvidenceRecord) (status : String)
    → first.tool_name ≡ step.tool_name
    → IsTrace steps evidence status
    → IsTrace (step ∷ steps) (first ∷ evidence) status
cons-IsTrace step steps first evidence status e h = record {
  in_order = rw (e, h.in_order) refl;
  bounded = omega (arith, h.bounded);
  complete = λ done. rw (h.complete done) refl;
}

module _ {W : Type 0} (screening : Screening)
    (call_tool : String → Arguments → Exec W ToolResult) where
  failed-IsTrace : (steps : List PlanStep) → IsTrace steps [] "FAILED"
  unfolding string_eq
  failed-IsTrace steps = record {
    in_order = refl;
    bounded = omega arith;
    complete = λ e. ground arith;
  }

  observe_while-IsTrace :
      (succeeded : Bool) (steps : List PlanStep) (later : Exec W (List EvidenceRecord × String))
      (s t : W) (observed : List EvidenceRecord × String)
      → (later s ≡ (ok observed, t) → IsTrace steps observed.0 observed.1)
      → observe_while screening call_tool succeeded later s ≡ (ok observed, t)
      → IsTrace steps observed.0 observed.1
  observe_while-IsTrace true steps later s t observed k h = k h
  observe_while-IsTrace false steps later s t observed k h =
      subst (λ (o : List EvidenceRecord × String). IsTrace steps o.0 o.1) (ground arith)
        (failed-IsTrace steps)

  observe-IsTrace :
      (steps : List PlanStep) (s t : W) (observed : List EvidenceRecord × String)
      → observe screening call_tool steps s ≡ (ok observed, t)
      → IsTrace steps observed.0 observed.1
  unfolding observe collect
  observe-IsTrace [] s t observed h =
      let returned : ([], "SUCCEEDED") ≡ observed = ground arith in
      subst (λ (o : List EvidenceRecord × String). IsTrace [] o.0 o.1) returned
        (record { in_order = refl; bounded = omega arith; complete = λ e. refl })
  observe-IsTrace (step ∷ steps) s t observed h =
      let p = passed (call_tool step.tool_name step.arguments) _ s t observed h in
      let q =
        passed
          (observe_while screening call_tool (p.value.status == "SUCCEEDED")
            (observe screening call_tool steps))
          _ p.middle t observed p.later in
      let returned : (collect screening step.tool_name (dump p.value) ∷ q.value.0, q.value.1)
          ≡ observed =
        ground (arith, q.later) in
      subst (λ (o : List EvidenceRecord × String). IsTrace (step ∷ steps) o.0 o.1) returned
        (cons-IsTrace step steps (collect screening step.tool_name (dump p.value)) q.value.0
          q.value.1 refl
          (observe_while-IsTrace (p.value.status == "SUCCEEDED") steps _ p.middle q.middle q.value
            (observe-IsTrace steps p.middle q.middle q.value) q.first))

abbrev returned_run : ActionPlan → List EvidenceRecord × String → List CleanupDecision → RunResult
returned_run candidate observed decisions = record {
  plan = candidate;
  evidence = observed.0;
  status = observed.1;
  cleanup_analysis = decisions;
}

module _ {W : Type 0} (text : GoalText) (rules : TextRules) (server_mode : String)
    (screening : Screening) (generate : String → Result ActionPlan)
    (call_tool : String → Arguments → Exec W ToolResult)
    (analyze : Arguments → Exec W (List CleanupDecision)) where
  -- The goal was refused and nothing was called, or the plan has passed the checks and the evidence is
  -- that of its first steps.
  pub data IsTraced (goal : String) (s t : W) (result : RunResult) : Type 0 where
    refused : result.status ≡ "BLOCKED" → result.evidence ≡ [] → t ≡ s → IsTraced goal s t result
    carried_out :
        IsChecked text rules server_mode goal result.plan
        → IsTrace (take max_steps result.plan.steps) result.evidence result.status
        → IsTraced goal s t result

  run_intent-IsTraced :
      (goal : String) (candidate : ActionPlan) (forbidden : Bool) (s t : W) (result : RunResult)
      → (forbidden ≡ false → IsChecked text rules server_mode goal candidate)
      → run_intent text rules server_mode screening generate call_tool analyze forbidden candidate s
        ≡ (ok result, t)
      → IsTraced goal s t result
  unfolding run_plan
  run_intent-IsTraced goal candidate true s t result c h =
      refused (ground arith) (ground arith) (ground arith)
  run_intent-IsTraced goal candidate false s t result c h =
      let p = passed (run_plan screening call_tool candidate) _ s t result h in
      let q =
        passed
          (analyze_record text rules server_mode screening generate call_tool analyze
            (find (λ (e : EvidenceRecord). e.tool_name == "large_file_scan") p.value.0))
          _ p.middle t result p.later in
      let returned : returned_run candidate p.value q.value ≡ result = ground (arith, q.later) in
      subst (IsTraced goal s t) returned
        (carried_out (c refl) (observe-IsTrace screening call_tool _ s p.middle p.value p.first))

  goal-IsChecked :
      (plan_id goal : String) (candidate : ActionPlan)
      → plan text rules server_mode generate plan_id goal ≡ ok candidate
      → is_forbidden candidate.intent ≡ false
      → IsChecked text rules server_mode goal candidate
  goal-IsChecked plan_id goal candidate h f =
      elim (plan-IsChecked text rules server_mode generate plan_id goal candidate h) [
        | inl e ↦ ground (arith, e.1)
        | inr checked ↦ checked
      ]

  -- A run that returns has either called no tool, with the status `BLOCKED`, or has a plan that
  -- passed the checks; its evidence then comes from the first steps of the plan, at most five, in
  -- their order, and from all of the first five if the status is `SUCCEEDED`.
  pub run-IsTraced :
      (plan_id goal : String) (s t : W) (result : RunResult)
      → run text rules server_mode screening generate call_tool analyze plan_id goal s
        ≡ (ok result, t)
      → IsTraced goal s t result
  unfolding run
  run-IsTraced plan_id goal s t result h =
      let p = passed (lift (plan text rules server_mode generate plan_id goal)) _ s t result h in
      let same : p.middle ≡ s = ground (arith, p.first) in
      let returned : plan text rules server_mode generate plan_id goal ≡ ok p.value =
        ground (arith, p.first) in
      run_intent-IsTraced goal p.value (is_forbidden p.value.intent) s t result
        (goal-IsChecked plan_id goal p.value returned) (rw same at p.later)
