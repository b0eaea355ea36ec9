-- ===== src/Agent/Planning/Planner/Fallback.antt =====
-- The fallback plan against the planner's own validation (backend/app/agent/planning.py).
use kylin_guard_agent.Base.{
  ℕ, ◌+◌, ◌≤◌, String, Bool, true, false, List, [], ◌∷◌, ◌++◌, ◌==◌, string_eq, any, all, contains,
  map, ◌||◌, if◌then◌else◌, All, ◌≡◌, refl, ap, arith, eq_self, Bool-cases, inl, inr,
}
use kylin_guard_agent.Base.Dict.{lookup}
use kylin_guard_agent.Base.Exec.{Error, Result, ok, err, value_error}
use kylin_guard_agent.Guardrails.Policy.{l1, l2, level, TextRules, classify_input, authorize_tool}
use kylin_guard_agent.Tools.Registry.{metadata}
use kylin_guard_agent.Agent.Planning.{PlanStep, ActionPlan, GoalText}
use kylin_guard_agent.Agent.Planning.Routing.{route, required_tools, is_l2_tool}
use kylin_guard_agent.Agent.Planning.Routing.Known.{
  IsKnown, required_tools-IsKnown, journal_query-IsKnown,
}
use kylin_guard_agent.Agent.Planning.Planner.{
  is_cleanup, normalize_step, check_tool, check_steps, covers, check_required, validate_plan,
  fallback_steps, journal_steps, rule_fallback,
}

-- `str.lower` leaves the names of the known tools as they are, which have no upper-case letter.
abbrev pub KeepsNames : TextRules → Type 0
KeepsNames rules = (tool : String) → IsKnown tool → rules.lower tool ≡ tool

-- `except (LLMUnavailableError, ValueError)`
abbrev pub is_caught : Error → Bool
is_caught (value_error code) = true
is_caught _ = false

abbrev Caught : {A : Type 0} → Result A → Type 0
Caught (ok a) = Unit
Caught (err e) = is_caught e ≡ true

all-of_members :
    (p : String → Bool) (xs : List String)
    → ((x : String) → contains xs x ≡ true → p x ≡ true)
    → all p xs ≡ true
unfolding all contains
all-of_members p [] h = refl
all-of_members p (x ∷ xs) h =
    rw (h x (ground arith)) (all-of_members p xs (λ y member. h y (ground arith)))

contains-append :
    (xs more : List String) (x : String) → contains xs x ≡ true → contains (xs ++ more) x ≡ true
unfolding contains
contains-append [] more x h = ground arith
contains-append (y ∷ xs) more x h = ground (arith, contains-append xs more x)

tools-append :
    (before after : List PlanStep)
    → map (λ (step : PlanStep). step.tool_name) (before ++ after)
      ≡ map (λ (step : PlanStep). step.tool_name) before
        ++ map (λ (step : PlanStep). step.tool_name) after
tools-append [] after = refl
tools-append (step ∷ before) after =
    ap (λ names. step.tool_name ∷ names) (tools-append before after)

module _ (text : GoalText) (rules : TextRules) (server_mode : String) where
  abbrev tool_names : List PlanStep → List String
  tool_names = map (λ (step : PlanStep). step.tool_name)

  normalize_step-tool_name :
      (goal : String) (step : PlanStep)
      → (normalize_step text rules server_mode goal step).tool_name ≡ step.tool_name
  unfolding normalize_step
  normalize_step-tool_name goal step = ground arith

  fallback_steps-names :
      (goal : String) (sequence : ℕ) (tools : List String)
      → tool_names (fallback_steps text rules server_mode goal sequence tools) ≡ tools
  unfolding fallback_steps
  fallback_steps-names goal sequence [] = refl
  fallback_steps-names goal sequence (tool ∷ tools) =
      ap (λ names. tool ∷ names) (fallback_steps-names goal (sequence + 1) tools)

  normalize_step-names :
      (goal : String) (steps : List PlanStep)
      → tool_names (map (normalize_step text rules server_mode goal) steps) ≡ tool_names steps
  normalize_step-names goal [] = refl
  normalize_step-names goal (step ∷ steps) =
      rw (normalize_step-tool_name goal step, normalize_step-names goal steps) refl

  abbrev AllKnown : List PlanStep → Type 0
  AllKnown = All (λ (step : PlanStep). IsKnown step.tool_name)

  fallback_steps-AllKnown :
      (goal : String) (sequence : ℕ) (tools : List String) (more : List PlanStep)
      → All IsKnown tools
      → AllKnown more
      → AllKnown (fallback_steps text rules server_mode goal sequence tools ++ more)
  unfolding fallback_steps
  fallback_steps-AllKnown goal sequence [] more known later = later
  fallback_steps-AllKnown goal sequence (tool ∷ tools) more (known, rest) later =
      (known, fallback_steps-AllKnown goal (sequence + 1) tools more rest later)

  journal_steps-AllKnown :
      (goal primary_tool : String) (count : ℕ)
      → AllKnown (journal_steps text rules server_mode goal primary_tool count)
  unfolding journal_steps
  journal_steps-AllKnown goal primary_tool count =
      elim (Bool-cases (primary_tool == "service_status")) [
        | inl e ↦ rw e (journal_query-IsKnown, tt)
        | inr e ↦ rw e tt
      ]

  check_tool_ok :
      (candidate : ActionPlan) (step : PlanStep) (tool : String)
      → step.tool_name ≡ tool
      → KeepsNames rules
      → (classify_input rules candidate.user_goal).allowed ≡ true
      → (known : IsKnown tool) → level known.risk ≤ level candidate.risk_level
      → check_tool text rules server_mode candidate step (lookup step.tool_name metadata) ≡ ok tt
  unfolding check_tool authorize_tool
  check_tool_ok candidate step tool named keeps allowed known bound =
      rw (named, known.registered, keeps tool known, known.words, allowed) (ground arith)

  check_steps_ok :
      (candidate : ActionPlan) (goal : String) (steps : List PlanStep)
      → KeepsNames rules
      → (classify_input rules candidate.user_goal).allowed ≡ true
      → 1 ≤ level candidate.risk_level
      → (any (λ (step : PlanStep). is_l2_tool step.tool_name) steps ≡ true
          → 2 ≤ level candidate.risk_level)
      → AllKnown steps
      → check_steps text rules server_mode candidate
          (map (normalize_step text rules server_mode goal) steps)
        ≡ ok tt
  unfolding check_steps any
  check_steps_ok candidate goal [] keeps allowed one two known = refl
  check_steps_ok candidate goal (step ∷ steps) keeps allowed one two (known, rest) =
      let admitted : level known.risk ≤ level candidate.risk_level =
        elim (Bool-cases (is_l2_tool step.tool_name)) [
          | inl e ↦
              let at_most : level known.risk ≤ 2 = rw e at known.bound in
              let enough : 2 ≤ level candidate.risk_level = two (ground arith) in omega arith
          | inr e ↦ let at_most : level known.risk ≤ 1 = rw e at known.bound in omega arith
        ] in
      rw
        (check_tool_ok candidate (normalize_step text rules server_mode goal step) step.tool_name
          (normalize_step-tool_name goal step) keeps allowed known admitted)
        (check_steps_ok candidate goal steps keeps allowed one (λ e. two (ground arith)) rest)

  abbrev normalized : String → ActionPlan → ActionPlan
  normalized goal candidate = record candidate {
    steps = map (normalize_step text rules server_mode goal) candidate.steps;
  }

  check_required_ok :
      (goal : String) (candidate : ActionPlan) (steps : Result {0} Unit)
      → steps ≡ ok tt
      → covers text rules server_mode (required_tools text goal) candidate.steps ≡ true
      → check_required text rules server_mode goal candidate steps ≡ ok candidate
  unfolding check_required
  check_required_ok goal candidate steps checked covered = rw (checked, covered) refl

  rule_fallback-covers :
      (plan_id goal : String)
      → covers text rules server_mode (required_tools text goal) (
          map
            (normalize_step text rules server_mode goal)
            (rule_fallback text rules server_mode plan_id goal).steps)
        ≡ true
  unfolding rule_fallback
  rule_fallback-covers plan_id goal =
      rw
        (
          normalize_step-names goal (rule_fallback text rules server_mode plan_id goal).steps,
          tools-append (fallback_steps text rules server_mode goal 1 (required_tools text goal)),
          fallback_steps-names goal 1 (required_tools text goal),
        )
        (all-of_members _ (required_tools text goal)
          (λ tool member. contains-append (required_tools text goal) _ tool member))

  at_least_l1 : (a b : Bool) → 1 ≤ level (if a || b then l2 else l1)
  at_least_l1 a b = ground arith

  at_least_l2 : (a b : Bool) → b ≡ true → 2 ≤ level (if a || b then l2 else l1)
  at_least_l2 a b h = ground arith

  rule_fallback-checks :
      (plan_id goal : String)
      → KeepsNames rules
      → (classify_input rules goal).allowed ≡ true
      → let candidate = rule_fallback text rules server_mode plan_id goal in
        check_steps text rules server_mode
          (normalized goal candidate)
          (normalized goal candidate).steps
        ≡ ok tt
  unfolding rule_fallback
  rule_fallback-checks plan_id goal keeps allowed =
      let cleans = is_cleanup (route text goal).0 in
      let deep =
        any (λ (step : PlanStep). is_l2_tool step.tool_name)
          (rule_fallback text rules server_mode plan_id goal).steps in
      check_steps_ok _ goal (rule_fallback text rules server_mode plan_id goal).steps keeps allowed
        (at_least_l1 cleans deep) (at_least_l2 cleans deep)
        (fallback_steps-AllKnown goal 1 (required_tools text goal) _
          (required_tools-IsKnown text goal) (journal_steps-AllKnown goal _ _))

  same_goal :
      (plan_id goal : String)
      → (text.strip (rule_fallback text rules server_mode plan_id goal).user_goal
          == text.strip goal)
        ≡ true
  unfolding rule_fallback
  same_goal plan_id goal = eq_self {A = String} (text.strip goal)

  -- The fallback plan of an accepted goal passes the planner's validation.
  pub rule_fallback-validates :
      (plan_id goal : String)
      → KeepsNames rules
      → (classify_input rules goal).allowed ≡ true
      → (returned : ActionPlan) × (validate_plan text rules server_mode
            (rule_fallback text rules server_mode plan_id goal)
            goal
          ≡ ok returned)
  unfolding validate_plan
  rule_fallback-validates plan_id goal keeps allowed =
      let candidate = rule_fallback text rules server_mode plan_id goal in
      (
        normalized goal candidate,
        rw (same_goal plan_id goal) (
            check_required_ok goal (normalized goal candidate) _
              (rule_fallback-checks plan_id goal keeps allowed)
              (rule_fallback-covers plan_id goal)),
      )

  -- A plan, or the exception of the provider that the planner does not catch.
  pub data Outcome (goal : String) (answer result : Result ActionPlan) : Type 0 where
    planned : (returned : ActionPlan) → result ≡ ok returned → Outcome goal answer result
    escaped :
        (e : Error)
        → answer ≡ err e
        → is_caught e ≡ false
        → result ≡ err e
        → Outcome goal answer result
