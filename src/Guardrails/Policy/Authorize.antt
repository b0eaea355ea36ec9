-- ===== src/Guardrails/Policy/Authorize.antt =====
-- What an allowed tool call has passed (backend/app/guardrails/policy.py).
use kylin_guard_agent.Base.{
  ℕ, ◌≤◌, String, Bool, ◌≡◌, ◌⊎◌, true, false, Option, none, some, [], ◌∷◌, string_eq, contains,
  any, has_substring, if◌then◌else◌, arith,
}
use kylin_guard_agent.Guardrails.Policy.{
  RiskLevel, l0, l1, l3, level, TextRules, classify_input, authorize_tool,
}

-- the least level that a risk given by a model, if any, admits
abbrev pub floor : Option RiskLevel → ℕ
floor none = 0
floor (some risk) = level risk

module _ (rules : TextRules) where
  open rules use {normalize, forbidden, lower}

  -- An allowed tool call has a goal without a forbidden pattern, a tool name that is none of a
  -- generic executor, and, if it writes, a mode that permits writing; its risk is at least L1, at
  -- least L3 if it writes, and at least what the model said, if it said anything.
  pub authorize_tool_sound :
      (user_goal tool_name server_mode : String) (read_only : Bool) (model_risk : Option RiskLevel)
      → let decision = authorize_tool rules user_goal tool_name read_only server_mode model_risk in
        decision.allowed ≡ true
        → (forbidden (normalize user_goal) ≡ false)
          × (any
                (λ value. has_substring value (lower tool_name))
                ("shell" ∷ "command" ∷ "script" ∷ [])
              ≡ false)
          × ((read_only ≡ true)
              ⊎ (contains ("DEMO" ∷ "CONTROLLED_EXECUTION" ∷ []) server_mode ≡ true))
          × (level (if read_only then l1 else l3) ≤ level decision.risk)
          × (floor model_risk ≤ level decision.risk)
  unfolding authorize_tool classify_input
  authorize_tool_sound user_goal tool_name server_mode true none h = ground arith
  authorize_tool_sound user_goal tool_name server_mode false none h = ground arith
  authorize_tool_sound user_goal tool_name server_mode true (some l0) h = ground arith
  authorize_tool_sound user_goal tool_name server_mode read_only (some model_risk) h = ground arith
