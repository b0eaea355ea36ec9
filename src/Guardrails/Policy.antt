-- ===== src/Guardrails/Policy.antt =====
-- backend/app/guardrails/policy.py: the deterministic policy and the path guard.
-- `normalize` is `unicodedata.normalize("NFKC", _decode_once(text))` and `forbidden` says whether
-- one of `FORBIDDEN_PATTERNS` is found in a normalized text; `lower` is `str.lower`.
pub mod PathGuard
pub mod Authorize
use kylin_guard_agent.Base.{
  ℕ, String, Bool, true, false, Option, none, some, List, [], ◌∷◌, ◌==◌, string_eq, contains, any,
  has_substring, if◌then◌else◌, not, ◌&&◌, leb,
}

pub data RiskLevel : Type 0 where
  l0 l1 l2 l3 l4 : RiskLevel

-- the value of the `IntEnum`
abbrev pub level : RiskLevel → ℕ
level l0 = 0
level l1 = 1
level l2 = 2
level l3 = 3
level l4 = 4

pub record PolicyDecision : Type 0 where
  pub allowed : Bool
  pub risk : RiskLevel
  pub reason_code : String

pub record TextRules : Type 0 where
  pub normalize : String → String
  pub forbidden : String → Bool
  pub lower : String → String

abbrev or_l0 : Option RiskLevel → RiskLevel
or_l0 none = l0
or_l0 (some risk) = risk

-- `max` of two levels
abbrev pub max_risk : RiskLevel → RiskLevel → RiskLevel
max_risk a b = if leb (level b) (level a) then a else b

abbrev pub generic_words : List String
generic_words = "shell" ∷ "command" ∷ "script" ∷ []

module _ (rules : TextRules) where
  open rules use {normalize, forbidden, lower}

  unfoldable pub classify_input : String → PolicyDecision
  classify_input text =
      if forbidden (normalize text)
      then record { allowed = false; risk = l4; reason_code = "FORBIDDEN_INPUT" }
      else if has_substring "UNTRUSTED_DATA" (normalize text)
      then record { allowed = true; risk = l2; reason_code = "UNTRUSTED_DATA_ISOLATED" }
      else record { allowed = true; risk = l0; reason_code = "INPUT_ACCEPTED" }

  unfoldable pub authorize_tool :
      String → String → Bool → String → Option RiskLevel → PolicyDecision
  authorize_tool user_goal tool_name read_only server_mode model_risk =
      let input_decision = classify_input user_goal in
      let risk = max_risk (if read_only then l1 else l3) (or_l0 model_risk) in
      if not input_decision.allowed
      then input_decision
      else if not read_only && not (contains ("DEMO" ∷ "CONTROLLED_EXECUTION" ∷ []) server_mode)
      then record { allowed = false; risk = risk; reason_code = "MODE_FORBIDDEN" }
      else if any (λ value. has_substring value (lower tool_name)) generic_words
      then record { allowed = false; risk = l4; reason_code = "GENERIC_EXECUTION_FORBIDDEN" }
      else record { allowed = true; risk = risk; reason_code = "POLICY_ALLOWED" }
