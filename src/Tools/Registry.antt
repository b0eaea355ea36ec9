-- ===== src/Tools/Registry.antt =====
-- mcp_server/registry.py, and `ToolMetadata`, `ToolResult` of mcp_server/schemas/models.py.
-- The provider's methods are a parameter: they return data or raise.
use kylin_guard_agent.Base.{
  ℕ, zero, String, Bool, true, false, Option, none, some, List, [], ◌∷◌, string_eq, map, prefix,
  not, is_empty,
}
use kylin_guard_agent.Base.Dict.{Dict, lookup, erase}
use kylin_guard_agent.Base.Exec.{Error, app_error, type_error, Result, ok, err}
use kylin_guard_agent.Json.{Value, null, bool, int, str, arr, obj, nil, end, pos, Arguments}
use kylin_guard_agent.Guardrails.Policy.{RiskLevel, l1, l2}

-- Titles and descriptions are shown to people only. `read_only` has its default in every entry.
pub record ToolMetadata : Type 0 where
  pub name : String
  pub risk_level : RiskLevel
  pub read_only : Bool
  pub timeout_seconds : ℕ
  pub max_output_bytes : ℕ

pub record ToolResult : Type 0 where
  pub tool_name : String
  pub status : String
  pub payload : Arguments  -- the field `data`
  pub warnings : List String
  pub truncated : Bool
  pub is_demo : Bool
  pub error_code : Option String

-- the risks of `TOOL_DESCRIPTIONS`
abbrev pub tool_risks : Dict String RiskLevel
tool_risks =
    ("capability_probe", l1)
    ∷ ("system_snapshot", l1)
    ∷ ("memory_snapshot", l1)
    ∷ ("process_list", l1)
    ∷ ("zombie_process_scan", l2)
    ∷ ("network_socket_list", l2)
    ∷ ("port_owner_lookup", l2)
    ∷ ("disk_usage_scan", l1)
    ∷ ("filesystem_inventory", l2)
    ∷ ("large_file_scan", l2)
    ∷ ("open_file_lookup", l2)
    ∷ ("journal_query", l2)
    ∷ ("service_status", l1)
    ∷ ("config_drift_check", l2)
    ∷ ("io_diagnose", l2)
    ∷ ("network_config_snapshot", l2)
    ∷ ("package_inventory", l2)
    ∷ ("scheduled_task_inventory", l2)
    ∷ ("login_audit", l2)
    ∷ ("kernel_log_query", l2)
    ∷ ("security_baseline_scan", l2)
    ∷ []

abbrev pub metadata_of : String → RiskLevel → ToolMetadata
metadata_of name risk = record {
  name = name;
  risk_level = risk;
  read_only = true;
  timeout_seconds = 20;
  max_output_bytes = 131072;
}

-- `_metadata`
unfoldable pub metadata : Dict String ToolMetadata
metadata = map (λ (name, risk). (name, metadata_of name risk)) tool_risks

unfoldable pub list_tools : List ToolMetadata
list_tools = map (λ (_, tool). tool) metadata

-- `bool(value)` of a value that may be missing
abbrev pub truth : Option Value → Bool
truth none = false
truth (some null) = false
truth (some (bool b)) = b
truth (some (int (pos zero))) = false
truth (some (str s)) = not (is_empty s)
truth (some (arr nil)) = false
truth (some (obj end)) = false
truth (some _) = true

-- `str(error)` and `type(error).__name__.upper()` of a caught exception
pub record Messages : Type 0 where
  pub text : Error → String
  pub type_name : Error → String

module _ (messages : Messages) (is_demo : Bool) where
  abbrev failed : String → List String → String → ToolResult
  failed name warnings code = record {
    tool_name = name;
    status = "FAILED";
    payload = [];
    warnings = warnings;
    truncated = false;
    is_demo = is_demo;
    error_code = some code;
  }

  -- The `except` clause names OSError, ValueError, RuntimeError and TimeoutExpired; a TypeError, as
  -- of arguments that the method does not have, and an AppError pass through.
  unfoldable pub received : String → Result Arguments → Result ToolResult
  received name (ok returned) = ok record {
    tool_name = name;
    status = "SUCCEEDED";
    payload = erase "truncated" returned;
    warnings = [];
    truncated = truth (lookup "truncated" returned);
    is_demo = is_demo;
    error_code = none;
  }
  received name (err type_error) = err type_error
  received name (err (app_error code status)) = err (app_error code status)
  received name (err e) =
      ok (failed name (prefix 500 (messages.text e) ∷ []) (messages.type_name e))

  -- `call`, with the provider's `method(**arguments)`
  unfoldable pub call :
      (String → Arguments → Result Arguments) → String → Arguments → Result ToolResult
  call method name arguments = elim (lookup name metadata) [
    | none ↦ ok (failed name [] "TOOL_NOT_REGISTERED")
    | some tool ↦ received name (method name arguments)
  ]
