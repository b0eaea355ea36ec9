-- ===== src/Agent/Cleanup/Analysis.antt =====
-- `CleanupAnalysisService`: large files of a tool's result, each looked up for open handles.
use kylin_guard_agent.Base.{
  String, Bool, true, false, Option, none, some, List, [], ◌∷◌, ◌==◌, string_eq, if◌then◌else◌,
  take,
}
use kylin_guard_agent.Base.Dict.{lookup}
use kylin_guard_agent.Base.Exec.{Exec, pure, gets, ◌>>=◌}
use kylin_guard_agent.Json.{
  Value, bool, int, ℤ, pos, str, arr, obj, Items, cons, nil, Arguments, to_arguments,
}
use kylin_guard_agent.Tools.Registry.{ToolResult}
use kylin_guard_agent.Agent.Cleanup.{
  FileUseState, not_open, is_open, unknown, CleanupPolicy, CleanupObservedFile, CleanupDecision,
  Inspection,
}
use kylin_guard_agent.Agent.Cleanup.Classify.{classify}

abbrev pub items_of : Items → List Value
items_of nil = []
items_of (cons value values) = value ∷ items_of values

-- `payload.get("data")` and `raw_data.get("files")`, with no files for what is not of the type
abbrev pub files_in : Option Value → List Value
files_in (some (arr values)) = items_of values
files_in _ = []

abbrev pub large_files : Option Value → List Value
large_files (some (obj fields)) = files_in (lookup "files" (to_arguments fields))
large_files _ = []

abbrev pub path_in : Option Value → Option String
path_in (some (str path)) = some path
path_in _ = none

-- the path of an item that is a dict with a text for it
abbrev pub path_of : Value → Option String
path_of (obj fields) = path_in (lookup "path" (to_arguments fields))
path_of _ = none

-- `size if isinstance(size, int) else 0`, where a Boolean is a number as well
abbrev pub size_in : Option Value → ℤ
size_in (some (int size)) = size
size_in (some (bool true)) = pos 1
size_in _ = pos 0

abbrev pub size_of : Value → ℤ
size_of (obj fields) = size_in (lookup "size" (to_arguments fields))
size_of _ = pos 0

abbrev pub is_true : Option Value → Bool
is_true (some (bool b)) = b
is_true _ = false

-- `not str(value).strip()` of what may be missing
abbrev pub blank_in : (Value → Bool) → Option Value → Bool
blank_in is_blank none = true
blank_in is_blank (some value) = is_blank value

unfoldable pub use_state_of : (Value → Bool) → ToolResult → FileUseState
use_state_of is_blank occupancy =
    if occupancy.status == "SUCCEEDED"
    then if is_true (lookup "supported" occupancy.payload)
      then if blank_in is_blank (lookup "raw" occupancy.payload) then not_open else is_open
      else unknown
    else unknown

-- Each look at a file comes after the call of the tool, which may change what is seen.
module _ {W : Type 0} (policy : CleanupPolicy) (inspect : W → Inspection) (is_blank : Value → Bool)
    (call_tool : String → Arguments → Exec W ToolResult) where
  abbrev pub with_observed :
      Option CleanupObservedFile → Inspection → Value → String → CleanupDecision → CleanupDecision
  with_observed (some observed) inspection item path decision = decision
  with_observed none inspection item path decision = record decision {
    observed_file = some record {
      path = path;
      size_bytes = size_of item;
      modified_at = inspection.now;
      classification = "OBSERVED_LARGE_FILE";
    };
  }

  unfoldable pub decision_on : Inspection → Value → String → ToolResult → CleanupDecision
  decision_on inspection item path occupancy =
      let decision = classify policy inspection path (use_state_of is_blank occupancy) in
      with_observed decision.observed_file inspection item path decision

  abbrev pub add_item :
      Value → Option String → Exec W (List CleanupDecision) → Exec W (List CleanupDecision)
  add_item item none rest = rest
  add_item item (some path) rest = do
    occupancy ← call_tool "open_file_lookup" (("path", str path) ∷ [])
    decision ← gets (λ w. decision_on (inspect w) item path occupancy)
    decisions ← rest
    pure (decision ∷ decisions)

  unfoldable pub analyze_items : List Value → Exec W (List CleanupDecision)
  analyze_items [] = pure []
  analyze_items (item ∷ items) = add_item item (path_of item) (analyze_items items)

  unfoldable pub analyze_large_file_result : Arguments → Exec W (List CleanupDecision)
  analyze_large_file_result payload = analyze_items (take 100 (large_files (lookup "data" payload)))
