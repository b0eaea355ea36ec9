-- ===== src/Examples/Policy.antt =====
-- A tool call and a path.
use kylin_guard_agent.Base.{
  String, ◌≡◌, ◌≢◌, ◌≤◌, ◌⊎◌, refl, true, false, some, [], ◌∷◌, any, contains, has_substring,
  string_eq, ℕ_discrete,
}
use kylin_guard_agent.Base.Exec.{ok}
use kylin_guard_agent.Guardrails.Policy.{
  l1, l3, level, PolicyDecision, authorize_tool, classify_input,
}
use kylin_guard_agent.Guardrails.Policy.Authorize.{floor, authorize_tool_sound}
use kylin_guard_agent.Guardrails.Policy.PathGuard.{
  FilePath, FileSystem, PathGuard, validate, path_eq, path_discrete, parents, on_symlink,
  is_protected, is_allowed,
}
use kylin_guard_agent.Guardrails.Policy.PathGuard.Scope.{Under, validate-in_scope}
use kylin_guard_agent.Json.{str, obj, field, end}
use kylin_guard_agent.Guardrails.Untrusted.{sanitize_untrusted}
use kylin_guard_agent.Guardrails.Untrusted.Bounded.{IsBounded, sanitize_untrusted_lem}
use kylin_guard_agent.Examples.Fixtures.{plain_rules}

abbrev decision : PolicyDecision
decision = authorize_tool plain_rules "restart nginx" "service_restart" false "DEMO" (some l1)

authorize_tool_sound_example :
    (false ≡ false)
    × (any (λ value. has_substring value "service_restart") ("shell" ∷ "command" ∷ "script" ∷ [])
        ≡ false)
    × ((false ≡ true)
        ⊎ (contains {A = String} ("DEMO" ∷ "CONTROLLED_EXECUTION" ∷ []) "DEMO" ≡ true))
    × (level l3 ≤ level decision.risk)
    × (floor (some l1) ≤ level decision.risk)
unfolding authorize_tool classify_input contains string_eq has_substring any
authorize_tool_sound_example =
    authorize_tool_sound plain_rules "restart nginx" "service_restart" "DEMO" false (some l1) refl

-- Paths are listed from the last part up.
abbrev logs : FilePath
logs = "app" ∷ "log" ∷ "var" ∷ []

abbrev old_log : FilePath
old_log = "old.log" ∷ logs

abbrev files : FileSystem
files = record {
  absolute = λ raw. old_log;
  is_symlink = λ path. false;
  resolve = λ must_exist raw. ok old_log;
}

abbrev guard : PathGuard
guard = record { allowed_roots = logs ∷ []; protected_paths = ("etc" ∷ []) ∷ [] }

validate-in_scope_example :
    (files.resolve true "/var/log/app/old.log" ≡ ok old_log)
    × ((root : FilePath) × (contains guard.allowed_roots root ≡ true) × Under root old_log)
    × ((path : FilePath) → contains guard.protected_paths path ≡ true → ¬ Under path old_log)
    × ((above : FilePath)
        → above ≢ []
        → Under above (files.absolute "/var/log/app/old.log")
        → files.is_symlink above ≡ false)
unfolding validate on_symlink is_protected is_allowed parents contains string_eq path_discrete any
    ℕ_discrete
validate-in_scope_example = validate-in_scope guard files "/var/log/app/old.log" true old_log refl

sanitize_untrusted_lem_example : IsBounded 0 (
    sanitize_untrusted
      (λ size text. text)
      (λ text. text)
      0
      (obj (field "log" (str "ok") (field "api_key" (str "k") end))))
sanitize_untrusted_lem_example =
    sanitize_untrusted_lem (λ size text. text) (λ text. text)
      (obj (field "log" (str "ok") (field "api_key" (str "k") end)))
