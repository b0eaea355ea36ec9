-- ===== src/Agent/Planning/Routing/Known.antt =====
-- The routes against the registry of tools (backend/app/agent/planning.py, mcp_server/registry.py).
use kylin_guard_agent.Base.{
  ℕ, ◌≤◌, String, Bool, true, false, some, List, ◌++◌, string_eq, any, contains, All, ◌≡◌, refl,
  arith, ◌&&◌, ◌||◌, not, is_some, if◌then◌else◌, has_substring, ℕ_discrete,
}
use kylin_guard_agent.Base.Dict.{lookup}
use kylin_guard_agent.Guardrails.Policy.{RiskLevel, l1, l2, level, generic_words}
use kylin_guard_agent.Tools.Registry.{metadata, metadata_of}
use kylin_guard_agent.Agent.Planning.{Intent, Complexity, GoalText}
use kylin_guard_agent.Agent.Planning.Routing.{
  route, required_tools, when, is_l2_tool, contains_any, disk_terms, cleanup_terms, network_terms,
  service_terms, memory_terms, filesystem_terms, package_terms, schedule_terms, login_terms,
  kernel_terms, process_terms, clamp, or_80, port_from_goal,
}

-- A registered tool whose name is that of no generic executor, with its risk as the planner has it.
pub record IsKnown (tool : String) : Type 0 where
  pub risk : RiskLevel
  pub registered : lookup tool metadata ≡ some (metadata_of tool risk)
  pub words : any (λ value. has_substring value tool) generic_words ≡ false
  pub bound : level risk ≤ (if is_l2_tool tool then 2 else 1)

-- Of two values that meet a predicate, the chosen one meets it.
choose : {A : Type 0} (P : A → Type 0) (b : Bool) {x y : A} → P x → P y → P (if b then x else y)
choose P true p q = p
choose P false p q = q

disk_usage_scan-IsKnown : IsKnown "disk_usage_scan"
unfolding metadata lookup string_eq ℕ_discrete has_substring any is_l2_tool contains
disk_usage_scan-IsKnown = record { risk = l1; registered = refl; words = refl; bound = omega arith }

large_file_scan-IsKnown : IsKnown "large_file_scan"
unfolding metadata lookup string_eq ℕ_discrete has_substring any is_l2_tool contains
large_file_scan-IsKnown = record { risk = l2; registered = refl; words = refl; bound = omega arith }

service_status-IsKnown : IsKnown "service_status"
unfolding metadata lookup string_eq ℕ_discrete has_substring any is_l2_tool contains
service_status-IsKnown = record { risk = l1; registered = refl; words = refl; bound = omega arith }

memory_snapshot-IsKnown : IsKnown "memory_snapshot"
unfolding metadata lookup string_eq ℕ_discrete has_substring any is_l2_tool contains
memory_snapshot-IsKnown = record { risk = l1; registered = refl; words = refl; bound = omega arith }

filesystem_inventory-IsKnown : IsKnown "filesystem_inventory"
unfolding metadata lookup string_eq ℕ_discrete has_substring any is_l2_tool contains
filesystem_inventory-IsKnown = record {
  risk = l2;
  registered = refl;
  words = refl;
  bound = omega arith;
}

port_owner_lookup-IsKnown : IsKnown "port_owner_lookup"
unfolding metadata lookup string_eq ℕ_discrete has_substring any is_l2_tool contains
port_owner_lookup-IsKnown = record {
  risk = l2;
  registered = refl;
  words = refl;
  bound = omega arith;
}

network_config_snapshot-IsKnown : IsKnown "network_config_snapshot"
unfolding metadata lookup string_eq ℕ_discrete has_substring any is_l2_tool contains
network_config_snapshot-IsKnown = record {
  risk = l2;
  registered = refl;
  words = refl;
  bound = omega arith;
}

network_socket_list-IsKnown : IsKnown "network_socket_list"
unfolding metadata lookup string_eq ℕ_discrete has_substring any is_l2_tool contains
network_socket_list-IsKnown = record {
  risk = l2;
  registered = refl;
  words = refl;
  bound = omega arith;
}

package_inventory-IsKnown : IsKnown "package_inventory"
unfolding metadata lookup string_eq ℕ_discrete has_substring any is_l2_tool contains
package_inventory-IsKnown = record {
  risk = l2;
  registered = refl;
  words = refl;
  bound = omega arith;
}

scheduled_task_inventory-IsKnown : IsKnown "scheduled_task_inventory"
unfolding metadata lookup string_eq ℕ_discrete has_substring any is_l2_tool contains
scheduled_task_inventory-IsKnown = record {
  risk = l2;
  registered = refl;
  words = refl;
  bound = omega arith;
}

login_audit-IsKnown : IsKnown "login_audit"
unfolding metadata lookup string_eq ℕ_discrete has_substring any is_l2_tool contains
login_audit-IsKnown = record { risk = l2; registered = refl; words = refl; bound = omega arith }

kernel_log_query-IsKnown : IsKnown "kernel_log_query"
unfolding metadata lookup string_eq ℕ_discrete has_substring any is_l2_tool contains
kernel_log_query-IsKnown = record {
  risk = l2;
  registered = refl;
  words = refl;
  bound = omega arith;
}

process_list-IsKnown : IsKnown "process_list"
unfolding metadata lookup string_eq ℕ_discrete has_substring any is_l2_tool contains
process_list-IsKnown = record { risk = l1; registered = refl; words = refl; bound = omega arith }

system_snapshot-IsKnown : IsKnown "system_snapshot"
unfolding metadata lookup string_eq ℕ_discrete has_substring any is_l2_tool contains
system_snapshot-IsKnown = record { risk = l1; registered = refl; words = refl; bound = omega arith }

pub journal_query-IsKnown : IsKnown "journal_query"
unfolding metadata lookup string_eq ℕ_discrete has_substring any is_l2_tool contains
journal_query-IsKnown = record { risk = l2; registered = refl; words = refl; bound = omega arith }

record IsRouted (chosen : Intent × Complexity × String) : Type 0 where
  tool : IsKnown chosen.2

routed :
    {intent : Intent} {complexity : Complexity} {tool : String}
    → IsKnown tool
    → IsRouted (intent, complexity, tool)
routed known = record { tool = known }

module _ (text : GoalText) (goal : String) where
  route-IsRouted : IsRouted (route text goal)
  unfolding route
  route-IsRouted =
      let low = text.lower goal in
      let has : List String → Bool = contains_any low in
      let disk = has disk_terms in
      let cleans = has cleanup_terms in
      let network = has network_terms in
      choose IsRouted (disk && cleans) (routed disk_usage_scan-IsKnown) (
        choose IsRouted cleans (routed large_file_scan-IsKnown) (
          choose IsRouted (has service_terms) (routed service_status-IsKnown) (
            choose IsRouted disk (routed disk_usage_scan-IsKnown) (
              choose IsRouted (has memory_terms) (routed memory_snapshot-IsKnown) (
                choose IsRouted (has filesystem_terms) (routed filesystem_inventory-IsKnown) (
                  choose IsRouted (network && is_some (text.number low))
                    (routed port_owner_lookup-IsKnown)
                    (choose IsRouted network (routed network_config_snapshot-IsKnown) (
                      choose IsRouted (has package_terms) (routed package_inventory-IsKnown) (
                        choose IsRouted (has schedule_terms)
                          (routed scheduled_task_inventory-IsKnown)
                          (choose IsRouted (has login_terms) (routed login_audit-IsKnown) (
                            choose IsRouted (has kernel_terms) (routed kernel_log_query-IsKnown) (
                              choose IsRouted (has process_terms) (routed process_list-IsKnown)
                                (routed system_snapshot-IsKnown)))))))))))))

  when-IsKnown :
      (a b : Bool) (s t : String)
      → IsKnown s
      → IsKnown t
      → All IsKnown (when text a s ++ when text b t)
  when-IsKnown true true s t p q = (p, (q, tt))
  when-IsKnown true false s t p q = (p, tt)
  when-IsKnown false true s t p q = (q, tt)
  when-IsKnown false false s t p q = tt

  pub required_tools-IsKnown : All IsKnown (required_tools text goal)
  unfolding required_tools
  required_tools-IsKnown =
      let low = text.lower goal in
      let disk = contains_any low disk_terms in
      let cleans = contains_any low cleanup_terms in
      choose (All IsKnown) (disk || cleans)
        (when-IsKnown _ _ _ _ disk_usage_scan-IsKnown large_file_scan-IsKnown)
        (choose (All IsKnown) (contains_any low network_terms && not (is_some (text.number low)))
          (network_config_snapshot-IsKnown, (network_socket_list-IsKnown, tt))
          (route-IsRouted.tool, tt))

  clamp-in_range : (port : ℕ) → (1 ≤ clamp text port) × (clamp text port ≤ 65535)
  clamp-in_range port = ground arith

  -- The port that is looked up for a goal is one from 1 to 65535, whatever number the goal names.
  pub port_from_goal-in_range : (1 ≤ port_from_goal text goal) × (port_from_goal text goal ≤ 65535)
  unfolding port_from_goal
  port_from_goal-in_range = clamp-in_range (or_80 text (text.number (text.lower goal)))
