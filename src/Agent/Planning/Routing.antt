-- ===== src/Agent/Planning/Routing.antt =====
-- `route`, `required_tools` and `_default_arguments`: the fixed routes from words to tools.
pub mod Known
use kylin_guard_agent.Base.{
  ℕ, String, Bool, true, false, Option, none, some, List, [], ◌∷◌, ◌++◌, ◌==◌, string_eq, any,
  contains, has_substring, is_some, not, ◌&&◌, ◌||◌, if◌then◌else◌, ltb,
}
use kylin_guard_agent.Json.{Value, int, pos, str, Arguments}
use kylin_guard_agent.Agent.Planning.{
  Intent, query, diagnosis, inspection, cleanup, Complexity, simple, medium, complex, GoalText,
}

abbrev pub disk_terms : List String
disk_terms = "磁盘" ∷ "硬盘" ∷ "空间" ∷ "容量" ∷ "disk" ∷ "filesystem usage" ∷ []

abbrev pub cleanup_terms : List String
cleanup_terms =
    "清理" ∷ "垃圾" ∷ "旧日志" ∷ "缓存" ∷ "可清理" ∷ "候选" ∷ "大文件" ∷ "cleanup" ∷ "old log" ∷ "large file" ∷ []

abbrev pub network_terms : List String
network_terms =
    "网络" ∷ "网络状态" ∷ "连通" ∷ "网卡" ∷ "路由" ∷ "网关" ∷ "端口" ∷ "监听" ∷ "network" ∷ "dns" ∷ "resolver"
    ∷ "route" ∷ "gateway" ∷ "socket" ∷ []

abbrev pub service_terms : List String
service_terms = "服务" ∷ "service" ∷ "systemd" ∷ "nginx" ∷ "ssh" ∷ "sshd" ∷ []

abbrev pub memory_terms : List String
memory_terms = "内存" ∷ "负载" ∷ "memory" ∷ "swap" ∷ "oom" ∷ []

abbrev pub filesystem_terms : List String
filesystem_terms = "挂载" ∷ "文件系统" ∷ "inode" ∷ "mount" ∷ "filesystem" ∷ []

abbrev pub package_terms : List String
package_terms = "软件包" ∷ "依赖" ∷ "安装包" ∷ "rpm" ∷ "package" ∷ []

abbrev pub schedule_terms : List String
schedule_terms = "计划任务" ∷ "定时任务" ∷ "crontab" ∷ "cron" ∷ "timer" ∷ []

abbrev pub login_terms : List String
login_terms = "登录" ∷ "登陆" ∷ "用户活动" ∷ "login" ∷ "last" ∷ []

abbrev pub kernel_terms : List String
kernel_terms = "内核" ∷ "kernel" ∷ "dmesg" ∷ "oops" ∷ "panic" ∷ []

abbrev pub process_terms : List String
process_terms = "进程" ∷ "僵尸" ∷ "process" ∷ "cpu" ∷ "zombie" ∷ []

unfoldable pub contains_any : String → List String → Bool
contains_any lower_goal terms = any (λ term. has_substring term lower_goal) terms

module _ (text : GoalText) where
  open text use {lower, number, mentions_ssh}

  -- the intent, the complexity and the main tool
  unfoldable pub route : String → Intent × Complexity × String
  route goal =
      let low = lower goal in
      let disk_goal = contains_any low disk_terms in
      let cleanup_goal = contains_any low cleanup_terms in
      let network_goal = contains_any low network_terms in
      if disk_goal && cleanup_goal
      then (cleanup, complex, "disk_usage_scan")
      else if cleanup_goal
      then (cleanup, complex, "large_file_scan")
      else if contains_any low service_terms
      then (diagnosis, medium, "service_status")
      else if disk_goal
      then (diagnosis, medium, "disk_usage_scan")
      else if contains_any low memory_terms
      then (diagnosis, medium, "memory_snapshot")
      else if contains_any low filesystem_terms
      then (diagnosis, medium, "filesystem_inventory")
      else if network_goal && is_some (number low)
      then (query, simple, "port_owner_lookup")
      else if network_goal
      then (diagnosis, medium, "network_config_snapshot")
      else if contains_any low package_terms
      then (query, medium, "package_inventory")
      else if contains_any low schedule_terms
      then (inspection, medium, "scheduled_task_inventory")
      else if contains_any low login_terms
      then (inspection, medium, "login_audit")
      else if contains_any low kernel_terms
      then (diagnosis, medium, "kernel_log_query")
      else if contains_any low process_terms
      then (diagnosis, medium, "process_list")
      else (query, simple, "system_snapshot")

  -- `if b: required.append(tool)`
  abbrev when : Bool → String → List String
  when true tool = tool ∷ []
  when false tool = []

  -- The two appended names differ, so `dict.fromkeys` keeps both.
  unfoldable pub required_tools : String → List String
  required_tools goal =
      let low = lower goal in
      let disk_goal = contains_any low disk_terms in
      let cleanup_goal = contains_any low cleanup_terms in
      if disk_goal || cleanup_goal
      then when disk_goal "disk_usage_scan" ++ when cleanup_goal "large_file_scan"
      else if contains_any low network_terms && not (is_some (number low))
      then "network_config_snapshot" ∷ "network_socket_list" ∷ []
      else (route goal).2 ∷ []

  unfoldable pub service_name_from_goal : String → String
  service_name_from_goal goal = if mentions_ssh (lower goal) then "sshd" else "nginx"

  abbrev or_80 : Option ℕ → ℕ
  or_80 none = 80
  or_80 (some port) = port

  -- `max(1, min(65535, port))`
  abbrev pub clamp : ℕ → ℕ
  clamp port = let low = if ltb port 65535 then port else 65535 in if ltb low 1 then 1 else low

  unfoldable pub port_from_goal : String → ℕ
  port_from_goal goal = clamp (or_80 (number (lower goal)))

  unfoldable pub default_arguments : String → String → Arguments
  default_arguments goal tool =
      if tool == "service_status"
      then ("service", str (service_name_from_goal goal)) ∷ []
      else if tool == "journal_query"
      then ("unit", str (service_name_from_goal goal)) ∷ ("lines", int (pos 50)) ∷ []
      else if tool == "port_owner_lookup"
      then ("port", int (pos (port_from_goal goal))) ∷ []
      else if tool == "large_file_scan"
      then ("path", str "__cleanup_roots__")
        ∷ ("min_bytes", int (pos 10000000))
        ∷ ("limit", int (pos 50))
        ∷ []
      else if tool == "disk_usage_scan"
      then ("path", str "/") ∷ []
      else if contains ("package_inventory" ∷ "login_audit" ∷ []) tool
      then ("limit", int (pos 50)) ∷ []
      else if tool == "kernel_log_query"
      then ("lines", int (pos 80)) ∷ []
      else []

-- the tools of risk L2, as the planner lists them
unfoldable pub is_l2_tool : String → Bool
is_l2_tool = contains (
    "journal_query" ∷ "network_socket_list" ∷ "port_owner_lookup" ∷ "large_file_scan"
    ∷ "filesystem_inventory" ∷ "network_config_snapshot" ∷ "package_inventory"
    ∷ "scheduled_task_inventory" ∷ "login_audit" ∷ "kernel_log_query" ∷ "io_diagnose"
    ∷ "security_baseline_scan" ∷ [])
