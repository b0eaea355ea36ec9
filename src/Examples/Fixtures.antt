-- ===== src/Examples/Fixtures.antt =====
-- Small stand-ins for what the examples take from outside.
use kylin_guard_agent.Base.{true, false, none, some, [], ◌∷◌}
use kylin_guard_agent.Json.{str}
use kylin_guard_agent.Guardrails.Crypto.{Crypto}
use kylin_guard_agent.Guardrails.Policy.{TextRules}
use kylin_guard_agent.Models.{AgentTask, Approval}
use kylin_guard_agent.Agent.StateMachine.{received}
use kylin_guard_agent.Api.{Env, Db, Caller}

-- The text is its own digest, and every signature is the same.
abbrev pub plain_crypto : Crypto
plain_crypto = record { sha256 = λ text. text; hmac = λ secret payload. "ab12" }

abbrev pub plain_rules : TextRules
plain_rules = record { normalize = λ text. text; forbidden = λ text. false; lower = λ text. text }

abbrev pub demo_env : Env
demo_env = record {
  crypto = plain_crypto;
  rules = plain_rules;
  timestamp = λ now. "now";
  redact = λ payload. payload;
  now = 1000000;
  event_id = "event";
  fresh_id = "fresh";
  nonce = "nonce";
  secret = "secret";
  mode = "DEMO";
  allowed_services = "nginx" ∷ [];
  managed_targets = [];
  broker_available = true;
}

abbrev pub nginx_approval : Approval
nginx_approval = record {
  task_id = "task";
  requester_id = "alice";
  approver_id = some "bob";
  tool_name = "service_restart";
  arguments = ("service", str "nginx") ∷ [];
  arguments_hash = "{\"service\":\"nginx\"}";
  risk_level = "L3";
  status = "APPROVED";
  expires_at = 9000000;
  decided_at = some 500000;
  token_hash = some "the-token";
}

abbrev pub pending_approval : Approval
pending_approval = record nginx_approval {
  status = "PENDING";
  approver_id = none;
  decided_at = none;
  token_hash = none;
}

abbrev pub alice : Caller
alice = record { id = "alice"; roles = "operator" ∷ [] }

abbrev pub bob : Caller
bob = record { id = "bob"; roles = "approver" ∷ [] }

abbrev pub first_task : AgentTask
first_task = record {
  user_id = "alice";
  goal = "restart nginx";
  mode = "DEMO";
  state = received;
  version = 1;
  steps = [];
}

abbrev pub small_db : Db
small_db = record {
  users =
      (
        "alice",
        record {
          username = "alice";
          password_hash = "hash";
          is_active = true;
          roles = "operator" ∷ [];
        },
      )
      ∷ [];
  sessions =
      (
        "session",
        record {
          user_id = "alice";
          token_hash = "bearer";
          expires_at = 5000000;
          revoked_at = none;
        },
      )
      ∷ [];
  tasks = ("task", first_task) ∷ [];
  approvals = ("approval", nginx_approval) ∷ [];
  cleanup_candidates = [];
  process_candidates = [];
  executions = [];
  backups = [];
  verifications = [];
  rollbacks = [];
  audit = record { events = []; head = none };
}
