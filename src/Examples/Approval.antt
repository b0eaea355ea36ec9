-- ===== src/Examples/Approval.antt =====
-- Tokens that are issued and consumed.
use kylin_guard_agent.Base.{
  String, ◌≡◌, refl, false, Option, some, [], ◌∷◌, contains, rsplit, string_eq, ℕ_discrete, arith,
}
use kylin_guard_agent.Base.Exec.{value_error, ok, err}
use kylin_guard_agent.Json.{int, str, pos, Arguments}
use kylin_guard_agent.Json.Print.{canonical_arguments}
use kylin_guard_agent.Guardrails.Approval.{
  ApprovalClaims, ApprovalTokenManager, new_claims, issue, consume, authenticate,
}
use kylin_guard_agent.Guardrails.Approval.Accept.{
  IsSigned, IsInScope, consume-accepts, consume-issue,
}
use kylin_guard_agent.Guardrails.Approval.Replay.{
  Request, AllFresh, accepted_nonces, accepted_nonces-AllFresh,
}
use kylin_guard_agent.Examples.Fixtures.{plain_crypto}

abbrev nginx : Arguments
nginx = ("service", str "nginx") ∷ []

abbrev claims : ApprovalClaims
claims = record {
  user_id = "alice";
  task_id = "task";
  tool_name = "service_restart";
  arguments_hash = "{\"service\":\"nginx\"}";
  risk_level = "L3";
  expires_at = 400;
  nonce = "n1";
}

-- The parser knows this one payload.
abbrev decode : String → Option ApprovalClaims
decode payload = some claims

abbrev manager : ApprovalTokenManager
manager = record { secret = "secret"; consumed = "n0" ∷ [] }

abbrev request : Request
request = record {
  token = "payload.ab12";
  user_id = "alice";
  task_id = "task";
  tool_name = "service_restart";
  arguments = nginx;
  now = 300;
}

-- printed keys are sorted, and texts escaped
canonical_example :
    canonical_arguments (("pid", int (pos 4242)) ∷ ("content", str "a\"b") ∷ [])
    ≡ "{\"content\":\"a\\\"b\",\"pid\":4242}"
unfolding canonical_arguments ℕ_discrete
canonical_example = refl

consume_example :
    consume plain_crypto decode "payload.ab12" "alice" "task" "service_restart" nginx 300 manager
    ≡ (ok claims, record manager { consumed = "n1" ∷ "n0" ∷ [] })
unfolding consume authenticate rsplit string_eq contains ℕ_discrete canonical_arguments
consume_example = refl

consume-accepts_example :
    IsSigned plain_crypto decode "secret" "payload.ab12" claims
    × IsInScope plain_crypto decode "alice" "task" "service_restart" nginx 300 claims
    × (contains ("n0" ∷ []) claims.nonce ≡ false)
    × (record manager { consumed = "n1" ∷ "n0" ∷ [] }
        ≡ record manager { consumed = "n1" ∷ "n0" ∷ [] })
consume-accepts_example =
    consume-accepts plain_crypto decode "payload.ab12" "alice" "task" "service_restart" nginx 300
      manager claims (record manager { consumed = "n1" ∷ "n0" ∷ [] }) consume_example

late_example :
    consume plain_crypto decode "payload.ab12" "alice" "task" "service_restart" nginx 401 manager
    ≡ (err (value_error "APPROVAL_EXPIRED"), manager)
unfolding consume authenticate rsplit string_eq contains ℕ_discrete canonical_arguments
late_example = refl

consume-issue_example :
    consume plain_crypto decode
      (issue plain_crypto manager "alice" "task" "service_restart" nginx 100 300 "n1")
      "alice"
      "task"
      "service_restart"
      nginx
      350
      manager
    ≡ (
      ok (new_claims plain_crypto "alice" "task" "service_restart" nginx 100 300 "n1"),
      record manager { consumed = "n1" ∷ "n0" ∷ [] },
    )
unfolding rsplit new_claims string_eq contains ℕ_discrete canonical_arguments
consume-issue_example =
    consume-issue plain_crypto decode manager "alice" "task" "service_restart" nginx 100 300 350
      "n1" (λ secret payload. refl) refl refl (omega arith)

accepted_nonces-AllFresh_example :
    AllFresh ("n0" ∷ []) (accepted_nonces plain_crypto decode manager (request ∷ request ∷ []))
accepted_nonces-AllFresh_example =
    accepted_nonces-AllFresh plain_crypto decode manager (request ∷ request ∷ [])
