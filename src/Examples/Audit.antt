-- ===== src/Examples/Audit.antt =====
-- A log of two events, a change to it and a truncation.
use kylin_guard_agent.Base.{
  ℕ, String, ◌≡◌, ◌⊎◌, refl, true, false, none, some, [], ◌∷◌, arith, length, string_eq, ℕ_discrete,
  differ→≢,
}
use kylin_guard_agent.Json.{str, obj, field, end, Arguments}
use kylin_guard_agent.Json.Print.{canonical_arguments}
use kylin_guard_agent.Audit.{
  AuditEvent, AuditLog, head_or_new, material, verify_from, verify_chain, ordered,
}
use kylin_guard_agent.Audit.Redact.{redact, IsClean, redact-IsClean}
use kylin_guard_agent.Audit.Chain.{last_hash, Write, write_all, verify_chain-write_all}
use kylin_guard_agent.Audit.Tamper.{changed_event-flagged, truncation-unnoticed}

abbrev empty_log : AuditLog
empty_log = record { events = []; head = none }

abbrev digest : String → String
digest text = text

abbrev stamp : ℕ → String
stamp now = "now"

abbrev keep : Arguments → Arguments
keep payload = payload

abbrev login : Write digest stamp keep
login = record {
  event_id = "e1";
  instant = 1;
  event_type = "LOGIN";
  payload = [];
  actor_id = some "alice";
  task_id = none;
}

abbrev logout : Write digest stamp keep
logout = record {
  event_id = "e2";
  instant = 2;
  event_type = "LOGOUT";
  payload = [];
  actor_id = some "alice";
  task_id = none;
}

abbrev log : AuditLog
log = write_all digest stamp keep empty_log (login ∷ logout ∷ [])

verify_chain-write_all_example :
    (verify_chain digest stamp log ≡ (true, none))
    × ((head_or_new log.head).version ≡ length log.events)
    × ((head_or_new log.head).current_hash ≡ last_hash "" log.events)
unfolding verify_from
verify_chain-write_all_example =
    verify_chain-write_all digest stamp keep 0 empty_log (login ∷ logout ∷ [])
      record { chained = refl; at_head = refl; counted = refl; increasing = tt; earlier = tt }
      (omega arith, (omega arith, tt))

abbrev created : AuditEvent
created = record {
  id = "e1";
  task_id = none;
  actor_id = none;
  event_type = "TASK_CREATED";
  payload_json = "{}";
  previous_hash = "";
  current_hash =
      "{\"actor_id\":null,\"created_at\":\"now\",\"event_id\":\"e1\",\"event_type\":\"TASK_CREATED\",\"payload_json\":\"{}\",\"previous_hash\":\"\",\"task_id\":null}";
  created_at = 1;
}

abbrev cancelled : AuditEvent
cancelled =
    let draft : AuditEvent = record {
      id = "e2";
      task_id = none;
      actor_id = none;
      event_type = "TASK_CANCELLED";
      payload_json = "{}";
      previous_hash = created.current_hash;
      current_hash = "";
      created_at = 2;
    } in
    record draft { current_hash = material digest stamp draft created.current_hash }

abbrev forged : AuditEvent
forged = record created { event_type = "TASK_DELETED" }

changed_event-flagged_example :
    (verify_from digest stamp "" (forged ∷ cancelled ∷ []) ≡ (false, some "e1"))
    ⊎ (verify_from digest stamp "" (forged ∷ cancelled ∷ []) ≡ (false, some "e2"))
unfolding verify_from material canonical_arguments string_eq ℕ_discrete
changed_event-flagged_example =
    changed_event-flagged digest stamp [] created forged cancelled [] (λ s t e. e) refl
      (differ→≢ _ _ refl)

truncation-unnoticed_example :
    verify_chain digest stamp (record {
      events = created ∷ [];
      head = some record { current_hash = cancelled.current_hash; version = 2 };
    })
    ≡ (true, none)
unfolding verify_chain verify_from material canonical_arguments string_eq ordered ℕ_discrete
truncation-unnoticed_example =
    truncation-unnoticed digest stamp
      (record {
        events = created ∷ cancelled ∷ [];
        head = some record { current_hash = cancelled.current_hash; version = 2 };
      })
      (created ∷ []) (cancelled ∷ []) (omega arith, tt) refl refl

redact-IsClean_example :
    IsClean
      (λ key. key)
      (λ text. text)
      (redact
        (λ key. key)
        (λ text. text)
        (obj (field "token" (str "secret") (field "goal" (str "x") end))))
redact-IsClean_example =
    redact-IsClean (λ key. key) (λ text. text)
      (obj (field "token" (str "secret") (field "goal" (str "x") end)))
