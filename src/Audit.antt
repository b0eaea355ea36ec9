-- ===== src/Audit.antt =====
-- backend/app/audit/service.py: the hash chain of audit events.
-- An instant is a number of microseconds in UTC, and `timestamp` (`isoformat`) is a parameter, as
-- are the hash, the new event's id and clock, and `redact`'s `sanitize_text` and `str.lower`.
pub mod Redact
pub mod Chain
pub mod Tamper
use Prim.Native.Nat.{Ordering, compare}
use Prim.Native.String
use kylin_guard_agent.Base.{
  ℕ, zero, suc, ◌+◌, String, Bool, true, false, Option, none, some, List, [], ◌∷◌, ◌++◌, ◌==◌,
  string_eq, ltb, ◌&&◌, ◌||◌, not, if◌then◌else◌,
}
use kylin_guard_agent.Json.{Value, null, str, Arguments}
use kylin_guard_agent.Json.Print.{canonical_arguments}
use kylin_guard_agent.Audit.Redact.{redact_all}

-- `AuditEvent` of backend/app/db/models.py
pub record AuditEvent : Type 0 where
  pub id : String
  pub task_id : Option String
  pub actor_id : Option String
  pub event_type : String
  pub payload_json : String
  pub previous_hash : String
  pub current_hash : String
  pub created_at : ℕ

-- `AuditChainHead`
pub record AuditChainHead : Type 0 where
  pub current_hash : String
  pub version : ℕ

-- The two tables: the events in the order of their insertion, and the row with id 1.
pub record AuditLog : Type 0 where
  pub events : List AuditEvent
  pub head : Option AuditChainHead

abbrev pub optional : Option String → Value
optional none = null
optional (some s) = str s

-- `db.get(AuditChainHead, 1)`, or the new row
abbrev pub head_or_new : Option AuditChainHead → AuditChainHead
head_or_new none = record { current_hash = ""; version = 0 }
head_or_new (some head) = head

is_before_id : String → String → Bool
is_before_id a b = elim (String.compare a b) [ Ordering.lt ↦ true | _ ↦ false ]

-- `ORDER BY created_at, id`
comes_before : AuditEvent → AuditEvent → Bool
unfolding is_before_id
comes_before a b = elim (compare a.created_at b.created_at) [
  | Ordering.lt ↦ true
  | Ordering.eq ↦ is_before_id a.id b.id
  | Ordering.gt ↦ false
]

insert_event : AuditEvent → List AuditEvent → List AuditEvent
unfolding comes_before
insert_event e [] = e ∷ []
insert_event e (f ∷ fs) =
    let rest = insert_event e fs in if comes_before e f then e ∷ (f ∷ fs) else f ∷ rest

unfoldable pub ordered : List AuditEvent → List AuditEvent
unfolding insert_event
ordered [] = []
ordered (e ∷ es) = insert_event e (ordered es)

module _ (sha256 : String → String) (timestamp : ℕ → String) where
  -- the canonical text whose digest is stored
  unfoldable pub material : AuditEvent → String → String
  material event previous_hash = canonical_arguments (
      ("actor_id", optional event.actor_id)
      ∷ ("created_at", str (timestamp event.created_at))
      ∷ ("event_id", str event.id)
      ∷ ("event_type", str event.event_type)
      ∷ ("payload_json", str event.payload_json)
      ∷ ("previous_hash", str previous_hash)
      ∷ ("task_id", optional event.task_id)
      ∷ [])

  -- the event that `write_audit` adds after a head
  unfoldable pub new_event :
      (Arguments → Arguments)
      → String
      → ℕ
      → String
      → Arguments
      → Option String
      → Option String
      → AuditChainHead
      → AuditEvent
  unfolding material
  new_event redact event_id created_at event_type payload actor_id task_id head =
      let draft : AuditEvent = record {
        id = event_id;
        task_id = task_id;
        actor_id = actor_id;
        event_type = event_type;
        payload_json = canonical_arguments (redact payload);
        previous_hash = head.current_hash;
        current_hash = "";
        created_at = created_at;
      } in
      record draft { current_hash = sha256 (material draft head.current_hash) }

  unfoldable pub write_audit :
      (Arguments → Arguments)
      → String
      → ℕ
      → String
      → Arguments
      → Option String
      → Option String
      → AuditLog
      → AuditLog
  write_audit redact event_id created_at event_type payload actor_id task_id log =
      let head = head_or_new log.head in
      let event = new_event redact event_id created_at event_type payload actor_id task_id head in
      record {
        events = log.events ++ event ∷ [];
        head = some (record { current_hash = event.current_hash; version = head.version + 1 });
      }

  -- the loop of `verify_chain`
  unfoldable pub verify_from : String → List AuditEvent → Bool × Option String
  verify_from previous_hash [] = (true, none)
  verify_from previous_hash (event ∷ events) =
      let rest = verify_from event.current_hash events in
      if not (event.previous_hash == previous_hash)
        || not (event.current_hash == sha256 (material event previous_hash))
      then (false, some event.id)
      else rest

  unfoldable pub verify_chain : AuditLog → Bool × Option String
  verify_chain log = verify_from "" (ordered log.events)
