-- ===== src/Audit/Chain.antt =====
-- Logs that `write_audit` builds, and `verify_chain` on them (backend/app/audit/service.py).
use kylin_guard_agent.Base.{
  ℕ, ◌≤◌, ◌<◌, String, ◌≡◌, refl, true, Option, none, List, [], ◌∷◌, ◌++◌, string_eq, arith, length,
  length-append, All, ◌∙◌, sym, ap,
}
use kylin_guard_agent.Json.{Arguments}
use kylin_guard_agent.Audit.{
  AuditEvent, AuditLog, head_or_new, ordered, material, new_event, write_audit, verify_from,
  verify_chain,
}

-- the hash that the next event continues from
abbrev pub last_hash : String → List AuditEvent → String
last_hash previous_hash [] = previous_hash
last_hash previous_hash (event ∷ events) = last_hash event.current_hash events

-- the events were created one after the other
abbrev pub Increasing : List AuditEvent → Type 0
Increasing [] = Unit
Increasing (e ∷ []) = Unit
Increasing (e ∷ (f ∷ fs)) = (e.created_at < f.created_at) × Increasing (f ∷ fs)

pub ordered_of_Increasing : (events : List AuditEvent) → Increasing events → ordered events ≡ events
unfolding ordered
ordered_of_Increasing [] h = refl
ordered_of_Increasing (e ∷ []) h = refl
ordered_of_Increasing (e ∷ (f ∷ fs)) h =
    let rest : ordered (f ∷ fs) ≡ f ∷ fs = ordered_of_Increasing (f ∷ fs) h.1 in
    rw rest (ground arith)

Increasing-append :
    (events : List AuditEvent) (e : AuditEvent)
    → Increasing events
    → All (λ f. f.created_at < e.created_at) events
    → Increasing (events ++ e ∷ [])
Increasing-append [] e h l = tt
Increasing-append (f ∷ []) e h l = (l.0, tt)
Increasing-append (f ∷ (g ∷ gs)) e h l = (h.0, Increasing-append (g ∷ gs) e h.1 l.1)

module _ (sha256 : String → String) (timestamp : ℕ → String) where
  -- the event continues from the hash given
  abbrev pub Continues : String → AuditEvent → Type 0
  Continues previous_hash event =
      (event.previous_hash ≡ previous_hash)
      × (event.current_hash ≡ sha256 (material sha256 timestamp event previous_hash))

  pub verify_from-cons :
      (p : String) (e : AuditEvent) (es : List AuditEvent)
      → verify_from sha256 timestamp p (e ∷ es) ≡ (true, none)
      → Continues p e × (verify_from sha256 timestamp e.current_hash es ≡ (true, none))
  unfolding verify_from
  verify_from-cons p e es h = ground arith

  pub verify_from_of_Continues :
      (p : String) (e : AuditEvent) (es : List AuditEvent)
      → Continues p e
      → verify_from sha256 timestamp p (e ∷ es) ≡ verify_from sha256 timestamp e.current_hash es
  unfolding verify_from
  verify_from_of_Continues p e es h = ground arith

  -- up to a valid prefix, the verdict is that of the rest
  pub verify_from-append :
      (p : String) (es fs : List AuditEvent)
      → verify_from sha256 timestamp p es ≡ (true, none)
      → verify_from sha256 timestamp p (es ++ fs) ≡ verify_from sha256 timestamp (last_hash p es) fs
  verify_from-append p [] fs h = refl
  verify_from-append p (e ∷ es) fs h =
      let (c, r) = verify_from-cons p e es h in
      verify_from_of_Continues p e (es ++ fs) c ∙ verify_from-append e.current_hash es fs r

  -- What holds of the two tables between two calls; `now` bounds the instants used so far.
  pub record IsSound (now : ℕ) (log : AuditLog) : Type 0 where
    pub chained : verify_from sha256 timestamp "" log.events ≡ (true, none)
    pub at_head : (head_or_new log.head).current_hash ≡ last_hash "" log.events
    pub counted : (head_or_new log.head).version ≡ length log.events
    pub increasing : Increasing log.events
    pub earlier : All (λ e. e.created_at ≤ now) log.events

  pub last_hash-append :
      (p : String) (es : List AuditEvent) (e : AuditEvent)
      → last_hash p (es ++ e ∷ []) ≡ e.current_hash
  last_hash-append p [] e = refl
  last_hash-append p (f ∷ es) e = last_hash-append f.current_hash es e

  earlier-lt :
      (now later : ℕ) (es : List AuditEvent)
      → now < later
      → All (λ e. e.created_at ≤ now) es
      → All (λ e. e.created_at < later) es
  earlier-lt now later [] l h = tt
  earlier-lt now later (e ∷ es) l h = (omega arith, earlier-lt now later es l h.1)

  earlier-append :
      (now : ℕ) (e : AuditEvent) (es : List AuditEvent)
      → now < e.created_at
      → All (λ f. f.created_at ≤ now) es
      → All (λ f. f.created_at ≤ e.created_at) (es ++ e ∷ [])
  earlier-append now e [] l h = (omega arith, tt)
  earlier-append now e (f ∷ es) l h = (omega arith, earlier-append now e es l h.1)

  module _ (redact : Arguments → Arguments) where
    -- The arguments of one call of `write_audit`, with the id and the instant that it takes.
    pub record Write : Type 0 where
      pub event_id : String
      pub instant : ℕ
      pub event_type : String
      pub payload : Arguments
      pub actor_id : Option String
      pub task_id : Option String

    abbrev pub perform : Write → AuditLog → AuditLog
    perform w =
        write_audit sha256 timestamp redact w.event_id w.instant w.event_type w.payload w.actor_id
          w.task_id

    pub write_audit-IsSound :
        (now : ℕ) (w : Write) (log : AuditLog)
        → now < w.instant
        → IsSound now log
        → IsSound w.instant (perform w log)
    unfolding write_audit new_event material verify_from
    write_audit-IsSound now w log later s =
        let head = head_or_new log.head in
        let e =
          new_event sha256 timestamp redact w.event_id w.instant w.event_type w.payload w.actor_id
            w.task_id head in
        record {
          chained =
              verify_from-append "" log.events (e ∷ []) s.chained
              ∙ verify_from_of_Continues (last_hash "" log.events) e []
                  (s.at_head, ap (λ p. sha256 (material sha256 timestamp e p)) s.at_head);
          at_head = sym (last_hash-append "" log.events e);
          counted = omega (arith, length-append log.events (e ∷ []), s.counted);
          increasing =
              Increasing-append log.events e s.increasing
                (earlier-lt now w.instant log.events later s.earlier);
          earlier = earlier-append now e log.events later s.earlier;
        }

    -- a sequence of calls
    unfoldable pub write_all : AuditLog → List Write → AuditLog
    write_all log [] = log
    write_all log (w ∷ ws) = write_all (perform w log) ws

    -- each call takes a later instant than the one before it
    abbrev pub Advances : ℕ → List Write → Type 0
    Advances now [] = Unit
    Advances now (w ∷ ws) = (now < w.instant) × Advances w.instant ws

    abbrev pub last_instant : ℕ → List Write → ℕ
    last_instant now [] = now
    last_instant now (w ∷ ws) = last_instant w.instant ws

    write_all-IsSound :
        (now : ℕ) (log : AuditLog) (ws : List Write)
        → Advances now ws
        → IsSound now log
        → IsSound (last_instant now ws) (write_all log ws)
    unfolding write_all
    write_all-IsSound now log [] a s = s
    write_all-IsSound now log (w ∷ ws) a s =
        write_all-IsSound w.instant (perform w log) ws a.1 (write_audit-IsSound now w log a.0 s)

    -- From a sound log, every sequence of `write_audit` calls at advancing instants leaves a log
    -- that `verify_chain` finds valid, whose head counts the events and holds the last hash.
    pub verify_chain-write_all :
        (now : ℕ) (log : AuditLog) (ws : List Write)
        → IsSound now log
        → Advances now ws
        → let after = write_all log ws in
          (verify_chain sha256 timestamp after ≡ (true, none))
          × ((head_or_new after.head).version ≡ length after.events)
          × ((head_or_new after.head).current_hash ≡ last_hash "" after.events)
    unfolding verify_chain
    verify_chain-write_all now log ws s a =
        let t = write_all-IsSound now log ws a s in
        (
          rw (ordered_of_Increasing (write_all log ws).events t.increasing) t.chained,
          t.counted,
          t.at_head,
        )
