-- ===== src/Audit/Tamper.antt =====
-- `verify_chain` on changed and on shortened logs (backend/app/audit/service.py).
use kylin_guard_agent.Base.{
  ℕ, String, ◌≡◌, ◌≢◌, refl, true, false, none, some, List, [], ◌∷◌, ◌++◌, string_eq, arith, ◌⊎◌,
  ◌∙◌, sym, ap,
}
use mathlib.Core.Path.{subst}
use kylin_guard_agent.Guardrails.Crypto.{IsCollisionFree}
use kylin_guard_agent.Audit.{AuditEvent, AuditLog, material, ordered, verify_from, verify_chain}
use kylin_guard_agent.Audit.Chain.{
  last_hash, Continues, verify_from-cons, verify_from-append, verify_from_of_Continues, Increasing,
  ordered_of_Increasing,
}

Increasing-prefix : (es fs : List AuditEvent) → Increasing (es ++ fs) → Increasing es
Increasing-prefix [] fs h = tt
Increasing-prefix (e ∷ []) fs h = tt
Increasing-prefix (e ∷ (f ∷ es)) fs h = (h.0, Increasing-prefix (f ∷ es) fs h.1)

module _ (sha256 : String → String) (timestamp : ℕ → String) where
  abbrev Valid : String → List AuditEvent → Type 0
  Valid p es = verify_from sha256 timestamp p es ≡ (true, none)

  pub verify_from-prefix :
      (p : String) (es fs : List AuditEvent)
      → verify_from sha256 timestamp p (es ++ fs) ≡ (true, none)
      → verify_from sha256 timestamp p es ≡ (true, none)
  unfolding verify_from
  verify_from-prefix p [] fs h = refl
  verify_from-prefix p (e ∷ es) fs h =
      let (c, r) = verify_from-cons sha256 timestamp p e (es ++ fs) h in
      verify_from_of_Continues sha256 timestamp p e es c ∙ verify_from-prefix e.current_hash es fs r

  verify_from-suffix :
      (p : String) (es fs : List AuditEvent)
      → verify_from sha256 timestamp p (es ++ fs) ≡ (true, none)
      → verify_from sha256 timestamp (last_hash p es) fs ≡ (true, none)
  verify_from-suffix p es fs h =
      sym (verify_from-append sha256 timestamp p es fs (verify_from-prefix p es fs h)) ∙ h

  -- the verdict on two events, the second of which stood there before
  flagged :
      (p : String) (e e' f : AuditEvent) (fs : List AuditEvent)
      → IsCollisionFree sha256
      → Continues sha256 timestamp p e
      → Continues sha256 timestamp e.current_hash f
      → material sha256 timestamp e' p ≢ material sha256 timestamp e p
      → (verify_from sha256 timestamp p (e' ∷ (f ∷ fs)) ≡ (false, some e'.id))
        ⊎ (verify_from sha256 timestamp p (e' ∷ (f ∷ fs)) ≡ (false, some f.id))
  unfolding verify_from
  flagged p e e' f fs free c d differs =
      ground (arith, free (material sha256 timestamp e' p) (material sha256 timestamp e p))

  -- If the digest has no collisions, an event with a successor in a valid chain cannot be changed
  -- in its hashed text unnoticed: whatever hashes are stored with it, `verify_from` reports that
  -- event or the next one.
  pub changed_event-flagged :
      (before : List AuditEvent) (e e' f : AuditEvent) (after : List AuditEvent)
      → IsCollisionFree sha256
      → verify_from sha256 timestamp "" (before ++ (e ∷ (f ∷ after))) ≡ (true, none)
      → material sha256 timestamp e' (last_hash "" before)
        ≢ material sha256 timestamp e (last_hash "" before)
      → (verify_from sha256 timestamp "" (before ++ (e' ∷ (f ∷ after))) ≡ (false, some e'.id))
        ⊎ (verify_from sha256 timestamp "" (before ++ (e' ∷ (f ∷ after))) ≡ (false, some f.id))
  changed_event-flagged before e e' f after free h differs =
      let p = last_hash "" before in
      let whole = verify_from-suffix "" before (e ∷ (f ∷ after)) h in
      let (c, r) = verify_from-cons sha256 timestamp p e (f ∷ after) whole in
      let (d, _) = verify_from-cons sha256 timestamp e.current_hash f after r in
      rw
        (verify_from-append sha256 timestamp "" before (e' ∷ (f ∷ after))
          (verify_from-prefix "" before (e ∷ (f ∷ after)) h))
        (flagged p e e' f after free c d differs)

  -- If the events of a log increase in time and `verify_chain` finds it valid, then it also finds
  -- every beginning of it valid under the same head.
  pub truncation-unnoticed :
      (log : AuditLog) (kept deleted : List AuditEvent)
      → Increasing (kept ++ deleted)
      → log.events ≡ kept ++ deleted
      → verify_chain sha256 timestamp log ≡ (true, none)
      → verify_chain sha256 timestamp (record log { events = kept }) ≡ (true, none)
  unfolding verify_chain
  truncation-unnoticed log kept deleted i e h =
      rw (ordered_of_Increasing kept (Increasing-prefix kept deleted i)) (
        verify_from-prefix "" kept deleted (
          subst (λ es. verify_from sha256 timestamp "" es ≡ (true, none))
            (ap ordered e ∙ ordered_of_Increasing (kept ++ deleted) i) h))
