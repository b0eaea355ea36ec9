-- ===== src/Executor/Systemd/Verified.antt =====
-- What a restart that returns has seen, and `restore` over the brokered runner
-- (backend/app/executor/systemd.py).
use kylin_guard_agent.Base.{
  String, Bool, true, false, Option, none, some, List, [], ◌∷◌, ◌==◌, string_eq, nat_eq, contains,
  not, ltb, length, ◌||◌, is_empty, codes, ◌≡◌, refl, arith, Bool-cases, inl, inr, eq_self, eq→≡,
  ap,
}
use mathlib.Core.Path.{subst}
use kylin_guard_agent.Base.Exec.{value_error, ok, err, Exec, passed, pure, raise_if}
use kylin_guard_agent.Json.{is_zero, ℤ, pos, negsuc, str}
use kylin_guard_agent.Guardrails.Approval.{ApprovalClaims}
use kylin_guard_agent.Executor.Machine.{
  Machine, Platform, ExecutionResult, CommandOutcome, on_world, use_approval,
}
use kylin_guard_agent.Executor.Systemd.{
  BrokeredServiceRunner, CommandRunner, validate_service, reports_active, is_active, came_up,
  restart, recover, recover_unless, execute, restore,
}
use kylin_guard_agent.Executor.Systemd.Brokered.{Client, systemctl_runner, run}

module _ {W : Type 0} (platform : Platform) (executable : String) (allowed_services : List String)
    (runner : CommandRunner W) where
  -- The restart, from one state to another: through the broker of the runner, which is given the token, or
  -- by systemctl, once the executor's own approval manager has consumed the token.
  pub data Restarted (user_id task_id service token : String) (s t : Machine W)
      (outcome : CommandOutcome) : Type 0 where
    by_broker :
        (broker : BrokeredServiceRunner W)
        → runner.brokered ≡ some broker
        → on_world (broker.restart_with_approval service user_id task_id token) s ≡ (ok outcome, t)
        → Restarted user_id task_id service token s t outcome
    by_token :
        (claims : ApprovalClaims) (consumed : Machine W)
        → runner.brokered ≡ none
        → use_approval platform token user_id task_id "service_restart"
            (("service", str service) ∷ [])
            s
          ≡ (ok claims, consumed)
        → on_world (runner.run (executable ∷ "restart" ∷ service ∷ []) 30) consumed
          ≡ (ok outcome, t)
        → Restarted user_id task_id service token s t outcome

  -- A query of systemctl that reports the service active.
  pub record ReportsActive (service : String) (s t : Machine W) : Type 0 where
    pub answer : CommandOutcome
    pub asked :
        on_world (runner.run (executable ∷ "is-active" ∷ service ∷ []) 10) s ≡ (ok answer, t)
    pub returned : answer.returncode ≡ pos 0
    pub says : platform.strip answer.stdout ≡ "active"

  -- The steps of a successful restart, each from the state in which the one before it ended.
  pub record IsVerified (user_id task_id service token : String) (before after : Machine W)
      : Type 0 where
    pub allowed : contains allowed_services service ≡ true
    pub asked : Machine W
    pub active_before : ReportsActive service before asked
    pub outcome : CommandOutcome
    pub reached : Machine W
    pub restarted : Restarted user_id task_id service token asked reached outcome
    pub succeeded : outcome.returncode ≡ pos 0
    pub active_after : ReportsActive service reached after

  zero-pos : (n : ℤ) → is_zero n ≡ true → n ≡ pos 0
  zero-pos (pos n) h = ap pos (eq→≡ n 0 h)
  zero-pos (negsuc n) h = ground arith

  reports_zero :
      (answer : CommandOutcome) (s t : Machine W)
      → reports_active platform executable allowed_services runner answer s ≡ (ok true, t)
      → answer.returncode ≡ pos 0
  unfolding reports_active
  reports_zero answer s t h = zero-pos answer.returncode (ground arith)

  is_active-ReportsActive :
      (service : String) (s t : Machine W)
      → is_active platform executable allowed_services runner service s ≡ (ok true, t)
      → ReportsActive service s t
  unfolding is_active reports_active
  is_active-ReportsActive service s t h =
      let p =
        passed (on_world (runner.run (executable ∷ "is-active" ∷ service ∷ []) 10)) _ s t true h in
      let ended : p.middle ≡ t = ground (arith, p.later) in
      record {
        answer = p.value;
        asked =
            subst
              (λ m.
                on_world (runner.run (executable ∷ "is-active" ∷ service ∷ []) 10) s
                ≡ (ok p.value, m))
              ended p.first;
        returned = reports_zero p.value p.middle t p.later;
        says = ground (arith, p.later);
      }

  recover-raises :
      (brokered : Option (BrokeredServiceRunner W)) (service : String) (m m' : Machine W) (t : Unit)
      → recover platform executable allowed_services runner brokered service m ≡ (ok t, m')
      → ⊥
  unfolding recover
  recover-raises (some broker) service m m' t h = ground arith
  recover-raises none service m m' t h =
      let p1 = passed (on_world (runner.run (executable ∷ "start" ∷ service ∷ []) 30)) _ m m' t h in
      let p2 =
        passed (came_up platform executable allowed_services runner p1.value service) _ p1.middle m'
          t p1.later in
      let p3 =
        passed (raise_if (not p2.value) (value_error "SERVICE_RESTART_AND_ROLLBACK_FAILED")) _
          p2.middle m' t p2.later in
      ground (arith, p3.later)

  restart-Restarted :
      (brokered : Option (BrokeredServiceRunner W)) (user_id task_id service token : String)
      (m m' : Machine W) (outcome : CommandOutcome)
      → runner.brokered ≡ brokered
      → restart platform executable allowed_services runner brokered user_id task_id service token m
        ≡ (ok outcome, m')
      → Restarted user_id task_id service token m m' outcome
  unfolding restart
  restart-Restarted (some broker) user_id task_id service token m m' outcome e h =
      by_broker broker e h
  restart-Restarted none user_id task_id service token m m' outcome e h =
      let p =
        passed
          (use_approval platform token user_id task_id "service_restart"
            (("service", str service) ∷ []))
          _ m m' outcome h in
      by_token p.value p.middle e p.first p.later

  came_up-is_active :
      (outcome : CommandOutcome) (service : String) (m m' : Machine W)
      → came_up platform executable allowed_services runner outcome service m ≡ (ok true, m')
      → (outcome.returncode ≡ pos 0)
        × (is_active platform executable allowed_services runner service m ≡ (ok true, m'))
  unfolding came_up
  came_up-is_active outcome service m m' h = elim (Bool-cases (is_zero outcome.returncode)) [
    | inl e ↦ (zero-pos _ e, rw e at h)
    | inr e ↦ ground arith
  ]

  settled :
      (up : Bool) (service : String) (m m' : Machine W) (t : Unit)
      → recover_unless platform executable allowed_services runner up service m ≡ (ok t, m')
      → (up ≡ true) × (m ≡ m')
  settled true service m m' t h = (refl, ground arith)
  settled false service m m' t h = absurd (recover-raises runner.brokered service m m' t h)

  same :
      (up : Bool) (a b s m' : Machine W) (start : Exec (Machine W) Bool)
      (made result : ExecutionResult)
      → up ≡ true
      → a ≡ b
      → start s ≡ (ok up, a)
      → pure made b ≡ (ok result, m')
      → start s ≡ (ok true, m')
  same up a b s m' start made result u e f g = ground arith

  is-allowed :
      (service : String) (m m' : Machine W) (t : Unit)
      → validate_service platform executable allowed_services runner service m ≡ (ok t, m')
      → (contains allowed_services service ≡ true) × (m' ≡ m)
  is-allowed service m m' t h = (ground arith, ground arith)

  -- A restart that returns was of an allowed service and has taken its steps in this order, each
  -- from where the one before it ended: a query reports the service active; the restart returns
  -- 0, either through the broker of the runner, which is given the token, or, where the runner
  -- has none, by systemctl after the token was consumed; and a last query reports the service
  -- active.
  pub execute-IsVerified :
      (user_id task_id service token : String) (result : ExecutionResult) (m m' : Machine W)
      → execute platform executable allowed_services runner user_id task_id service token m
        ≡ (ok result, m')
      → IsVerified user_id task_id service token m m'
  unfolding execute
  execute-IsVerified user_id task_id service token result m m' h =
      let p1 =
        passed (validate_service platform executable allowed_services runner service) _ m m' result
          h in
      let p2 =
        passed (is_active platform executable allowed_services runner service) _ p1.middle m' result
          p1.later in
      let p3 =
        passed (raise_if (not p2.value) (value_error "SERVICE_STATE_CHANGED")) _ p2.middle m' result
          p2.later in
      let p4 =
        passed
          (restart platform executable allowed_services runner runner.brokered user_id task_id
            service token)
          _ p3.middle m' result p3.later in
      let p5 =
        passed (came_up platform executable allowed_services runner p4.value service) _ p4.middle m'
          result p4.later in
      let p6 =
        passed (recover_unless platform executable allowed_services runner p5.value service) _
          p5.middle m' result p5.later in
      let up = settled p5.value service p5.middle p6.middle p6.value p6.first in
      let last = came_up-is_active p4.value service p4.middle m' (
        same p5.value p5.middle p6.middle p4.middle m'
          (came_up platform executable allowed_services runner p4.value service) _ result up.0 up.1
          p5.first p6.later) in
      let (allowed, unchanged) = is-allowed service m p1.middle p1.value p1.first in
      let active : p2.value ≡ true = ground (arith, p3.first) in
      let kept : p2.middle ≡ p3.middle = ground (arith, p3.first) in
      let before = is_active-ReportsActive service p1.middle p2.middle (rw active at p2.first) in
      record {
        allowed = allowed;
        asked = p3.middle;
        active_before =
            subst (λ n. ReportsActive service n p3.middle) unchanged
              (subst (λ n. ReportsActive service p1.middle n) kept before);
        outcome = p4.value;
        reached = p4.middle;
        restarted =
            restart-Restarted runner.brokered user_id task_id service token p3.middle p4.middle
              p4.value refl p4.first;
        succeeded = last.0;
        active_after = is_active-ReportsActive service p4.middle m' last.1;
      }

restart-not_query : ◌==◌ {A = String} "restart" "is-active" ≡ false
unfolding string_eq
restart-not_query = refl

-- `restore` over the brokered runner changes nothing and raises a ValueError, whatever the service:
-- the runner's `run` serves `is-active` alone.
module _ {W : Type 0} (platform : Platform) (client : Client W) (executable : String)
    (allowed_services : List String) where
  pub restore-fails :
      (service : String) (m : Machine W)
      → (code : String) × (restore platform executable allowed_services
            (systemctl_runner platform client (platform.resolve executable))
            service
            m
          ≡ (err (value_error code), m))
  unfolding restore systemctl_runner run
  restore-fails service m = elim (Bool-cases (contains allowed_services service)) [
    | inr e ↦ ("SERVICE_NOT_ALLOWED", rw e refl)
    | inl e ↦
        elim (Bool-cases
          (is_empty service || ltb 128 (length (codes service)) || platform.has_space service)) [
            | inl f ↦ ("SERVICE_NAME_INVALID", rw (e, f) refl)
            | inr f ↦ (
              "BROKER_ACTION_CONTEXT_REQUIRED",
              rw (e, f, eq_self (platform.resolve executable), restart-not_query) refl,
            )
          ]
  ]
