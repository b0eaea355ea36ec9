-- ===== src/Executor/Processes/Safe.antt =====
-- What a termination that returns has checked and seen, and the rollback with the restorer of
-- production (backend/app/executor/process.py).
use kylin_guard_agent.Base.{
  ℕ, zero, suc, String, Bool, true, false, Option, none, some, List, [], ◌∷◌, string_eq, nat_eq,
  option_eq, contains, leb, ◌||◌, ◌≡◌, refl, arith, Bool-cases, inl, inr, ◌≢◌, ◌≤◌, not, ◌==◌,
  if◌then◌else◌, differ→≢, eq→≡,
}
use mathlib.Core.Path.{subst}
use kylin_guard_agent.Base.Dict.{Dict, lookup}
use kylin_guard_agent.Base.Exec.{value_error, ok, err, Exec, pure, raise_if, passed}
use kylin_guard_agent.Json.{str}
use kylin_guard_agent.Guardrails.Approval.{ApprovalClaims}
use kylin_guard_agent.Executor.Machine.{Machine, Platform, ExecutionResult, on_world, use_approval}
use kylin_guard_agent.Executor.Systemd.{restore}
use kylin_guard_agent.Executor.Systemd.Brokered.{Client, systemctl_runner}
use kylin_guard_agent.Executor.Systemd.Verified.{restore-fails}
use kylin_guard_agent.Executor.Processes.{
  ProcessIdentity, ProcessCandidate, ProcessController, protect_pid, is_same, require_current,
  is_gone, wait, restore_service, unless_gone, execute, execute_rollback,
}

module _ {W : Type 0} (platform : Platform) (own : List ℕ) (managed_processes : Dict String String)
    (controller : ProcessController W) (restorer : Option (String → Exec (Machine W) Bool))
    (polls : ℕ) where
  -- The inspections of the wait, from one state of the host to another: each found the process of the
  -- candidate, but for the last, which found none or one with another start.
  pub data SeenGone (candidate : ProcessCandidate) : W → W → Type 0 where
    absent : {s t : W} → controller.inspect candidate.pid s ≡ (ok none, t) → SeenGone candidate s t
    replaced :
        {s t : W} (found : ProcessIdentity)
        → controller.inspect candidate.pid s ≡ (ok (some found), t)
        → found.start_ticks ≢ candidate.start_ticks
        → SeenGone candidate s t
    running :
        {s t : W} (found : ProcessIdentity) (next : W)
        → controller.inspect candidate.pid s ≡ (ok (some found), next)
        → found.start_ticks ≡ candidate.start_ticks
        → SeenGone candidate next t
        → SeenGone candidate s t

  -- The steps of a termination, each from the state in which the one before it left the host.
  pub record IsTerminated (user_id task_id token : String) (candidate : ProcessCandidate)
      (before after : Machine W) : Type 0 where
    pub claims : ApprovalClaims
    pub consumed : Machine W
    pub approved :
        use_approval platform token user_id task_id "terminate_process"
          (("candidate_id", str candidate.candidate_id) ∷ [])
          before
        ≡ (ok claims, consumed)
    pub not_init : 2 ≤ candidate.pid
    pub not_own : contains own candidate.pid ≡ false
    pub managed : lookup candidate.name managed_processes ≡ some candidate.service
    pub found : ProcessIdentity
    pub inspected_world : W
    pub inspected :
        controller.inspect candidate.pid consumed.world ≡ (ok (some found), inspected_world)
    pub same_name : found.name ≡ candidate.name
    pub same_start : found.start_ticks ≡ candidate.start_ticks
    pub terminated_world : W
    pub terminated : controller.terminate candidate.pid inspected_world ≡ (ok tt, terminated_world)
    pub gone : SeenGone candidate terminated_world after.world

  on_world-ok :
      {A : Type 0} (m : Exec W A) (s t : Machine W) (a : A)
      → on_world m s ≡ (ok a, t)
      → m s.world ≡ (ok a, t.world)
  on_world-ok m s t a h = ground arith

  -- What the check of the candidate found, from one state of the host to the next.
  record IsCurrent (candidate : ProcessCandidate) (s t : W) : Type 0 where
    pub not_init : 2 ≤ candidate.pid
    pub not_own : contains own candidate.pid ≡ false
    pub managed : lookup candidate.name managed_processes ≡ some candidate.service
    pub found : ProcessIdentity
    pub inspected : controller.inspect candidate.pid s ≡ (ok (some found), t)
    pub same_name : found.name ≡ candidate.name
    pub same_start : found.start_ticks ≡ candidate.start_ticks

  found-IsCurrent :
      (candidate : ProcessCandidate) (s t m m' : Machine W) (u : Unit)
      (identity : Option ProcessIdentity)
      → (leb candidate.pid 1 || contains own candidate.pid) ≡ false
      → controller.inspect candidate.pid s.world ≡ (ok identity, t.world)
      → raise_if
          (not (is_same platform own managed_processes controller restorer polls candidate identity)
            || not (lookup candidate.name managed_processes == some candidate.service))
          (value_error "PROCESS_CANDIDATE_STALE_OR_UNSAFE")
          m
        ≡ (ok u, m')
      → IsCurrent candidate s.world t.world
  unfolding is_same
  found-IsCurrent candidate s t m m' u none p e h = ground arith
  found-IsCurrent candidate s t m m' u (some found) p e h = record {
    not_init = ground arith;
    not_own = ground arith;
    managed = ground arith;
    found = found;
    inspected = e;
    same_name = ground arith;
    same_start = ground arith;
  }

  require_current-IsCurrent :
      (candidate : ProcessCandidate) (m m' : Machine W) (t : Unit)
      → require_current platform own managed_processes controller restorer polls candidate m
        ≡ (ok t, m')
      → IsCurrent candidate m.world m'.world
  unfolding require_current protect_pid
  require_current-IsCurrent candidate m m' t h =
      let p1 =
        passed (protect_pid platform own managed_processes controller restorer polls candidate.pid)
          _ m m' t h in
      let p2 = passed (on_world (controller.inspect candidate.pid)) _ p1.middle m' t p1.later in
      let unprotected : (leb candidate.pid 1 || contains own candidate.pid) ≡ false =
        ground (arith, p1.first) in
      let before : p1.middle ≡ m = ground (arith, p1.first) in
      let after : p2.middle ≡ m' = ground (arith, p2.later) in
      let current =
        found-IsCurrent candidate p1.middle p2.middle p2.middle m' t p2.value unprotected
          (on_world-ok (controller.inspect candidate.pid) p1.middle p2.middle p2.value p2.first)
          p2.later in
      subst (λ (n : Machine W). IsCurrent candidate n.world m'.world) before
        (subst (λ (n : Machine W). IsCurrent candidate p1.middle.world n.world) after current)

  wait-SeenGone :
      (n : ℕ) (candidate : ProcessCandidate) (m m' : Machine W)
      → wait platform own managed_processes controller restorer polls n candidate m ≡ (ok true, m')
      → SeenGone candidate m.world m'.world
  unfolding wait
  wait-SeenGone zero candidate m m' h = ground arith
  wait-SeenGone (suc n) candidate m m' h =
      let p = passed (on_world (controller.inspect candidate.pid)) _ m m' true h in
      look p.value p.middle (wait-SeenGone n candidate p.middle m')
        (on_world-ok (controller.inspect candidate.pid) m p.middle p.value p.first) p.later
    where
      look :
          (identity : Option ProcessIdentity) (middle : Machine W)
          → (wait platform own managed_processes controller restorer polls n candidate middle
                ≡ (ok true, m')
              → SeenGone candidate middle.world m'.world)
          → controller.inspect candidate.pid m.world ≡ (ok identity, middle.world)
          → (if is_gone platform own managed_processes controller restorer polls candidate identity
                then pure true
                else wait platform own managed_processes controller restorer polls n candidate)
              middle
            ≡ (ok true, m')
          → SeenGone candidate m.world m'.world
      look none middle again e l =
          let ended : middle.world ≡ m'.world = ground arith in
          subst (SeenGone candidate m.world) ended (absent e)
      look (some found) middle again e l =
          elim (Bool-cases (found.start_ticks == candidate.start_ticks)) [
            | inl f ↦ running found middle.world e (eq→≡ _ _ f) (again (rw f at l))
            | inr f ↦
                let ended : middle.world ≡ m'.world = ground arith in
                subst (SeenGone candidate m.world) ended (replaced found e (differ→≢ _ _ f))
          ]

  done :
      (gone : Bool) (service : String) (m m' : Machine W) (t : Unit)
      → unless_gone platform own managed_processes controller restorer polls gone service m
        ≡ (ok t, m')
      → gone ≡ true
  done true service m m' t h = refl
  done false service m m' t h =
      let p =
        passed
          (restore_service platform own managed_processes controller restorer polls restorer
            service)
          _ m m' t h in
      ground (arith, p.later)

  -- A termination that returns has taken its steps in this order, each from where the one before
  -- it left the host: it has consumed a token for the user, the task and the candidate; an
  -- inspection has found a process with the name and the start of the candidate, which is not
  -- init, not the server and managed by the service of the candidate; that process was sent the
  -- signal; and inspections have followed, of which the last found it gone or replaced by one
  -- with another start.
  pub execute-IsTerminated :
      (user_id task_id token : String) (candidate : ProcessCandidate) (result : ExecutionResult)
      (m m' : Machine W)
      → execute platform own managed_processes controller restorer polls user_id task_id candidate
          token m
        ≡ (ok result, m')
      → IsTerminated user_id task_id token candidate m m'
  unfolding execute
  execute-IsTerminated user_id task_id token candidate result m m' h =
      let p1 =
        passed
          (use_approval platform token user_id task_id "terminate_process"
            (("candidate_id", str candidate.candidate_id) ∷ []))
          _ m m' result h in
      let p2 =
        passed (require_current platform own managed_processes controller restorer polls candidate)
          _ p1.middle m' result p1.later in
      let p3 =
        passed (on_world (controller.terminate candidate.pid)) _ p2.middle m' result p2.later in
      let p4 =
        passed (wait platform own managed_processes controller restorer polls polls candidate) _
          p3.middle m' result p3.later in
      let p5 =
        passed
          (unless_gone platform own managed_processes controller restorer polls p4.value
            candidate.service)
          _ p4.middle m' result p4.later in
      let seen = done p4.value candidate.service p4.middle p5.middle p5.value p5.first in
      let current = require_current-IsCurrent candidate p1.middle p2.middle p2.value p2.first in
      let ended : p4.middle ≡ m' = ground (arith, seen, p5.first, p5.later) in
      record {
        claims = p1.value;
        consumed = p1.middle;
        approved = p1.first;
        not_init = current.not_init;
        not_own = current.not_own;
        managed = current.managed;
        found = current.found;
        inspected_world = p2.middle.world;
        inspected = current.inspected;
        same_name = current.same_name;
        same_start = current.same_start;
        terminated_world = p3.middle.world;
        terminated =
            on_world-ok (controller.terminate candidate.pid) p2.middle p3.middle tt p3.first;
        gone =
            subst (λ (n : Machine W). SeenGone candidate p3.middle.world n.world) ended
              (wait-SeenGone polls candidate p3.middle p4.middle (rw seen at p4.first));
      }

module _ {W : Type 0} (platform : Platform) (own : List ℕ) (managed_processes : Dict String String)
    (controller : ProcessController W) (polls : ℕ) (client : Client W) (executable : String)
    (allowed_services : List String) where
  restore-raises :
      (service : String) (m m' : Machine W) (b : Bool) (code : String)
      → restore platform executable allowed_services
          (systemctl_runner platform client (platform.resolve executable))
          service
          m
        ≡ (err (value_error code), m)
      → restore platform executable allowed_services
          (systemctl_runner platform client (platform.resolve executable))
          service
          m
        ≡ (ok b, m')
      → ⊥
  restore-raises service m m' b code e h = ground arith

  -- With the restorer of production, which is `restore` over the brokered runner, no rollback of
  -- a termination returns a result.
  pub execute_rollback-never :
      (user_id task_id change_id service token : String) (result : ExecutionResult)
      (m m' : Machine W)
      → execute_rollback platform own managed_processes controller
          (some (
            restore platform executable allowed_services
              (systemctl_runner platform client (platform.resolve executable))))
          polls
          user_id
          task_id
          change_id
          service
          token
          m
        ≢ (ok result, m')
  unfolding execute_rollback restore_service
  execute_rollback-never user_id task_id change_id service token result m m' h =
      let p1 =
        passed
          (use_approval platform token user_id task_id "rollback_change"
            (("change_id", str change_id) ∷ []))
          _ m m' result h in
      let p2 =
        passed
          (restore_service platform own managed_processes controller
            (some (
              restore platform executable allowed_services
                (systemctl_runner platform client (platform.resolve executable))))
            polls
            (some (
              restore platform executable allowed_services
                (systemctl_runner platform client (platform.resolve executable))))
            service)
          _ p1.middle m' result p1.later in
      let p3 =
        passed
          (restore platform executable allowed_services
            (systemctl_runner platform client (platform.resolve executable)) service)
          _ p1.middle p2.middle p2.value p2.first in
      let fails = restore-fails platform client executable allowed_services service p1.middle in
      restore-raises service p1.middle p3.middle p3.value fails.0 fails.1 p3.first
