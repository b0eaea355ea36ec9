-- ===== src/Executor/Machine.antt =====
-- What the executors share: an approval manager of their own and the host they act on.
-- `ExecutionResult` of backend/app/executor/controlled.py, `CommandOutcome` of systemd.py.
use kylin_guard_agent.Base.{ℕ, String, Bool, Option}
use kylin_guard_agent.Base.Exec.{Result, ok, err, Exec}
use kylin_guard_agent.Base.Triple.{After, Triple}
use kylin_guard_agent.Json.{ℤ, Arguments}
use kylin_guard_agent.Guardrails.Crypto.{Crypto}
use kylin_guard_agent.Guardrails.Approval.{ApprovalClaims, ApprovalTokenManager, consume}

pub record ExecutionResult : Type 0 where
  pub change_id : String
  pub tool_name : String
  pub status : String
  pub backup_ref : Option String
  pub verification : String
  pub rollback_status : Option String

pub record CommandOutcome : Type 0 where
  pub returncode : ℤ  -- negative after a signal
  pub stdout : String
  pub stderr : String

-- What an executor gets from outside its host: the hashes, the JSON parser of tokens, the clock in
-- seconds, a new id, and Python's `str.strip`, `any(char.isspace() …)`, `str(int)`, `Path.resolve`.
pub record Platform : Type 0 where
  pub crypto : Crypto
  pub decode : String → Option ApprovalClaims
  pub now : ℕ
  pub fresh_id : String
  pub strip : String → String
  pub has_space : String → Bool
  pub show : ℕ → String
  pub resolve : String → String

pub record Machine (W : Type 0) : Type 0 where
  pub approvals : ApprovalTokenManager
  pub world : W

-- an operation of the host
abbrev pub on_world : {W A : Type 0} → Exec W A → Exec (Machine W) A
on_world m s = let (r, w) = m s.world in (r, record s { world = w })

-- `self.approvals.consume(…)`
unfoldable pub use_approval :
    {W : Type 0}
    → Platform
    → String
    → String
    → String
    → String
    → Arguments
    → Exec (Machine W) ApprovalClaims
use_approval platform token user_id task_id tool_name arguments s =
    let (r, approvals) =
      consume platform.crypto platform.decode token user_id task_id tool_name arguments platform.now
        s.approvals in
    (r, record s { approvals = approvals })

module _ {W A : Type 0} (P : W → Type 0) (Q : A → W → Type 0) (E : W → Type 0) where
  after_on_world :
      (s : Machine W) (r : Result A × W)
      → After Q E r
      → After {S = Machine W} {A = A}
          (λ a t. Q a t.world)
          (λ t. E t.world)
          (r.0, record s { world = r.1 })
  after_on_world s (ok a, w) h = h
  after_on_world s (err e, w) h = h

  -- what holds of the host when an operation of it ends
  pub on_world-Triple :
      (m : Exec W A)
      → Triple P m Q E
      → Triple (λ s. P s.world) (on_world m) (λ a t. Q a t.world) (λ t. E t.world)
  on_world-Triple m h = record {
    holds = λ s before. after_on_world s (m s.world) (h.holds s.world before);
  }

module _ {W : Type 0} (P : W → Type 0) (platform : Platform)
    (token user_id task_id tool_name : String) (arguments : Arguments) where
  after_approval :
      (s : Machine W) (r : Result ApprovalClaims × ApprovalTokenManager)
      → P s.world
      → After {S = Machine W} {A = ApprovalClaims}
          (λ _ t. P t.world)
          (λ t. P t.world)
          (r.0, record s { approvals = r.1 })
  after_approval s (ok claims, manager) h = h
  after_approval s (err e, manager) h = h

  -- Using an approval leaves the host alone.
  pub use_approval-Triple :
      Triple
        (λ (s : Machine W). P s.world)
        (use_approval platform token user_id task_id tool_name arguments)
        (λ _ t. P t.world)
        (λ t. P t.world)
  unfolding use_approval
  use_approval-Triple = record { holds = λ s h. after_approval s _ h }
