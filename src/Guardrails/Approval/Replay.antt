-- ===== src/Guardrails/Approval/Replay.antt =====
-- Sequences of calls of `consume` on one manager (backend/app/guardrails/approval.py).
use kylin_guard_agent.Base.{ℕ, String, ◌≡◌, refl, false, Option, List, [], ◌∷◌, string_eq, contains}
use mathlib.Core.Path.{subst}
use kylin_guard_agent.Base.Exec.{Result, ok, err, Exec}
use kylin_guard_agent.Json.{Arguments}
use kylin_guard_agent.Guardrails.Crypto.{Crypto}
use kylin_guard_agent.Guardrails.Approval.{ApprovalClaims, ApprovalTokenManager, consume}
use kylin_guard_agent.Guardrails.Approval.Accept.{consume-accepts, consume-rejects}

-- The arguments of one call of `consume`.
pub record Request : Type 0 where
  pub token : String
  pub user_id : String
  pub task_id : String
  pub tool_name : String
  pub arguments : Arguments
  pub now : ℕ

-- `nonce` is in none of the lists that follow it, and in none of `seen`.
abbrev pub AllFresh : List String → List String → Type 0
AllFresh seen [] = Unit
AllFresh seen (nonce ∷ nonces) = (contains seen nonce ≡ false) × AllFresh (nonce ∷ seen) nonces

module _ (crypto : Crypto) (decode : String → Option ApprovalClaims) where
  -- one call
  abbrev pub attempt : Request → Exec ApprovalTokenManager ApprovalClaims
  attempt r = consume crypto decode r.token r.user_id r.task_id r.tool_name r.arguments r.now

  abbrev add_nonce : Result ApprovalClaims → List String → List String
  add_nonce (ok claims) nonces = claims.nonce ∷ nonces
  add_nonce (err e) nonces = nonces

  -- the nonces that a sequence of calls accepts, in order
  unfoldable pub accepted_nonces : ApprovalTokenManager → List Request → List String
  accepted_nonces manager [] = []
  accepted_nonces manager (r ∷ requests) =
      let (result, after) = attempt r manager in add_nonce result (accepted_nonces after requests)

  -- Whatever tokens are presented to one manager in whatever order, the accepted nonces are
  -- pairwise different and none of them had been consumed before.
  pub accepted_nonces-AllFresh :
      (manager : ApprovalTokenManager) (requests : List Request)
      → AllFresh manager.consumed (accepted_nonces manager requests)
  unfolding accepted_nonces
  accepted_nonces-AllFresh manager [] = tt
  accepted_nonces-AllFresh manager (r ∷ requests) =
      go (attempt r manager).0 (attempt r manager).1 refl
        (accepted_nonces-AllFresh (attempt r manager).1 requests)
    where
      go :
          (result : Result ApprovalClaims) (after : ApprovalTokenManager)
          → attempt r manager ≡ (result, after)
          → AllFresh after.consumed (accepted_nonces after requests)
          → AllFresh manager.consumed (add_nonce result (accepted_nonces after requests))
      go (ok claims) after e rest =
          let (signed, scope, fresh, grown) =
            consume-accepts crypto decode r.token r.user_id r.task_id r.tool_name r.arguments r.now
              manager claims after e in
          (fresh, subst (λ m. AllFresh m.consumed (accepted_nonces after requests)) grown rest)
      go (err e) after h rest =
          subst (λ m. AllFresh m.consumed (accepted_nonces after requests))
            (consume-rejects crypto decode r.token r.user_id r.task_id r.tool_name r.arguments r.now
              manager e after h)
            rest
