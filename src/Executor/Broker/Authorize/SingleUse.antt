-- ===== src/Executor/Broker/Authorize/SingleUse.antt =====
-- A token over two requests to `_authorize_and_consume` (backend/app/executor/broker.py).
use kylin_guard_agent.Base.{
  ℕ, suc, ◌+◌, ◌≤◌, String, ◌≡◌, refl, false, some, List, [], ◌∷◌, ◌++◌, ◌&&◌, ◌==◌, string_eq,
  option_eq, nat_eq, arith, if◌then◌else◌, ap, sym, ◌∙◌,
}
use mathlib.Core.Path.{subst}
use mathlib.Core.Option.{some-injective}
use kylin_guard_agent.Base.Dict.{Dict, lookup}
use kylin_guard_agent.Base.Exec.{Error, Result, ok, err}
use kylin_guard_agent.Json.{Arguments}
use kylin_guard_agent.Models.{Approval}
use kylin_guard_agent.Executor.Broker.Authorize.{Database, Outside, text_of, authorize_and_consume}
use kylin_guard_agent.Executor.Broker.Authorize.Rows.{IsConsumed}
use kylin_guard_agent.Executor.Broker.Authorize.Accepts.{
  IsAuthorized, authorize-IsAuthorized, authorize_rejects,
}

-- how many rows could still be consumed by the token
unfoldable pub live : String → Dict String Approval → ℕ
live token_hash [] = 0
live token_hash ((key, row) ∷ rows) =
    let rest = live token_hash rows in
    if row.status == "APPROVED" && row.token_hash == some token_hash then suc rest else rest

consumed_ne_approved : ◌==◌ {A = String} "CONSUMED" "APPROVED" ≡ false
unfolding string_eq
consumed_ne_approved = refl

live-append :
    (token_hash : String) (xs ys : Dict String Approval)
    → live token_hash (xs ++ ys) ≡ live token_hash xs + live token_hash ys
unfolding live
live-append h [] ys = omega arith
live-append h ((key, row) ∷ xs) ys = ground (arith, live-append h xs ys)

-- the row that is consumed was live, and no longer is
live-IsConsumed :
    (token_hash id : String) (row : Approval) (before after : Dict String Approval)
    → row.status ≡ "APPROVED"
    → row.token_hash ≡ some token_hash
    → IsConsumed id row before after
    → live token_hash after + 1 ≡ live token_hash before
unfolding live
live-IsConsumed h id row before after s k c =
    rw (c.placed, c.replaced, live-append h c.front _, live-append h c.front _)
      (ground (arith, consumed_ne_approved, s, k))

module _ (outside : Outside) where
  open outside use {sha256}

  -- an authorized request leaves its token one row less
  live-authorized :
      (request : Arguments) (token : String) (before after : Database) (args : List String)
      → text_of (lookup "approval_token" request) ≡ some token
      → IsAuthorized outside request before after args
      → live (sha256 token) after.approvals + 1 ≡ live (sha256 token) before.approvals
  live-authorized request token before after args h a =
      let same : a.approval_token ≡ token = some-injective _ _ (sym a.has_token ∙ h) in
      let p = a.approved in
      subst (λ k. live (sha256 k) after.approvals + 1 ≡ live (sha256 k) before.approvals) same
        (rw p.written (
          live-IsConsumed (sha256 a.approval_token) p.id p.row before.approvals p.rows p.status
            p.token p.consumed))

  authorized-live :
      (request : Arguments) (token : String) (before after : Database) (args : List String)
      → text_of (lookup "approval_token" request) ≡ some token
      → IsAuthorized outside request before after args
      → 1 ≤ live (sha256 token) before.approvals
  authorized-live request token before after args h a =
      omega (arith, live-authorized request token before after args h a)

module _ (outside : Outside) where
  open outside use {sha256}

  -- If a token stands in at most one consumable row and a request with it has been authorized,
  -- then every later request with that token is refused with an error and changes nothing,
  -- whatever else it says and whenever it comes.
  pub authorize-refuses_used :
      (request again : Arguments) (token : String) (before after : Database) (args : List String)
      (later : ℕ)
      → live (sha256 token) before.approvals ≤ 1
      → text_of (lookup "approval_token" request) ≡ some token
      → text_of (lookup "approval_token" again) ≡ some token
      → authorize_and_consume outside request before ≡ (ok args, after)
      → (e : Error) × (authorize_and_consume (record outside { now = later }) again after
          ≡ (err e, after))
  authorize-refuses_used request again token before after args later unique h1 h2 h =
      go (authorize_and_consume (record outside { now = later }) again after).0
        (authorize_and_consume (record outside { now = later }) again after).1 refl
    where
      go :
          (result : Result (List String)) (last : Database)
          → authorize_and_consume (record outside { now = later }) again after ≡ (result, last)
          → (e : Error) × (authorize_and_consume (record outside { now = later }) again after
              ≡ (err e, after))
      go (ok args') last e = absurd (
          omega (
            arith,
            live-authorized outside request token before after args h1
                (authorize-IsAuthorized outside request before after args h),
            authorized-live (record outside { now = later }) again token after last args' h2
                (authorize-IsAuthorized (record outside { now = later }) again after last args' e),
          ))
      go (err e) last h' = (
        e,
        h'
            ∙ ap (λ d. (err e, d))
                (authorize_rejects (record outside { now = later }) again e after last h'),
      )
