-- ===== src/Guardrails/Approval/Accept.antt =====
-- What `consume` asks of a token, and `consume` on a token of `issue`
-- (backend/app/guardrails/approval.py).

use text.Mathlib.TextLemmas.{cons-append, nil-append}
use kylin_guard_agent.Base.{
  ℕ, ◌+◌, ◌≤◌, String, ◌<>◌, ◌≡◌, refl, false, Option, none, some, ◌∷◌, arith, string_eq, contains,
  rsplit, rsplit-append,
}
use kylin_guard_agent.Base.Exec.{Error, ok, err}
use kylin_guard_agent.Json.{Arguments}
use kylin_guard_agent.Json.Print.{canonical_arguments}
use kylin_guard_agent.Guardrails.Crypto.{Crypto, HasNoDot}
use kylin_guard_agent.Guardrails.Approval.{
  ApprovalClaims, ApprovalTokenManager, encode, new_claims, issue, authenticate, consume,
}

module _ (crypto : Crypto) (decode : String → Option ApprovalClaims) where
  open crypto use {sha256, hmac}

  -- The token holds the claims, signed with the secret.
  pub record IsSigned (secret token : String) (claims : ApprovalClaims) : Type 0 where
    pub payload : String
    pub signature : String
    pub splits : rsplit b'.' token ≡ some (payload, signature)
    pub signed : signature ≡ hmac secret payload
    pub decodes : decode payload ≡ some claims

  -- The claims are those of the request, in date.
  pub record IsInScope (user_id task_id tool_name : String) (arguments : Arguments) (now : ℕ)
      (claims : ApprovalClaims) : Type 0 where
    pub user : claims.user_id ≡ user_id
    pub task : claims.task_id ≡ task_id
    pub tool : claims.tool_name ≡ tool_name
    pub hash : claims.arguments_hash ≡ sha256 (canonical_arguments arguments)
    pub in_date : now ≤ claims.expires_at

  authenticate-IsSigned :
      (secret token : String) (claims : ApprovalClaims) (split : Option (String × String))
      → rsplit b'.' token ≡ split
      → authenticate crypto decode secret split ≡ ok claims
      → IsSigned secret token claims
  unfolding authenticate
  authenticate-IsSigned secret token claims none e h = ground arith
  authenticate-IsSigned secret token claims (some (payload, signature)) e h = record {
    payload = payload;
    signature = signature;
    splits = e;
    signed = ground arith;
    decodes = ground arith;
  }

  module _ (token user_id task_id tool_name : String) (arguments : Arguments) (now : ℕ)
      (manager : ApprovalTokenManager) where
    -- An accepted token is signed with the secret of the manager and decodes to the claims; these
    -- are for the user, task, tool and arguments of the request and in date; the nonce was fresh,
    -- and is all that is added to the consumed ones.
    pub consume-accepts :
        (claims : ApprovalClaims) (after : ApprovalTokenManager)
        → consume crypto decode token user_id task_id tool_name arguments now manager
          ≡ (ok claims, after)
        → IsSigned manager.secret token claims
          × IsInScope user_id task_id tool_name arguments now claims
          × (contains manager.consumed claims.nonce ≡ false)
          × (after ≡ record manager { consumed = claims.nonce ∷ manager.consumed })
    unfolding consume
    consume-accepts claims after h =
        let a : authenticate crypto decode manager.secret (rsplit b'.' token) ≡ ok claims =
          ground arith in
        (
          authenticate-IsSigned manager.secret token claims (rsplit b'.' token) refl a,
          ground arith,
          ground arith,
          ground arith,
        )

    pub consume-rejects :
        (e : Error) (after : ApprovalTokenManager)
        → consume crypto decode token user_id task_id tool_name arguments now manager
          ≡ (err e, after)
        → after ≡ manager
    unfolding consume
    consume-rejects e after h = ground arith

-- the claims of `issue`, signed, are authentic
authenticate-issue :
    (crypto : Crypto) (decode : String → Option ApprovalClaims) (manager : ApprovalTokenManager)
    (user_id task_id tool_name : String) (arguments : Arguments) (ttl now : ℕ) (nonce : String)
    → HasNoDot crypto
    → let claims = new_claims crypto user_id task_id tool_name arguments ttl now nonce in
      decode (encode claims) ≡ some claims
      → authenticate crypto decode manager.secret
          (rsplit b'.' (issue crypto manager user_id task_id tool_name arguments ttl now nonce))
        ≡ ok claims
unfolding issue authenticate
authenticate-issue crypto decode manager user_id task_id tool_name arguments ttl now nonce dotless
      decodes =
    let claims = new_claims crypto user_id task_id tool_name arguments ttl now nonce in
    let signature = crypto.hmac manager.secret (encode claims) in
    let splits : rsplit b'.' (encode claims <> ("." <> signature))
        ≡ some (encode claims, signature) =
      rw (cons-append, nil-append)
        (rsplit-append b'.' _ (encode claims) signature refl
          (dotless manager.secret (encode claims))) in
    rw splits (ground (arith, decodes))

-- If digests hold no dot and the parser reads the printed claims back, a token of `issue` is
-- accepted for the same request until it expires, if its nonce is fresh; the nonce is then
-- consumed, and the claims are those of the request.
pub consume-issue :
    (crypto : Crypto) (decode : String → Option ApprovalClaims) (manager : ApprovalTokenManager)
    (user_id task_id tool_name : String) (arguments : Arguments) (ttl now later : ℕ)
    (nonce : String)
    → HasNoDot crypto
    → let claims = new_claims crypto user_id task_id tool_name arguments ttl now nonce in
      decode (encode claims) ≡ some claims
      → contains manager.consumed nonce ≡ false
      → later ≤ now + ttl
      → consume crypto decode
          (issue crypto manager user_id task_id tool_name arguments ttl now nonce)
          user_id
          task_id
          tool_name
          arguments
          later
          manager
        ≡ (ok claims, record manager { consumed = nonce ∷ manager.consumed })
unfolding consume
consume-issue crypto decode manager user_id task_id tool_name arguments ttl now later nonce dotless
      decodes fresh in_time =
    rw
      (authenticate-issue crypto decode manager user_id task_id tool_name arguments ttl now nonce
        dotless decodes)
      (unfold new_claims in ground arith)
